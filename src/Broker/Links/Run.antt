-- ===== src/Broker/Links/Run.antt =====
-- internal/signalbroker/broker.go: the registry, the sessions and the goroutines over the steps of
-- a broker.
use simbeam.Prelude.{
  ℕ, ◌+◌, subst, ◌≡◌, refl, ap, false, ◌||◌, Option, none, some, inl, inr, String, List, [], ◌∷◌,
  arith, lookup, str_eq, Bool-cases, codes,
}
use simbeam.Signal.Message.{MsgType, Msg}
use simbeam.Signal.Crypto.{new_nonce, verify}
use simbeam.Broker.Turn.{TurnFetcher}
use simbeam.Broker.State.{
  ClientConn, Role, opening, daemon, client, watcher, closed, Config, Broker, Env, Counters,
  set_role, is_current,
}
use simbeam.Broker.Watch.{serve_watcher, watcher_left}
use simbeam.Broker.Daemons.{daemon_message}
use simbeam.Broker.Clients.{
  with_nonce, join_daemon, serve_client, client_message, client_left, client_proof, relay_to_daemon,
}
use simbeam.Broker.Serve.{
  Event, message, drop, first_message, on_message, on_drop, step, run, new_broker,
}
use simbeam.Broker.Links.{
  Linked, IsFree, opening-IsFree, set_role-Linked, leave-Linked, register-Linked,
  daemon_left-Linked, frame-Linked, ice_servers-Linked, refused-Linked, take_slot-Linked,
}

with_nonce-Linked :
    (b : Broker) (n : Counters) (c : ℕ) (join : Msg) (d : ℕ) (o : Option String)
    → Linked b
    → IsFree b c
    → Linked (with_nonce (record b { n = n }) c join d o).0
with_nonce-Linked b n c join d none v free = refused-Linked b n c v free
with_nonce-Linked b n c join d (some b_nonce) v free = take_slot-Linked b n c join d b_nonce v free

join_daemon-Linked :
    (cfg : Config) (env : Env) (b : Broker) (n : Counters) (c : ℕ) (join : Msg) (o : Option ℕ)
    → Linked b
    → IsFree b c
    → Linked (join_daemon cfg env (record b { n = n }) c join o).0
join_daemon-Linked cfg env b n c join none v free = refused-Linked b _ c v free
join_daemon-Linked cfg env b n c join (some d) v free =
    with_nonce-Linked b n c join d (new_nonce cfg.crypto env.nonce) v free

serve_client-Linked :
    (cfg : Config) (env : Env) (b : Broker) (c : ℕ) (join : Msg)
    → Linked b
    → b.roles c ≡ opening
    → Linked (serve_client cfg env b c join).0
unfolding serve_client
serve_client-Linked cfg env b c join v h =
    let free = opening-IsFree b c v h in
    elim (Bool-cases (str_eq join.daemon "" || str_eq join.pub_key "")) [
      | inl bad ↦ rw bad (set_role-Linked b c closed v free)
      | inr good ↦
          rw good (join_daemon-Linked cfg env b _ c join (lookup join.daemon b.daemons) v free)
    ]

client_proof-Linked :
    (cfg : Config) (env : Env) (b : Broker) (cl : ClientConn) (c d : ℕ) (m : Msg)
    → Linked b
    → b.roles c ≡ client cl d
    → Linked (client_proof cfg env b cl c d m).0
unfolding client_proof
client_proof-Linked cfg env b cl c d m v h =
    elim (Bool-cases (verify cfg.crypto cl.pub_key (codes cl.b_nonce) m.broker_sig)) [
      | inl ok ↦ rw ok (
          ice_servers-Linked cfg env (record b { n = record b.n { proofs_ok = b.n.proofs_ok + 1 } })
            cl.pub_key (record { slots = v.slots; clients = v.clients }))
      | inr bad ↦ rw bad (
          leave-Linked (record b { n = record b.n { proofs_bad = b.n.proofs_bad + 1 } }) c d cl
            (record { slots = v.slots; clients = v.clients }) h)
    ]

relay_to_daemon-Linked :
    (cfg : Config) (env : Env) (b : Broker) (cl : ClientConn) (c d : ℕ) (m : Msg) (t : MsgType)
    → Linked b
    → b.roles c ≡ client cl d
    → Linked (relay_to_daemon cfg env b cl c d m t).0
unfolding relay_to_daemon
relay_to_daemon-Linked cfg env b cl c d m MsgType.proof v h =
    client_proof-Linked cfg env b cl c d m v h
relay_to_daemon-Linked cfg env b cl c d m _ v h = v

displaced_left :
    (b : Broker) (c d : ℕ)
    → is_current (b.objects d).client c ≡ false
    → client_left b c d ≡ (set_role b c closed, [])
unfolding client_left
displaced_left b c d h = rw h refl

client_message-Linked :
    (cfg : Config) (env : Env) (b : Broker) (cl : ClientConn) (c d : ℕ) (m : Msg)
    → Linked b
    → b.roles c ≡ client cl d
    → Linked (client_message cfg env b cl c d m).0
unfolding client_message
client_message-Linked cfg env b cl c d m v h =
    elim (Bool-cases (is_current (b.objects d).client c)) [
      | inl current ↦ rw current (relay_to_daemon-Linked cfg env b cl c d m m.type v h)
      | inr displaced ↦
          rw displaced
            (subst (λ x. Linked x.0) (displaced_left b c d displaced) (leave-Linked b c d cl v h))
    ]

first_message-Linked :
    (cfg : Config) (env : Env) (b : Broker) (c : ℕ) (m : Msg) (t : MsgType)
    → Linked b
    → b.roles c ≡ opening
    → Linked (first_message cfg env b c m t).0
unfolding first_message serve_watcher
first_message-Linked cfg env b c m MsgType.register v h = register-Linked b c m v h
first_message-Linked cfg env b c m MsgType.join v h = serve_client-Linked cfg env b c m v h
first_message-Linked cfg env b c m MsgType.watch v h =
    let free = opening-IsFree b c v h in
    frame-Linked (set_role b c watcher) _ refl refl refl (set_role-Linked b c watcher v free)
first_message-Linked cfg env b c m _ v h = set_role-Linked b c closed v (opening-IsFree b c v h)

on_message-Linked :
    (cfg : Config) (env : Env) (b : Broker) (c : ℕ) (m : Msg) (r : Role)
    → Linked b
    → b.roles c ≡ r
    → Linked (on_message cfg env b c m r).0
unfolding on_message daemon_message
on_message-Linked cfg env b c m opening v h = first_message-Linked cfg env b c m m.type v h
on_message-Linked cfg env b c m daemon v h = ground (arith, v)
on_message-Linked cfg env b c m (client cl d) v h = client_message-Linked cfg env b cl c d m v h
on_message-Linked cfg env b c m watcher v h = v
on_message-Linked cfg env b c m closed v h = v

on_drop-Linked :
    (b : Broker) (c : ℕ) (r : Role) → Linked b → b.roles c ≡ r → Linked (on_drop b c r).0
unfolding on_drop watcher_left
on_drop-Linked b c opening v h = set_role-Linked b c closed v (opening-IsFree b c v h)
on_drop-Linked b c daemon v h = daemon_left-Linked b c v h
on_drop-Linked b c (client cl d) v h = leave-Linked b c d cl v h
on_drop-Linked b c watcher v h = frame-Linked (set_role b c closed) _ refl refl refl (
    set_role-Linked b c closed v (record {
      no_slot = λ id e. cc (h, (v.slots id c e).0);
      no_session = λ d cl e same. cc (h, v.clients d cl e, ap b.roles same);
    }))
on_drop-Linked b c closed v h = v

step-Linked : (cfg : Config) (b : Broker) (e : Event) → Linked b → Linked (step cfg b e).0
unfolding step
step-Linked cfg b (message env c m) v = on_message-Linked cfg env b c m (b.roles c) v refl
step-Linked cfg b (drop c) v = on_drop-Linked b c (b.roles c) v refl

-- Everywhere in a run.
steps-Linked : (cfg : Config) (b : Broker) (es : List Event) → Linked b → Linked (run cfg b es).0
unfolding run
steps-Linked cfg b [] v = v
steps-Linked cfg b (e ∷ es) v = steps-Linked cfg (step cfg b e).0 es (step-Linked cfg b e v)

new_broker-Linked : (turn : Option TurnFetcher) → Linked (new_broker turn)
unfolding lookup
new_broker-Linked turn = record {
  slots = λ id c e. absurd (ground (arith, e));
  clients = λ d cl e. absurd (ground (arith, e));
}

-- From a fresh broker, after any sequence of messages and lost websockets, with any answers of the
-- store, the clock, the random source and Cloudflare: each entry of the registry names a websocket in
-- the daemon loop that registered that very id, and each session is held by a websocket in the client
-- loop of that very daemon.
pub run-Linked :
    (cfg : Config) (turn : Option TurnFetcher) (es : List Event)
    → Linked (run cfg (new_broker turn) es).0
run-Linked cfg turn es = steps-Linked cfg (new_broker turn) es (new_broker-Linked turn)
