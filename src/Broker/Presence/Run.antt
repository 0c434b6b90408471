-- ===== src/Broker/Presence/Run.antt =====
-- internal/signalbroker/presence.go and broker.go: what the watchers are told over the steps of a
-- broker.
use simbeam.Prelude.{
  ℕ, subst, ◌≡◌, refl, sym, Bool, true, false, Option, none, some, ◌⊎◌, inl, inr, String, List, [],
  ◌∷◌, ◌++◌, ◌+◌, arith, if◌then◌else◌, lookup-insert, lookup-delete, str_eq, Bool-cases,
  append-nil, append_assoc,
}
use simbeam.Signal.Message.{MsgType, Msg}
use simbeam.Broker.Turn.{TurnFetcher}
use simbeam.Broker.State.{
  ClientConn, Role, opening, daemon, client, watcher, closed, Config, Broker, Env, Out, set_role,
}
use simbeam.Broker.Ice.{ice_servers}
use simbeam.Broker.Watch.{is_online, notify_presence, serve_watcher, watcher_left}
use simbeam.Broker.Daemons.{
  register_daemon, unregister_daemon, tell_peer_left, holds_slot, serve_daemon, daemon_message,
  daemon_left,
}
use simbeam.Broker.Clients.{
  is_busy, serve_client, client_message, client_left, client_proof, relay_to_daemon,
}
use simbeam.Broker.Serve.{
  Event, message, drop, first_message, on_message, on_drop, step, run, new_broker,
}
use simbeam.Broker.Writes.{
  IsPlain, serve_client-IsPlain, daemon_message-IsPlain, client_left-IsPlain,
}
use simbeam.Broker.Presence.{
  heard, heard-append, heard-IsPlain, watches, IsTruthful, heard-notify_presence,
  watches-remove_watcher, heard-serve_watcher,
}

-- A step tells each watcher the truth, or nothing where nothing changed.
abbrev Speaks : Broker → Broker × List Out → Type 0
Speaks b (b', out) =
    (c : ℕ) (id : String)
    → watches c id b'.watchers ≡ true
    → (heard c id out ≡ some (is_online b' id))
      ⊎ ((heard c id out ≡ none)
          × (is_online b' id ≡ is_online b id)
          × (watches c id b.watchers ≡ true))

-- Nobody is told anything by a step that leaves the registry and the watchers alone.
quiet-Speaks :
    (b b' : Broker) (out : List Out)
    → ((c : ℕ) (id : String) → heard c id out ≡ none)
    → b'.daemons ≡ b.daemons
    → b'.watchers ≡ b.watchers
    → Speaks b (b', out)
unfolding is_online
quiet-Speaks b b' out quiet same_daemons same_watchers c id h =
    inr (quiet c id, rw same_daemons refl, rw (sym same_watchers) h)

plain-Speaks :
    (b b' : Broker) (out : List Out)
    → IsPlain out
    → b'.daemons ≡ b.daemons
    → b'.watchers ≡ b.watchers
    → Speaks b (b', out)
plain-Speaks b b' out plain = quiet-Speaks b b' out (λ c id. heard-IsPlain c id out plain)

notified-Speaks :
    (b b' bn : Broker) (other : String) (online : Bool) (rest : List Out)
    → ((id : String) → is_online b' id ≡ (if str_eq other id then online else is_online b id))
    → b'.watchers ≡ b.watchers
    → bn.watchers ≡ b.watchers
    → IsPlain rest
    → Speaks b (b', notify_presence bn other online ++ rest)
notified-Speaks b b' bn other online rest changed same same_n plain c id h =
    let watched : watches c id b.watchers ≡ true = rw (sym same) h in
    let watched_n : watches c id bn.watchers ≡ true = rw same_n watched in
    ground (
      arith,
      heard-notify_presence bn c id other online watched_n,
      heard-append c id (notify_presence bn other online) rest,
      heard-IsPlain c id rest plain,
      changed id,
      watched,
    )

serve_daemon-Speaks : (b : Broker) (c : ℕ) (reg : Msg) → Speaks b (serve_daemon b c reg)
unfolding serve_daemon is_online
serve_daemon-Speaks b c reg = elim (Bool-cases (str_eq reg.daemon "")) [
  | inl missing ↦ rw missing (plain-Speaks b (set_role b c closed) _ refl refl refl)
  | inr named ↦ rw named (
      subst (λ out. Speaks b ((register_daemon b c reg), out)) (append-nil _)
        (notified-Speaks b (register_daemon b c reg) (register_daemon b c reg) reg.daemon true []
          (λ id. ground (arith, lookup-insert reg.daemon id c b.daemons)) refl refl refl))
]

tell_peer_left-IsPlain : (o : Option ClientConn) → IsPlain (tell_peer_left o)
tell_peer_left-IsPlain none = refl
tell_peer_left-IsPlain (some cl) = refl

daemon_left-Speaks : (b : Broker) (c : ℕ) → Speaks b (daemon_left b c)
unfolding daemon_left is_online
daemon_left-Speaks b c =
    let plain = tell_peer_left-IsPlain (b.objects c).client in
    elim (Bool-cases (holds_slot b c)) [
      | inl holds ↦ rw holds (
          notified-Speaks b (set_role (unregister_daemon b c) c closed) (unregister_daemon b c)
            (b.objects c).id false (tell_peer_left (b.objects c).client)
            (λ id. ground (arith, lookup-delete (b.objects c).id id b.daemons)) refl refl plain)
      | inr stale ↦ rw stale (plain-Speaks b (set_role b c closed) _ plain refl refl)
    ]

serve_watcher-Speaks : (b : Broker) (c : ℕ) (m : Msg) → Speaks b (serve_watcher b c m)
unfolding serve_watcher is_online
serve_watcher-Speaks b c m w id h = ground (arith, h, heard-serve_watcher b w c id m)

watcher_left-Speaks : (b : Broker) (c : ℕ) → Speaks b (watcher_left b c)
unfolding watcher_left is_online heard
watcher_left-Speaks b c w id h = inr (refl, refl, watches-remove_watcher w c id b.watchers h)

serve_client-Speaks :
    (cfg : Config) (env : Env) (b : Broker) (c : ℕ) (m : Msg)
    → Speaks b (serve_client cfg env b c m)
unfolding serve_client is_busy
serve_client-Speaks cfg env b c m =
    plain-Speaks b _ _ (serve_client-IsPlain c m cfg env b) (ground arith) (ground arith)

ice_servers-quiet :
    (cfg : Config) (env : Env) (b : Broker) (key : String)
    → ((ice_servers cfg env b key).0.daemons ≡ b.daemons)
      × ((ice_servers cfg env b key).0.watchers ≡ b.watchers)
unfolding ice_servers
ice_servers-quiet cfg env b key = ground arith

client_left-Speaks : (b : Broker) (c d : ℕ) → Speaks b (client_left b c d)
unfolding client_left
client_left-Speaks b c d =
    plain-Speaks b _ _ (client_left-IsPlain b c d) (ground arith) (ground arith)

client_message-quiet :
    (cfg : Config) (env : Env) (b : Broker) (cl : ClientConn) (c d : ℕ) (m : Msg)
    → ((client_message cfg env b cl c d m).0.daemons ≡ b.daemons)
      × ((client_message cfg env b cl c d m).0.watchers ≡ b.watchers)
unfolding client_message relay_to_daemon client_proof client_left
client_message-quiet cfg env b cl c d m = ground (
  arith,
  ice_servers-quiet cfg env (record b { n = record b.n { proofs_ok = b.n.proofs_ok + 1 } })
      cl.pub_key,
)

-- What a client makes the broker write is no presence.
client_message-heard :
    (cfg : Config) (env : Env) (b : Broker) (cl : ClientConn) (c d : ℕ) (m : Msg) (w : ℕ)
    (id : String)
    → heard w id (client_message cfg env b cl c d m).1 ≡ none
unfolding client_message relay_to_daemon client_proof client_left heard
client_message-heard cfg env b cl c d m w id = ground arith

first_message-Speaks :
    (cfg : Config) (env : Env) (b : Broker) (c : ℕ) (m : Msg) (t : MsgType)
    → Speaks b (first_message cfg env b c m t)
unfolding first_message
first_message-Speaks cfg env b c m MsgType.register = serve_daemon-Speaks b c m
first_message-Speaks cfg env b c m MsgType.join = serve_client-Speaks cfg env b c m
first_message-Speaks cfg env b c m MsgType.watch = serve_watcher-Speaks b c m
first_message-Speaks cfg env b c m _ = plain-Speaks b (set_role b c closed) _ refl refl refl

on_message-Speaks :
    (cfg : Config) (env : Env) (b : Broker) (c : ℕ) (m : Msg) (r : Role)
    → Speaks b (on_message cfg env b c m r)
unfolding on_message daemon_message
on_message-Speaks cfg env b c m opening = first_message-Speaks cfg env b c m m.type
on_message-Speaks cfg env b c m daemon =
    plain-Speaks b _ _ (daemon_message-IsPlain b c m) (ground arith) (ground arith)
on_message-Speaks cfg env b c m (client cl d) =
    let quiet = client_message-quiet cfg env b cl c d m in
    quiet-Speaks b _ _ (client_message-heard cfg env b cl c d m) quiet.0 quiet.1
on_message-Speaks cfg env b c m watcher = plain-Speaks b b [] refl refl refl
on_message-Speaks cfg env b c m closed = plain-Speaks b b [] refl refl refl

on_drop-Speaks : (b : Broker) (c : ℕ) (r : Role) → Speaks b (on_drop b c r)
unfolding on_drop
on_drop-Speaks b c opening = plain-Speaks b (set_role b c closed) [] refl refl refl
on_drop-Speaks b c daemon = daemon_left-Speaks b c
on_drop-Speaks b c (client cl d) = client_left-Speaks b c d
on_drop-Speaks b c watcher = watcher_left-Speaks b c
on_drop-Speaks b c closed = plain-Speaks b b [] refl refl refl

step-Speaks : (cfg : Config) (b : Broker) (e : Event) → Speaks b (step cfg b e)
unfolding step
step-Speaks cfg b (message env c m) = on_message-Speaks cfg env b c m (b.roles c)
step-Speaks cfg b (drop c) = on_drop-Speaks b c (b.roles c)

step-IsTruthful :
    (cfg : Config) (b : Broker) (e : Event) (before : List Out)
    → IsTruthful b before
    → IsTruthful (step cfg b e).0 (before ++ (step cfg b e).1)
step-IsTruthful cfg b e before truthful c id h =
    ground
      (arith, heard-append c id before (step cfg b e).1, step-Speaks cfg b e c id h, truthful c id)

steps-IsTruthful :
    (cfg : Config) (b : Broker) (es : List Event) (before : List Out)
    → IsTruthful b before
    → IsTruthful (run cfg b es).0 (before ++ (run cfg b es).1)
unfolding run
steps-IsTruthful cfg b [] before truthful = rw (append-nil before) truthful
steps-IsTruthful cfg b (e ∷ es) before truthful =
    subst (λ out. IsTruthful (run cfg (step cfg b e).0 es).0 out)
      (append_assoc before (step cfg b e).1 (run cfg (step cfg b e).0 es).1)
      (steps-IsTruthful cfg (step cfg b e).0 es (before ++ (step cfg b e).1)
        (step-IsTruthful cfg b e before truthful))

-- From a fresh broker, after any sequence of messages and lost websockets, each handled as one step: for
-- each websocket that still watches and each daemon that it watches, the last presence that was written
-- to it about the daemon says whether the daemon is registered now, and there is one.
pub run-IsTruthful :
    (cfg : Config) (turn : Option TurnFetcher) (es : List Event)
    → IsTruthful (run cfg (new_broker turn) es).0 (run cfg (new_broker turn) es).1
run-IsTruthful cfg turn es =
    steps-IsTruthful cfg (new_broker turn) es [] (λ c id h. absurd (ground (arith, h)))
