-- ===== src/Broker/Sessions.antt =====
-- internal/signalbroker/broker.go, `serveClient` and `serveDaemon`: who may speak in a session, and how
-- the session of a daemon changes hands.
use simbeam.Prelude.{
  ℕ, ◌≡◌, refl, true, false, ◌||◌, Option, none, some, ◌⊎◌, inl, inr, String, [], arith, ◌==◌,
  ==_iff, lookup, eq_iff, str_eq, Bool-cases, Option-cases,
}
use simbeam.Signal.Message.{MsgType, Msg}
use simbeam.Broker.State.{
  ClientConn, Role, opening, daemon, client, watcher, closed, Config, Broker, Env, Counters,
  set_role, is_current,
}
use simbeam.Broker.Clients.{
  is_busy, take_slot, with_nonce, join_daemon, serve_client, client_message, client_left,
  client_proof, relay_to_daemon,
}
use simbeam.Broker.Serve.{message, first_message, on_message, step}
use simbeam.Signal.Crypto.{new_nonce}
use simbeam.Broker.Watch.{serve_watcher}
use simbeam.Broker.Links.{Linked}
use simbeam.Broker.Daemons.{serve_daemon, daemon_message, daemon_left}
use simbeam.Broker.Ice.{ice_servers}

-- The session that a client's goroutine compares by its websocket is that client's own record.
pub current-client :
    (b : Broker) (c d : ℕ) (cl : ClientConn)
    → Linked b
    → b.roles c ≡ client cl d
    → is_current (b.objects d).client c ≡ true
    → (b.objects d).client ≡ some cl
current-client b c d cl v h e = elim (Option-cases (b.objects d).client) [
  | inl empty ↦ absurd (ground (arith, empty, e))
  | inr (x, held) ↦ ground (arith, v.clients d x held, held, e, h, ==_iff x.conn c)
]

-- In a broker where the registry, the sessions and the goroutines fit together: whatever a client sends,
-- either it holds the session of its daemon, or nothing is written to any websocket, no session and no
-- registration changes, and its goroutine ends.
pub step-current :
    (cfg : Config) (env : Env) (b : Broker) (c d : ℕ) (cl : ClientConn) (m : Msg)
    → Linked b
    → b.roles c ≡ client cl d
    → ((b.objects d).client ≡ some cl) ⊎ (step cfg b (message env c m) ≡ (set_role b c closed, []))
unfolding step on_message client_message client_left
step-current cfg env b c d cl m v h = elim (Bool-cases (is_current (b.objects d).client c)) [
  | inl current ↦ inl (current-client b c d cl v h current)
  | inr displaced ↦ inr (rw (h, displaced) refl)
]

-- The session of `d` is the one it was, or over.
pub data Keeps (b b' : Broker) (d : ℕ) : Type 0 where
  same : (b'.objects d).client ≡ (b.objects d).client → Keeps b b' d
  over : (b'.objects d).client ≡ none → Keeps b b' d

-- A join that puts its sender into the session: with its own key, and over another key only with a
-- confirmed takeover.
pub record Takes (b b' : Broker) (d c : ℕ) (m : Msg) : Type 0 where
  pub holder : ClientConn
  pub holds : (b'.objects d).client ≡ some holder
  pub sender : holder.conn ≡ c
  pub key : holder.pub_key ≡ m.pub_key
  pub waits : b.roles c ≡ opening
  pub joins : m.type ≡ MsgType.join
  pub reaches : lookup m.daemon b.daemons ≡ some d
  pub allowed :
      (old : ClientConn)
      → (b.objects d).client ≡ some old
      → (old.pub_key ≡ m.pub_key) ⊎ (m.takeover ≡ true)

client_left-Keeps : (b : Broker) (c d e : ℕ) → Keeps b (client_left b c d).0 e
unfolding client_left
client_left-Keeps b c d e = ground arith

daemon_left-Keeps : (b : Broker) (c e : ℕ) → Keeps b (daemon_left b c).0 e
unfolding daemon_left
daemon_left-Keeps b c e = ground arith

serve_daemon-Keeps : (b : Broker) (c : ℕ) (reg : Msg) (e : ℕ) → Keeps b (serve_daemon b c reg).0 e
unfolding serve_daemon
serve_daemon-Keeps b c reg e = ground arith

client_proof-Keeps :
    (cfg : Config) (env : Env) (b : Broker) (cl : ClientConn) (c d : ℕ) (m : Msg) (e : ℕ)
    → Keeps b (client_proof cfg env b cl c d m).0 e
unfolding client_proof ice_servers client_left
client_proof-Keeps cfg env b cl c d m e = ground arith

-- What became of the session of `d` when `c` joined.
abbrev Joined : Broker → Broker → ℕ → ℕ → Msg → Type 0
Joined b b' d c m = Keeps b b' d ⊎ Takes b b' d c m

is_busy-allows :
    (o : Option ClientConn) (m : Msg) (old : ClientConn)
    → is_busy o m ≡ false
    → o ≡ some old
    → (old.pub_key ≡ m.pub_key) ⊎ (m.takeover ≡ true)
unfolding is_busy
is_busy-allows o m old idle held = ground (arith, idle, held, eq_iff old.pub_key m.pub_key)

module _ (b : Broker) (n : Counters) (c : ℕ) (m : Msg) (d : ℕ) (waits : b.roles c ≡ opening)
    (joins : m.type ≡ MsgType.join) where
  take_slot-Joined :
      (e : ℕ) (b_nonce : String)
      → lookup m.daemon b.daemons ≡ some e
      → Joined b (take_slot (record b { n = n }) c m e b_nonce).0 d c m
  take_slot-Joined e b_nonce reaches = elim (Bool-cases (is_busy (b.objects e).client m)) [
    | inl busy ↦ rw busy (inl (Keeps.same refl))
    | inr idle ↦ rw idle (elim (Bool-cases (e == d)) [
      | inl this ↦ inr (record {
        holder = record { conn = c; pub_key = m.pub_key; b_nonce = b_nonce; trickle = m.trickle };
        holds = rw this refl;
        sender = refl;
        key = refl;
        waits = waits;
        joins = joins;
        reaches = ground (arith, reaches, this, ==_iff e d);
        allowed = λ old held.
            is_busy-allows (b.objects e).client m old idle (ground (arith, held, this, ==_iff e d));
      })
      | inr other ↦ inl (Keeps.same (rw other refl))
    ])
  ]

  with_nonce-Joined :
      (e : ℕ) (o : Option String)
      → lookup m.daemon b.daemons ≡ some e
      → Joined b (with_nonce (record b { n = n }) c m e o).0 d c m
  with_nonce-Joined e none reaches = inl (Keeps.same refl)
  with_nonce-Joined e (some b_nonce) reaches = take_slot-Joined e b_nonce reaches

  join_daemon-Joined :
      (cfg : Config) (env : Env) (o : Option ℕ)
      → lookup m.daemon b.daemons ≡ o
      → Joined b (join_daemon cfg env (record b { n = n }) c m o).0 d c m
  join_daemon-Joined cfg env none reaches = inl (Keeps.same refl)
  join_daemon-Joined cfg env (some e) reaches =
      with_nonce-Joined e (new_nonce cfg.crypto env.nonce) reaches

serve_client-Joined :
    (cfg : Config) (env : Env) (b : Broker) (c : ℕ) (m : Msg) (d : ℕ)
    → b.roles c ≡ opening
    → m.type ≡ MsgType.join
    → Joined b (serve_client cfg env b c m).0 d c m
unfolding serve_client
serve_client-Joined cfg env b c m d waits joins =
    elim (Bool-cases (str_eq m.daemon "" || str_eq m.pub_key "")) [
      | inl bad ↦ rw bad (inl (Keeps.same refl))
      | inr good ↦
          rw good
            (join_daemon-Joined b _ c m d waits joins cfg env (lookup m.daemon b.daemons) refl)
    ]

client_message-Keeps :
    (cfg : Config) (env : Env) (b : Broker) (cl : ClientConn) (c d : ℕ) (m : Msg) (e : ℕ)
    → Keeps b (client_message cfg env b cl c d m).0 e
unfolding client_message relay_to_daemon
client_message-Keeps cfg env b cl c d m e =
    ground (arith, client_left-Keeps b c d e, client_proof-Keeps cfg env b cl c d m e)

first_message-Joined :
    (cfg : Config) (env : Env) (b : Broker) (c : ℕ) (m : Msg) (d : ℕ) (t : MsgType)
    → b.roles c ≡ opening
    → m.type ≡ t
    → Joined b (first_message cfg env b c m t).0 d c m
unfolding first_message serve_watcher
first_message-Joined cfg env b c m d MsgType.register h e = inl (serve_daemon-Keeps b c m d)
first_message-Joined cfg env b c m d MsgType.join h e = serve_client-Joined cfg env b c m d h e
first_message-Joined cfg env b c m d _ h e = inl (Keeps.same refl)

on_message-Joined :
    (cfg : Config) (env : Env) (b : Broker) (c : ℕ) (m : Msg) (d : ℕ) (r : Role)
    → b.roles c ≡ r
    → Joined b (on_message cfg env b c m r).0 d c m
unfolding on_message daemon_message
on_message-Joined cfg env b c m d opening h = first_message-Joined cfg env b c m d m.type h refl
on_message-Joined cfg env b c m d daemon h = inl (ground arith)
on_message-Joined cfg env b c m d (client cl e) h = inl (client_message-Keeps cfg env b cl c e m d)
on_message-Joined cfg env b c m d watcher h = inl (Keeps.same refl)
on_message-Joined cfg env b c m d closed h = inl (Keeps.same refl)

-- Whatever message a websocket sends, the session of each daemon stays what it was, or ends, or the
-- message is the first of its websocket, a `join` for this very daemon, and the session is then held by
-- that websocket under the key of the join; in that case a client that held the session before had the
-- same key, or the join confirmed a takeover.
pub step-session :
    (cfg : Config) (env : Env) (b : Broker) (c : ℕ) (m : Msg) (d : ℕ)
    → Keeps b (step cfg b (message env c m)).0 d ⊎ Takes b (step cfg b (message env c m)).0 d c m
unfolding step
step-session cfg env b c m d = on_message-Joined cfg env b c m d (b.roles c) refl
