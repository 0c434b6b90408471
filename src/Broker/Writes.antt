-- ===== src/Broker/Writes.antt =====
-- internal/signalbroker/broker.go: which handlers write neither ICE servers nor presence.
use simbeam.Prelude.{
  ℕ, ◌≡◌, refl, ◌∙◌, Bool, true, false, ◌||◌, Option, none, some, inl, inr, String, List, arith,
  lookup, str_eq, Bool-cases, Option-cases, any, any-append,
}
use simbeam.Signal.Message.{MsgType, Msg}
use simbeam.Signal.Crypto.{new_nonce}
use simbeam.Broker.State.{ClientConn, Config, Broker, Env, Out, sends, closes}
use simbeam.Broker.Clients.{
  is_busy, evict, take_slot, with_nonce, join_daemon, serve_client, client_left,
}
use simbeam.Broker.Daemons.{daemon_message, relay_to_client}

abbrev is_special : MsgType → Bool
is_special MsgType.ice_servers = true
is_special MsgType.presence = true
is_special _ = false

abbrev writes_special : Out → Bool
writes_special (sends w m) = is_special m.type
writes_special (closes w) = false

-- Only the plain messages.
abbrev pub IsPlain : List Out → Type 0
IsPlain out = any writes_special out ≡ false

pub client_left-IsPlain : (b : Broker) (c d : ℕ) → IsPlain (client_left b c d).1
unfolding client_left
client_left-IsPlain b c d = ground arith

relay_to_client-IsPlain :
    (cl : ClientConn) (m : Msg) (t : MsgType) → m.type ≡ t → IsPlain (relay_to_client cl m t)
unfolding relay_to_client
relay_to_client-IsPlain cl m t e = ground arith

pub daemon_message-IsPlain : (b : Broker) (c : ℕ) (m : Msg) → IsPlain (daemon_message b c m).1
unfolding daemon_message
daemon_message-IsPlain b c m = elim (Option-cases (b.objects c).client) [
  | inl empty ↦ rw (daemon_message, empty) refl
  | inr (cl, held) ↦ rw (daemon_message, held) (relay_to_client-IsPlain cl m m.type refl)
]

evict-IsPlain : (o : Option ClientConn) (m : Msg) → IsPlain (evict o m)
evict-IsPlain o m = ground arith

module _ (c : ℕ) (m : Msg) where
  take_slot-IsPlain :
      (b : Broker) (d : ℕ) (b_nonce : String) → IsPlain (take_slot b c m d b_nonce).1
  take_slot-IsPlain b d b_nonce = elim (Bool-cases (is_busy (b.objects d).client m)) [
    | inl busy ↦ rw busy refl
    | inr idle ↦ rw idle (
        any-append writes_special (evict (b.objects d).client m) _
        ∙ rw (evict-IsPlain (b.objects d).client m) refl)
  ]

  with_nonce-IsPlain : (b : Broker) (d : ℕ) (o : Option String) → IsPlain (with_nonce b c m d o).1
  with_nonce-IsPlain b d none = refl
  with_nonce-IsPlain b d (some b_nonce) = take_slot-IsPlain b d b_nonce

  join_daemon-IsPlain :
      (cfg : Config) (env : Env) (b : Broker) (o : Option ℕ)
      → IsPlain (join_daemon cfg env b c m o).1
  join_daemon-IsPlain cfg env b none = refl
  join_daemon-IsPlain cfg env b (some d) = with_nonce-IsPlain b d (new_nonce cfg.crypto env.nonce)

  pub serve_client-IsPlain :
      (cfg : Config) (env : Env) (b : Broker) → IsPlain (serve_client cfg env b c m).1
  unfolding serve_client
  serve_client-IsPlain cfg env b = elim (Bool-cases (str_eq m.daemon "" || str_eq m.pub_key "")) [
    | inl bad ↦ rw bad refl
    | inr good ↦ rw good (join_daemon-IsPlain cfg env _ (lookup m.daemon b.daemons))
  ]
