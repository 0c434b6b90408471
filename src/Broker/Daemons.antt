-- ===== src/Broker/Daemons.antt =====
-- internal/signalbroker/broker.go, `serveDaemon`.
use simbeam.Prelude.{
  ℕ, Bool, true, false, Option, none, some, String, List, [], ◌∷◌, ◌++◌, ◌==◌, str_eq,
  if◌then◌else◌, lookup, insert, delete,
}
use simbeam.Signal.Message.{MsgType, Msg, msg_of, error_msg}
use simbeam.Broker.State.{ClientConn, daemon, closed, Broker, Out, sends, update, set_role}
use simbeam.Broker.Watch.{notify_presence}

-- A re-register overwrites the stale slot.
abbrev pub register_daemon : Broker → ℕ → Msg → Broker
register_daemon b c reg =
    set_role
      (record b {
        daemons = insert reg.daemon c b.daemons;
        objects =
            update b.objects c
              (record { conn = c; id = reg.daemon; trickle = reg.trickle; client = none });
      })
      c daemon

unfoldable pub serve_daemon : Broker → ℕ → Msg → Broker × List Out
unfolding notify_presence
serve_daemon b c reg =
    if str_eq reg.daemon ""
    then (set_role b c closed, sends c (error_msg "" "register missing daemon id") ∷ [])
    else (register_daemon b c reg, notify_presence (register_daemon b c reg) reg.daemon true)

-- One message of the daemon, for the client that is in flight.
unfoldable pub relay_to_client : ClientConn → Msg → MsgType → List Out
relay_to_client cl m MsgType.challenge =
    sends cl.conn (record (msg_of MsgType.challenge) { nonce = m.nonce; broker_nonce = cl.b_nonce })
    ∷ []
relay_to_client cl m MsgType.answer = sends cl.conn m ∷ []
relay_to_client cl m MsgType.candidate = sends cl.conn m ∷ []
relay_to_client cl m MsgType.error = sends cl.conn m ∷ []
relay_to_client cl m MsgType.peer_left = sends cl.conn m ∷ []
relay_to_client cl m _ = []

unfoldable pub daemon_message : Broker → ℕ → Msg → Broker × List Out
unfolding relay_to_client
daemon_message b c m = elim (b.objects c).client [
  | none ↦ (b, [])
  | some cl ↦ (b, relay_to_client cl m m.type)
]

-- `b.daemons[id] == d`
abbrev pub holds_slot : Broker → ℕ → Bool
holds_slot b c = elim (lookup (b.objects c).id b.daemons) [ none ↦ false | some d ↦ d == c ]

abbrev pub tell_peer_left : Option ClientConn → List Out
tell_peer_left none = []
tell_peer_left (some cl) = sends cl.conn (msg_of MsgType.peer_left) ∷ []

abbrev pub unregister_daemon : Broker → ℕ → Broker
unregister_daemon b c = record b { daemons = delete (b.objects c).id b.daemons }

-- The deferred part gives up the lock after the registry: its first half, with `removed`.
unfoldable pub remove_daemon : Broker → ℕ → Broker × Bool
remove_daemon b c = if holds_slot b c then (unregister_daemon b c, true) else (b, false)

-- And its second half.
unfoldable pub tell_left : Broker → ℕ → (id : String) → (removed : Bool) → Broker × List Out
unfolding notify_presence
tell_left b c id removed = (
  set_role b c closed,
  (if removed then notify_presence b id false else []) ++ tell_peer_left (b.objects c).client,
)

-- The deferred part whole: presence belongs to whoever holds the slot.
unfoldable pub daemon_left : Broker → ℕ → Broker × List Out
unfolding notify_presence
daemon_left b c =
    if holds_slot b c
    then (
      set_role (unregister_daemon b c) c closed,
      notify_presence (unregister_daemon b c) (b.objects c).id false
          ++ tell_peer_left (b.objects c).client,
    )
    else (set_role b c closed, tell_peer_left (b.objects c).client)
