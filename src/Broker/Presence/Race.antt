-- ===== src/Broker/Presence/Race.antt =====
-- internal/signalbroker/broker.go and presence.go: `serveDaemon` gives up the lock between the registry
-- and the notice, so two daemons' halves may interleave.
use simbeam.Prelude.{
  ℕ, ◌≡◌, refl, ap, ◌∙◌, inl, inr, Bool, true, false, not, Option, none, some, String, List, ◌++◌,
  arith, lookup-insert, eq_refl, str_eq, Bool-cases, if◌then◌else◌,
}
use simbeam.Signal.Message.{Msg}
use simbeam.Broker.State.{ClientConn, Broker, Out}
use simbeam.Broker.Watch.{is_online, notify_presence}
use simbeam.Broker.Daemons.{
  serve_daemon, daemon_left, remove_daemon, tell_left, tell_peer_left, holds_slot,
}
use simbeam.Broker.Presence.{or_else, heard, heard-append, watches, heard-notify_presence}

-- The whole registration of a new websocket comes between the halves.
unfoldable pub overtaken : Broker → ℕ → ℕ → Msg → Broker × List Out
unfolding remove_daemon tell_left serve_daemon
overtaken b old c reg =
    let (rest, removed) = remove_daemon b old in
    let (next, told) = serve_daemon rest c reg in
    let (after, later) = tell_left next old (b.objects old).id removed in (after, told ++ later)

overtaken_parts :
    (b : Broker) (old c : ℕ) (reg : Msg) (id : String)
    → (b.objects old).id ≡ id
    → let (rest, removed) = remove_daemon b old in
      let next = (serve_daemon rest c reg).0 in
      overtaken b old c reg ≡ (
        (tell_left next old id removed).0,
        (serve_daemon rest c reg).1 ++ (tell_left next old id removed).1,
      )
unfolding overtaken remove_daemon tell_left serve_daemon
overtaken_parts b old c reg id was = rw was refl

-- The halves make up the whole.
halves-daemon_left :
    (b : Broker) (c : ℕ)
    → daemon_left b c ≡ tell_left (remove_daemon b c).0 c (b.objects c).id (remove_daemon b c).1
unfolding daemon_left remove_daemon tell_left
halves-daemon_left b c = elim (Bool-cases (holds_slot b c)) [
  | inl holds ↦ rw holds refl
  | inr lost ↦ rw lost refl
]

heard-tell_peer_left :
    (w : ℕ) (id : String) (o : Option ClientConn) → heard w id (tell_peer_left o) ≡ none
unfolding heard
heard-tell_peer_left w id none = refl
heard-tell_peer_left w id (some cl) = refl

heard-tell_left :
    (b : Broker) (old w : ℕ) (id : String) (removed : Bool)
    → watches w id b.watchers ≡ true
    → heard w id (tell_left b old id removed).1 ≡ (if removed then some false else none)
unfolding tell_left heard
heard-tell_left b old w id true watched = ground (
  arith,
  heard-append w id (notify_presence b id false) (tell_peer_left (b.objects old).client),
  heard-tell_peer_left w id (b.objects old).client,
  heard-notify_presence b w id id false watched,
  eq_refl id,
)
heard-tell_left b old w id false watched = heard-tell_peer_left w id (b.objects old).client

remove_daemon-watchers : (b : Broker) (old : ℕ) → (remove_daemon b old).0.watchers ≡ b.watchers
unfolding remove_daemon
remove_daemon-watchers b old = ground arith

-- A registration under the name is heard, and the watchers stay.
serve_daemon-heard :
    (b : Broker) (c : ℕ) (reg : Msg) (w : ℕ) (id : String)
    → reg.daemon ≡ id
    → str_eq id "" ≡ false
    → watches w id b.watchers ≡ true
    → (heard w id (serve_daemon b c reg).1 ≡ some true)
      × ((serve_daemon b c reg).0.watchers ≡ b.watchers)
      × (is_online (serve_daemon b c reg).0 id ≡ true)
unfolding serve_daemon is_online
serve_daemon-heard b c reg w id same named watched =
    let registers : str_eq reg.daemon "" ≡ false = rw same named in
    ground (
      arith,
      registers,
      same,
      eq_refl id,
      lookup-insert reg.daemon id c b.daemons,
      heard-notify_presence (serve_daemon b c reg).0 w id reg.daemon true,
    )

last_word :
    (b : Broker) (old : ℕ)
    → or_else (if (remove_daemon b old).1 then some false else none) (some true)
      ≡ some (not (holds_slot b old))
unfolding remove_daemon
last_word b old = ground arith

tell_left-is_online :
    (b : Broker) (old : ℕ) (name id : String) (removed : Bool)
    → is_online (tell_left b old name removed).0 id ≡ is_online b id
unfolding tell_left is_online
tell_left-is_online b old name id removed = refl

-- A daemon's old websocket leaves, and between the removal of its entry and the notice of it a new websocket
-- registers the same daemon. The daemon is registered afterwards, and a watcher of it is last told that it is
-- offline exactly if the old websocket still held the entry.
pub overtaken-is_online :
    (b : Broker) (old c : ℕ) (reg : Msg) (w : ℕ) (id : String)
    → (b.objects old).id ≡ id
    → reg.daemon ≡ id
    → str_eq id "" ≡ false
    → watches w id b.watchers ≡ true
    → (heard w id (overtaken b old c reg).1 ≡ some (not (holds_slot b old)))
      × (is_online (overtaken b old c reg).0 id ≡ true)
overtaken-is_online b old c reg w id was same named watched =
    let rest = (remove_daemon b old).0 in
    let removed = (remove_daemon b old).1 in
    let still : watches w id rest.watchers ≡ true = rw (remove_daemon-watchers b old) watched in
    let (told, kept, online) = serve_daemon-heard rest c reg w id same named still in
    let next = (serve_daemon rest c reg).0 in
    let parts = overtaken_parts b old c reg id was in
    (
      ap (λ r. heard w id r.1) parts
          ∙ heard-append w id (serve_daemon rest c reg).1 (tell_left next old id removed).1
          ∙ rw (heard-tell_left next old w id removed (rw kept still), told) (last_word b old),
      ap (λ r. is_online r.0 id) parts ∙ tell_left-is_online next old id id removed ∙ online,
    )
