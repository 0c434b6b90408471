-- ===== src/Broker/Watch.antt =====
-- internal/signalbroker/presence.go: who is told that a daemon comes and goes. The deadlines and the
-- pings only decide when a dead websocket is dropped, and are left to the event of dropping it.
use simbeam.Prelude.{
  ℕ, Bool, false, ◌||◌, String, List, [], ◌∷◌, ◌==◌, str_eq, if◌then◌else◌, lookup, is_some, map,
}
use simbeam.Signal.Message.{MsgType, Msg, msg_of}
use simbeam.Broker.State.{Watcher, watcher, closed, Broker, Out, sends, set_role}

-- `w.ids[id]`
unfoldable pub tracks : String → List String → Bool
tracks id [] = false
tracks id (i ∷ ids) = str_eq i id || tracks id ids

abbrev pub presence_msg : List (String × Bool) → Msg
presence_msg states = record (msg_of MsgType.presence) { states = states }

unfoldable pub is_online : Broker → String → Bool
is_online b id = is_some (lookup id b.daemons)

unfoldable pub snapshot : Broker → List String → List (String × Bool)
unfolding is_online
snapshot b [] = []
snapshot b (id ∷ ids) = (id, is_online b id) ∷ snapshot b ids

-- The conns that `notifyPresence` collects.
unfoldable pub targets : String → List Watcher → List ℕ
unfolding tracks
targets id [] = []
targets id (w ∷ ws) = let rest = targets id ws in if tracks id w.ids then w.conn ∷ rest else rest

unfoldable pub notify_presence : Broker → String → Bool → List Out
unfolding targets
notify_presence b id online =
    map (λ c. sends c (presence_msg ((id, online) ∷ []))) (targets id b.watchers)

-- `serveWatcher` up to its read loop: registration and snapshot under one lock.
unfoldable pub serve_watcher : Broker → ℕ → Msg → Broker × List Out
unfolding snapshot
serve_watcher b c first = (
  set_role (record b { watchers = record { conn = c; ids = first.daemons } ∷ b.watchers }) c
      watcher,
  sends c (presence_msg (snapshot b first.daemons)) ∷ [],
)

unfoldable pub remove_watcher : ℕ → List Watcher → List Watcher
remove_watcher c [] = []
remove_watcher c (w ∷ ws) = let rest = remove_watcher c ws in if w.conn == c then rest else w ∷ rest

-- The deferred part.
unfoldable pub watcher_left : Broker → ℕ → Broker × List Out
unfolding remove_watcher
watcher_left b c = (set_role (record b { watchers = remove_watcher c b.watchers }) c closed, [])
