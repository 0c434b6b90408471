-- ===== src/Broker/Presence.antt =====
pub mod Run
pub mod Race
-- internal/signalbroker/presence.go and broker.go: what the watchers are told, and whether it is true.
use simbeam.Prelude.{
  ℕ, ◌≡◌, ◌≢◌, refl, ap, sym, ◌∙◌, Bool, true, false, ◌||◌, ◌&&◌, not, Option, none, some, ◌⊎◌, inl,
  inr, String, List, [], ◌∷◌, ◌++◌, ◌+◌, arith, ◌==◌, ==_iff, if◌then◌else◌, lookup, insert, delete,
  lookup-insert, lookup-delete, is_some, eq_iff, str_eq, Bool-cases, Option-cases, codes, any, All,
  map,
}
use simbeam.Signal.Message.{MsgType, Msg}
use simbeam.Broker.State.{Watcher, Out, sends, closes, Broker}
use simbeam.Broker.Watch.{
  tracks, presence_msg, is_online, snapshot, targets, notify_presence, serve_watcher,
  remove_watcher, watcher_left,
}
use simbeam.Broker.Writes.{IsPlain}

abbrev pub or_else : Option Bool → Option Bool → Option Bool
or_else none o = o
or_else (some x) o = some x

-- The last word on `id` in the entries of one message.
abbrev last_state : String → List (String × Bool) → Option Bool
last_state id [] = none
last_state id (s ∷ states) =
    or_else (last_state id states) (if str_eq s.0 id then some s.1 else none)

abbrev heard_in : ℕ → String → Out → Option Bool
heard_in c id (closes w) = none
heard_in c id (sends w m) = elim m.type [
  | MsgType.presence ↦ if w == c then last_state id m.states else none
  | _ ↦ none
]

-- The last word on `id` that the websocket `c` was sent.
unfoldable pub heard : ℕ → String → List Out → Option Bool
heard c id [] = none
heard c id (o ∷ out) = or_else (heard c id out) (heard_in c id o)

pub heard-append :
    (c : ℕ) (id : String) (out later : List Out)
    → heard c id (out ++ later) ≡ or_else (heard c id later) (heard c id out)
unfolding heard
heard-append c id [] later = ground arith
heard-append c id (o ∷ out) later = ground (arith, heard-append c id out later)

pub heard-IsPlain : (c : ℕ) (id : String) (out : List Out) → IsPlain out → heard c id out ≡ none
unfolding heard
heard-IsPlain c id [] plain = refl
heard-IsPlain c id (o ∷ out) plain =
    ground (arith, plain, heard-IsPlain c id out (ground (arith, plain)))

-- A snapshot tells the truth on each daemon that it lists.
heard-snapshot :
    (b : Broker) (id : String) (ids : List String)
    → last_state id (snapshot b ids) ≡ (if tracks id ids then some (is_online b id) else none)
unfolding snapshot tracks
heard-snapshot b id [] = refl
heard-snapshot b id (i ∷ ids) = ground (arith, heard-snapshot b id ids, eq_iff i id)

abbrev watches_id : ℕ → String → Watcher → Bool
watches_id c id w = w.conn == c && tracks id w.ids

-- The websocket watches the daemon.
abbrev pub watches : ℕ → String → List Watcher → Bool
watches c id ws = any (watches_id c id) ws

-- Every watcher was told the truth on each daemon that it watches, last.
abbrev pub IsTruthful : Broker → List Out → Type 0
IsTruthful b out =
    (c : ℕ) (id : String) → watches c id b.watchers ≡ true → heard c id out ≡ some (is_online b id)

targets-watches :
    (c : ℕ) (id : String) (ws : List Watcher)
    → watches c id ws ≡ true
    → any (λ t. t == c) (targets id ws) ≡ true
unfolding targets
targets-watches c id [] h = h
targets-watches c id (w ∷ ws) h = ground (arith, h, targets-watches c id ws)

heard-told :
    (c : ℕ) (id other : String) (online : Bool) (cs : List ℕ)
    → heard c id (map (λ t. sends t (presence_msg ((other, online) ∷ []))) cs)
      ≡ (if str_eq other id && any (λ t. t == c) cs then some online else none)
unfolding heard
heard-told c id other online [] = ground arith
heard-told c id other online (t ∷ cs) = ground (arith, heard-told c id other online cs)

-- The watchers of `other` hear of it, and nobody hears of another daemon.
pub heard-notify_presence :
    (b : Broker) (c : ℕ) (id other : String) (online : Bool)
    → watches c id b.watchers ≡ true
    → heard c id (notify_presence b other online) ≡ (if str_eq other id then some online else none)
unfolding notify_presence
heard-notify_presence b c id other online h = ground (
  arith,
  heard-told c id other online (targets other b.watchers),
  targets-watches c id b.watchers h,
  eq_iff other id,
)

pub watches-remove_watcher :
    (c gone : ℕ) (id : String) (ws : List Watcher)
    → watches c id (remove_watcher gone ws) ≡ true
    → watches c id ws ≡ true
unfolding remove_watcher
watches-remove_watcher c gone id [] h = h
watches-remove_watcher c gone id (w ∷ ws) h = ground (arith, h, watches-remove_watcher c gone id ws)

pub heard-serve_watcher :
    (b : Broker) (c w : ℕ) (id : String) (m : Msg)
    → heard c id (serve_watcher b w m).1
      ≡ (if (w == c) && tracks id m.daemons then some (is_online b id) else none)
unfolding heard serve_watcher
heard-serve_watcher b c w id m = ground (arith, heard-snapshot b id m.daemons)
