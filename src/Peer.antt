-- ===== src/Peer.antt =====
-- internal/rtc/peer.go: the candidates that the other side trickles, before and after its offer. pion is
-- outside: a candidate that is handed to it is an output.
pub mod Order
pub mod Channels
use simbeam.Prelude.{ℕ, Bool, true, false, String, List, [], ◌∷◌, ◌++◌, length, ltb, if◌then◌else◌}

abbrev pub max_pending_cands : ℕ
max_pending_cands = 64

pub record Session : Type 0 where
  pub remote_set : Bool
  pub pending : List String

abbrev pub new_session : Session
new_session = record { remote_set = false; pending = [] }

-- The candidates that go to pion.
unfoldable pub add_candidate : Session → String → Session × List String
add_candidate s c =
    if s.remote_set
    then (s, c ∷ [])
    else if ltb (length s.pending) max_pending_cands
    then (record s { pending = s.pending ++ c ∷ [] }, [])
    else (s, [])

-- `Answer` up to its buffered candidates; `applied` is whether pion took the offer.
unfoldable pub answer : Session → (applied : Bool) → Session × List String
answer s applied =
    if applied then (record { remote_set = true; pending = [] }, s.pending) else (s, [])

pub data Event : Type 0 where
  adds : String → Event
  answers : (applied : Bool) → Event

unfoldable pub step : Session → Event → Session × List String
unfolding add_candidate answer
step s (adds c) = add_candidate s c
step s (answers applied) = answer s applied

unfoldable pub run : Session → List Event → Session × List String
run s [] = (s, [])
run s (e ∷ es) =
    let (next, out) = step s e in let (last, later) = run next es in (last, out ++ later)
