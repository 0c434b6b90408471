-- ===== src/Server/Session/Run.antt =====
-- internal/server/rtcdispatch.go and attach.go: a session as a sequence of steps. The two channels, the
-- goroutines of the attaches and those of the feeds take turns.
use simbeam.Prelude.{
  ℕ, Bool, true, false, Option, none, some, ◌⊎◌, List, [], ◌∷◌, ◌++◌, ◌==◌, if◌then◌else◌,
}
use simbeam.Server.Session.{Prose, AttachError, Feed, Attachment, Attempt, Dispatch, Effect}
use simbeam.Server.Session.Attach.{attach_as, pump_end, stop_attachment}
use simbeam.Server.Session.Lifecycle.{Answers, ControlMsg, handle}
use simbeam.Server.Session.Requests.{BulkAnswers, BulkMsg, handle_bulk}

abbrev pub new_dispatch : Dispatch
new_dispatch = record {
  att = none;
  gen = 0;
  pending = "";
  bulk_lifecycle = false;
  attempts = [];
  pumps = [];
  base_done = false;
}

-- `returned gen` is the return of the backend in the attempt that claimed `gen`; `ended id` the end of
-- the loop of a pump; `torn_down` the end of the session.
pub data Event : Type 0 where
  on_control : Answers → Option ControlMsg → Event
  on_bulk : BulkAnswers → Option BulkMsg → Event
  returned : (gen : ℕ) → (expired : Bool) → AttachError ⊎ Feed → Event
  ended : (id : ℕ) → Option Prose → Event
  torn_down : Event

unfoldable pub find_attempt : ℕ → List Attempt → Option Attempt
find_attempt gen [] = none
find_attempt gen (a ∷ others) =
    let rest = find_attempt gen others in if a.gen == gen then some a else rest

unfoldable pub drop_attempt : ℕ → List Attempt → List Attempt
drop_attempt gen [] = []
drop_attempt gen (a ∷ others) =
    let rest = drop_attempt gen others in if a.gen == gen then others else a ∷ rest

unfoldable pub find_pump : ℕ → List Attachment → Option Attachment
find_pump id [] = none
find_pump id (p ∷ ps) = let rest = find_pump id ps in if p.feed.id == id then some p else rest

unfoldable pub drop_pump : ℕ → List Attachment → List Attachment
drop_pump id [] = []
drop_pump id (p ∷ ps) = let rest = drop_pump id ps in if p.feed.id == id then ps else p ∷ rest

abbrev pub resume :
    Dispatch → ℕ → Bool → AttachError ⊎ Feed → Option Attempt → Dispatch × List Effect
resume d gen expired r none = (d, [])
resume d gen expired r (some a) =
    attach_as (record d { attempts = drop_attempt gen d.attempts }) a expired r

abbrev pub finish : Dispatch → ℕ → Option Prose → Option Attachment → Dispatch × List Effect
finish d id reason none = (d, [])
finish d id reason (some p) = pump_end (record d { pumps = drop_pump id d.pumps }) p reason

unfoldable pub step : Dispatch → Event → Dispatch × List Effect
step d (on_control env m) = handle env d m
step d (on_bulk env m) = handle_bulk env d m
step d (returned gen expired r) = resume d gen expired r (find_attempt gen d.attempts)
step d (ended id reason) = finish d id reason (find_pump id d.pumps)
step d torn_down =
    let (next, prev, out) = stop_attachment d in (record next { base_done = true }, out)

unfoldable pub run : Dispatch → List Event → Dispatch × List Effect
run d [] = (d, [])
run d (e ∷ es) =
    let (next, out) = step d e in let (last, later) = run next es in (last, out ++ later)
