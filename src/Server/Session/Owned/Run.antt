-- ===== src/Server/Session/Owned/Run.antt =====
-- internal/server/attach.go and rtcdispatch.go: what is pending over the steps of a session.
use simbeam.Prelude.{
  ◌+◌, refl, true, false, Option, none, some, inl, inr, String, List, [], ◌∷◌, ==_iff, arith,
  str_eq, Option-cases, if-both,
}
use simbeam.Server.Session.{Attachment, Dispatch, Effect}
use simbeam.Server.Session.Quality.{QualityOpts, resolve}
use simbeam.Server.Session.Attach.{replace_feed, restart_attachment}
use simbeam.Server.Session.Lifecycle.{
  handle_parsed, or_gesture, Answers, ControlMsg, handle, parse_control,
}
use simbeam.Server.Session.Requests.{
  BulkAnswers, BulkMsg, rebuild, handle_bulk, serve_bulk, do_quality, or_unknown,
}
use simbeam.Server.Session.Run.{
  Event, on_control, on_bulk, returned, ended, torn_down, step, run, find_attempt, find_pump,
  drop_pump, new_dispatch,
}
use simbeam.Server.Session.Owned.{
  Owned, OwnedResult, OwnedOption, lifecycle-Owned, returned-Owned, pump_end-Owned, stop-Owned,
  idle-Owned,
}

or_gesture-Owned :
    (d : Dispatch) (m : ControlMsg) (o : Option (Dispatch × List Effect))
    → Owned d
    → OwnedOption o
    → Owned (or_gesture d m o).0
or_gesture-Owned d m none v w = v
or_gesture-Owned d m (some r) v w = w

handle_parsed-Owned :
    (env : Answers) (d : Dispatch) (o : Option ControlMsg)
    → Owned d
    → Owned (handle_parsed env d o).0
handle_parsed-Owned env d none v = v
handle_parsed-Owned env d (some m) v = or_gesture-Owned d m _ v (lifecycle-Owned env d m false v)

or_unknown-Owned :
    (d : Dispatch) (type : String) (o : Option (Dispatch × List Effect))
    → Owned d
    → OwnedOption o
    → Owned (or_unknown d type o).0
or_unknown-Owned d type none v w = v
or_unknown-Owned d type (some r) v w = w

rebuild-Owned :
    (env : BulkAnswers) (d : Dispatch) (q : QualityOpts) (o : Option Attachment)
    → Owned d
    → Owned (rebuild env d q (replace_feed d o)).0
unfolding find_attempt
rebuild-Owned env d q none v = v
rebuild-Owned env d q (some att) v = record {
  busy = λ a e. absurd (ground (arith, e));
  owner = λ h. (
    record {
      udid = att.udid;
      quality = resolve q env.default_scale;
      gen = d.gen + 1;
      route = d.bulk_lifecycle;
    },
    ground (arith, ==_iff (d.gen + 1) (d.gen + 1)),
    refl,
  );
}

do_quality-Owned :
    (env : BulkAnswers) (d : Dispatch) (q : QualityOpts) → Owned d → Owned (do_quality env d q).0
unfolding do_quality restart_attachment
do_quality-Owned env d q v = rebuild-Owned env d q d.att v

serve_bulk-Owned :
    (env : BulkAnswers) (d : Dispatch) (m : BulkMsg) → Owned d → Owned (serve_bulk env d m).0
unfolding serve_bulk
serve_bulk-Owned env d m v = if-both OwnedResult (str_eq m.type "list") _ _ v (
    if-both OwnedResult (str_eq m.type "screenshot") _ _ v (
      if-both OwnedResult (str_eq m.type "quality") _ _ (do_quality-Owned env d m.quality v)
        (or_unknown-Owned d m.type _ v (lifecycle-Owned env.control d _ true v))))

handle_bulk-Owned :
    (env : BulkAnswers) (d : Dispatch) (o : Option BulkMsg)
    → Owned d
    → Owned (handle_bulk env d o).0
unfolding handle_bulk
handle_bulk-Owned env d none v = v
handle_bulk-Owned env d (some m) v = serve_bulk-Owned env d m v

step-Owned : (d : Dispatch) (e : Event) → Owned d → Owned (step d e).0
unfolding step handle
step-Owned d (on_control env m) v = handle_parsed-Owned env d (parse_control m) v
step-Owned d (on_bulk env m) v = handle_bulk-Owned env d m v
step-Owned d (returned gen expired r) v = elim (Option-cases (find_attempt gen d.attempts)) [
  | inl gone ↦ rw gone v
  | inr (a, found) ↦ rw found (returned-Owned d gen a expired r v found)
]
step-Owned d (ended id reason) v = elim (Option-cases (find_pump id d.pumps)) [
  | inl gone ↦ rw gone v
  | inr (p, found) ↦ rw found (
      pump_end-Owned (record d { pumps = drop_pump id d.pumps }) p reason
        (record { busy = v.busy; owner = v.owner }))
]
step-Owned d torn_down v =
    let stopped = stop-Owned d in record { busy = stopped.busy; owner = stopped.owner }

steps-Owned : (d : Dispatch) (es : List Event) → Owned d → Owned (run d es).0
unfolding run
steps-Owned d [] v = v
steps-Owned d (e ∷ es) v = steps-Owned (step d e).0 es (step-Owned d e v)

-- After any sequence of steps of a new session: no feed is installed while an attach is pending, and if
-- one is pending, a goroutine with the newest generation is waiting for the backend for this very device.
pub run-Owned : (es : List Event) → Owned (run new_dispatch es).0
run-Owned es = steps-Owned new_dispatch es (idle-Owned new_dispatch refl)
