-- ===== src/Server/Session/Released/Run.antt =====
-- internal/server/attach.go, rtcdispatch.go and bulk.go: how often a feed is
-- given and closed over a whole session.
use simbeam.Prelude.{
  ℕ, ◌≡◌, ◌+◌, refl, ap, ◌∙◌, subst, Bool, true, false, Option, none, some, ◌⊎◌, inl, inr, String,
  List, [], ◌∷◌, map, arith, str_eq, if-both,
}
use simbeam.Server.Session.{
  Prose, AttachError, Feed, Attachment, Attempt, Dispatch, Effect, Route, bulk_frame,
}
use simbeam.Server.Session.Quality.{QualityOpts}
use simbeam.Server.Session.Attach.{attach_as, replace_feed}
use simbeam.Server.Session.Lifecycle.{Answers, ControlMsg, remember}
use simbeam.Server.Session.Run.{find_attempt, drop_attempt}
use simbeam.Server.Session.Released.{closed, live, closed-append, closed-frames, Ordered, Kept}
use simbeam.Server.Bulk.{send_chunked}
use simbeam.Server.Session.Released.Handlers.{
  Harmless, Harmless-Kept, stop-Kept, do_boot-Kept, do_restart-Kept, do_shutdown-Kept,
  do_detach-Kept, do_attach-Kept,
}
use simbeam.Server.Session.Requests.{
  Simulator, list_reply, screenshot_of, BulkAnswers, BulkMsg, rebuild, handle_bulk, serve_bulk,
  do_quality, do_list, do_screenshot, send_image, report_failure, failed_to_send, or_unknown,
}
use simbeam.Server.Session.Lifecycle.{
  handle, handle_parsed, lifecycle, or_gesture, gesture, parse_control, do_input, do_shake,
}
use simbeam.Server.Session.Attach.{restart_attachment}
use simbeam.Server.Session.Run.{
  Event, on_control, on_bulk, returned, ended, torn_down, resume, finish, step, run, find_pump,
  drop_pump, new_dispatch,
}
use simbeam.Server.Session.Released.Attempts.{
  given, KeptGiven, find_attempt-Below, returned-Kept, pump_end-Kept,
}

abbrev KeptOption : Dispatch → Option (Dispatch × List Effect) → Type 0
KeptOption d none = Unit
KeptOption d (some r) = Kept d r

remember-Kept :
    (route : Route) (d : Dispatch) (r : Dispatch × List Effect)
    → Kept (remember route d) r
    → Kept d r
remember-Kept true d r k = record { balanced = k.balanced; ordered = k.ordered }
remember-Kept false d r k = k

remember-Ordered : (route : Route) (d : Dispatch) → Ordered d → Ordered (remember route d)
remember-Ordered true d v = record { young = v.young; older = v.older }
remember-Ordered false d v = v

lifecycle-Kept :
    (env : Answers) (d : Dispatch) (m : ControlMsg) (route : Route)
    → Ordered d
    → KeptOption d (lifecycle env d m route)
unfolding lifecycle
lifecycle-Kept env d m route v =
    let d1 = remember route d in
    let v1 = remember-Ordered route d v in
    let back = remember-Kept route d in
    if-both (KeptOption d) (str_eq m.type "boot") _ _ (back _ (do_boot-Kept env d1 m.udid route v1))
      (if-both (KeptOption d) (str_eq m.type "restart") _ _
        (back _ (do_restart-Kept env d1 m.udid route v1))
        (if-both (KeptOption d) (str_eq m.type "attach") _ _
          (back _ (do_attach-Kept env d1 m.udid route v1 m.quality))
          (if-both (KeptOption d) (str_eq m.type "detach") _ _
            (back _ (do_detach-Kept env d1 m.udid route v1))
            (if-both (KeptOption d) (str_eq m.type "shutdown") _ _
              (back _ (do_shutdown-Kept env d1 m.udid route v1)) tt))))

gesture-Harmless : (d : Dispatch) (m : ControlMsg) → Harmless (gesture d m)
unfolding closed do_input do_shake
gesture-Harmless d m n = ground arith

or_gesture-Kept :
    (d : Dispatch) (m : ControlMsg) (o : Option (Dispatch × List Effect))
    → Ordered d
    → KeptOption d o
    → Kept d (or_gesture d m o)
or_gesture-Kept d m none v k = Harmless-Kept d d _ refl refl refl (gesture-Harmless d m) v
or_gesture-Kept d m (some r) v k = k

handle_parsed-Kept :
    (env : Answers) (d : Dispatch) (o : Option ControlMsg)
    → Ordered d
    → Kept d (handle_parsed env d o)
unfolding closed
handle_parsed-Kept env d none v = Harmless-Kept d d [] refl refl refl (λ n. refl) v
handle_parsed-Kept env d (some m) v = or_gesture-Kept d m _ v (lifecycle-Kept env d m false v)

list_reply-Harmless : (env : BulkAnswers) (o : Prose ⊎ List Simulator) → Harmless (list_reply env o)
unfolding closed
list_reply-Harmless env (inl e) n = refl
list_reply-Harmless env (inr sims) n = closed-frames n _

report_failure-Harmless : (o : Option Prose) → Harmless (report_failure o)
unfolding closed
report_failure-Harmless none n = refl
report_failure-Harmless (some e) n = refl

send_image-Harmless : (env : BulkAnswers) (o : Prose ⊎ List ℕ) → Harmless (send_image env o)
unfolding closed
send_image-Harmless env (inl e) n = refl
send_image-Harmless env (inr []) n = refl
send_image-Harmless env (inr (b ∷ img)) n =
    let sent = send_chunked env.channel "screenshot" (b ∷ img) in
    omega (
      arith,
      closed-append n (map bulk_frame sent.0) (report_failure (failed_to_send sent.1)),
      closed-frames n sent.0,
      report_failure-Harmless (failed_to_send sent.1) n,
    )

screenshot_of-Harmless :
    (env : BulkAnswers) (o : Option Attachment) → Harmless (screenshot_of env o)
unfolding closed
screenshot_of-Harmless env none n = refl
screenshot_of-Harmless env (some att) n = send_image-Harmless env env.capture n

rebuild-Kept :
    (env : BulkAnswers) (d : Dispatch) (q : QualityOpts) (o : Option Attachment)
    → d.att ≡ o
    → Ordered d
    → Kept d (rebuild env d q (replace_feed d o))
unfolding closed
rebuild-Kept env d q none e v = Harmless-Kept d d _ refl refl refl (λ n. refl) v
rebuild-Kept env d q (some att) e v = record {
  balanced = λ n. ground (arith, e);
  ordered = record { young = (omega arith, v.young); older = λ a e. absurd (ground (arith, e)) };
}

or_unknown-Kept :
    (d : Dispatch) (type : String) (o : Option (Dispatch × List Effect))
    → Ordered d
    → KeptOption d o
    → Kept d (or_unknown d type o)
unfolding closed
or_unknown-Kept d type none v k = Harmless-Kept d d _ refl refl refl (λ n. refl) v
or_unknown-Kept d type (some r) v k = k

serve_bulk-Kept :
    (env : BulkAnswers) (d : Dispatch) (m : BulkMsg) → Ordered d → Kept d (serve_bulk env d m)
unfolding serve_bulk do_list do_screenshot do_quality restart_attachment
serve_bulk-Kept env d m v =
    if-both (Kept d) (str_eq m.type "list") _ _
      (Harmless-Kept d d _ refl refl refl (list_reply-Harmless env env.sims) v)
      (if-both (Kept d) (str_eq m.type "screenshot") _ _
        (Harmless-Kept d d _ refl refl refl (screenshot_of-Harmless env d.att) v)
        (if-both (Kept d) (str_eq m.type "quality") _ _ (rebuild-Kept env d m.quality d.att refl v)
          (or_unknown-Kept d m.type _ v (lifecycle-Kept env.control d _ true v))))

handle_bulk-Kept :
    (env : BulkAnswers) (d : Dispatch) (o : Option BulkMsg)
    → Ordered d
    → Kept d (handle_bulk env d o)
unfolding handle_bulk closed
handle_bulk-Kept env d none v = Harmless-Kept d d _ refl refl refl (λ n. refl) v
handle_bulk-Kept env d (some m) v = serve_bulk-Kept env d m v

abbrev given_to : ℕ → AttachError ⊎ Feed → Option Attempt → ℕ
given_to n r none = 0
given_to n r (some a) = given n r

-- Whether the backend gives the feed in this step.
abbrev pub gives : ℕ → Dispatch → Event → ℕ
gives n d (returned gen expired r) = given_to n r (find_attempt gen d.attempts)
gives n d _ = 0

unfoldable pub count_gives : ℕ → Dispatch → List Event → ℕ
count_gives n d [] = 0
count_gives n d (e ∷ es) = gives n d e + count_gives n (step d e).0 es

plain : (d : Dispatch) (r : Dispatch × List Effect) → Kept d r → KeptGiven d (λ n. 0) r
plain d r k = record { balanced = λ n. omega (arith, k.balanced n); ordered = k.ordered }

resume-KeptGiven :
    (d : Dispatch) (gen : ℕ) (expired : Bool) (r : AttachError ⊎ Feed) (o : Option Attempt)
    → find_attempt gen d.attempts ≡ o
    → Ordered d
    → KeptGiven d (λ n. given_to n r o) (resume d gen expired r o)
unfolding closed
resume-KeptGiven d gen expired r none e v = record { balanced = λ n. omega arith; ordered = v }
resume-KeptGiven d gen expired r (some a) e v =
    let same = (find_attempt-Below (d.gen + 1) gen d.attempts a v.young e).0 in
    subst
      (λ g.
        KeptGiven d (λ n. given n r)
          (attach_as (record d { attempts = drop_attempt g d.attempts }) a expired r))
      same (returned-Kept d a expired r v (ap (λ g. find_attempt g d.attempts) same ∙ e))

finish-Kept :
    (d : Dispatch) (id : ℕ) (reason : Option Prose) (o : Option Attachment)
    → Ordered d
    → Kept d (finish d id reason o)
unfolding closed
finish-Kept d id reason none v = Harmless-Kept d d [] refl refl refl (λ n. refl) v
finish-Kept d id reason (some p) v =
    let k =
      pump_end-Kept (record d { pumps = drop_pump id d.pumps }) p reason
        (record { young = v.young; older = v.older }) in
    record { balanced = k.balanced; ordered = k.ordered }

step-KeptGiven : (d : Dispatch) (e : Event) → Ordered d → KeptGiven d (λ n. gives n d e) (step d e)
unfolding step handle closed
step-KeptGiven d (on_control env m) v = plain d _ (handle_parsed-Kept env d (parse_control m) v)
step-KeptGiven d (on_bulk env m) v = plain d _ (handle_bulk-Kept env d m v)
step-KeptGiven d (returned gen expired r) v =
    resume-KeptGiven d gen expired r (find_attempt gen d.attempts) refl v
step-KeptGiven d (ended id reason) v = plain d _ (finish-Kept d id reason (find_pump id d.pumps) v)
step-KeptGiven d torn_down v =
    let k = stop-Kept d v in
    plain d _ (record {
      balanced = k.balanced;
      ordered = record { young = k.ordered.young; older = k.ordered.older };
    })

steps-balance :
    (d : Dispatch) (es : List Event) (n : ℕ)
    → Ordered d
    → count_gives n d es + live n d ≡ closed n (run d es).1 + live n (run d es).0
unfolding run count_gives closed
steps-balance d [] n v = omega arith
steps-balance d (e ∷ es) n v =
    let k = step-KeptGiven d e v in
    omega (
      arith,
      k.balanced n,
      steps-balance (step d e).0 es n k.ordered,
      closed-append n (step d e).1 (run (step d e).0 es).1,
    )

-- After any sequence of steps of a new session, each feed was closed as often as the backend gave it to an
-- attach, but once less while it is the installed one.
pub run-releases :
    (es : List Event) (n : ℕ)
    → count_gives n new_dispatch es
      ≡ closed n (run new_dispatch es).1 + live n (run new_dispatch es).0
run-releases es n =
    let v : Ordered new_dispatch = record { young = tt; older = λ a e. tt } in
    omega (arith, steps-balance new_dispatch es n v)
