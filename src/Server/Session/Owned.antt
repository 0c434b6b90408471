-- ===== src/Server/Session/Owned.antt =====
pub mod Run
-- internal/server/attach.go: what is pending, and who owns it.
use simbeam.Prelude.{
  ℕ, ◌≡◌, ◌≢◌, ◌≤◌, ◌<◌, ◌+◌, refl, ap, sym, ◌∙◌, subst, Bool, true, false, ◌||◌, ◌&&◌, Option,
  none, some, ◌⊎◌, inl, inr, String, List, [], ◌∷◌, ◌++◌, ◌==◌, ==_iff, if◌then◌else◌, arith,
  str_eq, eq_iff, Bool-cases, Option-cases, All, if-both,
}
use simbeam.Server.Session.{
  Prose, AttachError, Feed, Attachment, Attempt, Dispatch, Effect, Input, Route,
}
use simbeam.Server.Session.Quality.{QualityOpts}
use simbeam.Server.Session.Attach.{
  attach_as, attach_within, install, fail_attach, pump_end, is_att, stop_attachment, claim_attach,
  restart_attachment, do_attach, spawn, streaming,
}
use simbeam.Server.Session.Lifecycle.{
  Answers, ControlMsg, handle, lifecycle, do_boot, do_restart, do_detach, do_shutdown, stop_current,
  remember, parse_control,
}
use simbeam.Server.Session.Requests.{BulkAnswers, BulkMsg, handle_bulk, serve_bulk, do_quality}
use simbeam.Server.Session.Run.{
  Event, on_control, on_bulk, returned, ended, torn_down, step, run, find_attempt, drop_attempt,
  find_pump, new_dispatch,
}

-- No feed is installed while an attach is pending, and whatever is pending has a goroutine that waits for
-- the backend, for this device and with the newest generation.
pub record Owned (d : Dispatch) : Type 0 where
  pub busy : (a : Attachment) → d.att ≡ some a → d.pending ≡ ""
  pub owner :
      d.pending ≢ ""
      → (a : Attempt) × (find_attempt d.gen d.attempts ≡ some a) × (a.udid ≡ d.pending)

find_attempt-gen :
    (gen : ℕ) (waiting : List Attempt) (a : Attempt)
    → find_attempt gen waiting ≡ some a
    → a.gen ≡ gen
unfolding find_attempt
find_attempt-gen gen [] a e = absurd (ground (arith, e))
find_attempt-gen gen (x ∷ waiting) a e =
    ground (arith, e, find_attempt-gen gen waiting a, ==_iff x.gen gen)

find_attempt-drop :
    (gen other : ℕ) (waiting : List Attempt)
    → other ≢ gen
    → find_attempt gen (drop_attempt other waiting) ≡ find_attempt gen waiting
unfolding find_attempt drop_attempt
find_attempt-drop gen other [] h = refl
find_attempt-drop gen other (x ∷ waiting) h =
    ground (arith, h, find_attempt-drop gen other waiting h, ==_iff x.gen gen, ==_iff x.gen other)

spawn-Owned :
    (d : Dispatch) (udid : String) (q : QualityOpts) (route : Route)
    → Owned (spawn (claim_attach d udid).0 udid q route)
unfolding claim_attach find_attempt
spawn-Owned d udid q route = record {
  busy = λ a e. absurd (ground (arith, e));
  owner = λ h. (
    record { udid = udid; quality = q; gen = d.gen + 1; route = route },
    ground (arith, ==_iff (d.gen + 1) (d.gen + 1)),
    refl,
  );
}

pub stop-Owned : (d : Dispatch) → Owned (stop_attachment d).0
unfolding stop_attachment
stop-Owned d = record { busy = λ a e. refl; owner = λ h. absurd (h refl) }

frame-Owned :
    (d d' : Dispatch)
    → d'.att ≡ d.att
    → d'.pending ≡ d.pending
    → d'.gen ≡ d.gen
    → d'.attempts ≡ d.attempts
    → Owned d
    → Owned d'
frame-Owned d d' e1 e2 e3 e4 v = record {
  busy = λ a e. e2 ∙ v.busy a (sym e1 ∙ e);
  owner = λ h. rw (e3, e4, e2) (v.owner (λ e. h (e2 ∙ e)));
}

-- What the return of an attempt does to the state.
attach_as-cases :
    (d : Dispatch) (a : Attempt) (expired : Bool) (r : AttachError ⊎ Feed)
    → ((attach_as d a expired r).0 ≡ d × (d.gen ≢ a.gen))
      ⊎ (((attach_as d a expired r).0.pending ≡ ""))
unfolding attach_as attach_within fail_attach install
attach_as-cases d a false (inl e) = ground (arith, ==_iff d.gen a.gen)
attach_as-cases d a false (inr feed) = ground (arith, ==_iff d.gen a.gen)
attach_as-cases d a true (inl e) = ground (arith, ==_iff d.gen a.gen)
attach_as-cases d a true (inr feed) = ground (arith, ==_iff d.gen a.gen)

pub idle-Owned : (d : Dispatch) → d.pending ≡ "" → Owned d
idle-Owned d h = record { busy = λ a e. h; owner = λ pending. absurd (pending h) }

pub returned-Owned :
    (d : Dispatch) (gen : ℕ) (a : Attempt) (expired : Bool) (r : AttachError ⊎ Feed)
    → Owned d
    → find_attempt gen d.attempts ≡ some a
    → Owned (attach_as (record d { attempts = drop_attempt gen d.attempts }) a expired r).0
returned-Owned d gen a expired r v found =
    let d1 : Dispatch = record d { attempts = drop_attempt gen d.attempts } in
    let same = find_attempt-gen gen d.attempts a found in
    elim (attach_as-cases d1 a expired r) [
      | inr idle ↦ idle-Owned _ idle
      | inl (kept, old) ↦
          subst (λ x. Owned x) (sym kept)
            (record {
              busy = v.busy;
              owner = λ h.
                  rw (find_attempt-drop d.gen gen d.attempts (λ e. old (sym (same ∙ e))))
                    (v.owner h);
            })
    ]

pub pump_end-Owned :
    (d : Dispatch) (att : Attachment) (reason : Option Prose)
    → Owned d
    → Owned (pump_end d att reason).0
unfolding pump_end
pump_end-Owned d att reason v =
    if-both (λ (x : Dispatch × List Effect). Owned x.0) (is_att d.att att.feed.id) _ _
      (record { busy = λ a e. absurd (ground (arith, e)); owner = v.owner }) v

remember-Owned : (route : Route) (d : Dispatch) → Owned d → Owned (remember route d)
remember-Owned true d v = record { busy = v.busy; owner = v.owner }
remember-Owned false d v = v

stop_current-Owned : (d : Dispatch) (udid : String) → Owned d → Owned (stop_current d udid).0
stop_current-Owned d udid v = elim (Bool-cases (streaming d udid)) [
  | inl here ↦ rw here (stop-Owned d)
  | inr elsewhere ↦ rw elsewhere v
]

abbrev pub OwnedResult : Dispatch × List Effect → Type 0
OwnedResult r = Owned r.0

abbrev pub OwnedOption : Option (Dispatch × List Effect) → Type 0
OwnedOption none = Unit
OwnedOption (some r) = Owned r.0

do_boot-Owned :
    (env : Answers) (d : Dispatch) (udid : String) (route : Route)
    → Owned d
    → Owned (do_boot env d udid route).0
unfolding do_boot
do_boot-Owned env d udid route v = if-both OwnedResult (str_eq udid "") _ _ v v

do_restart-Owned :
    (env : Answers) (d : Dispatch) (udid : String) (route : Route)
    → Owned d
    → Owned (do_restart env d udid route).0
unfolding do_restart
do_restart-Owned env d udid route v =
    if-both OwnedResult (str_eq udid "") _ _ v (stop_current-Owned d udid v)

do_shutdown-Owned :
    (env : Answers) (d : Dispatch) (udid : String) (route : Route)
    → Owned d
    → Owned (do_shutdown env d udid route).0
unfolding do_shutdown
do_shutdown-Owned env d udid route v =
    if-both OwnedResult (str_eq udid "") _ _ v (stop_current-Owned d udid v)

do_attach-Owned :
    (d : Dispatch) (udid : String) (q : QualityOpts) (route : Route)
    → Owned d
    → Owned (do_attach d udid q route).0
unfolding do_attach
do_attach-Owned d udid q route v =
    if-both OwnedResult (str_eq udid "") _ _ v (spawn-Owned d udid q route)

do_detach-Owned : (d : Dispatch) (route : Route) → Owned (do_detach d route).0
unfolding do_detach
do_detach-Owned d route = stop-Owned d

pub lifecycle-Owned :
    (env : Answers) (d : Dispatch) (m : ControlMsg) (route : Route)
    → Owned d
    → OwnedOption (lifecycle env d m route)
unfolding lifecycle
lifecycle-Owned env d m route v =
    let d1 = remember route d in
    let v1 = remember-Owned route d v in
    if-both OwnedOption (str_eq m.type "boot") _ _ (do_boot-Owned env d1 m.udid route v1) (
      if-both OwnedOption (str_eq m.type "restart") _ _ (do_restart-Owned env d1 m.udid route v1) (
        if-both OwnedOption (str_eq m.type "attach") _ _
          (do_attach-Owned d1 m.udid m.quality route v1)
          (if-both OwnedOption (str_eq m.type "detach") _ _ (do_detach-Owned d1 route) (
            if-both OwnedOption (str_eq m.type "shutdown") _ _
              (do_shutdown-Owned env d1 m.udid route v1) tt))))
