-- ===== src/Server/Session/Released/Handlers.antt =====
-- internal/server/rtcdispatch.go: what each lifecycle handler closes.
use simbeam.Prelude.{
  ℕ, ◌≡◌, ◌+◌, refl, ap, sym, ◌∙◌, Bool, true, false, Option, none, some, String, List, [], ◌∷◌,
  ◌++◌, arith, str_eq, if-both,
}
use simbeam.Server.Session.{
  Prose, Dispatch, Effect, Route, CtrlReply, reply_of, booted, shutdown, attaching, replies,
}
use simbeam.Server.Session.Quality.{QualityOpts}
use simbeam.Server.Session.Attach.{stop_attachment, claim_attach, release, do_attach, streaming}
use simbeam.Server.Session.Lifecycle.{
  Answers, confirm, power_cycle, tell_detached, do_boot, do_restart, do_detach, do_shutdown,
  stop_current,
}
use simbeam.Server.Session.Released.{
  closed, live_att, closed-append, closed-release, Below-weaken, Ordered, Kept,
}

-- Effects that close nothing.
abbrev pub Harmless : List Effect → Type 0
Harmless out = (n : ℕ) → closed n out ≡ 0

pub Harmless-Kept :
    (d d' : Dispatch) (out : List Effect)
    → d'.att ≡ d.att
    → d'.gen ≡ d.gen
    → d'.attempts ≡ d.attempts
    → Harmless out
    → Ordered d
    → Kept d (d', out)
Harmless-Kept d d' out e1 e2 e3 quiet v = record {
  balanced = λ n. omega (arith, quiet n, ap (live_att n) e1);
  ordered = record {
    young = rw (e2, e3) v.young;
    older = λ a e. rw (e2, e3) (v.older a (sym e1 ∙ e));
  };
}

confirm-Harmless :
    (route : Route) (ok : CtrlReply) (operation code udid : String) (o : Option Prose)
    → Harmless (confirm route ok operation code udid o)
unfolding closed
confirm-Harmless route ok operation code udid none n = refl
confirm-Harmless route ok operation code udid (some e) n = refl

pub stop-Kept : (d : Dispatch) → Ordered d → Kept d ((stop_attachment d).0, (stop_attachment d).2)
unfolding stop_attachment claim_attach
stop-Kept d v = record {
  balanced = λ n. omega (arith, closed-release n d.att);
  ordered = record {
    young = Below-weaken (d.gen + 1) (d.gen + 1 + 1) d.attempts (omega arith) v.young;
    older = λ a e. absurd (ground (arith, e));
  };
}

-- More effects that close nothing.
after-Kept :
    (d d' : Dispatch) (out later : List Effect)
    → Harmless later
    → Kept d (d', out)
    → Kept d (d', out ++ later)
after-Kept d d' out later quiet v = record {
  balanced = λ n. omega (arith, quiet n, closed-append n out later, v.balanced n);
  ordered = v.ordered;
}

stop_current-Kept : (d : Dispatch) (udid : String) → Ordered d → Kept d (stop_current d udid)
unfolding closed
stop_current-Kept d udid v =
    if-both (Kept d) (streaming d udid) _ _ (stop-Kept d v)
      (Harmless-Kept d d [] refl refl refl (λ n. refl) v)

module _ (env : Answers) (d : Dispatch) (udid : String) (route : Route) (v : Ordered d) where
  pub do_boot-Kept : Kept d (do_boot env d udid route)
  unfolding do_boot closed
  do_boot-Kept =
      if-both (Kept d) (str_eq udid "") _ _ (Harmless-Kept d d _ refl refl refl (λ n. refl) v) (
        Harmless-Kept d d _ refl refl refl
          (λ n. omega (
            arith,
            confirm-Harmless route (reply_of booted udid) "boot" "boot_failed" udid env.boot n,
          ))
          v)

  power_cycle-Harmless : (o : Option Prose) → Harmless (power_cycle env udid route o)
  unfolding closed
  power_cycle-Harmless none n = omega (
    arith,
    confirm-Harmless route (reply_of booted udid) "restart" "restart_failed" udid env.boot n,
  )
  power_cycle-Harmless (some e) n = refl

  pub do_restart-Kept : Kept d (do_restart env d udid route)
  unfolding do_restart closed
  do_restart-Kept =
      if-both (Kept d) (str_eq udid "") _ _ (Harmless-Kept d d _ refl refl refl (λ n. refl) v) (
        after-Kept d _ (stop_current d udid).1 _
          (λ n. omega (arith, power_cycle-Harmless env.shutdown n)) (stop_current-Kept d udid v))

  tell_detached-Harmless : (b : Bool) → Harmless (tell_detached b udid route)
  unfolding closed
  tell_detached-Harmless true n = refl
  tell_detached-Harmless false n = refl

  pub do_shutdown-Kept : Kept d (do_shutdown env d udid route)
  unfolding do_shutdown closed
  do_shutdown-Kept =
      let told = tell_detached (streaming d udid) udid route in
      let stopped = stop_current d udid in
      let answer =
        confirm-Harmless route (reply_of shutdown udid) "shutdown" "shutdown_failed" udid
          env.shutdown in
      if-both (Kept d) (str_eq udid "") _ _ (Harmless-Kept d d _ refl refl refl (λ n. refl) v) (
        after-Kept d stopped.0 (stopped.1 ++ told) _ (λ n. omega (arith, answer n))
          (after-Kept d stopped.0 stopped.1 told (tell_detached-Harmless (streaming d udid))
            (stop_current-Kept d udid v)))

  pub do_detach-Kept : Kept d (do_detach d route)
  unfolding do_detach closed
  do_detach-Kept = after-Kept d _ (stop_attachment d).2 _ (λ n. refl) (stop-Kept d v)

  pub do_attach-Kept : (q : QualityOpts) → Kept d (do_attach d udid q route)
  unfolding do_attach claim_attach closed
  do_attach-Kept q =
      if-both (Kept d) (str_eq udid "") _ _ (Harmless-Kept d d _ refl refl refl (λ n. refl) v)
        (record {
          balanced = λ n. omega (
            arith,
            closed-release n d.att,
            closed-append n (release d.att) (replies route (reply_of attaching udid) ∷ []),
          );
          ordered = record {
            young = (omega arith, v.young);
            older = λ a e. absurd (ground (arith, e));
          };
        })
