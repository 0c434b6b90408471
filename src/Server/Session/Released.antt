-- ===== src/Server/Session/Released.antt =====
-- internal/server/attach.go: which feeds are installed and closed.
pub mod Handlers
pub mod Attempts
pub mod Run
use simbeam.Prelude.{
  ℕ, ◌≡◌, ◌≢◌, ◌≤◌, ◌<◌, ◌+◌, refl, ap, sym, ◌∙◌, subst, Bool, true, false, ◌||◌, ◌&&◌, Option,
  none, some, ◌⊎◌, inl, inr, String, List, [], ◌∷◌, ◌++◌, map, ◌==◌, ==_iff, if◌then◌else◌, arith,
  str_eq, eq_iff, Bool-cases, Option-cases, All, if-both,
}
use simbeam.Server.Bulk.{Frame}
use simbeam.Server.Session.{
  Prose, AttachError, Feed, Attachment, Attempt, Dispatch, Effect, Input, Route, replies, closes,
  cancels, shuts_down, boots, bulk_frame,
}
use simbeam.Server.Session.Quality.{QualityOpts}
use simbeam.Server.Session.Attach.{
  attach_as, attach_within, install, fail_attach, pump_end, is_att, stop_attachment, claim_attach,
  replace_feed, release, do_attach, spawn, streaming,
}
use simbeam.Server.Session.Lifecycle.{
  Answers, confirm, power_cycle, tell_detached, ControlMsg, do_boot, do_restart, do_detach,
  do_shutdown, stop_current, remember,
}
use simbeam.Server.Session.Run.{find_attempt, drop_attempt}

abbrev closes_feed : ℕ → Effect → ℕ
closes_feed n (closes id) = if id == n then 1 else 0
closes_feed n _ = 0

-- How often the feed is closed.
unfoldable pub closed : ℕ → List Effect → ℕ
closed n [] = 0
closed n (e ∷ es) = closes_feed n e + closed n es

abbrev pub live_att : ℕ → Option Attachment → ℕ
live_att n none = 0
live_att n (some att) = if att.feed.id == n then 1 else 0

-- Whether the feed is installed.
abbrev pub live : ℕ → Dispatch → ℕ
live n d = live_att n d.att

pub closed-append : (n : ℕ) (xs ys : List Effect) → closed n (xs ++ ys) ≡ closed n xs + closed n ys
unfolding closed
closed-append n [] ys = omega arith
closed-append n (x ∷ xs) ys = omega (arith, closed-append n xs ys)

pub closed-release : (n : ℕ) (o : Option Attachment) → closed n (release o) ≡ live_att n o
unfolding closed
closed-release n none = refl
closed-release n (some att) = omega arith

pub closed-frames : (n : ℕ) (fs : List Frame) → closed n (map bulk_frame fs) ≡ 0
unfolding closed
closed-frames n [] = refl
closed-frames n (f ∷ fs) = omega (arith, closed-frames n fs)

-- The generations of the waiting goroutines fall strictly, from below a bound.
abbrev pub Below : ℕ → List Attempt → Type 0
Below n [] = Unit
Below n (a ∷ waiting) = (a.gen < n) × Below a.gen waiting

pub Below-weaken : (m n : ℕ) (waiting : List Attempt) → m ≤ n → Below m waiting → Below n waiting
Below-weaken m n [] h v = tt
Below-weaken m n (a ∷ waiting) h v = (omega (arith, v.0, h), v.1)

pub Below-drop :
    (n gen : ℕ) (waiting : List Attempt) → Below n waiting → Below n (drop_attempt gen waiting)
unfolding drop_attempt
Below-drop n gen [] v = tt
Below-drop n gen (a ∷ waiting) v =
    if-both (Below n) (a.gen == gen) _ _ (Below-weaken a.gen n waiting (omega (arith, v.0)) v.1)
      (v.0, Below-drop a.gen gen waiting v.1)

-- Nothing newer than the newest generation waits, and nothing as new while a feed is installed.
pub record Ordered (d : Dispatch) : Type 0 where
  pub young : Below (d.gen + 1) d.attempts
  pub older : (a : Attachment) → d.att ≡ some a → Below d.gen d.attempts

-- A handler closes what it uninstalls, and nothing else.
pub record Kept (d : Dispatch) (r : Dispatch × List Effect) : Type 0 where
  pub balanced : (n : ℕ) → live n d ≡ closed n r.1 + live n r.0
  pub ordered : Ordered r.0
