-- ===== src/Tests/Browser.antt =====
-- Swipes on the demo device.
use simbeam.Prelude.{ℕ, ◌+◌, ◌-◌, ◌≡◌, refl, true, false, leb}
use simbeam.Sim.Input.{Input}
use simbeam.Browser.{Arithmetic, Options, panicked, swipe, pace, swipe_time}
use simbeam.Tests.Sim.{whole_numbers}

abbrev arithmetic : Arithmetic ℕ
arithmetic = record {
  floats = whole_numbers;
  plus = λ a b. a + b;
  minus = λ a b. a - b;
  over = λ a b. a;
  at_most = leb;
  whole = λ n. n;
  truncate = λ a. a;
  default_duration = 300_000_000;
  nanoseconds = λ a. a;
}

abbrev demo : Options ℕ
demo = record { width = 390; height = 844; scale = 1; name = "demo" }

abbrev flick : Input ℕ
flick = record {
  type = "swipe";
  action = "";
  x = 0;
  y = 0;
  x1 = 0;
  y1 = 0;
  x2 = 1;
  y2 = 1;
  duration = 1;
  key = "";
}

abbrev drag : Input ℕ
drag = record flick { duration = 600 }

flick_panics : swipe arithmetic (λ k. true) (λ k. false) demo flick ≡ panicked
unfolding swipe pace swipe_time
flick_panics = refl
