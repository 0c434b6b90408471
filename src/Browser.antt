-- ===== src/Browser.antt =====
-- internal/backend/browser/browser.go: the demo device in a headless browser. chromedp is outside:
-- `accepts i` is whether it takes the i-th touch of a gesture, and `closed i` whether the tab has gone before
-- the i-th move. Floating point is a parameter.
pub mod Swipe
use simbeam.Prelude.{
  ℕ, zero, suc, ◌+◌, ◌*◌, ◌/◌, ◌≡◌, Bool, true, false, Option, none, some, String, List, [], ◌∷◌,
  ◌==◌, str_eq, if◌then◌else◌,
}
use simbeam.Sim.Startup.{Floats}
use simbeam.Sim.Input.{Input, clamp01}

-- `default_duration` is 0.3; `nanoseconds` is `time.Duration(dur*float64(time.Second))`,
-- with 0 for a negative one, which overflow may give and on which `time.NewTicker` panics too; `whole` reads an
-- integer option as a float, and `truncate` is the conversion to `uint64`.
pub record Arithmetic {ℓ} (F : Type ℓ) : Type ℓ where
  pub floats : Floats F
  pub plus : F → F → F
  pub minus : F → F → F
  pub over : F → F → F
  pub at_most : F → F → Bool
  pub whole : ℕ → F
  pub truncate : F → ℕ
  pub default_duration : F
  pub nanoseconds : F → ℕ

pub record Options {ℓ} (F : Type ℓ) : Type ℓ where
  pub width : ℕ
  pub height : ℕ
  pub scale : F
  pub name : String

-- A negative width or height is 0.
abbrev or_else : ℕ → ℕ → ℕ
or_else default n = if n == 0 then default else n

pub data TouchType : Type 0 where
  touch_start touch_move touch_end : TouchType

-- `TouchEnd` carries no point.
pub record Touch {ℓ} (F : Type ℓ) : Type ℓ where
  pub typ : TouchType
  pub point : Option (F × F)

pub data SwipeResult {ℓ} (F : Type ℓ) : Type ℓ where
  panicked : SwipeResult F
  dispatched : List (Touch F) → SwipeResult F

module _ {ℓ} {F : Type ℓ} (g : Arithmetic F) where
  -- `New`
  unfoldable pub new : Options F → Options F
  new o = record {
    width = or_else 390 o.width;
    height = or_else 844 o.height;
    scale = if g.at_most o.scale g.floats.nought then g.floats.unit else o.scale;
    name = if str_eq o.name "" then "Demo device" else o.name;
  }

  unfoldable pub screen : Options F → ℕ × ℕ
  screen o = (
    g.truncate (g.floats.times (g.whole o.width) o.scale),
    g.truncate (g.floats.times (g.whole o.height) o.scale),
  )

  unfoldable pub css : Options F → F → F → F × F
  unfolding clamp01
  css o x y = (
    g.floats.times (clamp01 g.floats x) (g.whole o.width),
    g.floats.times (clamp01 g.floats y) (g.whole o.height),
  )

  abbrev pub steps : ℕ
  steps = 12

  unfoldable pub swipe_time : Input F → F
  swipe_time i = if g.at_most i.duration g.floats.nought then g.default_duration else i.duration

  -- The interval of the ticker, in nanoseconds; `time.NewTicker` panics if it is not above 0.
  unfoldable pub pace : Input F → ℕ
  unfolding swipe_time
  pace i = g.nanoseconds (swipe_time i) / steps

  -- `x1 + (x2-x1)*t` where `t` is `i / steps`.
  abbrev along : F → F → (i : ℕ) → F
  along from to i =
      g.plus from (g.floats.times (g.minus to from) (g.over (g.whole i) (g.whole steps)))

  abbrev pub touch_at : TouchType → F × F → Touch F
  touch_at typ at = record { typ = typ; point = some at }

  abbrev pub lift : Touch F
  lift = record { typ = touch_end; point = none }

  abbrev pub move : (from to : F × F) → (i : ℕ) → Touch F
  move from to i = touch_at touch_move (along from.0 to.0 i, along from.1 to.1 i)

  -- The loop of moves, `left` of them to go; a move that fails, or the end of the tab, ends the gesture.
  unfoldable pub moves :
      (accepts closed : ℕ → Bool) (from to : F × F) → (left i : ℕ) → List (Touch F)
  moves accepts closed from to zero i = lift ∷ []
  moves accepts closed from to (suc left) i =
      let later = moves accepts closed from to left (suc i) in
      if closed i then [] else move from to i ∷ (if accepts i then later else [])

  unfoldable pub swipe : (accepts closed : ℕ → Bool) → Options F → Input F → SwipeResult F
  unfolding css pace moves
  swipe accepts closed o i =
      let from = css o i.x1 i.y1 in
      let to = css o i.x2 i.y2 in
      if accepts 0
      then (if pace i == 0
          then panicked
          else dispatched (touch_at touch_start from ∷ moves accepts closed from to steps 1))
      else dispatched (touch_at touch_start from ∷ [])

  -- A tap: the end follows if the start is taken.
  unfoldable pub tap : (accepts : ℕ → Bool) → Options F → Input F → List (Touch F)
  unfolding css
  tap accepts o i = touch_at touch_start (css o i.x i.y) ∷ (if accepts 0 then lift ∷ [] else [])
