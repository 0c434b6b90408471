-- ===== src/Browser/Swipe.antt =====
-- internal/backend/browser/browser.go, `swipe`: all that a gesture of the client can make of it.
use simbeam.Prelude.{
  ℕ, zero, suc, ◌+◌, ◌≤◌, ◌<◌, ◌≡◌, Bool, length, ◌⊎◌, true, false, List, [], ◌∷◌, ◌++◌,
}
use simbeam.Sim.Input.{Input}
use simbeam.Browser.{
  Arithmetic, Options, Touch, SwipeResult, touch_start, panicked, dispatched, css, swipe_time,
  touch_at, lift, move,
}

module _ {ℓ} {F : Type ℓ} (g : Arithmetic F) where
  -- The moves `i`, `i + 1`, and so on, as many as are given.
  abbrev trail : (from to : F × F) → (left i : ℕ) → List (Touch F)
  trail from to zero i = []
  trail from to (suc left) i = move g from to i ∷ trail from to left (suc i)

  -- The loop of moves from the `i`-th on, `n` of whose touches were dispatched, was ended by touch `k`: it was
  -- dispatched and refused, or the tab had gone before it.
  abbrev Ended : (accepts closed : ℕ → Bool) → (n i k : ℕ) → Type 0
  Ended accepts closed n i k =
      ((accepts k ≡ false) × (n + i ≡ suc k)) ⊎ ((closed k ≡ true) × (n + i ≡ k))

  abbrev Cut : (accepts closed : ℕ → Bool) → (i : ℕ) → (whole ts : List (Touch F)) → Type ℓ
  Cut accepts closed i whole ts =
      (rest : List (Touch F)) × (ts ++ rest ≡ whole)
      × ((rest ≡ []) ⊎ ((k : ℕ) × Ended accepts closed (length ts) i k))

  -- A start, twelve moves in order and an end.
  abbrev pub full_swipe : Options F → Input F → List (Touch F)
  full_swipe o i =
      touch_at g touch_start (css g o i.x1 i.y1)
        ∷ trail (css g o i.x1 i.y1) (css g o i.x2 i.y2) 12 1
      ++ lift g ∷ []

  -- What a swipe ends in.
  pub data Swiped (accepts closed : ℕ → Bool) (o : Options F) (i : Input F)
      : SwipeResult F → Type ℓ where
    too_short :
        accepts 0 ≡ true → g.nanoseconds (swipe_time g i) < 12 → Swiped accepts closed o i panicked
    touched :
        (ts : List (Touch F))
        → (accepts 0 ≡ false) ⊎ (12 ≤ g.nanoseconds (swipe_time g i))
        → Cut accepts closed 0 (full_swipe o i) ts
        → Swiped accepts closed o i (dispatched ts)
