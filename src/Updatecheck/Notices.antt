-- ===== src/Updatecheck/Notices.antt =====
-- internal/updatecheck/updatecheck.go, `Run`: what the user is told over the turns of the loop.
use simbeam.Prelude.{
  ◌≡◌, ◌≢◌, true, false, ◌&&◌, not, inl, inr, String, List, [], ◌∷◌, ◌++◌, arith, str_eq, eq_iff,
  Bool-cases,
}
use simbeam.Updatecheck.{newer, turn}

-- The tags that are told, for the answers of the checks.
unfoldable notices : String → String → List String → List String
notices current notified [] = []
notices current notified (latest ∷ answers) =
    let (next, told) = turn current notified latest in told ++ notices current next answers

-- Each differs from the one before, which the loop remembers, and is newer than the running version.
abbrev IsChain : String → String → List String → Type 0
IsChain current before [] = Unit
IsChain current before (t ∷ told) = (newer t current ≡ true) × (t ≢ before) × IsChain current t told

-- Whatever the checks answer, each tag that is told is newer than the running version and differs from
-- the one told before it.
notices-IsChain :
    (current notified : String) (answers : List String)
    → IsChain current notified (notices current notified answers)
unfolding notices turn
notices-IsChain current notified [] = tt
notices-IsChain current notified (latest ∷ answers) =
    elim (Bool-cases
      (not (str_eq latest "") && not (str_eq latest notified) && newer latest current)) [
        | inl told ↦ rw told (
          ground (arith, told),
          (λ e. ground (arith, told, e, eq_iff latest notified)),
          notices-IsChain current latest answers,
        )
        | inr quiet ↦ rw quiet (notices-IsChain current notified answers)
      ]

-- If the answers alternate between two different tags that are newer than the running version, each
-- change is told, the first tag twice.
notices-alternating :
    (current a b : String)
    → newer a current ≡ true
    → newer b current ≡ true
    → str_eq a b ≡ false
    → str_eq a "" ≡ false
    → str_eq b "" ≡ false
    → notices current "" (a ∷ b ∷ a ∷ []) ≡ a ∷ b ∷ a ∷ []
unfolding notices turn
notices-alternating current a b na nb differ filled_a filled_b =
    ground (arith, na, nb, differ, filled_a, filled_b, eq_iff a b, eq_iff b a)
