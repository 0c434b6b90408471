-- ===== src/Signal/Canonical.antt =====
-- internal/signal/subscription.go: the signed byte strings and the fields that they are made of.
use text.Mathlib.TextEquality.{Char-path}
use simbeam.Prelude.{ℕ, ◌≡◌, ◌≢◌, refl, ap₂, String, List, [], ◌∷◌, ◌++◌, All, codes}
use simbeam.Signal.Crypto.{canonical_subscription}

-- Two lists are equal if they are cut by a separator that is in neither of their heads.
split_at_separator :
    (sep : ℕ) (xs ys xs' ys' : List ℕ)
    → All (λ x. x ≢ sep) xs
    → All (λ x. x ≢ sep) xs'
    → xs ++ sep ∷ ys ≡ xs' ++ sep ∷ ys'
    → (xs ≡ xs') × (ys ≡ ys')
split_at_separator sep [] ys [] ys' h k e = (refl, cc)
split_at_separator sep [] ys (x ∷ xs') ys' h k e = absurd (k.0 (cc))
split_at_separator sep (x ∷ xs) ys [] ys' h k e = absurd (h.0 (cc))
split_at_separator sep (x ∷ xs) ys (x' ∷ xs') ys' h k e =
    let (p, q) = split_at_separator sep xs ys xs' ys' h.1 k.1 (cc) in (cc, q)

codes-injective : (s t : String) → codes s ≡ codes t → s ≡ t
codes-injective String.[] String.[] e = refl
codes-injective String.[] (String.◌∷◌ d t) e = cc
codes-injective (String.◌∷◌ c s) String.[] e = cc
codes-injective (String.◌∷◌ c s) (String.◌∷◌ d t) e =
    ap₂ String.◌∷◌ (Char-path c d (cc)) (codes-injective s t (cc))

-- A text without the separator byte `sep`.
abbrev Without : ℕ → String → Type 0
Without sep s = All (λ x. x ≢ sep) (codes s)

-- No two subscription requests have the same signed bytes: where the first three fields are free of
-- the separator, equal bytes mean equal fields, each in its own place.
pub canonical_subscription-injective :
    (k p e i k' p' e' i' : String)
    → Without 31 k
    → Without 31 p
    → Without 31 e
    → Without 31 k'
    → Without 31 p'
    → Without 31 e'
    → canonical_subscription k p e i ≡ canonical_subscription k' p' e' i'
    → (k ≡ k') × (p ≡ p') × (e ≡ e') × (i ≡ i')
unfolding canonical_subscription
canonical_subscription-injective k p e i k' p' e' i' hk hp he hk' hp' he' q =
    let (q₁, r₁) = split_at_separator 31 (codes k) _ (codes k') _ hk hk' q in
    let (q₂, r₂) = split_at_separator 31 (codes p) _ (codes p') _ hp hp' r₁ in
    let (q₃, r₃) = split_at_separator 31 (codes e) _ (codes e') _ he he' r₂ in
    (
      codes-injective k k' q₁,
      codes-injective p p' q₂,
      codes-injective e e' q₃,
      codes-injective i i' r₃,
    )
