-- ===== src/Companion/Order.antt =====
-- internal/companion/companion.go: the order of texts and of lists of texts, each compared at the first
-- place where they differ.
use simbeam.Prelude.{
  ℕ, ◌≡◌, refl, ap₂, sym, ◌∙◌, arith, Bool, true, false, not, List, [], ◌∷◌, ltb, ◌==◌,
  if◌then◌else◌, Bool-cases, inl, inr,
}

pub record Comparison (A : Type 0) : Type 0 where
  pub eq : A → A → Bool
  pub less : A → A → Bool

-- A test for equality and a strict total order.
pub record IsOrdered {A : Type 0} (o : Comparison A) : Type 0 where
  pub eq_sound : (a b : A) → o.eq a b ≡ true → a ≡ b
  pub eq_refl : (a : A) → o.eq a a ≡ true
  pub less_irrefl : (a : A) → o.less a a ≡ false
  pub less_total : (a b : A) → o.eq a b ≡ false → o.less b a ≡ not (o.less a b)
  pub less_trans : (a b c : A) → o.less a b ≡ true → o.less b c ≡ true → o.less a c ≡ true

abbrev pub numbers : Comparison ℕ
numbers = record { eq = ◌==◌; less = ltb }

pub numbers-IsOrdered : IsOrdered numbers
numbers-IsOrdered = record {
  eq_sound = λ a b h. ground arith;
  eq_refl = λ a. ground arith;
  less_irrefl = λ a. ground arith;
  less_total = λ a b h. ground arith;
  less_trans = λ a b c h k. ground arith;
}

module _ {A : Type 0} (o : Comparison A) where
  abbrev pub list_eq : List A → List A → Bool
  list_eq [] [] = true
  list_eq [] (y ∷ ys) = false
  list_eq (x ∷ xs) [] = false
  list_eq (x ∷ xs) (y ∷ ys) = let rest = list_eq xs ys in if o.eq x y then rest else false

  abbrev pub list_less : List A → List A → Bool
  list_less [] [] = false
  list_less [] (y ∷ ys) = true
  list_less (x ∷ xs) [] = false
  list_less (x ∷ xs) (y ∷ ys) = let rest = list_less xs ys in if o.eq x y then rest else o.less x y

  abbrev pub lists : Comparison (List A)
  lists = record { eq = list_eq; less = list_less }

module _ {A : Type 0} (o : Comparison A) (v : IsOrdered o) where
  list_eq_sound : (xs ys : List A) → list_eq o xs ys ≡ true → xs ≡ ys
  list_eq_sound [] [] h = refl
  list_eq_sound [] (y ∷ ys) h = absurd (cc h)
  list_eq_sound (x ∷ xs) [] h = absurd (cc h)
  list_eq_sound (x ∷ xs) (y ∷ ys) h =
      ap₂ ◌∷◌ (v.eq_sound x y (ground (arith, h))) (list_eq_sound xs ys (ground (arith, h)))

  list_eq_refl : (xs : List A) → list_eq o xs xs ≡ true
  list_eq_refl [] = refl
  list_eq_refl (x ∷ xs) = ground (arith, v.eq_refl x, list_eq_refl xs)

  list_less_irrefl : (xs : List A) → list_less o xs xs ≡ false
  list_less_irrefl [] = refl
  list_less_irrefl (x ∷ xs) = ground (arith, v.eq_refl x, list_less_irrefl xs)

  eq_sym : (a b : A) → o.eq a b ≡ o.eq b a
  eq_sym a b = elim (Bool-cases (o.eq a b)) [
    | inl t ↦ rw (v.eq_sound a b t) refl
    | inr f ↦ elim (Bool-cases (o.eq b a)) [
      | inl t ↦ rw (v.eq_sound b a t) refl
      | inr g ↦ f ∙ sym g
    ]
  ]

  list_less-total :
      (xs ys : List A) → list_eq o xs ys ≡ false → list_less o ys xs ≡ not (list_less o xs ys)
  list_less-total [] [] h = absurd (cc h)
  list_less-total [] (y ∷ ys) h = refl
  list_less-total (x ∷ xs) [] h = refl
  list_less-total (x ∷ xs) (y ∷ ys) h =
      ground (arith, h, eq_sym x y, v.less_total x y, list_less-total xs ys)

  list_less_trans :
      (xs ys zs : List A)
      → list_less o xs ys ≡ true
      → list_less o ys zs ≡ true
      → list_less o xs zs ≡ true
  list_less_trans [] [] [] h k = h
  list_less_trans [] (y ∷ ys) [] h k = absurd (cc k)
  list_less_trans [] ys (z ∷ zs) h k = refl
  list_less_trans (x ∷ xs) [] zs h k = absurd (cc h)
  list_less_trans (x ∷ xs) (y ∷ ys) [] h k = absurd (cc k)
  list_less_trans (x ∷ xs) (y ∷ ys) (z ∷ zs) h k = ground (
    arith,
    h,
    k,
    v.eq_sound x y,
    v.eq_sound y z,
    v.eq_sound x z,
    v.eq_refl x,
    v.less_irrefl x,
    v.less_trans x y z,
    list_less_trans xs ys zs,
  )

  pub list-IsOrdered : IsOrdered (lists o)
  list-IsOrdered = record {
    eq_sound = list_eq_sound;
    eq_refl = list_eq_refl;
    less_irrefl = list_less_irrefl;
    less_total = list_less-total;
    less_trans = list_less_trans;
  }

abbrev pub text_eq : List ℕ → List ℕ → Bool
text_eq a b = list_eq numbers a b

abbrev pub text_less : List ℕ → List ℕ → Bool
text_less a b = list_less numbers a b
