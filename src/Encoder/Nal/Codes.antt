-- ===== src/Encoder/Nal/Codes.antt =====
-- internal/encoder/nal.go: where the start codes of a buffer lie, and those of a longer one.
use simbeam.Prelude.{
  ℕ, zero, suc, ◌+◌, ◌≤◌, ◌≡◌, ◌≢◌, refl, ap, Bool, true, false, ◌||◌, none, some, List, [], ◌∷◌,
  ◌++◌, inl, inr, arith, Bool-cases, length, take, drop, take-append-drop,
}
use simbeam.Encoder.Nal.{has_long_code, has_short_code, start_code_len, index_from}

abbrev at_code : List ℕ → Bool
at_code b = has_short_code b || has_long_code b

-- Four bytes settle which start code a buffer begins with.
long-append : (b c : List ℕ) → 4 ≤ length b → has_long_code (b ++ c) ≡ has_long_code b
unfolding has_long_code
long-append [] c h = absurd (omega arith)
long-append (x ∷ []) c h = absurd (omega arith)
long-append (x ∷ y ∷ []) c h = absurd (omega arith)
long-append (x ∷ y ∷ z ∷ []) c h = absurd (omega arith)
long-append (x ∷ y ∷ z ∷ w ∷ b) c h = refl

short-append : (b c : List ℕ) → 3 ≤ length b → has_short_code (b ++ c) ≡ has_short_code b
unfolding has_short_code
short-append [] c h = absurd (omega arith)
short-append (x ∷ []) c h = absurd (omega arith)
short-append (x ∷ y ∷ []) c h = absurd (omega arith)
short-append (x ∷ y ∷ z ∷ b) c h = refl

at_code-append : (b c : List ℕ) → at_code b ≡ true → at_code (b ++ c) ≡ true
unfolding has_short_code has_long_code
at_code-append [] c h = cc
at_code-append (x ∷ []) c h = cc
at_code-append (x ∷ y ∷ []) c h = cc
at_code-append (x ∷ y ∷ z ∷ []) [] h = h
at_code-append (x ∷ y ∷ z ∷ []) (w ∷ c) h = ground arith
at_code-append (x ∷ y ∷ z ∷ w ∷ b) c h = h

at_code-take : (n : ℕ) (b : List ℕ) → at_code b ≡ false → at_code (take n b) ≡ false
at_code-take n b h = elim (Bool-cases (at_code (take n b))) [
  | inr no_code ↦ no_code
  | inl code ↦
      let whole = at_code-append (take n b) (drop n b) code in
      cc (whole, ap at_code (take-append-drop n b))
]

pub start_code_len-append :
    (b c : List ℕ) → 4 ≤ length b → start_code_len (b ++ c) ≡ start_code_len b
unfolding start_code_len
start_code_len-append b c h = ground (arith, long-append b c h, short-append b c)

pub start_code_len-le : (b : List ℕ) → start_code_len b ≤ length b
unfolding start_code_len
start_code_len-le [] = ground arith
start_code_len-le (x ∷ []) = ground arith
start_code_len-le (x ∷ y ∷ []) = ground arith
start_code_len-le (x ∷ y ∷ z ∷ []) = ground arith
start_code_len-le (x ∷ y ∷ z ∷ w ∷ b) = ground arith

pub start_code_len-ge : (b : List ℕ) → start_code_len b ≢ 0 → 3 ≤ start_code_len b
unfolding start_code_len
start_code_len-ge b h = ground arith

-- A start code takes three bytes, so one that is found ends within the buffer.
pub index_from_bounds :
    (i n : ℕ) (b : List ℕ) → index_from i b ≡ some n → (i ≤ n) × (n + 3 ≤ i + length b)
unfolding index_from
index_from_bounds i n [] h = cc
index_from_bounds i n (x ∷ []) h = ground arith
index_from_bounds i n (x ∷ y ∷ []) h = ground arith
index_from_bounds i n (x ∷ y ∷ z ∷ b) h = ground (arith, index_from_bounds (suc i) n (y ∷ z ∷ b))

pub index_from-append :
    (i n : ℕ) (b c : List ℕ) → index_from i b ≡ some n → index_from i (b ++ c) ≡ some n
unfolding index_from
index_from-append i n [] c h = cc
index_from-append i n (x ∷ b) c h = elim (Bool-cases (at_code (x ∷ b))) [
  | inl here ↦ ground (arith, at_code-append (x ∷ b) c here)
  | inr after ↦ ground (
    arith,
    index_from_bounds (suc i) n b,
    index_from-append (suc i) n b c,
    long-append (x ∷ b) c,
    short-append (x ∷ b) c,
  )
]

-- Nothing is found before the first start code.
pub index_from-take :
    (i n : ℕ) (b : List ℕ) → index_from i b ≡ some (n + i) → index_from i (take n b) ≡ none
unfolding index_from
index_from-take i zero b h = refl
index_from-take i (suc n) [] h = refl
index_from-take i (suc n) (x ∷ b) h = elim (Bool-cases (at_code (x ∷ b))) [
  | inl here ↦ ground arith
  | inr after ↦ ground (arith, at_code-take (suc n) (x ∷ b) after, index_from-take (suc i) n b)
]

-- What is found is a start code.
pub index_from-at :
    (i n : ℕ) (b : List ℕ) → index_from i b ≡ some (n + i) → start_code_len (drop n b) ≢ 0
unfolding index_from start_code_len
index_from-at i n [] h = cc
index_from-at i zero (x ∷ b) h = elim (Bool-cases (at_code (x ∷ b))) [
  | inl here ↦ ground arith
  | inr after ↦ ground (arith, index_from_bounds (suc i) i b)
]
index_from-at i (suc n) (x ∷ b) h = elim (Bool-cases (at_code (x ∷ b))) [
  | inl here ↦ ground arith
  | inr after ↦ ground (arith, index_from-at (suc i) n b)
]

long-take : (n : ℕ) (b : List ℕ) → has_long_code b ≡ true → start_code_len (take (4 + n) b) ≡ 4
unfolding start_code_len
long-take n [] h = cc
long-take n (x ∷ []) h = cc
long-take n (x ∷ y ∷ []) h = cc
long-take n (x ∷ y ∷ z ∷ []) h = cc
long-take n (x ∷ y ∷ z ∷ w ∷ b) h =
    let e : 4 + n ≡ suc (suc (suc (suc n))) = omega arith in rw e (ground arith)

short-take :
    (n : ℕ) (b : List ℕ)
    → has_long_code b ≡ false
    → has_short_code b ≡ true
    → start_code_len (take (3 + n) b) ≡ 3
unfolding start_code_len
short-take n [] h k = cc
short-take n (x ∷ []) h k = cc
short-take n (x ∷ y ∷ []) h k = cc
short-take n (x ∷ y ∷ z ∷ []) h k =
    let e : 3 + n ≡ suc (suc (suc n)) = omega arith in rw e (ground arith)
short-take zero (x ∷ y ∷ z ∷ w ∷ b) h k = ground arith
short-take (suc n) (x ∷ y ∷ z ∷ w ∷ b) h k =
    let e : 3 + suc n ≡ suc (suc (suc (suc n))) = omega arith in rw e (ground arith)

-- Cut behind its start code, a buffer keeps it.
pub start_code_len-take :
    (n : ℕ) (b : List ℕ)
    → start_code_len b ≢ 0
    → start_code_len (take (start_code_len b + n) b) ≡ start_code_len b
unfolding start_code_len
start_code_len-take n b h = elim (Bool-cases (has_long_code b)) [
  | inl long ↦ rw long (long-take n b long)
  | inr not_long ↦ elim (Bool-cases (has_short_code b)) [
    | inl short ↦ rw (not_long, short) (short-take n b not_long short)
    | inr none_here ↦ absurd (h (rw (not_long, none_here)))
  ]
]
