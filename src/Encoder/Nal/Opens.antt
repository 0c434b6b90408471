-- ===== src/Encoder/Nal/Opens.antt =====
-- internal/encoder/nal.go, `startsNewAU`: which units begin an access unit, read off their bytes.
use simbeam.Prelude.{
  ℕ, ◌%◌, ◌≤◌, ◌≡◌, refl, ap, subst, ◌∙◌, ◌⊎◌, inl, inr, true, false, List, [], ◌∷◌, ◌++◌, arith,
  Bool-cases, ==_iff,
}
use simbeam.Encoder.Nal.{has_long_code, has_short_code, start_code_len, nal_type, starts_new_au}

abbrev pub IsCode : List ℕ → Type 0
IsCode code = (code ≡ 0 ∷ 0 ∷ 1 ∷ []) ⊎ (code ≡ 0 ∷ 0 ∷ 0 ∷ 1 ∷ [])

-- An SEI, a parameter set or a delimiter; or a slice whose `first_mb_in_slice` is 0, which is a first bit
-- of 1 behind the header. A slice that is cut off behind its header counts too.
abbrev pub Begins : List ℕ → Type 0
Begins [] = ⊥
Begins (header ∷ []) = (1 ≤ header % 32) × (header % 32 ≤ 9)
Begins (header ∷ first ∷ _) =
    ((6 ≤ header % 32) × (header % 32 ≤ 9))
    ⊎ ((1 ≤ header % 32) × (header % 32 ≤ 5) × (128 ≤ first % 256))

abbrev pub Opens : List ℕ → Type 0
Opens nal =
    (code : List ℕ) × (payload : List ℕ) × (nal ≡ code ++ payload) × IsCode code × Begins payload

short-starts :
    (payload : List ℕ)
    → Begins payload
    → starts_new_au (0 ∷ 0 ∷ 1 ∷ payload) (nal_type (0 ∷ 0 ∷ 1 ∷ payload)) ≡ true
unfolding starts_new_au nal_type start_code_len
short-starts [] b = absurd b
short-starts (h ∷ []) b = ground arith
short-starts (h ∷ p ∷ rest) b = ground arith

long-starts :
    (payload : List ℕ)
    → Begins payload
    → starts_new_au (0 ∷ 0 ∷ 0 ∷ 1 ∷ payload) (nal_type (0 ∷ 0 ∷ 0 ∷ 1 ∷ payload)) ≡ true
unfolding starts_new_au nal_type start_code_len
long-starts [] b = absurd b
long-starts (h ∷ []) b = ground arith
long-starts (h ∷ p ∷ rest) b = ground arith

starts-short :
    (payload : List ℕ)
    → starts_new_au (0 ∷ 0 ∷ 1 ∷ payload) (nal_type (0 ∷ 0 ∷ 1 ∷ payload)) ≡ true
    → Begins payload
unfolding starts_new_au nal_type start_code_len
starts-short [] b = ground arith
starts-short (h ∷ []) b = ground arith
starts-short (h ∷ p ∷ rest) b = ground arith

starts-long :
    (payload : List ℕ)
    → starts_new_au (0 ∷ 0 ∷ 0 ∷ 1 ∷ payload) (nal_type (0 ∷ 0 ∷ 0 ∷ 1 ∷ payload)) ≡ true
    → Begins payload
unfolding starts_new_au nal_type start_code_len
starts-long [] b = ground arith
starts-long (h ∷ []) b = ground arith
starts-long (h ∷ p ∷ rest) b = ground arith

-- A unit with no start code has no type.
off-starts : (nal : List ℕ) → start_code_len nal ≡ 0 → starts_new_au nal (nal_type nal) ≡ false
unfolding starts_new_au nal_type
off-starts nal off = rw off refl

abbrev Coded : List ℕ → Type 0
Coded nal =
    (start_code_len nal ≡ 0)
    ⊎ ((code : List ℕ) × (payload : List ℕ) × (nal ≡ code ++ payload) × IsCode code)

long-cases :
    (a b c : ℕ) (rest : List ℕ)
    → has_short_code (a ∷ b ∷ c ∷ rest) ≡ false
    → Coded (a ∷ b ∷ c ∷ rest)
unfolding start_code_len has_long_code has_short_code
long-cases a b c [] other = inl (ground arith)
long-cases a b c (d ∷ rest) other = elim (Bool-cases (has_long_code (a ∷ b ∷ c ∷ d ∷ rest))) [
  | inl long ↦ inr (
    0 ∷ 0 ∷ 0 ∷ 1 ∷ [],
    rest,
    ground (arith, ==_iff a 0, ==_iff b 0, ==_iff c 0, ==_iff d 1),
    inr refl,
  )
  | inr off ↦ inl (ground (arith, off))
]

code-cases : (nal : List ℕ) → Coded nal
unfolding start_code_len has_long_code has_short_code
code-cases [] = inl refl
code-cases (a ∷ []) = inl refl
code-cases (a ∷ b ∷ []) = inl refl
code-cases (a ∷ b ∷ c ∷ rest) = elim (Bool-cases (has_short_code (a ∷ b ∷ c ∷ rest))) [
  | inl short ↦ inr (0 ∷ 0 ∷ 1 ∷ [], rest, ground arith, inl refl)
  | inr other ↦ long-cases a b c rest other
]

abbrev Starts : List ℕ → Type 0
Starts nal = starts_new_au nal (nal_type nal) ≡ true

pub starts-Opens : (nal : List ℕ) → (starts_new_au nal (nal_type nal) ≡ true) → Opens nal
starts-Opens nal s = elim (code-cases nal) [
  | inl off ↦ absurd (cc (off-starts nal off, s))
  | inr (code, payload, e, inl short) ↦ (
    code,
    payload,
    e,
    inl short,
    starts-short payload (subst Starts (e ∙ ap (λ c. c ++ payload) short) s),
  )
  | inr (code, payload, e, inr long) ↦ (
    code,
    payload,
    e,
    inr long,
    starts-long payload (subst Starts (e ∙ ap (λ c. c ++ payload) long) s),
  )
]

pub Opens-starts : (nal : List ℕ) → Opens nal → starts_new_au nal (nal_type nal) ≡ true
Opens-starts nal (code, payload, e, inl short, b) = rw (e, short) (short-starts payload b)
Opens-starts nal (code, payload, e, inr long, b) = rw (e, long) (long-starts payload b)
