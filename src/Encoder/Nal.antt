-- ===== src/Encoder/Nal.antt =====
-- internal/encoder/nal.go: splitting an Annex-B stream into NAL units, and grouping the units into
-- access units. A byte is a number below 256 and a slice is a list of them.
mod Codes
mod Opens
pub mod Split
pub mod Assemble
use simbeam.Prelude.{
  ℕ, zero, suc, ◌+◌, ◌%◌, Bool, true, false, ◌&&◌, ◌||◌, Option, none, some, List, [], ◌∷◌, ◌++◌,
  leb, ◌==◌, if◌then◌else◌, length, take, drop, concat,
}

-- 00 00 00 01
unfoldable pub has_long_code : List ℕ → Bool
has_long_code (a ∷ b ∷ c ∷ d ∷ _) = a == 0 && b == 0 && c == 0 && d == 1
has_long_code _ = false

-- 00 00 01
unfoldable pub has_short_code : List ℕ → Bool
has_short_code (a ∷ b ∷ c ∷ _) = a == 0 && b == 0 && c == 1
has_short_code _ = false

unfoldable pub start_code_len : List ℕ → ℕ
unfolding has_long_code has_short_code
start_code_len b = if has_long_code b then 4 else if has_short_code b then 3 else 0

-- The loop over `i` walks the suffixes of the buffer; `none` is the source's -1.
unfoldable pub index_from : ℕ → List ℕ → Option ℕ
unfolding has_long_code has_short_code
index_from i [] = none
index_from i (x ∷ b) =
    let later = index_from (suc i) b in
    if has_short_code (x ∷ b) || has_long_code (x ∷ b) then some i else later

unfoldable pub index_start_code : List ℕ → Option ℕ
unfolding index_from
index_start_code b = index_from 0 b

-- The `for` loop on fuel; `none` means that the fuel ran out.
unfoldable pub split_loop : ℕ → List (List ℕ) → List ℕ → Option (List (List ℕ) × List ℕ)
split_loop zero nals remaining = none
split_loop (suc fuel) nals [] = some (nals, [])
split_loop (suc fuel) nals (x ∷ b) =
    if start_code_len (x ∷ b) == 0
    then some (nals, x ∷ b)
    else elim (index_start_code (drop (start_code_len (x ∷ b)) (x ∷ b))) [
      | none ↦ some (nals, x ∷ b)
      | some next ↦
          split_loop fuel (nals ++ take (start_code_len (x ∷ b) + next) (x ∷ b) ∷ [])
            (drop (start_code_len (x ∷ b) + next) (x ∷ b))
    ]

-- A round consumes at least one byte, so one round for each byte and one for the end suffice.
unfoldable pub split_nal_units : List ℕ → Option (List (List ℕ) × List ℕ)
unfolding split_loop start_code_len index_start_code
split_nal_units buf = split_loop (suc (length buf)) [] buf

-- The byte after the start code, read as `nal[sc]` by the callers below.
unfoldable byte_at : ℕ → List ℕ → ℕ
byte_at i [] = 0
byte_at zero (x ∷ b) = x
byte_at (suc i) (x ∷ b) = byte_at i b

-- `& 0x1f` keeps the low five bits.
unfoldable pub nal_type : List ℕ → ℕ
unfolding start_code_len byte_at
nal_type nal =
    if start_code_len nal == 0 || leb (length nal) (start_code_len nal)
    then 0
    else byte_at (start_code_len nal) nal % 32

unfoldable pub is_vcl : ℕ → Bool
is_vcl t = leb 1 t && leb t 5

-- `& 0x80 != 0` tests the top bit of the byte.
unfoldable vcl_starts_picture : List ℕ → Bool
unfolding start_code_len byte_at
vcl_starts_picture nal =
    if start_code_len nal == 0 || leb (length nal) (start_code_len nal + 1)
    then true
    else leb 128 (byte_at (start_code_len nal + 1) nal % 256)

unfoldable pub starts_new_au : List ℕ → ℕ → Bool
unfolding is_vcl vcl_starts_picture
starts_new_au nal t =
    if t == 6 || t == 7 || t == 8 || t == 9
    then true
    else if is_vcl t
    then vcl_starts_picture nal
    else false

pub record AuAssembler : Type 0 where
  pub cur : List (List ℕ)
  pub has_vcl : Bool

abbrev pub new_assembler : AuAssembler
new_assembler = record { cur = []; has_vcl = false }

-- The state that `push` appends to, and the unit that it completes (`nil` is `none`).
unfoldable pub flush_before : AuAssembler → List ℕ → AuAssembler × Option (List ℕ)
unfolding starts_new_au nal_type
flush_before a nal =
    if a.has_vcl && starts_new_au nal (nal_type nal)
    then (new_assembler, some (concat a.cur))
    else (a, none)

unfoldable pub push : AuAssembler → List ℕ → AuAssembler × Option (List ℕ)
unfolding flush_before
push a nal =
    let (b, done) = flush_before a nal in
    (record { cur = b.cur ++ nal ∷ []; has_vcl = b.has_vcl || is_vcl (nal_type nal) }, done)

abbrev pub emit : Option (List ℕ) → List (List ℕ) → List (List ℕ)
emit none later = later
emit (some unit) later = unit ∷ later

-- The loop of `Encode` over the units of one read: what is handed out, in order.
unfoldable pub push_all : AuAssembler → List (List ℕ) → AuAssembler × List (List ℕ)
unfolding push
push_all a [] = (a, [])
push_all a (nal ∷ nals) =
    let (b, done) = push a nal in let (c, later) = push_all b nals in (c, emit done later)
