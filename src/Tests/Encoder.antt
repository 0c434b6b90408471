-- ===== src/Tests/Encoder.antt =====
-- The video pipeline on a short stream: a parameter set, a picture, and the start of the next one.
use simbeam.Prelude.{ℕ, ◌≡◌, refl, true, some, List, [], ◌∷◌, ◌++◌, concat}
use simbeam.Encoder.Nal.{new_assembler, push_all, split_nal_units}
use simbeam.Encoder.Nal.Assemble.{IsGrouped, new_assembler-IsForming, push_all-IsGrouped}
use simbeam.Encoder.Stream.{new_reader, read_chunk, read_all}
use simbeam.Encoder.Stream.Chunks.{after, read_all-concat}

abbrev sps : List ℕ
sps = 0 ∷ 0 ∷ 0 ∷ 1 ∷ 103 ∷ 7 ∷ []

abbrev idr : List ℕ
idr = 0 ∷ 0 ∷ 1 ∷ 101 ∷ 200 ∷ []

abbrev slice : List ℕ
slice = 0 ∷ 0 ∷ 1 ∷ 65 ∷ 129 ∷ []

split_two : split_nal_units (sps ++ (idr ++ slice)) ≡ some (sps ∷ idr ∷ [], slice)
unfolding split_nal_units
split_two = refl

push_three : (push_all new_assembler (sps ∷ idr ∷ slice ∷ [])).1 ≡ (sps ++ idr) ∷ []
unfolding push_all
push_three = refl

-- The cut falls inside the second start code.
read_two :
    read_all new_reader ((sps ++ 0 ∷ 0 ∷ []) ∷ (1 ∷ 101 ∷ 200 ∷ slice ++ slice) ∷ [])
    ≡ some (
      record { buf = slice; asm = record { cur = slice ∷ []; has_vcl = true } },
      (sps ++ idr) ∷ [],
    )
unfolding read_all read_chunk split_nal_units push_all
read_two = refl

push_all-IsGrouped_example :
    IsGrouped new_assembler
      (push_all new_assembler (sps ∷ idr ∷ slice ∷ [])).0
      (sps ∷ idr ∷ slice ∷ [])
      (push_all new_assembler (sps ∷ idr ∷ slice ∷ [])).1
push_all-IsGrouped_example =
    push_all-IsGrouped new_assembler (sps ∷ idr ∷ slice ∷ []) new_assembler-IsForming

read_all-concat_example :
    (nals : List (List ℕ)) × (rest : List ℕ) × (split_nal_units (concat (sps ∷ idr ∷ slice ∷ []))
      ≡ some (nals, rest))
    × (read_all new_reader (sps ∷ idr ∷ slice ∷ []) ≡ after new_assembler nals rest)
read_all-concat_example = read_all-concat (sps ∷ idr ∷ slice ∷ [])
