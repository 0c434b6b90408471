-- ===== src/Encoder/Nal/Split.antt =====
-- internal/encoder/nal.go, `splitNALUnits`: the loop, the units it cuts, and a buffer that comes in
-- pieces.
use simbeam.Prelude.{
  ℕ, zero, suc, ◌+◌, ◌≤◌, ◌<◌, ◌≡◌, ◌≢◌, ◌⊎◌, refl, ap, sym, ◌∙◌, Option, none, some, List, [], ◌∷◌,
  ◌++◌, inl, inr, arith, Bool-cases, Option-cases, length, take, drop, take-append-drop, drop-take,
  length-append, length-drop, take-append, drop-append, drop-drop, concat, All, append_assoc,
  append-nil, ◌==◌, ==_iff, ==-eq-false,
}
use simbeam.Encoder.Nal.{start_code_len, index_start_code, split_loop, split_nal_units}
use simbeam.Encoder.Nal.Codes.{
  start_code_len-append, start_code_len-le, start_code_len-ge, index_from_bounds, index_from-append,
  index_from-take, index_from-at, start_code_len-take,
}

-- A unit begins with a start code and holds no other behind it.
abbrev IsUnit : List ℕ → Type 0
IsUnit nal = (start_code_len nal ≢ 0) × (index_start_code (drop (start_code_len nal) nal) ≡ none)

-- A buffer that does not begin with a start code is not cut at all; else the remainder begins with a start
-- code, which no other follows.
abbrev IsOpen : List ℕ → List (List ℕ) → List ℕ → Type 0
IsOpen buf nals rest = ((start_code_len buf ≡ 0) × (nals ≡ [])) ⊎ IsUnit rest

pub record IsSplit (buf : List ℕ) (nals : List (List ℕ)) (rest : List ℕ) : Type 0 where
  pub whole : concat nals ++ rest ≡ buf
  pub units : All IsUnit nals
  pub remainder : IsOpen buf nals rest

index_fits :
    (n next : ℕ) (b : List ℕ)
    → n ≤ length b
    → index_start_code (drop n b) ≡ some next
    → n + next + 3 ≤ length b
unfolding index_start_code
index_fits n next b h e = omega (arith, index_from_bounds 0 next (drop n b) e, length-drop n b)

index-IsUnit :
    (b : List ℕ) (next : ℕ)
    → start_code_len b ≢ 0
    → index_start_code (drop (start_code_len b) b) ≡ some next
    → IsUnit (take (start_code_len b + next) b)
unfolding index_start_code
index-IsUnit b next h e = rw (start_code_len-take next b h) (
  h,
  rw (drop-take (start_code_len b) next b)
      (index_from-take 0 next (drop (start_code_len b) b) (e ∙ ap some (omega arith))),
)

index-at :
    (b : List ℕ) (next : ℕ)
    → index_start_code (drop (start_code_len b) b) ≡ some next
    → start_code_len (drop (start_code_len b + next) b) ≢ 0
unfolding index_start_code
index-at b next e =
    rw (← drop-drop (start_code_len b) next b)
      (index_from-at 0 next (drop (start_code_len b) b) (e ∙ ap some (omega arith)))

abbrev Splits : Option (List (List ℕ) × List ℕ) → List (List ℕ) → List ℕ → Type 0
Splits result before b =
    (nals : List (List ℕ)) × (rest : List ℕ) × (result ≡ some (before ++ nals, rest))
    × IsSplit b nals rest

start_code_len-nil : start_code_len [] ≡ 0
unfolding start_code_len
start_code_len-nil = refl

Splits-here :
    (before : List (List ℕ)) (b : List ℕ) → IsOpen b [] b → Splits (some (before, b)) before b
Splits-here before b ended = (
  [],
  b,
  ap (λ l. some (l, b)) (sym (append-nil before)),
  record { whole = refl; units = tt; remainder = ended },
)

more-IsOpen :
    (b : List ℕ) (nals : List (List ℕ)) (rest buf nal : List ℕ)
    → start_code_len b ≢ 0
    → IsOpen b nals rest
    → IsOpen buf (nal ∷ nals) rest
more-IsOpen b nals rest buf nal on (inl (off, _)) = absurd (on off)
more-IsOpen b nals rest buf nal on (inr unit) = inr unit

Splits-unit :
    (n : ℕ) (before : List (List ℕ)) (b : List ℕ) {result : Option (List (List ℕ) × List ℕ)}
    → IsUnit (take n b)
    → start_code_len (drop n b) ≢ 0
    → Splits result (before ++ take n b ∷ []) (drop n b)
    → Splits result before b
Splits-unit n before b unit on (nals, rest, e, s) = (
  take n b ∷ nals,
  rest,
  e ∙ ap (λ l. some (l, rest)) (append_assoc before (take n b ∷ []) nals),
  record {
    whole =
        append_assoc (take n b) (concat nals) rest
        ∙ ap (◌++◌ (take n b)) s.whole
        ∙ take-append-drop n b;
    units = (unit, s.units);
    remainder = more-IsOpen (drop n b) nals rest b (take n b) on s.remainder;
  },
)

split_loop-Splits :
    (fuel : ℕ) (before : List (List ℕ)) (b : List ℕ)
    → length b < fuel
    → Splits (split_loop fuel before b) before b
unfolding split_loop
split_loop-Splits zero before b h = absurd (omega arith)
split_loop-Splits (suc fuel) before [] h = Splits-here before [] (inl (start_code_len-nil, refl))
split_loop-Splits (suc fuel) before (x ∷ b) h =
    let n = start_code_len (x ∷ b) in
    elim (Bool-cases (n == 0)) [
      | inl off ↦ rw off (Splits-here before (x ∷ b) (inl ((==_iff _ _).0 off, refl)))
      | inr on ↦ elim (Option-cases (index_start_code (drop n (x ∷ b)))) [
        | inl last ↦ rw (on, last) (Splits-here before (x ∷ b) (inr (ground arith, last)))
        | inr (next, e) ↦
            rw (on, e)
              (Splits-unit (n + next) before (x ∷ b) (index-IsUnit (x ∷ b) next (ground arith) e)
                (index-at (x ∷ b) next e)
                (split_loop-Splits fuel (before ++ take (n + next) (x ∷ b) ∷ [])
                  (drop (n + next) (x ∷ b)) (ground (arith, length-drop (n + next) (x ∷ b)))))
      ]
    ]

-- The loop does not depend on its fuel, once there is enough.
split_loop_fuel :
    (f g : ℕ) (before : List (List ℕ)) (b : List ℕ)
    → length b < f
    → length b < g
    → split_loop f before b ≡ split_loop g before b
unfolding split_loop
split_loop_fuel zero g before b h k = absurd (omega arith)
split_loop_fuel (suc f) zero before b h k = absurd (omega arith)
split_loop_fuel (suc f) (suc g) before [] h k = refl
split_loop_fuel (suc f) (suc g) before (x ∷ b) h k =
    let n = start_code_len (x ∷ b) in
    elim (Bool-cases (n == 0)) [
      | inl off ↦ rw off
      | inr on ↦ elim (Option-cases (index_start_code (drop n (x ∷ b)))) [
        | inl last ↦ rw (on, last)
        | inr (next, e) ↦
            rw (on, e)
              (split_loop_fuel f g (before ++ take (n + next) (x ∷ b) ∷ [])
                (drop (n + next) (x ∷ b)) (ground (arith, length-drop (n + next) (x ∷ b)))
                (ground (arith, length-drop (n + next) (x ∷ b))))
      ]
    ]

-- What is decided about a buffer stays decided when more bytes arrive.
index_start_code-append :
    (b c : List ℕ) (next : ℕ)
    → start_code_len b ≢ 0
    → index_start_code (drop (start_code_len b) b) ≡ some next
    → (start_code_len (b ++ c) ≡ start_code_len b)
      × (index_start_code (drop (start_code_len b) (b ++ c)) ≡ some next)
      × (start_code_len b + next ≤ length b)
unfolding index_start_code
index_start_code-append b c next h e =
    let n = start_code_len b in
    let fits = index_fits n next b (start_code_len-le b) e in
    let on = start_code_len-ge b h in
    (
      start_code_len-append b c (omega arith),
      rw (drop-append n b c (omega arith)) (index_from-append 0 next (drop n b) c e),
      omega arith,
    )

split_loop_step :
    (f next : ℕ) (before : List (List ℕ)) (b : List ℕ)
    → start_code_len b ≢ 0
    → index_start_code (drop (start_code_len b) b) ≡ some next
    → let n = start_code_len b + next in
      split_loop (suc f) before b ≡ split_loop f (before ++ take n b ∷ []) (drop n b)
unfolding split_loop
split_loop_step f next before [] h e = absurd (h start_code_len-nil)
split_loop_step f next before (x ∷ b) h e = rw ((==-eq-false _ 0 h), e)

resume :
    (g : ℕ) (before : List (List ℕ)) (b c : List ℕ) {nals : List (List ℕ)} {rest : List ℕ}
    → ◌≡◌ {A = Option (List (List ℕ) × List ℕ)} (some (before, b)) (some (nals, rest))
    → length (b ++ c) < g
    → split_loop g before (b ++ c) ≡ split_loop (suc (length (rest ++ c))) nals (rest ++ c)
resume g before b c {nals} {rest} e h =
    let p : before ≡ nals = cc in
    let q : b ≡ rest = cc in
    rw (← p, ← q) (split_loop_fuel g (suc (length (b ++ c))) before (b ++ c) h (omega arith))

split_loop-append :
    (f g : ℕ) (before : List (List ℕ)) (a c : List ℕ) {nals : List (List ℕ)} {rest : List ℕ}
    → split_loop f before a ≡ some (nals, rest)
    → length (a ++ c) < g
    → split_loop g before (a ++ c) ≡ split_loop (suc (length (rest ++ c))) nals (rest ++ c)
unfolding split_loop
split_loop-append zero g before a c e h = cc
split_loop-append (suc f) g before [] c e h = resume g before [] c e h
split_loop-append (suc f) zero before (x ∷ a) c e h = absurd (omega arith)
split_loop-append (suc f) (suc g) before (x ∷ a) c {nals} {rest} e h =
    let n = start_code_len (x ∷ a) in
    elim (Bool-cases (n == 0)) [
      | inl off ↦ resume (suc g) before (x ∷ a) c (ground arith) h
      | inr on ↦ elim (Option-cases (index_start_code (drop n (x ∷ a)))) [
        | inl last ↦ resume (suc g) before (x ∷ a) c (ground arith) h
        | inr (next, found) ↦
            let start : n ≢ 0 = (λ z. cc (on, (==_iff n 0).1 z)) in
            let (same, at, fits) = index_start_code-append (x ∷ a) c next start found in
            let more : split_loop f (before ++ take (n + next) (x ∷ a) ∷ [])
                  (drop (n + next) (x ∷ a))
                ≡ some (nals, rest) =
              sym (split_loop_step f next before (x ∷ a) start found) ∙ e in
            let k = n + next in
            let room : length (drop k (x ∷ a) ++ c) < g = omega (
              arith,
              length-append (drop k (x ∷ a)) c,
              length-drop k (x ∷ a),
              length-append a c,
              start_code_len-ge (x ∷ a) start,
            ) in
            split_loop_step g next before (x ∷ a ++ c) (λ z. start (sym same ∙ z)) (rw same at)
            ∙ rw (same, take-append k (x ∷ a) c fits, drop-append k (x ∷ a) c fits)
                (split_loop-append f g (before ++ take k (x ∷ a) ∷ []) (drop k (x ∷ a)) c more room)
      ]
    ]

-- The units found so far only stand in front of the result.
split_loop_before :
    (f : ℕ) (xs ys : List (List ℕ)) (b : List ℕ) {ns : List (List ℕ)} {r : List ℕ}
    → split_loop f ys b ≡ some (ns, r)
    → split_loop f (xs ++ ys) b ≡ some (xs ++ ns, r)
unfolding split_loop
split_loop_before zero xs ys b e = cc
split_loop_before (suc f) xs ys [] e = cc
split_loop_before (suc f) xs ys (x ∷ b) e =
    let n = start_code_len (x ∷ b) in
    elim (Bool-cases (n == 0)) [
      | inl off ↦ ground arith
      | inr on ↦ elim (Option-cases (index_start_code (drop n (x ∷ b)))) [
        | inl last ↦ ground arith
        | inr (next, found) ↦
            let k = n + next in
            rw (on, found, append_assoc xs ys (take k (x ∷ b) ∷ []))
              (split_loop_before f xs (ys ++ take k (x ∷ b) ∷ []) (drop k (x ∷ b)) (ground arith))
      ]
    ]

pub split_nal_units-IsSplit :
    (buf : List ℕ)
    → (nals : List (List ℕ)) × (rest : List ℕ) × (split_nal_units buf ≡ some (nals, rest))
      × IsSplit buf nals rest
unfolding split_nal_units
split_nal_units-IsSplit buf = split_loop-Splits (suc (length buf)) [] buf (omega arith)

-- Cutting the stream anywhere changes nothing: the units of `a ++ c` are those of `a`, then those
-- of the remainder of `a` followed by `c`; and the last remainder is the same.
pub split_nal_units-append :
    (a c : List ℕ) (nals : List (List ℕ)) (rest : List ℕ)
    → split_nal_units a ≡ some (nals, rest)
    → (more : List (List ℕ)) × (last : List ℕ) × (split_nal_units (rest ++ c) ≡ some (more, last))
      × (split_nal_units (a ++ c) ≡ some (nals ++ more, last))
unfolding split_nal_units
split_nal_units-append a c nals rest e =
    let (more, last, p, _) =
      split_loop-Splits (suc (length (rest ++ c))) [] (rest ++ c) (omega arith) in
    (
      more,
      last,
      p,
      split_loop-append (suc (length a)) (suc (length (a ++ c))) [] a c e (omega arith)
          ∙ ap (λ l. split_loop (suc (length (rest ++ c))) l (rest ++ c)) (sym (append-nil nals))
          ∙ split_loop_before (suc (length (rest ++ c))) nals [] (rest ++ c) p,
    )
