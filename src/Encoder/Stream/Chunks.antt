-- ===== src/Encoder/Stream/Chunks.antt =====
-- internal/encoder/ffmpeg.go: the access units of a byte stream that comes in several reads.
use simbeam.Prelude.{
  ℕ, ◌≡◌, refl, ap, sym, ◌∙◌, Option, some, List, [], ◌∷◌, ◌++◌, arith, concat, append-nil,
  append_assoc, length, length-append,
}
use simbeam.Encoder.Nal.{AuAssembler, new_assembler, push_all, split_nal_units}
use simbeam.Encoder.Nal.Split.{split_nal_units-append, split_nal_units-IsSplit}
use simbeam.Encoder.Nal.Assemble.{push_all-append}
use simbeam.Encoder.Stream.{Reader, new_reader, read_chunk, read_all}

eq-nil_of_append {ℓ} : {A : Type ℓ} (xs ys : List A) → xs ++ ys ≡ xs → ys ≡ []
eq-nil_of_append xs [] e = refl
eq-nil_of_append xs (y ∷ ys) e = absurd (omega (arith, ap length e, length-append xs (y ∷ ys)))

-- What is left over by one split is left over whole by the next.
split_rest :
    (a rest : List ℕ) (nals : List (List ℕ))
    → split_nal_units a ≡ some (nals, rest)
    → split_nal_units rest ≡ some ([], rest)
split_rest a rest nals e =
    let (more, last, p, q) = split_nal_units-append a [] nals rest e in
    let both : some (nals ++ more, last) ≡ some (nals, rest) =
      sym q ∙ ap split_nal_units (append-nil a) ∙ e in
    let no_more = eq-nil_of_append nals more (cc both) in
    let same : last ≡ rest = cc both in
    ap split_nal_units (sym (append-nil rest)) ∙ p ∙ (rw (no_more, same))

abbrev pub after : AuAssembler → List (List ℕ) → List ℕ → Option (Reader × List (List ℕ))
after asm nals rest =
    some (record { buf = rest; asm = (push_all asm nals).0 }, (push_all asm nals).1)

read_chunk_lem :
    (r : Reader) (x : ℕ) (chunk rest : List ℕ) (nals : List (List ℕ))
    → split_nal_units (r.buf ++ x ∷ chunk) ≡ some (nals, rest)
    → read_chunk r (x ∷ chunk) ≡ after r.asm nals rest
unfolding read_chunk
read_chunk_lem r x chunk rest nals e = rw e

read_all_step :
    (r n last : Reader) (chunk : List ℕ) (chunks us vs : List (List ℕ))
    → read_chunk r chunk ≡ some (n, us)
    → read_all n chunks ≡ some (last, vs)
    → read_all r (chunk ∷ chunks) ≡ some (last, us ++ vs)
unfolding read_all
read_all_step r n last chunk chunks us vs p q = rw (p, q)

push_all_nil : (asm : AuAssembler) → push_all asm [] ≡ (asm, [])
unfolding push_all
push_all_nil asm = refl

read_none : (r : Reader) → read_chunk r [] ≡ some (r, [])
unfolding read_chunk
read_none r = refl

read_end : (r : Reader) → read_all r [] ≡ some (r, [])
unfolding read_all
read_end r = refl

after-append :
    (asm : AuAssembler) (xs ys : List (List ℕ)) (rest : List ℕ)
    → ◌≡◌ {A = Option (Reader × List (List ℕ))}
        (some (
          record { buf = rest; asm = (push_all (push_all asm xs).0 ys).0 },
          (push_all asm xs).1 ++ (push_all (push_all asm xs).0 ys).1,
        ))
        (after asm (xs ++ ys) rest)
after-append asm xs ys rest =
    ap (λ p. some (record { buf = rest; asm = p.0 }, p.1)) (sym (push_all-append asm xs ys))

read_all_lem :
    (r : Reader) (chunks : List (List ℕ)) (nals : List (List ℕ)) (rest : List ℕ)
    → split_nal_units r.buf ≡ some ([], r.buf)
    → split_nal_units (r.buf ++ concat chunks) ≡ some (nals, rest)
    → read_all r chunks ≡ after r.asm nals rest
read_all_lem r [] nals rest waits e =
    let both : some ([], r.buf) ≡ some (nals, rest) =
      sym waits ∙ ap split_nal_units (sym (append-nil r.buf)) ∙ e in
    let p : [] ≡ nals = cc both in
    let q : r.buf ≡ rest = cc both in read_end r ∙ rw (← p, ← q, push_all_nil)
read_all_lem r ([] ∷ chunks) nals rest waits e =
    read_all_step r r _ [] chunks [] _ (read_none r) (read_all_lem r chunks nals rest waits e)
read_all_lem r ((x ∷ chunk) ∷ chunks) nals rest waits e =
    let c = x ∷ chunk in
    let (ns, left, split, _) = split_nal_units-IsSplit (r.buf ++ c) in
    let (more, last, p, q) = split_nal_units-append (r.buf ++ c) (concat chunks) ns left split in
    let both : some (ns ++ more, last) ≡ some (nals, rest) =
      sym q ∙ ap split_nal_units (append_assoc r.buf c (concat chunks)) ∙ e in
    let all : ns ++ more ≡ nals = cc both in
    let same : last ≡ rest = cc both in
    let n : Reader = record { buf = left; asm = (push_all r.asm ns).0 } in
    read_all_step r n _ c chunks _ _ (read_chunk_lem r x chunk left ns split)
      (read_all_lem n chunks more last (split_rest (r.buf ++ c) left ns split) p)
    ∙ after-append r.asm ns more last
    ∙ rw (all, same)

split_nil : split_nal_units [] ≡ some ([], [])
unfolding split_nal_units
split_nil = refl

-- However the stream is cut into reads, the loop never runs out of fuel, and it ends with the access
-- units, the waiting bytes and the forming group that come from splitting all the bytes at once.
pub read_all-concat :
    (chunks : List (List ℕ))
    → (nals : List (List ℕ)) × (rest : List ℕ) × (split_nal_units (concat chunks)
        ≡ some (nals, rest))
      × (read_all new_reader chunks ≡ after new_assembler nals rest)
read_all-concat chunks =
    let (nals, rest, e, _) = split_nal_units-IsSplit (concat chunks) in
    (nals, rest, e, read_all_lem new_reader chunks nals rest split_nil e)
