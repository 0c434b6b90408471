-- ===== src/Encoder/Nal/Assemble.antt =====
-- internal/encoder/nal.go, `auAssembler`: what the access units that `push` hands out are made of.
use simbeam.Prelude.{
  ◌≡◌, refl, ap, subst, sym, ◌∙◌, true, false, Option, none, some, ℕ, List, [], ◌∷◌, ◌++◌, ◌⊎◌, inl,
  inr, arith, Bool-cases, concat, All, All-append, append_assoc, append-nil, map, ◌||◌,
}
use simbeam.Encoder.Nal.Opens.{Opens, starts-Opens, Opens-starts}
use simbeam.Encoder.Nal.{
  AuAssembler, new_assembler, nal_type, is_vcl, starts_new_au, flush_before, push, emit, push_all,
}

abbrev NotVcl : List ℕ → Type 0
NotVcl nal = is_vcl (nal_type nal) ≡ false

-- Neither a delimiter, a parameter set, an SEI nor the first slice of a picture.
abbrev Continues : List ℕ → Type 0
Continues nal = ¬ Opens nal

abbrev OpensFirst : List (List ℕ) → Type 0
OpensFirst [] = ⊥
OpensFirst (nal ∷ _) = Opens nal

-- Behind each group, what follows begins with a unit that opens an access unit.
abbrev AreCut : List (List (List ℕ)) → (forming : List (List ℕ)) → Type 0
AreCut [] forming = Unit
AreCut (group ∷ groups) forming = OpensFirst (concat groups ++ forming) × AreCut groups forming

not_starts-Continues : (nal : List ℕ) → starts_new_au nal (nal_type nal) ≡ false → Continues nal
not_starts-Continues nal e o = cc (e, Opens-starts nal o)

-- One picture: leading units with no slice, a slice, and units that do not open another picture.
pub record IsPicture (group : List (List ℕ)) : Type 0 where
  pub lead : List (List ℕ)
  pub slice : List ℕ
  pub rest : List (List ℕ)
  pub parts : lead ++ slice ∷ rest ≡ group
  pub lead-NotVcl : All NotVcl lead
  pub slice_vcl : is_vcl (nal_type slice) ≡ true
  pub rest-Continues : All Continues rest

-- The state of the assembler: a picture once a slice is in, and only leading units before.
pub record IsForming (a : AuAssembler) : Type 0 where
  pub started : a.has_vcl ≡ true → IsPicture a.cur
  pub waiting : a.has_vcl ≡ false → All NotVcl a.cur

IsPicture-first :
    (cur : List (List ℕ)) (nal : List ℕ)
    → All NotVcl cur
    → is_vcl (nal_type nal) ≡ true
    → IsPicture (cur ++ nal ∷ [])
IsPicture-first cur nal before vcl = record {
  lead = cur;
  slice = nal;
  rest = [];
  parts = refl;
  lead-NotVcl = before;
  slice_vcl = vcl;
  rest-Continues = tt;
}

IsPicture-more :
    (cur : List (List ℕ)) (nal : List ℕ)
    → IsPicture cur
    → Continues nal
    → IsPicture (cur ++ nal ∷ [])
IsPicture-more cur nal p c = record {
  lead = p.lead;
  slice = p.slice;
  rest = p.rest ++ nal ∷ [];
  parts = sym (append_assoc p.lead (p.slice ∷ p.rest) (nal ∷ [])) ∙ ap (λ l. l ++ nal ∷ []) p.parts;
  lead-NotVcl = p.lead-NotVcl;
  slice_vcl = p.slice_vcl;
  rest-Continues = All-append Continues p.rest (nal ∷ []) p.rest-Continues (c, tt);
}

abbrev appended : AuAssembler → List ℕ → AuAssembler
appended b nal = record { cur = b.cur ++ nal ∷ []; has_vcl = b.has_vcl || is_vcl (nal_type nal) }

-- A unit may join a group that has no slice yet, or that it continues.
appended-IsForming :
    (b : AuAssembler) (nal : List ℕ)
    → IsForming b
    → (b.has_vcl ≡ false) ⊎ Continues nal
    → IsForming (appended b nal)
appended-IsForming b nal f joins = elim (Bool-cases b.has_vcl) [
  | inl has ↦ record {
    started = λ _. IsPicture-more b.cur nal (f.started has) (ground arith);
    waiting = λ h. absurd (ground arith);
  }
  | inr has_not ↦ elim (Bool-cases (is_vcl (nal_type nal))) [
    | inl vcl ↦ record {
      started = λ _. IsPicture-first b.cur nal (f.waiting has_not) vcl;
      waiting = λ h. absurd (ground arith);
    }
    | inr other ↦ record {
      started = λ h. absurd (ground arith);
      waiting = λ _. All-append NotVcl b.cur (nal ∷ []) (f.waiting has_not) (other, tt);
    }
  ]
]

pub new_assembler-IsForming : IsForming new_assembler
new_assembler-IsForming = record { started = λ h. cc; waiting = λ _. tt }

-- What one `push` does: it hands out the group as it stands and starts a new one, exactly when a
-- slice is in and the unit opens another picture; otherwise the unit joins the group.
push_cases :
    (a : AuAssembler) (nal : List ℕ)
    → ((a.has_vcl ≡ true)
        × (starts_new_au nal (nal_type nal) ≡ true)
        × (push a nal ≡ (appended new_assembler nal, some (concat a.cur))))
      ⊎ (((a.has_vcl ≡ false) ⊎ Continues nal) × (push a nal ≡ (appended a nal, none)))
unfolding push
push_cases a nal = elim (Bool-cases a.has_vcl) [
  | inr has_not ↦ inr (inl has_not, rw (has_not, flush_before))
  | inl has ↦ elim (Bool-cases (starts_new_au nal (nal_type nal))) [
    | inl starts ↦ inl (has, starts, rw (has, starts, flush_before))
    | inr continues ↦
        inr (inr (not_starts-Continues nal continues), rw (has, continues, flush_before))
  ]
]

push_all_step :
    (a b : AuAssembler) (nal : List ℕ) (nals : List (List ℕ)) (handed : Option (List ℕ))
    → push a nal ≡ (b, handed)
    → push_all a (nal ∷ nals) ≡ ((push_all b nals).0, emit handed (push_all b nals).1)
unfolding push_all
push_all_step a b nal nals handed e =
    ap (λ p. ((push_all p.0 nals).0, emit p.1 (push_all p.0 nals).1)) e

emit-append {κ} :
    {A : Type κ} {a : A} (handed : Option (List ℕ)) (xs ys : List (List ℕ))
    → ◌≡◌ {A = A × List (List ℕ)} (a, emit handed (xs ++ ys)) (a, emit handed xs ++ ys)
emit-append none xs ys = refl
emit-append (some unit) xs ys = refl

pub push_all-append :
    (a : AuAssembler) (xs ys : List (List ℕ))
    → push_all a (xs ++ ys)
      ≡ ((push_all (push_all a xs).0 ys).0, (push_all a xs).1 ++ (push_all (push_all a xs).0 ys).1)
unfolding push_all
push_all-append a [] ys = refl
push_all-append a (x ∷ xs) ys =
    rw (push_all-append (push a x).0 xs ys) (emit-append (push a x).1 _ _)

pub record IsGrouped (a b : AuAssembler) (nals : List (List ℕ)) (done : List (List ℕ))
    : Type 0 where
  pub groups : List (List (List ℕ))
  pub units : done ≡ map concat groups
  pub pictures : All IsPicture groups
  pub cut : AreCut groups b.cur
  pub whole : concat groups ++ b.cur ≡ a.cur ++ nals
  pub forming : IsForming b

push_all-IsGrouped_nil :
    (a : AuAssembler) → IsForming a → IsGrouped a (push_all a []).0 [] (push_all a []).1
unfolding push_all
push_all-IsGrouped_nil a f = record {
  groups = [];
  units = refl;
  pictures = tt;
  cut = tt;
  whole = sym (append-nil a.cur);
  forming = f;
}

-- Whatever units are pushed, in order: each access unit that is handed out joins the bytes of a group of
-- units, and the groups followed by the one that is still forming are the units pushed, in their order, none
-- lost and none twice. A group holds leading units, a slice, and units that do not open an access unit; and
-- the unit behind a group does open one: it is a delimiter, a parameter set, an SEI or the first slice of a
-- picture. So no picture of several slices is torn.
pub push_all-IsGrouped :
    (a : AuAssembler) (nals : List (List ℕ))
    → IsForming a
    → IsGrouped a (push_all a nals).0 nals (push_all a nals).1
push_all-IsGrouped a [] f = push_all-IsGrouped_nil a f
push_all-IsGrouped a (nal ∷ nals) f = elim (push_cases a nal) [
  | inl (has, starts, e) ↦
      let rest =
        push_all-IsGrouped (appended new_assembler nal) nals
          (appended-IsForming new_assembler nal new_assembler-IsForming (inl refl)) in
      rw (push_all_step _ _ nal nals _ e) (record {
        groups = a.cur ∷ rest.groups;
        units = ap (◌∷◌ (concat a.cur)) rest.units;
        pictures = (f.started has, rest.pictures);
        cut = (subst OpensFirst (sym rest.whole) (starts-Opens nal starts), rest.cut);
        whole = append_assoc a.cur (concat rest.groups) _ ∙ ap (◌++◌ a.cur) rest.whole;
        forming = rest.forming;
      })
  | inr (joins, e) ↦
      let rest = push_all-IsGrouped (appended a nal) nals (appended-IsForming a nal f joins) in
      rw (push_all_step _ _ nal nals _ e) (record {
        groups = rest.groups;
        units = rest.units;
        pictures = rest.pictures;
        cut = rest.cut;
        whole = rest.whole ∙ append_assoc a.cur (nal ∷ []) nals;
        forming = rest.forming;
      })
]
