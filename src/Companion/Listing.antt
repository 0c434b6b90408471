-- ===== src/Companion/Listing.antt =====
-- internal/companion/companion.go, `parseSimctlDevices`: the list of simulators, whatever the order in which
-- the map is iterated.
use mathlib.Core.List.{Permᴰ}
use simbeam.Prelude.{
  ℕ, ◌≡◌, refl, sym, ap, ap₂, subst, ◌∙◌, arith, true, false, not, ◌⊎◌, inl, inr, List, [], ◌∷◌,
  ◌++◌, Bool-cases, All,
}
use simbeam.Companion.Order.{
  numbers, numbers-IsOrdered, list_eq, list_less, lists, list-IsOrdered, text_eq, text_less,
  IsOrdered,
}
use simbeam.Companion.{
  Simulator, SimctlDevice, SimctlList, less, insert_sorted, sort_onto, flatten, runtime_devices,
}

abbrev key : Simulator → List (List ℕ)
key s = s.name ∷ s.os_version ∷ s.udid ∷ []

texts-IsOrdered : IsOrdered (lists numbers)
texts-IsOrdered = list-IsOrdered numbers numbers-IsOrdered

keys-IsOrdered : IsOrdered (lists (lists numbers))
keys-IsOrdered = list-IsOrdered (lists numbers) texts-IsOrdered

equal-less : (a b : List ℕ) → text_eq a b ≡ true → text_less a b ≡ false
equal-less a b h = rw (texts-IsOrdered.eq_sound a b h) (texts-IsOrdered.less_irrefl b)

-- The order of the source is that of the keys.
less-key : (a b : Simulator) → less a b ≡ list_less (lists numbers) (key a) (key b)
unfolding less
less-key a b = ground (arith, equal-less a.udid b.udid)

pub less_trans : (a b c : Simulator) → less a b ≡ true → less b c ≡ true → less a c ≡ true
less_trans a b c p q =
    less-key a c
    ∙ keys-IsOrdered.less_trans (key a) (key b) (key c) (sym (less-key a b) ∙ p)
        (sym (less-key b c) ∙ q)

pub less_irrefl : (a : Simulator) → less a a ≡ false
less_irrefl a = less-key a a ∙ keys-IsOrdered.less_irrefl (key a)

-- A simulator that is what its UDID says it is.
abbrev IsListed : (registry : List ℕ → Simulator) → Simulator → Type 0
IsListed registry s = s ≡ registry s.udid

key-udid : (a b : Simulator) → key a ≡ key b → a.udid ≡ b.udid
key-udid a b e = cc e

pub insert-before :
    (a x : Simulator) (l : List Simulator) → less x a ≡ false → insert_sorted a (x ∷ l) ≡ a ∷ x ∷ l
unfolding insert_sorted
insert-before a x l h = rw h refl

pub insert-after :
    (a x : Simulator) (l : List Simulator)
    → less x a ≡ true
    → insert_sorted a (x ∷ l) ≡ x ∷ insert_sorted a l
unfolding insert_sorted
insert-after a x l h = rw h refl

module _ (registry : List ℕ → Simulator) where
  compare-listed :
      (a b : Simulator)
      → IsListed registry a
      → IsListed registry b
      → (a ≡ b) ⊎ (less b a ≡ not (less a b))
  compare-listed a b v w = elim (Bool-cases (list_eq (lists numbers) (key a) (key b))) [
    | inl t ↦
        let same = key-udid a b (keys-IsOrdered.eq_sound (key a) (key b) t) in
        inl (v ∙ ap registry same ∙ sym w)
    | inr f ↦
        inr
          (less-key b a ∙ keys-IsOrdered.less_total (key a) (key b) f ∙ ap not (sym (less-key a b)))
  ]

  -- The smaller one, `a`, goes in before or after the other.
  insert_smaller :
      (a b : Simulator) (l : List Simulator)
      → less a b ≡ true
      → less b a ≡ false
      → insert_sorted a (insert_sorted b l) ≡ insert_sorted b (insert_sorted a l)
  unfolding insert_sorted
  insert_smaller a b [] p q = ground (arith, p, q)
  insert_smaller a b (x ∷ l) p q = elim (Bool-cases (less x b)) [
    | inl t ↦ elim (Bool-cases (less x a)) [
      | inl u ↦
          ap (insert_sorted a) (insert-after b x l t)
          ∙ insert-after a x (insert_sorted b l) u
          ∙ ap (◌∷◌ x) (insert_smaller a b l p q)
          ∙ sym (insert-after b x (insert_sorted a l) t)
          ∙ ap (insert_sorted b) (sym (insert-after a x l u))
      | inr u ↦
          ap (insert_sorted a) (insert-after b x l t)
          ∙ insert-before a x (insert_sorted b l) u
          ∙ ap (◌∷◌ a) (sym (insert-after b x l t))
          ∙ sym (insert-after b a (x ∷ l) p)
          ∙ ap (insert_sorted b) (sym (insert-before a x l u))
    ]
    | inr t ↦
        let u : less x a ≡ false = ground (arith, t, p, less_trans x a b) in
        ap (insert_sorted a) (insert-before b x l t)
        ∙ insert-before a b (x ∷ l) q
        ∙ ap (◌∷◌ a) (sym (insert-before b x l t))
        ∙ sym (insert-after b a (x ∷ l) p)
        ∙ ap (insert_sorted b) (sym (insert-before a x l u))
  ]

  insert-insert :
      (a b : Simulator) (l : List Simulator)
      → IsListed registry a
      → IsListed registry b
      → insert_sorted a (insert_sorted b l) ≡ insert_sorted b (insert_sorted a l)
  insert-insert a b l v w = elim (compare-listed a b v w) [
    | inl same ↦ rw same refl
    | inr c ↦ elim (Bool-cases (less a b)) [
      | inl t ↦ insert_smaller a b l t (c ∙ ap not t)
      | inr t ↦ sym (insert_smaller b a l (c ∙ ap not t) t)
    ]
  ]

  insert-sort_onto :
      (a : Simulator) (xs l : List Simulator)
      → IsListed registry a
      → All (IsListed registry) xs
      → insert_sorted a (sort_onto xs l) ≡ sort_onto xs (insert_sorted a l)
  unfolding sort_onto
  insert-sort_onto a [] l v vs = refl
  insert-sort_onto a (x ∷ xs) l v (w, vs) =
      insert-insert a x (sort_onto xs l) v w ∙ ap (insert_sorted x) (insert-sort_onto a xs l v vs)

  sort_onto-swap :
      (xs ys l : List Simulator)
      → All (IsListed registry) xs
      → All (IsListed registry) ys
      → sort_onto xs (sort_onto ys l) ≡ sort_onto ys (sort_onto xs l)
  unfolding sort_onto
  sort_onto-swap [] ys l vs ws = refl
  sort_onto-swap (x ∷ xs) ys l (v, vs) ws =
      ap (insert_sorted x) (sort_onto-swap xs ys l vs ws)
      ∙ insert-sort_onto x ys (sort_onto xs l) v ws

  sort_onto-append :
      (xs ys l : List Simulator) → sort_onto (xs ++ ys) l ≡ sort_onto xs (sort_onto ys l)
  unfolding sort_onto
  sort_onto-append [] ys l = refl
  sort_onto-append (x ∷ xs) ys l = ap (insert_sorted x) (sort_onto-append xs ys l)

  -- What every iteration over the map finds.
  abbrev pub AllListed : SimctlList → Type 0
  AllListed entries = All (λ entry. All (IsListed registry) (runtime_devices entry)) entries

  sorted-cons :
      (entry : List ℕ × List SimctlDevice) (entries : SimctlList)
      → sort_onto (flatten (entry ∷ entries)) []
        ≡ sort_onto (runtime_devices entry) (sort_onto (flatten entries) [])
  unfolding flatten
  sorted-cons entry entries = sort_onto-append (runtime_devices entry) (flatten entries) []

  abbrev Listed : List ℕ × List SimctlDevice → Type 0
  Listed entry = All (IsListed registry) (runtime_devices entry)

  AllListed-perm : {es fs : SimctlList} → Permᴰ es fs → AllListed es → AllListed fs
  AllListed-perm Permᴰ.nil v = v
  AllListed-perm (Permᴰ.cons p π) (v, vs) = (subst Listed p v, AllListed-perm π vs)
  AllListed-perm (Permᴰ.swap {l} p q) (v, (w, vs)) = (subst Listed q w, (subst Listed p v, vs))
  AllListed-perm (Permᴰ.trans π ρ) v = AllListed-perm ρ (AllListed-perm π v)

  unfoldable pub sorted : SimctlList → List Simulator
  sorted es = sort_onto (flatten es) []

  sorted-swap :
      (a b : List ℕ × List SimctlDevice) (l : SimctlList)
      → Listed a
      → Listed b
      → sorted (a ∷ b ∷ l) ≡ sorted (b ∷ a ∷ l)
  unfolding sorted
  sorted-swap a b l v w =
      sorted-cons a (b ∷ l)
      ∙ ap (sort_onto (runtime_devices a)) (sorted-cons b l)
      ∙ sort_onto-swap (runtime_devices a) (runtime_devices b) (sort_onto (flatten l) []) v w
      ∙ ap (sort_onto (runtime_devices b)) (sym (sorted-cons a l))
      ∙ sym (sorted-cons b (a ∷ l))

  pub sorted-perm : {es fs : SimctlList} → Permᴰ es fs → AllListed es → sorted es ≡ sorted fs
  unfolding sorted
  sorted-perm Permᴰ.nil v = refl
  sorted-perm (Permᴰ.cons {a} {b} {l₁} {l₂} p π) (v, vs) =
      sorted-cons a l₁
      ∙ ap₂ (λ e done. sort_onto (runtime_devices e) done) p (sorted-perm π vs)
      ∙ sym (sorted-cons b l₂)
  sorted-perm (Permᴰ.swap {a} {b} {a'} {b'} {l} p q) (v, (w, vs)) =
      sorted-swap a b l v w ∙ ap₂ (λ x y. sorted (x ∷ y ∷ l)) q p
  sorted-perm (Permᴰ.trans π ρ) v = sorted-perm π v ∙ sorted-perm ρ (AllListed-perm π v)
