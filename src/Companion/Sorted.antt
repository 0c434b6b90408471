-- ===== src/Companion/Sorted.antt =====
-- internal/companion/companion.go, `parseSimctlDevices`: what stands in the list, and in which order.
use mathlib.Core.List.{Permᴰ}
use mathlib.Core.List.Permᴰ as PermD
use simbeam.Prelude.{
  ℕ, ◌≡◌, refl, sym, ap, subst, true, false, some, List, [], ◌∷◌, inl, inr, Bool-cases,
}
use simbeam.Companion.{
  Simulator, SimctlList, less, insert_sorted, sort_onto, flatten, parse_simctl_devices,
}
use simbeam.Companion.Listing.{
  less_trans, less_irrefl, AllListed, insert-before, insert-after, sorted, sorted-perm,
}

less_asym : (a b : Simulator) → less a b ≡ true → less b a ≡ false
less_asym a b p = elim (Bool-cases (less b a)) [
  | inl q ↦ absurd (cc (less_trans a b a p q, less_irrefl a))
  | inr q ↦ q
]

-- No simulator comes before the one in front of it.
abbrev SortedFrom : Simulator → List Simulator → Type 0
SortedFrom x [] = Unit
SortedFrom x (y ∷ l) = (less y x ≡ false) × SortedFrom y l

abbrev pub IsSorted : List Simulator → Type 0
IsSorted [] = Unit
IsSorted (x ∷ l) = SortedFrom x l

insert-SortedFrom :
    (x a : Simulator) (l : List Simulator)
    → less a x ≡ false
    → SortedFrom x l
    → SortedFrom x (insert_sorted a l)
unfolding insert_sorted
insert-SortedFrom x a [] h v = (h, tt)
insert-SortedFrom x a (y ∷ l) h (u, v) = elim (Bool-cases (less y a)) [
  | inl t ↦
      subst (SortedFrom x) (sym (insert-after a y l t))
        (u, insert-SortedFrom y a l (less_asym y a t) v)
  | inr f ↦ subst (SortedFrom x) (sym (insert-before a y l f)) (h, (f, v))
]

insert-IsSorted : (a : Simulator) (l : List Simulator) → IsSorted l → IsSorted (insert_sorted a l)
unfolding insert_sorted
insert-IsSorted a [] v = tt
insert-IsSorted a (y ∷ l) v = elim (Bool-cases (less y a)) [
  | inl t ↦
      subst IsSorted (sym (insert-after a y l t)) (insert-SortedFrom y a l (less_asym y a t) v)
  | inr f ↦ subst IsSorted (sym (insert-before a y l f)) (f, v)
]

sort_onto-IsSorted : (xs : List Simulator) → IsSorted (sort_onto xs [])
unfolding sort_onto
sort_onto-IsSorted [] = tt
sort_onto-IsSorted (x ∷ xs) = insert-IsSorted x (sort_onto xs []) (sort_onto-IsSorted xs)

insert-perm : (a : Simulator) (l : List Simulator) → Permᴰ (a ∷ l) (insert_sorted a l)
unfolding insert_sorted
insert-perm a [] = PermD.refl (a ∷ [])
insert-perm a (y ∷ l) = elim (Bool-cases (less y a)) [
  | inl t ↦
      subst (Permᴰ (a ∷ y ∷ l)) (sym (insert-after a y l t))
        (Permᴰ.trans (Permᴰ.swap refl refl) (Permᴰ.cons refl (insert-perm a l)))
  | inr f ↦ subst (Permᴰ (a ∷ y ∷ l)) (sym (insert-before a y l f)) (PermD.refl (a ∷ y ∷ l))
]

sort_onto-perm : (xs : List Simulator) → Permᴰ xs (sort_onto xs [])
unfolding sort_onto
sort_onto-perm [] = Permᴰ.nil
sort_onto-perm (x ∷ xs) =
    Permᴰ.trans (Permᴰ.cons refl (sort_onto-perm xs)) (insert-perm x (sort_onto xs []))

module _ (registry : List ℕ → Simulator) where
  -- Go iterates over a map in any order. If every device that is kept is the one that its UDID names, then
  -- two iterations over the same runtimes, in whatever order each of them meets them, give the same list:
  -- it has every device that is kept, as often as it was met, and no simulator comes before the one in
  -- front of it.
  pub parse-perm :
      (es fs : SimctlList)
      → Permᴰ es fs
      → AllListed registry es
      → (sims : List Simulator) × (parse_simctl_devices (some es) ≡ some sims)
        × (parse_simctl_devices (some fs) ≡ some sims)
        × Permᴰ (flatten es) sims
        × IsSorted sims
  unfolding parse_simctl_devices sorted
  parse-perm es fs π v = (
    sort_onto (flatten es) [],
    refl,
    ap some (sym (sorted-perm registry π v)),
    sort_onto-perm (flatten es),
    sort_onto-IsSorted (flatten es),
  )
