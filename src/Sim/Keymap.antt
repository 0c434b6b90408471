-- ===== src/Sim/Keymap.antt =====
-- internal/backend/sim/keymap.go: the table from the name of a key to its USB HID usage and shift.
use simbeam.Prelude.{
  ℕ, suc, ◌≡◌, refl, sym, ◌∙◌, arith, Bool, true, false, not, ◌&&◌, Option, some, String, List, [],
  ◌∷◌, ◌==◌, str_eq, eq_iff, ==_iff, ◌⊎◌, inl, inr, ◌≢◌, if◌then◌else◌, any, lookup, insert,
}

pub record Usage : Type 0 where
  pub usage : ℕ
  pub shift : Bool

abbrev KeyTable : Type 0
KeyTable = List (String × Usage)

abbrev add : String → ℕ → Bool → KeyTable → KeyTable
add key usage shift t = insert key (record { usage = usage; shift = shift }) t

-- One key for each character, with usages that go up from the given one.
abbrev add_all : String → ℕ → Bool → KeyTable → KeyTable
add_all String.[] usage shift t = t
add_all (String.◌∷◌ c s) usage shift t =
    add_all s (suc usage) shift (add (String.◌∷◌ c String.[]) usage shift t)

-- Shifted digit symbols
abbrev shifted_digits : List (String × ℕ × Bool)
shifted_digits =
    ("!", 30, true)
    ∷ ("@", 31, true)
    ∷ ("#", 32, true)
    ∷ ("$", 33, true)
    ∷ ("%", 34, true)
    ∷ ("^", 35, true)
    ∷ ("&", 36, true)
    ∷ ("*", 37, true)
    ∷ ("(", 38, true)
    ∷ (")", 39, true)
    ∷ []

-- Punctuation
abbrev punctuation : List (String × ℕ × Bool)
punctuation =
    ("-", 45, false)
    ∷ ("=", 46, false)
    ∷ ("[", 47, false)
    ∷ ("]", 48, false)
    ∷ ("\\", 49, false)
    ∷ (";", 51, false)
    ∷ ("'", 52, false)
    ∷ ("`", 53, false)
    ∷ (",", 54, false)
    ∷ (".", 55, false)
    ∷ ("/", 56, false)
    ∷ (" ", 44, false)
    ∷ []

-- Shifted punctuation
abbrev shifted_punctuation : List (String × ℕ × Bool)
shifted_punctuation =
    ("_", 45, true)
    ∷ ("+", 46, true)
    ∷ ("{", 47, true)
    ∷ ("}", 48, true)
    ∷ ("|", 49, true)
    ∷ (":", 51, true)
    ∷ ("\"", 52, true)
    ∷ ("~", 53, true)
    ∷ ("<", 54, true)
    ∷ (">", 55, true)
    ∷ ("?", 56, true)
    ∷ []

-- Named keys
abbrev named_keys : List (String × ℕ × Bool)
named_keys =
    ("Enter", 40, false)
    ∷ ("Escape", 41, false)
    ∷ ("Backspace", 42, false)
    ∷ ("Tab", 43, false)
    ∷ ("Delete", 76, false)
    ∷ ("ArrowRight", 79, false)
    ∷ ("ArrowLeft", 80, false)
    ∷ ("ArrowDown", 81, false)
    ∷ ("ArrowUp", 82, false)
    ∷ []

abbrev add_each : List (String × ℕ × Bool) → KeyTable → KeyTable
add_each [] t = t
add_each ((key, usage, shift) ∷ rest) t = add_each rest (add key usage shift t)

-- `init`
unfoldable key_table : KeyTable
unfolding insert
key_table = add_each named_keys (
    add_each shifted_punctuation (
      add_each punctuation (
        add_each shifted_digits (
          add "0" 39 false (
            add_all "123456789" 30 false (
              add_all "ABCDEFGHIJKLMNOPQRSTUVWXYZ" 4 true
                (add_all "abcdefghijklmnopqrstuvwxyz" 4 false [])))))))

unfoldable pub key_usage : String → Option Usage
unfolding key_table lookup
key_usage key = lookup key key_table

-- The keys of a table do not share a usage.
abbrev same_shift : Bool → Bool → Bool
same_shift true b = b
same_shift false b = not b

abbrev same : Usage → String × Usage → Bool
same u entry = u.usage == entry.1.usage && same_shift u.shift entry.1.shift

abbrev distinct : KeyTable → Bool
distinct [] = true
distinct (entry ∷ rest) = not (any (same entry.1) rest) && distinct rest

same_shift_refl : (b : Bool) → same_shift b b ≡ true
same_shift_refl true = refl
same_shift_refl false = refl

same_refl : (u v : Usage) (key : String) → v ≡ u → same u (key, v) ≡ true
same_refl u v key e = rw e (ground (arith, same_shift_refl u.shift, ==_iff u.usage u.usage))

if-some :
    (b : Bool) (v u : Usage) (o : Option Usage)
    → (if b then some v else o) ≡ some u
    → ((b ≡ true) × (v ≡ u)) ⊎ (o ≡ some u)
if-some true v u o e = inl (refl, cc e)
if-some false v u o e = inr e

lookup-cases :
    (key : String) (u : Usage) (entry : String × Usage) (rest : KeyTable)
    → lookup key (entry ∷ rest) ≡ some u
    → ((entry.0 ≡ key) × (entry.1 ≡ u)) ⊎ (lookup key rest ≡ some u)
unfolding lookup
lookup-cases key u entry rest e =
    elim (if-some (str_eq entry.0 key) entry.1 u (lookup key rest) e) [
      | inl (t, v) ↦ inl ((eq_iff entry.0 key).0 t, v)
      | inr found ↦ inr found
    ]

lookup-any :
    (key : String) (u : Usage) (t : KeyTable) → lookup key t ≡ some u → any (same u) t ≡ true
unfolding lookup
lookup-any key u [] e = absurd (cc e)
lookup-any key u (entry ∷ rest) e = elim (lookup-cases key u entry rest e) [
  | inl (k, v) ↦ ground (arith, same_refl u entry.1 entry.0 v)
  | inr found ↦ ground (arith, lookup-any key u rest found)
]

distinct_head :
    (entry : String × Usage) (rest : KeyTable) (key : String) (u : Usage)
    → distinct (entry ∷ rest) ≡ true
    → entry.1 ≡ u
    → lookup key rest ≢ some u
distinct_head entry rest key u d e p =
    let found = lookup-any key u rest p in
    let same_value : any (same entry.1) rest ≡ true = rw e found in
    absurd (ground (arith, d, same_value))

distinct_lem :
    (t : KeyTable) (key other : String) (u : Usage)
    → distinct t ≡ true
    → lookup key t ≡ some u
    → lookup other t ≡ some u
    → key ≡ other
unfolding lookup
distinct_lem [] key other u d p q = absurd (cc p)
distinct_lem (entry ∷ rest) key other u d p q = elim (lookup-cases key u entry rest p) [
  | inl (k, v) ↦ elim (lookup-cases other u entry rest q) [
    | inl (l, w) ↦ sym k ∙ l
    | inr found ↦ absurd (distinct_head entry rest other u d v found)
  ]
  | inr found ↦ elim (lookup-cases other u entry rest q) [
    | inl (l, w) ↦ absurd (distinct_head entry rest key u d w found)
    | inr also ↦ distinct_lem rest key other u (ground (arith, d)) found also
  ]
]

key_table-distinct : distinct key_table ≡ true
unfolding key_table
key_table-distinct = refl

-- No two keys come out as one: keys that are found with the same usage and shift are the same key.
key_usage-injective :
    (key other : String) (u : Usage)
    → key_usage key ≡ some u
    → key_usage other ≡ some u
    → key ≡ other
unfolding key_usage
key_usage-injective key other u = distinct_lem key_table key other u key_table-distinct
