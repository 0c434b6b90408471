-- ===== src/Updatecheck.antt =====
-- internal/updatecheck/updatecheck.go: whether a newer release exists. GitHub's answer and the cache file
-- are arguments; a text is its code points.
pub mod Order
pub mod Notices
use simbeam.Prelude.{
  ℕ, ◌+◌, ◌-◌, ◌*◌, ◌^◌, Bool, true, false, ◌||◌, ◌&&◌, not, Option, none, some, String, List, [],
  ◌∷◌, ltb, ◌==◌, str_eq, if◌then◌else◌, codes, trim_left, trim_right, digits, split_on,
}

-- `strings.TrimPrefix(s, "v")`
abbrev trim_v : List ℕ → List ℕ
trim_v [] = []
trim_v (x ∷ s) = if x == 118 then s else x ∷ s

-- Up to the first "-" or "+".
abbrev cut_suffix : List ℕ → List ℕ
cut_suffix [] = []
cut_suffix (x ∷ s) = let rest = cut_suffix s in if x == 45 || x == 43 then [] else x ∷ rest

-- `strings.Split(s, ".")`
abbrev split_dots : List ℕ → List (List ℕ)
split_dots s = split_on 46 s

-- `strconv.Atoi` on a text without a sign, which `cut_suffix` has removed.
unfoldable pub atoi : List ℕ → Option ℕ
atoi [] = none
atoi (x ∷ s) = digits 0 (x ∷ s)

pub record Version : Type 0 where
  pub major : ℕ
  pub minor : ℕ
  pub patch : ℕ

abbrev pub version : Option ℕ → Option ℕ → Option ℕ → Option Version
version (some a) (some b) (some c) = some (record { major = a; minor = b; patch = c })
version _ _ _ = none

abbrev of_parts : List (List ℕ) → Option Version
of_parts [] = version (some 0) (some 0) (some 0)
of_parts (a ∷ []) = version (atoi a) (some 0) (some 0)
of_parts (a ∷ b ∷ []) = version (atoi a) (atoi b) (some 0)
of_parts (a ∷ b ∷ c ∷ []) = version (atoi a) (atoi b) (atoi c)
of_parts (a ∷ b ∷ c ∷ d ∷ parts) = none

unfoldable pub parse_version : String → Option Version
unfolding atoi
parse_version s = of_parts (split_dots (cut_suffix (trim_v (trim_left (trim_right (codes s))))))

abbrev pub exceeds : Version → Version → Bool
exceeds a b =
    if not (a.major == b.major)
    then ltb b.major a.major
    else if not (a.minor == b.minor)
    then ltb b.minor a.minor
    else if not (a.patch == b.patch)
    then ltb b.patch a.patch
    else false

abbrev pub exceeds_option : Option Version → Option Version → Bool
exceeds_option (some a) (some b) = exceeds a b
exceeds_option _ _ = false

unfoldable pub newer : String → String → Bool
newer a b = exceeds_option (parse_version a) (parse_version b)

pub record Cache : Type 0 where
  pub checked_at : ℕ
  pub latest : String

abbrev cached_latest : Option Cache → String
cached_latest none = ""
cached_latest (some c) = c.latest

abbrev is_fresh : Option Cache → ℕ → ℕ → Bool
is_fresh none now ttl = false
is_fresh (some c) now ttl = ltb (now - c.checked_at) ttl

-- `fetched` is GitHub's answer, `none` for an error; `later` is the clock after it. The cache is what is
-- on disk, `none` if it cannot be read; it is written only if there is a path for it.
unfoldable check : Bool → ℕ → Option Cache → ℕ → Option String → ℕ → String × Option Cache
check has_path ttl cached now fetched later =
    if is_fresh cached now ttl then (cached_latest cached, cached) else elim fetched [
      | none ↦ (cached_latest cached, cached)
      | some latest ↦
          (latest, if has_path then some (record { checked_at = later; latest = latest }) else none)
    ]

-- One turn of the loop of `Run`: what is remembered, and the tag that is told.
unfoldable pub turn : String → String → String → String × List String
turn current notified latest =
    if not (str_eq latest "") && not (str_eq latest notified) && newer latest current
    then (latest, latest ∷ [])
    else (notified, [])
