-- ===== src/Store.antt =====
-- internal/store: the subscriptions table. The SQL of sqlite.go is read as what it says: one row for a
-- key, and an insertion that updates the row only for a later `issued_at`, compared as text.
pub mod Latest
use simbeam.Prelude.{
  ℕ, ◌<◌, Bool, true, false, ◌||◌, ◌&&◌, Option, none, some, String, List, [], ◌∷◌, ltb, ◌==◌,
  if◌then◌else◌, lookup, insert, codes,
}

pub record Subscription : Type 0 where
  pub client_pub_key : String
  pub product_id : String
  pub expires_at : String
  pub issued_at : String
  pub source : String
  pub updated_at : String

-- `s > t` on texts, byte by byte.
unfoldable pub after : List ℕ → List ℕ → Bool
after [] t = false
after (x ∷ s) [] = true
after (x ∷ s) (y ∷ t) = ltb y x || x == y && after s t

abbrev pub Table : Type 0
Table = List (String × Subscription)

abbrev pub newer : Subscription → Subscription → Bool
newer sub old = after (codes sub.issued_at) (codes old.issued_at)

abbrev pub replaces : Subscription → Option Subscription → Bool
replaces sub none = true
replaces sub (some old) = newer sub old

unfoldable pub upsert : Table → Subscription → Table
upsert t sub =
    if replaces sub (lookup sub.client_pub_key t) then insert sub.client_pub_key sub t else t

abbrev pub get : Table → String → Option Subscription
get t key = lookup key t

-- `parse` is `time.Parse` of RFC 3339; the result is `none` for an error.
abbrev expires_after : (String → Option ℕ) → ℕ → Option Subscription → Option Bool
expires_after parse now none = some false
expires_after parse now (some sub) = elim (parse sub.expires_at) [
  | none ↦ none
  | some e ↦ some (ltb now e)
]

unfoldable pub active : (String → Option ℕ) → Table → String → ℕ → Option Bool
active parse t key now = expires_after parse now (lookup key t)
