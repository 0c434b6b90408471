-- ===== src/Store/Latest.antt =====
-- internal/store/sqlite.go, `Upsert`: which report the table holds for a key.
use simbeam.Prelude.{
  ℕ, ◌≡◌, refl, true, false, ◌&&◌, some, inl, inr, String, List, [], ◌∷◌, arith, str_eq, eq_iff,
  eq_refl, if◌then◌else◌, lookup, lookup-insert, codes, All, ap, ◌∙◌, Bool-cases, Option-cases,
}
use simbeam.Store.{Subscription, after, Table, newer, replaces, upsert}

after_trans : (s t u : List ℕ) → after t s ≡ false → after u t ≡ false → after u s ≡ false
unfolding after
after_trans s t [] h k = ground arith
after_trans s [] (z ∷ u) h k = absurd (ground (arith, k))
after_trans [] (y ∷ t) (z ∷ u) h k = absurd (ground (arith, h))
after_trans (x ∷ s) (y ∷ t) (z ∷ u) h k = ground (arith, h, k, after_trans s t u)

after_asym : (s t : List ℕ) → after s t ≡ true → after t s ≡ false
unfolding after
after_asym [] t h = absurd (ground (arith, h))
after_asym (x ∷ s) [] h = ground arith
after_asym (x ∷ s) (y ∷ t) h = ground (arith, h, after_asym s t)

after_irrefl : (s : List ℕ) → after s s ≡ false
unfolding after
after_irrefl [] = refl
after_irrefl (x ∷ s) = ground (arith, after_irrefl s)

-- The reports, in their order.
unfoldable pub report : Table → List Subscription → Table
report t [] = t
report t (sub ∷ subs) = report (upsert t sub) subs

lookup-upsert :
    (t : Table) (sub : Subscription) (key : String)
    → lookup key (upsert t sub) ≡ (
        if str_eq sub.client_pub_key key && replaces sub (lookup sub.client_pub_key t)
        then some sub
        else lookup key t)
unfolding upsert
lookup-upsert t sub key =
    ground (arith, lookup-insert sub.client_pub_key key sub t, eq_iff sub.client_pub_key key)

-- The table holds a row for the key of the report, and the report is not newer.
pub record Covers (t : Table) (r : Subscription) : Type 0 where
  pub row : Subscription
  pub found : lookup r.client_pub_key t ≡ some row
  pub older : newer r row ≡ false

upsert-Covers : (t : Table) (sub : Subscription) → Covers (upsert t sub) sub
upsert-Covers t sub =
    let is = lookup-upsert t sub sub.client_pub_key in
    let same = eq_refl sub.client_pub_key in
    elim (Option-cases (lookup sub.client_pub_key t)) [
      | inl absent ↦ record {
        row = sub;
        found = ground (arith, is, same, absent);
        older = after_irrefl (codes sub.issued_at);
      }
      | inr (old, found) ↦ elim (Bool-cases (newer sub old)) [
        | inl later ↦ record {
          row = sub;
          found = ground (arith, is, same, found, later);
          older = after_irrefl (codes sub.issued_at);
        }
        | inr stale ↦ record {
          row = old;
          found = ground (arith, is, same, found, stale);
          older = stale;
        }
      ]
    ]

upsert-keeps : (t : Table) (sub r : Subscription) → Covers t r → Covers (upsert t sub) r
upsert-keeps t sub r v =
    let is = lookup-upsert t sub r.client_pub_key in
    let same = eq_iff sub.client_pub_key r.client_pub_key in
    elim (Bool-cases (str_eq sub.client_pub_key r.client_pub_key && newer sub v.row)) [
      | inl later ↦ record {
        row = sub;
        found = ground (arith, is, same, later, v.found);
        older =
            after_trans (codes sub.issued_at) (codes v.row.issued_at) (codes r.issued_at)
              (after_asym (codes sub.issued_at) (codes v.row.issued_at) (ground (arith, later)))
              v.older;
      }
      | inr kept ↦ record {
        row = v.row;
        found = ground (arith, is, same, kept, v.found);
        older = v.older;
      }
    ]

report-keeps :
    (t : Table) (subs : List Subscription) (r : Subscription)
    → Covers t r
    → Covers (report t subs) r
unfolding report
report-keeps t [] r v = v
report-keeps t (sub ∷ subs) r v = report-keeps (upsert t sub) subs r (upsert-keeps t sub r v)

-- After any reports, in any order, each of them has a row for its key that was issued at the same time or
-- later.
pub report-Covers : (t : Table) (subs : List Subscription) → All (Covers (report t subs)) subs
unfolding report
report-Covers t [] = tt
report-Covers t (sub ∷ subs) =
    (report-keeps (upsert t sub) subs sub (upsert-Covers t sub), report-Covers (upsert t sub) subs)

Covers-upsert : (t : Table) (r : Subscription) → Covers t r → upsert t r ≡ t
unfolding upsert
Covers-upsert t r v = ground (arith, v.found, v.older)

replayed : (t : Table) (subs : List Subscription) → All (Covers t) subs → report t subs ≡ t
unfolding report
replayed t [] v = refl
replayed t (sub ∷ subs) v = ap (λ x. report x subs) (Covers-upsert t sub v.0) ∙ replayed t subs v.1

-- To send the same reports once more changes nothing.
report-report : (t : Table) (subs : List Subscription) → report (report t subs) subs ≡ report t subs
report-report t subs = replayed (report t subs) subs (report-Covers t subs)
