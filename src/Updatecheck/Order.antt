-- ===== src/Updatecheck/Order.antt =====
-- internal/updatecheck/updatecheck.go, `newer`: how versions compare.
use simbeam.Prelude.{◌≡◌, true, false, Option, none, some, ◌⊎◌, String, arith}
use simbeam.Updatecheck.{Version, parse_version, newer, exceeds, exceeds_option}

exceeds_trans : (a b c : Version) → exceeds a b ≡ true → exceeds b c ≡ true → exceeds a c ≡ true
exceeds_trans a b c h k = ground (arith, h, k)

exceeds_asym : (a b : Version) → exceeds a b ≡ true → exceeds b a ≡ false
exceeds_asym a b h = ground (arith, h)

exceeds_total : (a b : Version) → (exceeds a b ≡ true) ⊎ ((exceeds b a ≡ true) ⊎ (a ≡ b))
exceeds_total a b = ground arith

option_total :
    (o p : Option Version) (a b : Version)
    → o ≡ some a
    → p ≡ some b
    → (exceeds_option o p ≡ true) ⊎ ((exceeds_option p o ≡ true) ⊎ (a ≡ b))
option_total o p a b ea eb = ground (arith, ea, eb, exceeds_total a b)

option_trans :
    (a b c : Option Version)
    → exceeds_option a b ≡ true
    → exceeds_option b c ≡ true
    → exceeds_option a c ≡ true
option_trans (some a) (some b) (some c) h k = exceeds_trans a b c h k
option_trans none b c h k = absurd (ground (arith, h))
option_trans (some a) none c h k = absurd (ground (arith, h))
option_trans (some a) (some b) none h k = absurd (ground (arith, k))

option_asym : (a b : Option Version) → exceeds_option a b ≡ true → exceeds_option b a ≡ false
option_asym (some a) (some b) h = exceeds_asym a b h
option_asym none b h = absurd (ground (arith, h))
option_asym (some a) none h = absurd (ground (arith, h))

-- If one tag is newer than a second and that is newer than a third, then the first is newer than the
-- third, and the second is not newer than the first.
newer_order :
    (a b c : String)
    → newer a b ≡ true
    → newer b c ≡ true
    → (newer a c ≡ true) × (newer b a ≡ false)
unfolding newer
newer_order a b c h k = (
  option_trans (parse_version a) (parse_version b) (parse_version c) h k,
  option_asym (parse_version a) (parse_version b) h,
)

-- Of two tags that parse, one is newer than the other, or they are the same version.
newer_total :
    (a b : String) (v w : Version)
    → parse_version a ≡ some v
    → parse_version b ≡ some w
    → (newer a b ≡ true) ⊎ ((newer b a ≡ true) ⊎ (v ≡ w))
unfolding newer
newer_total a b v w ea eb = option_total (parse_version a) (parse_version b) v w ea eb
