-- ===== src/Tests/Updatecheck.antt =====
-- Versions, and what a user is told.
use simbeam.Prelude.{◌≡◌, refl, true, some, none}
use simbeam.Updatecheck.{Version, parse_version, atoi, newer}

abbrev v_0_11 : Version
v_0_11 = record { major = 0; minor = 11; patch = 0 }

parsed :
    (parse_version " v0.11.0-rc1" ≡ some v_0_11)
    × (parse_version "0.11" ≡ some v_0_11)
    × (parse_version "1.2.3.4" ≡ none)
    × (parse_version "v1.x" ≡ none)
unfolding parse_version atoi
parsed = (refl, refl, refl, refl)

step_up : newer "v0.11.0" "0.10.1" ≡ true
unfolding newer parse_version atoi
step_up = refl

step_up_again : newer "v0.12.0" "v0.11.0" ≡ true
unfolding newer parse_version atoi
step_up_again = refl

step_up_far : newer "v0.12.0" "0.10.1" ≡ true
unfolding newer parse_version atoi
step_up_far = refl

abbrev v_0_10 : Version
v_0_10 = record { major = 0; minor = 10; patch = 0 }

v_0_11_parses : parse_version "v0.11.0" ≡ some v_0_11
unfolding parse_version atoi
v_0_11_parses = refl

v_0_10_parses : parse_version "0.10" ≡ some v_0_10
unfolding parse_version atoi
v_0_10_parses = refl
