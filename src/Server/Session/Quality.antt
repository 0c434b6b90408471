-- ===== src/Server/Session/Quality.antt =====
-- internal/server/backend.go, `QualityOpts`. A scale is a float: whatever is not above 0 is 0 here, and a
-- positive float is a whole number of units of 2^-1074.
use simbeam.Prelude.{ℕ, ◌≡◌, ◌≤◌, ◌^◌, min, max, arith, ◌==◌, if◌then◌else◌}

abbrev pub one : ℕ
one = 2 ^ 1074

abbrev min_scale : ℕ
min_scale = 2 ^ 1072

abbrev max_scale : ℕ
max_scale = one

abbrev min_bitrate : ℕ
min_bitrate = 500000

abbrev max_bitrate : ℕ
max_bitrate = 16000000

abbrev default_bitrate : ℕ
default_bitrate = 8000000

-- A bit rate that is not above 0 is 0.
pub record QualityOpts : Type 0 where
  pub scale : ℕ
  pub bitrate : ℕ

abbrev or_default : ℕ → ℕ → ℕ
or_default default n = if n == 0 then default else n

unfoldable pub resolve : QualityOpts → ℕ → QualityOpts
resolve o def_scale = record {
  scale = min (max (or_default def_scale o.scale) min_scale) max_scale;
  bitrate = min (max (or_default default_bitrate o.bitrate) min_bitrate) max_bitrate;
}

-- Within what the daemon allows.
pub record InRange (o : QualityOpts) : Type 0 where
  pub scale_low : min_scale ≤ o.scale
  pub scale_high : o.scale ≤ max_scale
  pub bitrate_low : min_bitrate ≤ o.bitrate
  pub bitrate_high : o.bitrate ≤ max_bitrate

-- Whatever is asked for and whatever the default of the backend is, what takes effect is in range; and a
-- request that is in range takes effect as it is.
resolve-InRange :
    (o : QualityOpts) (def_scale : ℕ)
    → InRange (resolve o def_scale) × (InRange o → resolve o def_scale ≡ o)
unfolding resolve
resolve-InRange o def_scale = (
  record {
    scale_low = ground arith;
    scale_high = ground arith;
    bitrate_low = ground arith;
    bitrate_high = ground arith;
  },
  λ v. ground (arith, v.scale_low, v.scale_high, v.bitrate_low, v.bitrate_high),
)
