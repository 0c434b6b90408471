-- ===== src/Sim/Startup.antt =====
-- internal/backend/sim/control.go, from the start of simbeam-control to its first handshake: the events on
-- its stderr, the goroutine that reads them, and the `select` of `newControl`. JSON is outside, and so is
-- floating point: both are parameters.
pub mod Select
use simbeam.Prelude.{
  ℕ, Bool, true, false, not, Option, none, some, String, List, [], ◌∷◌, ltb, ◌==◌, str_eq,
  if◌then◌else◌, trim_left, trim_right, digits, codes,
}
use simbeam.Server.Session.{AttachError, Prose}

-- The operations on `float64` that the code uses; `round` is `math.Round` and the conversion to `uint64`.
pub record Floats {ℓ} (F : Type ℓ) : Type ℓ where
  pub nought : F
  pub unit : F
  pub less : F → F → Bool
  pub times : F → F → F
  pub round : F → ℕ

module _ {ℓ} (F : Type ℓ) where
  -- `ready` is absent, false or true.
  pub record ControlEvent : Type ℓ where
    pub ready : Option Bool
    pub error : String
    pub message : String
    pub retryable : Bool
    pub width : F
    pub height : F
    pub scale : F
    pub encoded_width : ℕ
    pub encoded_height : ℕ

  pub record ControlDims : Type ℓ where
    pub width_points : F
    pub height_points : F
    pub pixel_w : ℕ
    pub pixel_h : ℕ

  -- `json.Unmarshal` of a line; `none` is an error.
  pub record Decoder : Type ℓ where
    pub unmarshal : List ℕ → Option ControlEvent

abbrev starts_object : List ℕ → Bool
starts_object [] = false
starts_object (x ∷ s) = x == 123

unfoldable pub parse_control_event {ℓ} :
    {F : Type ℓ} → Decoder F → (line : String) → Option (ControlEvent F)
parse_control_event json line =
    let text = trim_right (trim_left (codes line)) in
    if starts_object text then json.unmarshal text else none

unfoldable pub event_dims {ℓ} : {F : Type ℓ} → Floats F → ControlEvent F → ControlDims F
event_dims fl e =
    if fl.less fl.nought e.scale
    then record {
      width_points = e.width;
      height_points = e.height;
      pixel_w = fl.round (fl.times e.width e.scale);
      pixel_h = fl.round (fl.times e.height e.scale);
    }
    else record {
      width_points = e.width;
      height_points = e.height;
      pixel_w = e.encoded_width;
      pixel_h = e.encoded_height;
    }

unfoldable pub attach_error {ℓ} : {F : Type ℓ} → ControlEvent F → (udid : String) → AttachError
attach_error e udid = record {
  code = e.error;
  msg =
      udid
      ∷ ": "
      ∷ (if str_eq e.message "" then "simbeam-control startup failed" else e.message)
      ∷ [];
  retryable = e.retryable;
}

abbrev required_control_protocol : ℕ
required_control_protocol = 3

-- `strconv.Atoi` where the result is at least 1.
abbrev positive : Option ℕ → ℕ
positive none = 1
positive (some v) = if ltb v 1 then 1 else v

abbrev unsigned : List ℕ → Option ℕ
unsigned [] = none
unsigned (x ∷ s) = digits 0 (x ∷ s)

-- A sign is read; a negative number is below 1, as what is no number is taken to be.
abbrev atoi : List ℕ → Option ℕ
atoi [] = none
atoi (x ∷ s) = if x == 43 then unsigned s else unsigned (x ∷ s)

-- `none` is a helper that failed.
unfoldable pub control_protocol : Option (List ℕ) → ℕ
control_protocol none = 1
control_protocol (some out) = positive (atoi (trim_right (trim_left out)))

unfoldable check_control_protocol : Option (List ℕ) → Bool
unfolding control_protocol
check_control_protocol out = not (ltb (control_protocol out) required_control_protocol)
