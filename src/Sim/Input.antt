-- ===== src/Sim/Input.antt =====
-- internal/backend/sim/control.go and sim.go: the gestures that go to simbeam-control as lines on its stdin.
-- `json.Marshal` is a parameter, and so is what becomes of a write to the pipe.

pub mod Lines
use simbeam.Prelude.{
  ℕ, suc, Bool, true, false, Option, none, some, String, List, [], ◌∷◌, ◌++◌, str_eq, if◌then◌else◌,
}
use simbeam.Sim.Keymap.{Usage, key_usage}
use simbeam.Sim.Startup.{Floats, ControlDims}

module _ {ℓ} (F : Type ℓ) where
  pub data Command : Type ℓ where
    tap : (x y : F) → Command
    swipe : (x1 y1 x2 y2 : F) (duration_ms : ℕ) → Command
    touch : (action : String) (x y : F) → Command
    key : (usage : ℕ) (shift : Bool) → Command
    app_switcher home : Command

  -- backend.go, `Input`
  pub record Input : Type ℓ where
    pub type : String
    pub action : String
    pub x : F
    pub y : F
    pub x1 : F
    pub y1 : F
    pub x2 : F
    pub y2 : F
    pub duration : F
    pub key : String

-- `at_most` is `<=`, `default_duration` is 0.3, and `milliseconds` is `int(math.Round(duration * 1000))`.
pub record Gestures {ℓ} (F : Type ℓ) : Type ℓ where
  pub floats : Floats F
  pub default_duration : F
  pub at_most : F → F → Bool
  pub milliseconds : F → ℕ
  pub marshal : Command F → Option (List ℕ)

unfoldable pub clamp01 {ℓ} : {F : Type ℓ} → Floats F → F → F
clamp01 fl v = if fl.less v fl.nought then fl.nought else if fl.less fl.unit v then fl.unit else v

-- The pipe to the helper: `is_open` is `w != nil`; the error of a `bufio.Writer` stays; `received` are the
-- lines that reached the helper, and `closes` counts the calls of `stdin.Close`.
pub record Control {ℓ} (F : Type ℓ) : Type ℓ where
  pub dims : ControlDims F
  pub is_open : Bool
  pub broken : Bool
  pub received : List (List ℕ)
  pub closes : ℕ

module _ {ℓ} {F : Type ℓ} (g : Gestures F) where
  unfoldable scale_x : Control F → F → F
  unfolding clamp01
  scale_x c v = g.floats.times (clamp01 g.floats v) c.dims.width_points

  unfoldable scale_y : Control F → F → F
  unfolding clamp01
  scale_y c v = g.floats.times (clamp01 g.floats v) c.dims.height_points

  abbrev key_command : Option Usage → Option (Command F)
  key_command none = none
  key_command (some u) = some (key u.usage u.shift)

  unfoldable swipe_duration : F → F
  swipe_duration v = if g.at_most v g.floats.nought then g.default_duration else v

  -- The command that `Input` sends, if it sends one.
  unfoldable pub command_of : Control F → Input F → Option (Command F)
  unfolding key_usage scale_x scale_y swipe_duration
  command_of c i =
      if str_eq i.type "tap"
      then some (tap (scale_x c i.x) (scale_y c i.y))
      else if str_eq i.type "touch"
      then some (touch i.action (scale_x c i.x) (scale_y c i.y))
      else if str_eq i.type "home"
      then some home
      else if str_eq i.type "app_switcher"
      then some app_switcher
      else if str_eq i.type "swipe"
      then some (
          swipe (scale_x c i.x1) (scale_y c i.y1) (scale_x c i.x2) (scale_y c i.y2)
            (g.milliseconds (swipe_duration i.duration)))
      else if str_eq i.type "key"
      then key_command (key_usage i.key)
      else none

  abbrev pub newline : ℕ
  newline = 10

  -- A line that the pipe takes, or the error that ends all writing.
  abbrev put : Control F → List ℕ → (taken : Bool) → Control F
  put c line taken =
      if c.broken
      then c
      else if taken
      then record c { received = c.received ++ line ∷ [] }
      else record c { broken = true }

  unfoldable pub write_cmd : Control F → Option (List ℕ) → (taken : Bool) → Control F
  write_cmd c none taken = c
  write_cmd c (some b) taken = if c.is_open then put c (b ++ newline ∷ []) taken else c

  abbrev pub marshalled : Option (Command F) → Option (List ℕ)
  marshalled none = none
  marshalled (some v) = g.marshal v

  unfoldable pub input : Control F → Input F → (taken : Bool) → Control F
  unfolding command_of write_cmd
  input c i taken = write_cmd c (marshalled (command_of c i)) taken

  unfoldable pub close_stdin : Control F → Control F
  close_stdin c = if c.is_open then record c { is_open = false; closes = suc c.closes } else c

  -- What happens to a control: a gesture, a handshake that changes the geometry, and the end of its context
  -- or `Close`.
  pub data Event : Type ℓ where
    gesture : Input F → (taken : Bool) → Event
    resizes : ControlDims F → Event
    shuts : Event

  unfoldable pub step : Control F → Event → Control F
  unfolding input close_stdin
  step c (gesture i taken) = input c i taken
  step c (resizes d) = record c { dims = d }
  step c shuts = close_stdin c

  unfoldable pub run : Control F → List Event → Control F
  unfolding step
  run c [] = c
  run c (e ∷ es) = run (step c e) es
