-- ===== src/Tests/Sim.antt =====
-- The simulator helper on short streams, with whole numbers for its floats and a stand-in for JSON.
use simbeam.Prelude.{
  ℕ, ◌+◌, ◌*◌, ◌≡◌, refl, Bool, true, false, Option, none, some, String, List, [], ◌∷◌, ◌++◌, take,
  All, arith, ltb, leb, if◌then◌else◌, codes, length, ◌==◌,
}
use simbeam.Sim.Frames.{Frame, start, nominal, header_error, end_of_stream, read_frames}
use simbeam.Sim.Frames.Stream.{
  Sent, Fits, encode, encode_all, frames_from, cut_end, never, read_frames-encode_all,
}
use simbeam.Sim.Frames.Timing.{Sound, total, read_frames-total}
use simbeam.Sim.Frames.Total.{Within, read_frames-Within}
use simbeam.Sim.Keymap.{key_usage}
use simbeam.Sim.Startup.{Floats, ControlEvent, ControlDims, control_protocol}
use simbeam.Sim.Startup.Select.{
  fails, returns, case_done, Event, reads, ends, reaps, selects, Helper, spawned, run,
}
use simbeam.Sim.Startup.Select.Heard.{
  heard, Meant, first_failure, has_handshake, last_log, last_dims,
}
use simbeam.Sim.Startup.Select.Settles.{run-Meant}
use simbeam.Sim.Input as Input
use simbeam.Sim.Input.Lines.{opened, run-lines}

abbrev units : List Sent
units =
    record { flags = 1; pts = 1000000; bytes = 0 ∷ 0 ∷ 0 ∷ 1 ∷ 101 ∷ [] }
    ∷ record { flags = 0; pts = 1033000; bytes = 0 ∷ 0 ∷ 1 ∷ 65 ∷ [] }
    ∷ []

abbrev third : Sent
third = record { flags = 0; pts = 1067000; bytes = 0 ∷ 0 ∷ 1 ∷ 65 ∷ [] }

all_fit : All Fits (third ∷ units)
all_fit = (
  record { length_fits = omega arith; pts_fits = omega arith },
  (
    record { length_fits = omega arith; pts_fits = omega arith },
    (record { length_fits = omega arith; pts_fits = omega arith }, tt),
  ),
)

read_cut :
    read_frames never (encode_all units ++ take 5 (encode third))
    ≡ some (
      record { unit = 0 ∷ 0 ∷ 0 ∷ 1 ∷ 101 ∷ []; duration = 33333333 }
          ∷ record { unit = 0 ∷ 0 ∷ 1 ∷ 65 ∷ []; duration = 33000000 }
          ∷ [],
      header_error,
    )
unfolding read_frames
read_cut = refl

read_frames-encode_all_example :
    read_frames never (encode_all units ++ take 5 (encode third))
    ≡ some (frames_from start units, cut_end 5)
read_frames-encode_all_example =
    read_frames-encode_all units third 5 all_fit.1 all_fit.0 (omega arith)

abbrev first : Sent
first = record { flags = 1; pts = 1000000; bytes = 0 ∷ 0 ∷ 0 ∷ 1 ∷ 101 ∷ [] }

read_frames-total_example :
    (fs : List Frame) × (read_frames never (encode_all (first ∷ third ∷ []))
      ≡ some (fs, end_of_stream))
    × (length fs ≡ 2)
    × All Sound fs
    × (total fs ≡ nominal + 67000000)
read_frames-total_example =
    read_frames-total first (third ∷ []) (all_fit.1.0, (all_fit.0, tt))
      (omega arith, omega arith, omega arith, tt)

read_frames-Within_example : Within 3 (read_frames (λ n. true) (0 ∷ 0 ∷ 0 ∷ []))
read_frames-Within_example = read_frames-Within (λ n. true) (0 ∷ 0 ∷ 0 ∷ [])

abbrev pub whole_numbers : Floats ℕ
whole_numbers = record { nought = 0; unit = 1; less = ltb; times = λ a b. a * b; round = λ a. a }

abbrev event : Option Bool → ControlEvent ℕ
event ready = record {
  ready = ready;
  error = "display_not_ready";
  message = "";
  retryable = true;
  width = 390;
  height = 844;
  scale = 3;
  encoded_width = 0;
  encoded_height = 0;
}

-- `{t` is a handshake, `{f` a failure, and any other object a notice.
abbrev kind : List ℕ → Option Bool
kind (a ∷ b ∷ s) = if b == 116 then some true else if b == 102 then some false else none
kind s = none

abbrev helper : Helper ℕ
helper = record {
  json = record { unmarshal = λ s. some (event (kind s)) };
  floats = whole_numbers;
  udid = "SIM-1";
}

abbrev failing : List Event
failing = reads "{waiting}" ∷ reads "booting" ∷ reads " {f}" ∷ ends ∷ []

failing_outcome :
    (run helper (spawned helper) (failing ++ selects case_done ∷ reaps ∷ [])).stage
    ≡ returns (
        fails (record {
          code = "display_not_ready";
          msg = "SIM-1" ∷ ": " ∷ "simbeam-control startup failed" ∷ [];
          retryable = true;
        }))
unfolding run
failing_outcome = refl

run-Meant_example :
    ((run helper (spawned helper) failing).dims ≡ last_dims helper (heard false [] failing))
    × Meant helper
        (run helper (spawned helper) failing)
        (has_handshake helper (heard false [] failing))
        (last_log helper (heard false [] failing))
        (first_failure helper (heard false [] failing))
        (run helper (spawned helper) failing).stage
run-Meant_example = run-Meant helper failing

letters :
    (key_usage "A" ≡ some (record { usage = 4; shift = true }))
    × (key_usage "Enter" ≡ some (record { usage = 40; shift = false }))
    × (key_usage "F1" ≡ none)
unfolding key_usage
letters = (refl, refl, refl)

protocols :
    (control_protocol (some (codes " 3\n")) ≡ 3)
    × (control_protocol (some (codes "-3")) ≡ 1)
    × (control_protocol none ≡ 1)
unfolding control_protocol
protocols = (refl, refl, refl)

abbrev gestures : Input.Gestures ℕ
gestures = record {
  floats = whole_numbers;
  default_duration = 1;
  at_most = leb;
  milliseconds = λ s. 1000 * s;
  marshal = λ c. some (7 ∷ []);
}

abbrev screen : ControlDims ℕ
screen = record { width_points = 390; height_points = 844; pixel_w = 1170; pixel_h = 2532 }

abbrev press : String → Input.Input ℕ
press type = record {
  type = type;
  action = "";
  x = 1;
  y = 1;
  x1 = 0;
  y1 = 0;
  x2 = 1;
  y2 = 1;
  duration = 0;
  key = "F1";
}

abbrev played : List (Input.Event gestures)
played =
    Input.gesture (press "tap") true
    ∷ Input.gesture (press "key") true
    ∷ Input.shuts
    ∷ Input.gesture (press "home") true
    ∷ Input.shuts
    ∷ []

run-lines_example :
    ((Input.run gestures (opened gestures screen) played).received ≡ (7 ∷ 10 ∷ []) ∷ [])
    × ((Input.run gestures (opened gestures screen) played).closes ≡ 1)
    × ((Input.run gestures (opened gestures screen) played).is_open ≡ false)
unfolding Input.command_of
run-lines_example = run-lines gestures screen played
