-- ===== src/Daemon/Pair.antt =====
-- cmd/simbeamd/pairctl.go, `runPair`: the command that arms the window of a running daemon and waits for the
-- outcome. The clock, the network and what else happens to the daemon are arguments; what is printed is left
-- out.
pub mod Ends
use simbeam.Prelude.{
  ℕ, zero, suc, ◌+◌, ◌*◌, Bool, true, false, Option, none, some, String, List, [], ◌∷◌, ltb,
  if◌then◌else◌, codes, take,
}
use simbeam.Signal.Crypto.{Primitives}
use simbeam.Server.PairingWindow.{Phase, phase_none, phase_open, phase_consumed, phase_expired}
use simbeam.Daemon.Control.{
  ControlServer, Request, Answer, unauthorized, not_found, method_not_allowed, server_error, paired,
  told, handle, Event, run, second,
}

abbrev pub half_second : ℕ
half_second = 500_000_000

-- An attempt reads the control file and posts; `attempt i` is the time to live that came back, or `none`.
pub data Arming : Type 0 where
  armed : (ttl_seconds : ℕ) → Arming
  not_armed : Arming

abbrev retry : Option ℕ → (late : Bool) → Option Arming → Option Arming
retry (some ttl_seconds) late later = some (armed ttl_seconds)
retry none true later = some not_armed
retry none false later = later

-- The first loop on fuel; `clock i` is the time after the i-th attempt.
unfoldable pub arm_loop :
    (attempt : ℕ → Option ℕ) (clock : ℕ → ℕ) → (deadline : ℕ) → (fuel : ℕ) → ℕ → Option Arming
arm_loop attempt clock deadline zero i = none
arm_loop attempt clock deadline (suc fuel) i =
    retry (attempt i) (ltb deadline (clock i)) (arm_loop attempt clock deadline fuel (suc i))

unfoldable pub arm :
    (attempt : ℕ → Option ℕ) (clock : ℕ → ℕ) → (now : ℕ) → (fuel : ℕ) → Option Arming
unfolding arm_loop
arm attempt clock now fuel = arm_loop attempt clock (now + 5 * second) fuel 0

pub data Outcome : Type 0 where
  paired_with : (short : List ℕ) → Outcome
  window_expired : Outcome
  call_failed : Outcome

-- What a poll sees of the daemon.
pub record World : Type 0 where
  pub others : ℕ → List Event
  pub times : ℕ → ℕ
  pub down : ℕ → Bool
  pub authorization : String

abbrev pub get_request : String → Request
get_request authorization = record { method = "GET"; path = "/pair"; authorization = authorization }

-- A status other than 200 is an error of the call; the client's key is cut to 16 bytes.
abbrev pub decide : Answer → (later : Option Outcome) → Option Outcome
decide (told phase_consumed client) later = some (paired_with (take 16 (codes client)))
decide (told phase_expired client) later = some window_expired
decide (told phase_none client) later = some window_expired
decide (told phase_open client) later = later
decide unauthorized later = some call_failed
decide not_found later = some call_failed
decide method_not_allowed later = some call_failed
decide server_error later = some call_failed
decide (paired url ttl_seconds) later = some call_failed

abbrev pub unless_down : Bool → Option Outcome → Option Outcome
unless_down true o = some call_failed
unless_down false o = o

-- The second loop on fuel: a second passes, in which others use the daemon, and then comes the n-th poll.
unfoldable pub poll_loop :
    Primitives → (String → String) → World → (fuel : ℕ) → ControlServer → ℕ → Option Outcome
unfolding run handle
poll_loop p build_url w zero c n = none
poll_loop p build_url w (suc fuel) c n =
    let now = run p build_url c (w.others n) in
    let polled = handle build_url now (get_request w.authorization) (w.times n) none in
    unless_down (w.down n) (decide polled.1 (poll_loop p build_url w fuel polled.0 (suc n)))
