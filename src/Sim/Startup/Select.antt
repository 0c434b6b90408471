-- ===== src/Sim/Startup/Select.antt =====
-- internal/backend/sim/control.go, `newControl`: the goroutine that reads stderr, and the `select` that
-- waits for the first of the handshake, the failure, the end of the helper, the timer and the context. Each
-- of these is an event, and `selects` is the choice of one case, which is ready or does nothing. Every case but the
-- handshake calls `Close`, which kills the helper, waits for the end of stderr, and reaps the helper.
pub mod Heard
pub mod Settles
pub mod Stages
pub mod Returns
use simbeam.Prelude.{
  ℕ, Bool, true, false, Option, none, some, String, List, [], ◌∷◌, str_eq, if◌then◌else◌,
}
use simbeam.Server.Session.{AttachError, Prose}
use simbeam.Sim.Startup.{
  Floats, ControlEvent, ControlDims, Decoder, parse_control_event, event_dims, attach_error,
}

pub data Outcome : Type 0 where
  streams : Outcome
  fails : AttachError → Outcome
  exited : (last_line : String) → Outcome
  no_handshake : Outcome
  superseded : Outcome

-- How far `newControl` is: in the `select`, in a `Close` that is followed by a result, in the `Close` of the
-- case `<-done`, which looks on afterwards, or returned.
pub data Stage : Type 0 where
  waits closes_after_exit : Stage
  closes_for returns : Outcome → Stage

pub data Case : Type 0 where
  case_ready case_failed case_done case_expired case_cancelled : Case

pub data Event : Type 0 where
  reads : (line : String) → Event
  ends expires cancels reaps : Event
  selects : Case → Event

-- `ready` and `failed` are channels of one place.
pub record Startup {ℓ} (F : Type ℓ) : Type ℓ where
  pub dims : ControlDims F
  pub ready : Option (ControlDims F)
  pub first_sent : Bool
  pub failed : Option AttachError
  pub last_line : String
  pub done : Bool
  pub expired : Bool
  pub cancelled : Bool
  pub stage : Stage

-- What the code is given: JSON, floating point and the device.
pub record Helper {ℓ} (F : Type ℓ) : Type ℓ where
  pub json : Decoder F
  pub floats : Floats F
  pub udid : String

module _ {ℓ} {F : Type ℓ} (h : Helper F) where
  abbrev pub no_dims : ControlDims F
  no_dims = record {
    width_points = h.floats.nought;
    height_points = h.floats.nought;
    pixel_w = 0;
    pixel_h = 0;
  }

  abbrev pub spawned : Startup F
  spawned = record {
    dims = no_dims;
    ready = none;
    first_sent = false;
    failed = none;
    last_line = "";
    done = false;
    expired = false;
    cancelled = false;
    stage = waits;
  }

  -- `select { case failed <- err: default: }`
  abbrev offer : Option AttachError → AttachError → Option AttachError
  offer none e = some e
  offer (some first) e = some first

  unfoldable pub on_ready : Startup F → ControlEvent F → Option Bool → Startup F
  unfolding event_dims attach_error
  on_ready st e none = st
  on_ready st e (some true) =
      let d = event_dims h.floats e in
      if st.first_sent
      then record st { dims = d }
      else record st { dims = d; first_sent = true; ready = some d }
  on_ready st e (some false) = record st { failed = offer st.failed (attach_error e h.udid) }

  unfoldable pub on_line : Startup F → String → Option (ControlEvent F) → Startup F
  unfolding on_ready
  on_line st line none = record st { last_line = line }
  on_line st line (some e) = on_ready st e e.ready

  -- After the `Close` of `<-done`.
  unfoldable pub exit_outcome : Startup F → Option AttachError → Outcome
  exit_outcome st (some e) = fails e
  exit_outcome st none = if st.cancelled then superseded else exited st.last_line

  abbrev take_ready : Startup F → Option (ControlDims F) → Startup F
  take_ready st none = st
  take_ready st (some d) = record st { ready = none; stage = returns streams }

  abbrev take_failed : Startup F → Option AttachError → Startup F
  take_failed st none = st
  take_failed st (some e) = record st { failed = none; stage = closes_for (fails e) }

  unfoldable pub pick : Startup F → Case → Startup F
  pick st case_ready = take_ready st st.ready
  pick st case_failed = take_failed st st.failed
  pick st case_done = if st.done then record st { stage = closes_after_exit } else st
  pick st case_expired = if st.expired then record st { stage = closes_for no_handshake } else st
  pick st case_cancelled = if st.cancelled then record st { stage = closes_for superseded } else st

  abbrev choose : Startup F → Case → Stage → Startup F
  choose st c waits = pick st c
  choose st c closes_after_exit = st
  choose st c (closes_for o) = st
  choose st c (returns o) = st

  -- The helper is reaped; `readers.Wait` before that has waited for the end of stderr.
  unfoldable pub finish : Startup F → Stage → Startup F
  unfolding exit_outcome
  finish st waits = st
  finish st closes_after_exit = record st { stage = returns (exit_outcome st st.failed) }
  finish st (closes_for o) = record st { stage = returns o }
  finish st (returns o) = st

  unfoldable pub step : Startup F → Event → Startup F
  unfolding on_line pick finish parse_control_event
  step st (reads line) = if st.done then st else on_line st line (parse_control_event h.json line)
  step st ends = record st { done = true }
  step st expires = record st { expired = true }
  step st cancels = record st { cancelled = true }
  step st (selects c) = choose st c st.stage
  step st reaps = if st.done then finish st st.stage else st

  unfoldable pub run : Startup F → List Event → Startup F
  unfolding step
  run st [] = st
  run st (e ∷ es) = run (step st e) es

-- The error that `newControl` returns, if it is one.
unfoldable pub failure : (udid : String) → Outcome → Option AttachError
failure udid streams = none
failure udid (fails e) = some e
failure udid (exited line) = some (record {
  code = "";
  msg =
      "simbeam-control "
      ∷ udid
      ∷ " exited before handshake"
      ∷ (if str_eq line "" then [] else ": " ∷ line ∷ []);
  retryable = false;
})
failure udid no_handshake = some (record {
  code = "";
  msg = "simbeam-control " ∷ udid ∷ ": no handshake within 25s" ∷ [];
  retryable = false;
})
failure udid superseded =
    some (record { code = ""; msg = "context canceled" ∷ []; retryable = false })
