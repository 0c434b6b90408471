-- ===== src/Server/PairingWindow.antt =====
-- internal/server/pairing_window.go. Instants are natural numbers, 0 being the zero time of the source.
pub mod SingleUse
use simbeam.Prelude.{
  ℕ, ◌+◌, Bool, true, false, ◌&&◌, ◌||◌, String, ltb, ◌==◌, str_eq, if◌then◌else◌,
}
use simbeam.Signal.Crypto.{Primitives, verify_enroll_proof}

pub data PairResult : Type 0 where
  pair_ok pair_no_window pair_expired pair_used pair_bad_proof : PairResult

pub data Phase : Type 0 where
  phase_none phase_open phase_consumed phase_expired : Phase

pub record PairingWindow : Type 0 where
  pub secret : String
  pub expires : ℕ
  pub consumed : Bool
  pub cancelled : Bool

abbrev pub new_pairing_window : PairingWindow
new_pairing_window = record { secret = ""; expires = 0; consumed = false; cancelled = false }

unfoldable pub open_window : PairingWindow → String → ℕ → ℕ → PairingWindow
open_window p secret now ttl = record {
  secret = secret;
  expires = now + ttl;
  consumed = false;
  cancelled = false;
}

unfoldable pub verify :
    Primitives → PairingWindow → String → String → String → ℕ → PairingWindow × PairResult
unfolding verify_enroll_proof
verify c p client_pub_key nonce proof now =
    if p.consumed
    then (p, pair_used)
    else if str_eq p.secret "" && p.expires == 0
    then (p, pair_no_window)
    else if ltb p.expires now
    then (p, pair_expired)
    else if p.cancelled
    then (p, pair_expired)
    else if verify_enroll_proof c p.secret client_pub_key nonce proof
    then (record p { consumed = true; secret = "" }, pair_ok)
    else (p, pair_bad_proof)

unfoldable pub close : PairingWindow → PairingWindow
close p = record p { secret = ""; cancelled = true }

unfoldable pub state : PairingWindow → ℕ → Phase
state p now =
    if p.consumed
    then phase_consumed
    else if str_eq p.secret "" && p.expires == 0
    then phase_none
    else if p.cancelled || ltb p.expires now
    then phase_expired
    else phase_open
