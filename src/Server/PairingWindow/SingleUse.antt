-- ===== src/Server/PairingWindow/SingleUse.antt =====
-- internal/server/pairing_window.go: how many enrollments one arming authorizes.
use simbeam.Prelude.{
  ℕ, suc, ◌+◌, ◌≤◌, ◌≡◌, true, ◌&&◌, ◌||◌, ◌==◌, ◌≢◌, String, List, [], ◌∷◌, ◌↔◌, arith,
  if◌then◌else◌, str_eq,
}
use simbeam.Signal.Crypto.{Primitives, verify_enroll_proof}
use simbeam.Server.PairingWindow.{
  PairingWindow, PairResult, pair_ok, pair_no_window, pair_expired, pair_used, pair_bad_proof,
  Phase, phase_none, phase_open, phase_consumed, phase_expired, open_window, verify, close, state,
}

-- What happens to a window: the daemon arms it, a client presents a proof, the daemon disarms it.
pub data Event : Type 0 where
  opens : (secret : String) (now ttl : ℕ) → Event
  verifies : (client_pub_key nonce proof : String) (now : ℕ) → Event
  closes : Event

abbrev pub one_if_ok : PairResult → ℕ
one_if_ok pair_ok = 1
one_if_ok _ = 0

module _ (c : Primitives) where
  -- The window after the events, and the number of proofs that it accepted.
  unfoldable pub run : PairingWindow → List Event → PairingWindow × ℕ
  run p [] = (p, 0)
  run p (opens secret now ttl ∷ es) = run (open_window p secret now ttl) es
  run p (verifies key nonce proof now ∷ es) =
      let (q, r) = verify c p key nonce proof now in
      let (last, n) = run q es in (last, one_if_ok r + n)
  run p (closes ∷ es) = run (close p) es

abbrev pub count_opens : List Event → ℕ
count_opens [] = 0
count_opens (opens secret now ttl ∷ es) = suc (count_opens es)
count_opens (verifies key nonce proof now ∷ es) = count_opens es
count_opens (closes ∷ es) = count_opens es

-- 1 for a window that can still accept a proof: armed, not used, not disarmed.
abbrev pub live : PairingWindow → ℕ
live p = if p.consumed || p.cancelled || (str_eq p.secret "" && p.expires == 0) then 0 else 1

pub verify_spends :
    (c : Primitives) (p : PairingWindow) (key nonce proof : String) (now : ℕ)
    → one_if_ok (verify c p key nonce proof now).1 + live (verify c p key nonce proof now).0
      ≤ live p
unfolding verify
verify_spends c p key nonce proof now = ground arith

pub live-open_window :
    (p : PairingWindow) (s : String) (now ttl : ℕ) → live (open_window p s now ttl) ≤ 1
unfolding open_window
live-open_window p s now ttl = ground arith

pub live-close : (p : PairingWindow) → live (close p) ≡ 0
unfolding close
live-close p = ground arith

-- Whatever clients present, in any order and at any time, a window accepts no more proofs than it
-- is armed, one more if it is live at the start.
pub run-le-opens :
    (c : Primitives) (p : PairingWindow) (es : List Event)
    → (run c p es).1 ≤ count_opens es + live p
unfolding run
run-le-opens c p [] = omega arith
run-le-opens c p (opens secret now ttl ∷ es) =
    omega
      (arith, run-le-opens c (open_window p secret now ttl) es, live-open_window p secret now ttl)
run-le-opens c p (verifies key nonce proof now ∷ es) = omega (
  arith,
  verify_spends c p key nonce proof now,
  run-le-opens c (verify c p key nonce proof now).0 es,
)
run-le-opens c p (closes ∷ es) = omega (arith, run-le-opens c (close p) es, live-close p)

abbrev phase_of : PairResult → Phase
phase_of pair_ok = phase_open
phase_of pair_no_window = phase_none
phase_of pair_expired = phase_expired
phase_of pair_used = phase_consumed
phase_of pair_bad_proof = phase_open

-- `State` and `verify` agree: at every instant the phase shown to the user is the one by which a
-- proof would be judged; an open window accepts exactly the valid proofs and is then consumed, and
-- in every other phase, or after a bad proof, `verify` leaves the window as it is.
state-verify :
    (c : Primitives) (p : PairingWindow) (key nonce proof : String) (now : ℕ)
    → (state p now ≡ phase_of (verify c p key nonce proof now).1)
      × (((verify c p key nonce proof now).1 ≡ pair_ok)
          ↔ ((state p now ≡ phase_open) × (verify_enroll_proof c p.secret key nonce proof ≡ true)))
      × ((verify c p key nonce proof now).1 ≡ pair_ok
          → state (verify c p key nonce proof now).0 now ≡ phase_consumed)
      × ((verify c p key nonce proof now).1 ≢ pair_ok → (verify c p key nonce proof now).0 ≡ p)
unfolding state verify
state-verify c p key nonce proof now = ground arith
