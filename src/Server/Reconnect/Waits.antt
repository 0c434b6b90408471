-- ===== src/Server/Reconnect/Waits.antt =====
-- internal/server/remote.go, `ServeSignal`: how long the daemon waits, and what it logs.
use simbeam.Prelude.{
  ℕ, ◌≡◌, ◌≤◌, ◌<◌, ◌*◌, refl, min, Bool, true, false, ◌⊎◌, List, [], ◌∷◌, ◌++◌, arith, All,
}
use simbeam.Server.Reconnect.{
  second, max_backoff, Line, back_online, lost_connection, retrying, ReconnLog, up, lost, Attempt,
  Loop, wait, double, turn, turns, after_serving, then_lost, new_loop,
}

abbrev InBounds : ℕ → Type 0
InBounds w = (second ≤ w) × (w ≤ max_backoff)

wait-InBounds : (backoff took : ℕ) → InBounds backoff → InBounds (wait backoff took)
unfolding wait
wait-InBounds backoff took h = ground (arith, h)

double-InBounds : (backoff : ℕ) → InBounds backoff → InBounds (double backoff)
unfolding double
double-InBounds backoff h = ground (arith, h)

turns-InBounds :
    (l : Loop) (attempts : List Attempt) → InBounds l.backoff → All InBounds (turns l attempts).1
unfolding turns turn
turns-InBounds l [] h = tt
turns-InBounds l (a ∷ attempts) h =
    let w = wait-InBounds l.backoff a.took h in
    (w, turns-InBounds (turn l a).0 attempts (double-InBounds (wait l.backoff a.took) w))

-- Every wait between two connections lies between one and thirty seconds, however long each lasted.
waits-InBounds :
    (verbose : Bool) (attempts : List Attempt) → All InBounds (turns (new_loop verbose) attempts).1
waits-InBounds verbose attempts =
    turns-InBounds (new_loop verbose) attempts (omega arith, omega arith)

-- After a connection that lasted more than thirty seconds the wait is one second, and after a shorter one
-- it is the wait before, doubled, but no more than thirty seconds.
turn-wait :
    (l : Loop) (a b : Attempt)
    → ((max_backoff < b.took) × ((turn (turn l a).0 b).2 ≡ second))
      ⊎ ((b.took ≤ max_backoff) × ((turn (turn l a).0 b).2 ≡ min max_backoff ((turn l a).2 * 2)))
unfolding turn wait double
turn-wait l a b = ground arith

-- The lines of a log that is not verbose: "lost" where the state before was up, "back" where it was down.
abbrev Alternates : Bool → List Line → Type 0
Alternates down [] = Unit
Alternates down (back_online ∷ lines) = (down ≡ true) × Alternates false lines
Alternates down (lost_connection ∷ lines) = (down ≡ false) × Alternates true lines
Alternates down (retrying ∷ lines) = ⊥

abbrev terse : Bool → ReconnLog
terse down = record { verbose = false; down = down }

turns-Alternates :
    (backoff : ℕ) (down : Bool) (attempts : List Attempt)
    → Alternates down (turns (record { backoff = backoff; log = terse down }) attempts).0
unfolding turns turn up lost
turns-Alternates backoff down [] = tt
turns-Alternates backoff true (a ∷ attempts) =
    let rest = turns-Alternates (double (wait backoff a.took)) true attempts in
    elim (a.registered)
      as (λ r.
        let served = then_lost (after_serving r (terse true)) in
        Alternates true (
          served.1
          ++ (turns (record { backoff = double (wait backoff a.took); log = served.0 })
              attempts).0)) [ true ↦ (refl, (refl, rest)) | false ↦ rest ]
turns-Alternates backoff false (a ∷ attempts) =
    let rest = turns-Alternates (double (wait backoff a.took)) true attempts in
    elim (a.registered)
      as (λ r.
        let served = then_lost (after_serving r (terse false)) in
        Alternates false (
          served.1
          ++ (turns (record { backoff = double (wait backoff a.took); log = served.0 })
              attempts).0)) [ true ↦ (refl, rest) | false ↦ (refl, rest) ]

-- Unless it is verbose, the log tells a loss and a recovery in turn, a loss first, and nothing else,
-- whatever the connections do.
log-Alternates : (attempts : List Attempt) → Alternates false (turns (new_loop false) attempts).0
log-Alternates attempts = turns-Alternates second false attempts
