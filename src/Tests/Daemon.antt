-- ===== src/Tests/Daemon.antt =====
-- A daemon whose window is armed over the control API, and the command that waits for it.
use simbeam.Prelude.{
  ℕ, true, zero, codes, ◌++◌, ◌↔◌, suc, All, ◌+◌, ◌*◌, ◌≤◌, ◌<◌, ◌≡◌, ◌≢◌, refl, false, none, some,
  String, List, [], ◌∷◌, arith,
}
use simbeam.Server.PairingWindow.{new_pairing_window, phase_expired, state}
use simbeam.Server.PairingWindow.SingleUse as SingleUse
use simbeam.Server.PairingWindow.SingleUse.{live}
use simbeam.Daemon.Control.{
  ControlServer, Request, Event, calls, verifies, notes, pairs, run, second, is_authorized,
}
use simbeam.Daemon.Control.Armed.{seen, accepted, posts, run-refines, accepted-le-posts}
use simbeam.Daemon.Pair.{
  Arming, arm, World, Outcome, paired_with, call_failed, poll_loop, half_second,
}
use simbeam.Daemon.Pair.Ends.{Quiet, run_pair-ends}
use simbeam.Daemon.Terminal as Terminal
use simbeam.Daemon.Terminal.{Process, api, expires, no_ui, expires-closes_newer}
use simbeam.Tests.Pairing.{toy}

abbrev daemon : ControlServer
daemon = record { win = new_pairing_window; ttl = 3 * second; token = "70ken"; last_client = "" }

abbrev post : String → Request
post authorization = record { method = "POST"; path = "/pair"; authorization = authorization }

abbrev url : String → String
url secret = "https://client/#secret"

abbrev history : List Event
history =
    calls (post "Bearer guess") 5 (some "mine")
    ∷ calls (post "Bearer 70ken") 10 (some "s3cret")
    ∷ verifies "alice" "n1" "digest" 20
    ∷ notes "alice"
    ∷ verifies "mallory" "n2" "digest" 30
    ∷ []

one_let_in : (accepted toy url daemon history ≡ 1) × (posts toy url daemon history ≡ 1)
unfolding run
one_let_in = (refl, refl)

run-refines_example :
    (SingleUse.run toy new_pairing_window (seen toy url daemon history)
      ≡ ((run toy url daemon history).win, accepted toy url daemon history))
    × ((r : Request)
        → (is_authorized daemon r ≡ true)
          ↔ (codes r.authorization ≡ codes "Bearer " ++ codes "70ken"))
run-refines_example = run-refines toy url daemon history

accepted-le-posts_example :
    accepted toy url daemon history ≤ posts toy url daemon history + live new_pairing_window
accepted-le-posts_example = accepted-le-posts toy url daemon history

abbrev opened : ControlServer
opened = record daemon {
  win = record { secret = "s3cret"; expires = 3 * second; consumed = false; cancelled = false };
}

-- A client pairs before the second poll.
abbrev enrolled : ℕ → List Event
enrolled zero = []
enrolled (suc k) = verifies "alice" "n1" "digest" 20 ∷ notes "alice" ∷ []

abbrev world : World
world = record {
  others = enrolled;
  times = λ n. (n + 1) * second;
  down = λ n. false;
  authorization = "Bearer 70ken";
}

paired_after_two :
    poll_loop toy url world 2 opened 0 ≡ some (paired_with (97 ∷ 108 ∷ 105 ∷ 99 ∷ 101 ∷ []))
unfolding poll_loop
paired_after_two = refl

quiet : (k : ℕ) → All (Quiet opened) (enrolled k)
quiet zero = tt
quiet (suc k) = (tt, (tt, tt))

run_pair-ends_example :
    ((a : Arming) × (arm (λ i. none) (λ i. i * half_second) 0 12 ≡ some a))
    × ((r : Outcome) × (poll_loop toy url world 4 opened 0 ≡ some r) × (r ≢ call_failed))
unfolding is_authorized
run_pair-ends_example =
    run_pair-ends toy url (λ i. none) (λ i. i * half_second) 0 world opened 3 (λ j. omega arith)
      quiet refl (λ k. refl) (omega arith)

abbrev process : Process
process = record { control = daemon; ui = no_ui }

expires-closes_newer_example :
    (state
        (Terminal.run toy url process (
          api (pairs 0 (some "first"))
          ∷ api (calls (post "Bearer 70ken") second (some "second"))
          ∷ expires (3 * second)
          ∷ [])).control.win
        (3 * second)
      ≡ phase_expired)
    × (3 * second
        < (Terminal.run toy url process (
            api (pairs 0 (some "first"))
            ∷ api (calls (post "Bearer 70ken") second (some "second"))
            ∷ expires (3 * second)
            ∷ [])).control.win.expires)
unfolding is_authorized
expires-closes_newer_example =
    expires-closes_newer toy url process (post "Bearer 70ken") 0 second "first" "second" refl refl
      refl (omega arith) (omega arith)
