-- ===== src/Tests/Peer.antt =====
-- Candidates before and after an offer, and a daemon that dials again.
use simbeam.Prelude.{◌≡◌, ◌*◌, refl, true, false, none, List, [], ◌∷◌, ◌++◌}
use simbeam.Peer.{
  Event, adds, answers, run, new_session, max_pending_cands, step, add_candidate, answer,
}
use simbeam.Peer.Order.{trickled}
use simbeam.Peer.Channels.{
  new_peer, control, connecting, ends, Happening, ice, opens_channel, state_change, sets_on_close,
  send, to_pion, sends, closes_with, run_peer,
}
use simbeam.Peer.Channels.Ends.{candidates, close_calls, ices, ended_with, run_peer-order}
use simbeam.Server.Reconnect.{Attempt, new_loop, turn, turns, second, lost, up, wait, double}

abbrev events : List Event
events = adds "a" ∷ adds "b" ∷ answers true ∷ adds "c" ∷ []

handed_over : (run new_session events).1 ≡ "a" ∷ "b" ∷ "c" ∷ []
unfolding run step add_candidate answer
handed_over = refl

abbrev short : Attempt
short = record { registered = true; took = 5 }

abbrev long : Attempt
long = record { registered = true; took = 40 * second }

abbrev attempts : List Attempt
attempts = short ∷ short ∷ long ∷ short ∷ []

waits : (turns (new_loop false) attempts).1 ≡ second ∷ 2 * second ∷ second ∷ 2 * second ∷ []
unfolding turns turn lost up wait double
waits = refl

abbrev happenings : List Happening
happenings =
    ice (adds "a")
    ∷ state_change connecting
    ∷ sets_on_close 1
    ∷ ice (answers true)
    ∷ opens_channel control 7
    ∷ send (1 ∷ [])
    ∷ sets_on_close 2
    ∷ state_change ends
    ∷ state_change ends
    ∷ []

closed_once :
    (run_peer new_peer happenings).1 ≡ to_pion "a" ∷ sends 7 true (1 ∷ []) ∷ closes_with 2 ∷ []
unfolding run_peer
closed_once = refl

run_peer-order_example :
    (candidates (run_peer new_peer happenings).1 ++ (run_peer new_peer happenings).0.session.pending
      ≡ trickled false max_pending_cands (ices happenings))
    × (close_calls (run_peer new_peer happenings).1 ≡ ended_with none happenings)
run_peer-order_example = run_peer-order happenings
