-- ===== src/Tests/Session.antt =====
-- A session: an attach, a quality change that replaces the feed, a detach that overtakes the next attach.
use simbeam.Prelude.{
  ℕ, ◌≡◌, ◌+◌, refl, ◌⊎◌, true, false, Option, none, some, inr, String, List, [], ◌∷◌, length,
}
use simbeam.Server.Bulk.{Channel, send_chunked, send_loop, chunk_size}
use simbeam.Server.Bulk.Chunks.{Announced, Transfer, send_chunked-Transfer}
use simbeam.Server.Session.{Feed, Attempt, Dispatch}
use simbeam.Server.Session.Quality.{QualityOpts}
use simbeam.Server.Session.Attach.{
  attach_as, attach_within, install, claim_attach, stop_attachment, restart_attachment, do_attach,
  pump_end,
}
use simbeam.Server.Session.Lifecycle.{
  Answers, ControlMsg, handle, parse_control, lifecycle, do_detach,
}
use simbeam.Server.Session.Requests.{BulkAnswers, handle_bulk, serve_bulk, do_quality}
use simbeam.Server.Session.Run.{
  Event, on_control, on_bulk, returned, ended, new_dispatch, run, step, find_attempt, drop_attempt,
  find_pump, drop_pump,
}
use simbeam.Server.Session.Owned.{Owned}
use simbeam.Server.Session.Owned.Run.{run-Owned}
use simbeam.Server.Session.Released.{closed, live}
use simbeam.Server.Session.Released.Run.{count_gives, run-releases}
use simbeam.Server.Session.Replies.{Answered, Superseded, attach_as-Outcome}

abbrev fine : Answers
fine = record { boot = none; shutdown = none; shake = none }

abbrev channel : Channel
channel = record { wired = true; max_msg = some 2; writes = λ n. true }

abbrev bulk : BulkAnswers
bulk = record {
  control = fine;
  sims = inr [];
  marshal = λ sims. 91 ∷ 93 ∷ [];
  capture = inr (1 ∷ []);
  default_scale = 1;
  channel = channel;
}

abbrev low : QualityOpts
low = record { scale = 0; bitrate = 600000 }

abbrev control : String → Option ControlMsg
control type = some (record {
  type = type;
  udid = "A";
  quality = low;
  input = record { type = type; action = ""; at = []; duration = 0; key = "" };
})

abbrev feed : ℕ → Feed
feed id = record { id = id; w = 100; h = 200 }

abbrev session : List Event
session =
    on_control fine (control "attach")
    ∷ returned 1 false (inr (feed 7))
    ∷ on_bulk bulk (some (record { type = "quality"; udid = ""; quality = low }))
    ∷ ended 7 none
    ∷ on_control fine (control "detach")
    ∷ returned 2 false (inr (feed 8))
    ∷ []

feeds_closed :
    (closed 7 (run new_dispatch session).1 ≡ 1) × (closed 8 (run new_dispatch session).1 ≡ 1)
unfolding run step handle parse_control lifecycle do_attach do_detach claim_attach stop_attachment
    attach_as attach_within install handle_bulk serve_bulk do_quality restart_attachment pump_end
    find_attempt drop_attempt find_pump drop_pump closed
feeds_closed = (refl, refl)

run-Owned_example : Owned (run new_dispatch session).0
run-Owned_example = run-Owned session

run-releases_example :
    count_gives 7 new_dispatch session
    ≡ closed 7 (run new_dispatch session).1 + live 7 (run new_dispatch session).0
run-releases_example = run-releases session 7

abbrev attempt : Attempt
attempt = record { udid = "A"; quality = low; gen = 0; route = true }

attach_as-Outcome_example :
    Answered new_dispatch attempt (attach_as new_dispatch attempt true (inr (feed 3)))
    ⊎ Superseded new_dispatch attempt (attach_as new_dispatch attempt true (inr (feed 3)))
attach_as-Outcome_example = attach_as-Outcome new_dispatch attempt true (inr (feed 3))

abbrev busy : Dispatch
busy = record new_dispatch { att = some (record { feed = feed 7; udid = "A" }) }

-- The other channel has brought up another device since the restart looked.
abbrev moved_on : Dispatch
moved_on = record new_dispatch { gen = 3; att = some (record { feed = feed 8; udid = "B" }) }

abbrev payload : List ℕ
payload = 1 ∷ 2 ∷ 3 ∷ []

three_frames : length (send_chunked channel "sims" payload).0 ≡ 3
unfolding send_chunked send_loop chunk_size
three_frames = refl

send_chunked-Transfer_example :
    Announced "sims" (length payload) (send_chunked channel "sims" payload).0
    × Transfer channel payload
        (send_chunked channel "sims" payload).0
        (send_chunked channel "sims" payload).1
send_chunked-Transfer_example = send_chunked-Transfer channel "sims" payload
