-- ===== src/Server/Session/Requests.antt =====
-- internal/server/bulk.go: the requests on the "bulk" channel. JSON is a parameter.
use simbeam.Prelude.{
  ℕ, true, Option, none, some, ◌⊎◌, inl, inr, String, List, [], ◌∷◌, ◌++◌, map, str_eq,
  if◌then◌else◌,
}
use simbeam.Server.Bulk.{
  Sent, all_sent, not_wired, header_failed, chunk_failed, out_of_fuel, Channel, send_chunked,
}
use simbeam.Server.Session.{
  Attachment, Dispatch, Effect, Prose, bulk_error, bulk_frame, quality_is, bad_request, Input,
}
use simbeam.Server.Session.Quality.{QualityOpts, resolve}
use simbeam.Server.Session.Attach.{restart_attachment, spawn}
use simbeam.Server.Session.Lifecycle.{Answers, lifecycle}

-- `companion.Simulator`, by the fields that are read.
pub record Simulator : Type 0 where
  pub udid : String
  pub name : String
  pub os_version : String
  pub state : String

pub record BulkAnswers : Type 0 where
  pub control : Answers
  pub sims : Prose ⊎ List Simulator
  pub marshal : List Simulator → List ℕ
  pub capture : Prose ⊎ List ℕ
  pub default_scale : ℕ
  pub channel : Channel

abbrev pub failed_to_send : Sent → Option Prose
failed_to_send all_sent = none
failed_to_send not_wired = some ("bulk channel not wired" ∷ [])
failed_to_send header_failed = some ("send header" ∷ [])
failed_to_send chunk_failed = some ("send chunk" ∷ [])
failed_to_send out_of_fuel = some []

-- A failure to send is only logged.
abbrev pub list_reply : BulkAnswers → Prose ⊎ List Simulator → List Effect
list_reply env (inl e) = bulk_error "list_failed" e ∷ []
list_reply env (inr sims) = map bulk_frame (send_chunked env.channel "sims" (env.marshal sims)).0

unfoldable pub do_list : BulkAnswers → List Effect
do_list env = list_reply env env.sims

abbrev pub rebuild :
    BulkAnswers
    → Dispatch
    → QualityOpts
    → Option (Dispatch × String × List Effect)
    → Dispatch × List Effect
rebuild env d q none = (d, bulk_error "no_attachment" ("no simulator attached" ∷ []) ∷ [])
rebuild env d q (some (next, udid, out)) =
    let applied = resolve q env.default_scale in
    (spawn next udid applied next.bulk_lifecycle, out ++ quality_is applied ∷ [])

unfoldable pub do_quality : BulkAnswers → Dispatch → QualityOpts → Dispatch × List Effect
do_quality env d q = rebuild env d q (restart_attachment d)

abbrev pub report_failure : Option Prose → List Effect
report_failure none = []
report_failure (some e) = bulk_error "capture_failed" ("send failed: " ∷ e) ∷ []

abbrev pub send_image : BulkAnswers → Prose ⊎ List ℕ → List Effect
send_image env (inl e) = bulk_error "capture_failed" e ∷ []
send_image env (inr []) = bulk_error "capture_failed" ("capture returned no bytes" ∷ []) ∷ []
send_image env (inr (b ∷ img)) =
    map bulk_frame (send_chunked env.channel "screenshot" (b ∷ img)).0
    ++ report_failure (failed_to_send (send_chunked env.channel "screenshot" (b ∷ img)).1)

abbrev pub screenshot_of : BulkAnswers → Option Attachment → List Effect
screenshot_of env none = bulk_error "no_attachment" ("no simulator attached" ∷ []) ∷ []
screenshot_of env (some att) = send_image env env.capture

unfoldable pub do_screenshot : BulkAnswers → Dispatch → List Effect
do_screenshot env d = screenshot_of env d.att

pub record BulkMsg : Type 0 where
  pub type : String
  pub udid : String
  pub quality : QualityOpts

abbrev no_input : Input
no_input = record { type = ""; action = ""; at = []; duration = 0; key = "" }

abbrev pub or_unknown : Dispatch → String → Option (Dispatch × List Effect) → Dispatch × List Effect
or_unknown d type none = (d, bulk_error "unknown_type" ("unknown bulk type " ∷ type ∷ []) ∷ [])
or_unknown d type (some r) = r

unfoldable pub serve_bulk : BulkAnswers → Dispatch → BulkMsg → Dispatch × List Effect
serve_bulk env d m =
    if str_eq m.type "list"
    then (d, do_list env)
    else if str_eq m.type "screenshot"
    then (d, do_screenshot env d)
    else if str_eq m.type "quality"
    then do_quality env d m.quality
    else or_unknown d m.type (
        lifecycle env.control d
          (record { type = m.type; udid = m.udid; quality = m.quality; input = no_input }) true)

-- `none` is a message that is no JSON.
unfoldable pub handle_bulk : BulkAnswers → Dispatch → Option BulkMsg → Dispatch × List Effect
unfolding serve_bulk
handle_bulk env d none = (d, bulk_error bad_request ("bad bulk json" ∷ []) ∷ [])
handle_bulk env d (some m) = serve_bulk env d m
