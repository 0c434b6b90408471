-- ===== src/Server/Session/Attach.antt =====
-- internal/server/attach.go. A locked section and what follows it up to the next one are one step: the
-- goroutine of an attach waits in `attempts`, and that of a feed in `pumps`.
use simbeam.Prelude.{
  ℕ, ◌+◌, Bool, true, false, ◌||◌, Option, none, some, ◌⊎◌, inl, inr, String, List, [], ◌∷◌, ◌++◌,
  ◌==◌, str_eq, if◌then◌else◌,
}
use simbeam.Server.Session.{
  CtrlReply, attached, attaching, stream_ended, error, reply_of, AttachError, Feed, Attachment,
  Route, Attempt, Dispatch, Effect, replies, cancels, closes, bad_request, Prose,
}
use simbeam.Server.Session.Quality.{QualityOpts}

abbrev pub op_attach : String
op_attach = "attach"

abbrev pub code_attach_failed : String
code_attach_failed = "attach_failed"

abbrev code_attach_timeout : String
code_attach_timeout = "attach_timeout"

abbrev pub error_reply : String → String → String → Bool → Prose → CtrlReply
error_reply operation udid code retryable msg = record (reply_of error udid) {
  operation = operation;
  code = code;
  retryable = retryable;
  msg = msg;
}

-- `att.cancel(); att.feed.Close()`
abbrev pub release : Option Attachment → List Effect
release none = []
release (some att) = cancels att.feed.id ∷ closes att.feed.id ∷ []

abbrev att_udid : Option Attachment → String → String
att_udid none pending = pending
att_udid (some att) pending = att.udid

-- The result holds `prev`.
unfoldable pub claim_attach : Dispatch → String → Dispatch × String × List Effect
claim_attach d next = (
  record d { gen = d.gen + 1; att = none; pending = next },
  att_udid d.att d.pending,
  release d.att,
)

unfoldable pub stop_attachment : Dispatch → Dispatch × String × List Effect
unfolding claim_attach
stop_attachment d = claim_attach d ""

abbrev pub replace_feed : Dispatch → Option Attachment → Option (Dispatch × String × List Effect)
replace_feed d none = none
replace_feed d (some att) =
    some
      (record d { gen = d.gen + 1; att = none; pending = att.udid }, att.udid, release (some att))

unfoldable pub restart_attachment : Dispatch → Option (Dispatch × String × List Effect)
restart_attachment d = replace_feed d d.att

abbrev is_udid : Option Attachment → String → Bool
is_udid none udid = false
is_udid (some att) udid = str_eq att.udid udid

unfoldable pub streaming : Dispatch → String → Bool
streaming d udid = is_udid d.att udid || str_eq d.pending udid

abbrev pub spawn : Dispatch → String → QualityOpts → Route → Dispatch
spawn d udid q route = record d {
  attempts = record { udid = udid; quality = q; gen = d.gen; route = route } ∷ d.attempts;
}

unfoldable pub do_attach : Dispatch → String → QualityOpts → Route → Dispatch × List Effect
unfolding claim_attach
do_attach d udid q route =
    if str_eq udid ""
    then (
      d,
      replies route (error_reply op_attach "" bad_request false ("attach: missing udid" ∷ [])) ∷ [],
    )
    else (
      spawn (claim_attach d udid).0 udid q route,
      (claim_attach d udid).2 ++ replies route (reply_of attaching udid) ∷ [],
    )

-- What the backend gave, and `attachWithin`: `expired` says that the watchdog came first.
abbrev pub timed_out : String → AttachError
timed_out udid = record {
  code = code_attach_timeout;
  msg = "no video feed from " ∷ udid ∷ " within 30s" ∷ [];
  retryable = false;
}

unfoldable pub attach_within :
    String → Bool → AttachError ⊎ Feed → (AttachError ⊎ Feed) × List Effect
attach_within udid false r = (r, [])
attach_within udid true (inl e) = (inl (timed_out udid), [])
attach_within udid true (inr feed) = (inl (timed_out udid), closes feed.id ∷ [])

-- `errors.As(err, &typed) && typed.Code != ""`
abbrev pub fail_code : AttachError → String × Bool
fail_code e = if str_eq e.code "" then (code_attach_failed, false) else (e.code, e.retryable)

unfoldable pub fail_attach : Dispatch → Attempt → AttachError → Dispatch × List Effect
fail_attach d a e =
    if d.gen == a.gen
    then (
      record d { pending = "" },
      replies a.route (error_reply op_attach a.udid (fail_code e).0 (fail_code e).1 e.msg) ∷ [],
    )
    else (d, [])

abbrev attached_reply : Attachment → CtrlReply
attached_reply att = record (reply_of attached att.udid) { w = att.feed.w; h = att.feed.h }

-- From the lock of `attachAs` to its reply.
unfoldable pub install : Dispatch → Attempt → Feed → Dispatch × List Effect
install d a feed =
    let att : Attachment = record { feed = feed; udid = a.udid } in
    if d.gen == a.gen
    then (
      record d { att = some att; pending = ""; pumps = att ∷ d.pumps },
      replies a.route (attached_reply att) ∷ [],
    )
    else (d, cancels feed.id ∷ closes feed.id ∷ [])

abbrev settle : Dispatch → Attempt → AttachError ⊎ Feed → Dispatch × List Effect
settle d a (inl e) = fail_attach d a e
settle d a (inr feed) = install d a feed

-- `attachAs` from the return of the backend.
unfoldable pub attach_as : Dispatch → Attempt → Bool → AttachError ⊎ Feed → Dispatch × List Effect
unfolding attach_within fail_attach install
attach_as d a expired r =
    let (settled, closed) = attach_within a.udid expired r in
    let (next, out) = settle d a settled in (next, closed ++ out)

-- `d.att == att`
abbrev pub is_att : Option Attachment → ℕ → Bool
is_att none id = false
is_att (some att) id = att.feed.id == id

abbrev ended_msg : Option Prose → Prose
ended_msg none = "video feed ended" ∷ []
ended_msg (some reason) = reason

-- `pump` from the end of its loop; `reason` is the error of the track.
unfoldable pub pump_end : Dispatch → Attachment → Option Prose → Dispatch × List Effect
pump_end d att reason =
    if is_att d.att att.feed.id
    then (
      record d { att = none },
      cancels att.feed.id
          ∷ closes att.feed.id
          ∷ (if d.base_done
              then []
              else replies d.bulk_lifecycle
                  (record (reply_of stream_ended att.udid) { msg = ended_msg reason })
                ∷ []),
    )
    else (d, cancels att.feed.id ∷ [])
