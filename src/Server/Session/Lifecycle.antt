-- ===== src/Server/Session/Lifecycle.antt =====
-- internal/server/rtcdispatch.go: the handlers of lifecycle requests, input, shake and hello.
use simbeam.Prelude.{
  Bool, true, false, ◌||◌, Option, none, some, String, List, [], ◌∷◌, ◌++◌, str_eq, if◌then◌else◌,
}
use simbeam.Server.Session.{
  CtrlReply, booted, detached, shutdown, reply_of, Route, Dispatch, Effect, replies, greets, boots,
  shuts_down, shakes, inputs, Input, bad_request, Prose,
}
use simbeam.Server.Session.Quality.{QualityOpts}
use simbeam.Server.Session.Attach.{error_reply, stop_attachment, streaming, do_attach}

-- What the backend answers: `none`, or the text of its error.
pub record Answers : Type 0 where
  pub boot : Option Prose
  pub shutdown : Option Prose
  pub shake : Option Prose

pub record ControlMsg : Type 0 where
  pub type : String
  pub udid : String
  pub quality : QualityOpts
  pub input : Input

abbrev pub confirm : Route → CtrlReply → (operation code udid : String) → Option Prose → List Effect
confirm route ok operation code udid none = replies route ok ∷ []
confirm route ok operation code udid (some e) =
    replies route (error_reply operation udid code false e) ∷ []

unfoldable pub do_boot : Answers → Dispatch → String → Route → Dispatch × List Effect
do_boot env d udid route =
    if str_eq udid ""
    then (
      d,
      replies route (error_reply "boot" "" bad_request false ("boot: missing udid" ∷ [])) ∷ [],
    )
    else (d, boots udid ∷ confirm route (reply_of booted udid) "boot" "boot_failed" udid env.boot)

-- `if current { d.stopAttachment() }`. The lock is given up in between: `seen` is the session when `current`
-- was computed, and `d` is the session when it is stopped.
abbrev pub stop_seen : (seen d : Dispatch) → String → Dispatch × List Effect
stop_seen seen d udid =
    if streaming seen udid then ((stop_attachment d).0, (stop_attachment d).2) else (d, [])

abbrev pub stop_current : Dispatch → String → Dispatch × List Effect
stop_current d udid = stop_seen d d udid

abbrev pub power_cycle : Answers → String → Route → Option Prose → List Effect
power_cycle env udid route none =
    boots udid ∷ confirm route (reply_of booted udid) "restart" "restart_failed" udid env.boot
power_cycle env udid route (some e) =
    replies route (error_reply "restart" udid "restart_failed" false e) ∷ []

-- The backend is called without the lock, and what other handlers do then comes after the state given here.
abbrev pub restart_seen : Answers → (seen d : Dispatch) → String → Route → Dispatch × List Effect
restart_seen env seen d udid route =
    if str_eq udid ""
    then (
      d,
      replies route (error_reply "restart" "" bad_request false ("restart: missing udid" ∷ []))
          ∷ [],
    )
    else (
      (stop_seen seen d udid).0,
      (stop_seen seen d udid).1 ++ shuts_down udid ∷ power_cycle env udid route env.shutdown,
    )

-- Handled whole, with no other handler in between.
unfoldable pub do_restart : Answers → Dispatch → String → Route → Dispatch × List Effect
do_restart env d udid route = restart_seen env d d udid route

unfoldable pub do_detach : Dispatch → Route → Dispatch × List Effect
do_detach d route =
    let (next, prev, out) = stop_attachment d in
    (next, out ++ replies route (reply_of detached prev) ∷ [])

abbrev pub tell_detached : Bool → String → Route → List Effect
tell_detached true udid route = replies route (reply_of detached udid) ∷ []
tell_detached false udid route = []

abbrev pub shutdown_seen : Answers → (seen d : Dispatch) → String → Route → Dispatch × List Effect
shutdown_seen env seen d udid route =
    if str_eq udid ""
    then (
      d,
      replies route (error_reply "shutdown" "" bad_request false ("shutdown: missing udid" ∷ []))
          ∷ [],
    )
    else (
      (stop_seen seen d udid).0,
      (stop_seen seen d udid).1
          ++ tell_detached (streaming seen udid) udid route
          ++ shuts_down udid
            ∷ confirm route (reply_of shutdown udid) "shutdown" "shutdown_failed" udid env.shutdown,
    )

-- Handled whole, as `do_restart`.
unfoldable pub do_shutdown : Answers → Dispatch → String → Route → Dispatch × List Effect
do_shutdown env d udid route = shutdown_seen env d d udid route

unfoldable pub do_input : Dispatch → Input → List Effect
do_input d i = elim d.att [ none ↦ [] | some att ↦ inputs att.feed.id i ∷ [] ]

-- A failure of the backend is only logged.
unfoldable pub do_shake : Dispatch → List Effect
do_shake d = elim d.att [ none ↦ [] | some att ↦ shakes att.udid ∷ [] ]

-- The first answer on "bulk" makes that the route of what nobody asked for. Every handler answers.
abbrev pub remember : Route → Dispatch → Dispatch
remember true d = record d { bulk_lifecycle = true }
remember false d = d

-- `none` where the source returns false.
unfoldable pub lifecycle : Answers → Dispatch → ControlMsg → Route → Option (Dispatch × List Effect)
lifecycle env d m route =
    if str_eq m.type "boot"
    then some (do_boot env (remember route d) m.udid route)
    else if str_eq m.type "restart"
    then some (do_restart env (remember route d) m.udid route)
    else if str_eq m.type "attach"
    then some (do_attach (remember route d) m.udid m.quality route)
    else if str_eq m.type "detach"
    then some (do_detach (remember route d) route)
    else if str_eq m.type "shutdown"
    then some (do_shutdown env (remember route d) m.udid route)
    else none

abbrev is_one_of : String → List String → Bool
is_one_of s [] = false
is_one_of s (t ∷ ts) = str_eq s t || is_one_of s ts

-- `parseControl` behind the JSON decoder.
unfoldable pub parse_control : Option ControlMsg → Option ControlMsg
parse_control none = none
parse_control (some m) =
    if is_one_of m.type (
      "tap" ∷ "home" ∷ "swipe" ∷ "key" ∷ "shake" ∷ "app_switcher" ∷ "boot" ∷ "restart" ∷ "attach"
      ∷ "detach" ∷ "shutdown" ∷ "hello" ∷ [])
    then some m
    else if str_eq m.type "touch"
    then (if is_one_of m.input.action ("down" ∷ "move" ∷ "up" ∷ []) then some m else none)
    else none

abbrev pub gesture : Dispatch → ControlMsg → List Effect
gesture d m =
    if is_one_of m.type ("tap" ∷ "touch" ∷ "home" ∷ "swipe" ∷ "key" ∷ "app_switcher" ∷ [])
    then do_input d m.input
    else if str_eq m.type "shake"
    then do_shake d
    else if str_eq m.type "hello"
    then greets ∷ []
    else []

abbrev pub or_gesture :
    Dispatch → ControlMsg → Option (Dispatch × List Effect) → Dispatch × List Effect
or_gesture d m none = (d, gesture d m)
or_gesture d m (some r) = r

abbrev pub handle_parsed : Answers → Dispatch → Option ControlMsg → Dispatch × List Effect
handle_parsed env d none = (d, [])
handle_parsed env d (some m) = or_gesture d m (lifecycle env d m false)

unfoldable pub handle : Answers → Dispatch → Option ControlMsg → Dispatch × List Effect
handle env d received = handle_parsed env d (parse_control received)
