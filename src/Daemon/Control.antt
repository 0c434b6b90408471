-- ===== src/Daemon/Control.antt =====
-- cmd/simbeamd/pairctl.go: the control API of a running daemon. Instants and durations are nanoseconds; the
-- secret that the operating system gives and the URL that is built from it are arguments.
pub mod Armed
use simbeam.Prelude.{
  ℕ, ◌/◌, Bool, true, false, ◌||◌, Option, none, some, String, List, [], ◌∷◌, ◌==◌, str_eq,
  if◌then◌else◌, codes, same_text, ◌++◌,
}
use simbeam.Signal.Crypto.{Primitives}
use simbeam.Server.PairingWindow.{
  PairingWindow, PairResult, Phase, phase_none, phase_open, phase_consumed, phase_expired,
  open_window, verify, close, state,
}

abbrev pub second : ℕ
second = 1_000_000_000

pub record ControlServer : Type 0 where
  pub win : PairingWindow
  pub ttl : ℕ
  pub token : String
  pub last_client : String

pub record Request : Type 0 where
  pub method : String
  pub path : String
  pub authorization : String

-- `told` is a `pairState`, and `paired` a `pairReply`.
pub data Answer : Type 0 where
  unauthorized not_found method_not_allowed server_error : Answer
  paired : (url : String) (ttl_seconds : ℕ) → Answer
  told : Phase → (client : String) → Answer

unfoldable pub note_enrolled : ControlServer → String → ControlServer
note_enrolled c client_pub_key = record c { last_client = client_pub_key }

unfoldable pub post_pair :
    (build_url : String → String)
    → ControlServer
    → (now : ℕ) → Option String
    → ControlServer × Answer
unfolding open_window
post_pair build_url c now none = (c, server_error)
post_pair build_url c now (some secret) = (
  record c { win = open_window c.win secret now c.ttl },
  paired (build_url secret) (c.ttl / second),
)

abbrev reported : Phase → String → String
reported phase_consumed client = client
reported phase_none client = ""
reported phase_open client = ""
reported phase_expired client = ""

unfoldable pub get_pair : ControlServer → (now : ℕ) → Answer
unfolding state
get_pair c now = told (state c.win now) (reported (state c.win now) c.last_client)

-- A pattern for GET is also one for HEAD.
unfoldable pub route :
    (build_url : String → String)
    → ControlServer
    → Request
    → (now : ℕ) → Option String
    → ControlServer × Answer
unfolding post_pair get_pair
route build_url c r now secret =
    if str_eq r.path "/pair"
    then (if str_eq r.method "POST"
        then post_pair build_url c now secret
        else if str_eq r.method "GET" || str_eq r.method "HEAD"
        then (c, get_pair c now)
        else (c, method_not_allowed))
    else (c, not_found)

-- `subtle.ConstantTimeCompare` of the header and "Bearer " and the token.
unfoldable pub is_authorized : ControlServer → Request → Bool
is_authorized c r = same_text (codes r.authorization) (codes "Bearer " ++ codes c.token)

unfoldable pub handle :
    (build_url : String → String)
    → ControlServer
    → Request
    → (now : ℕ) → Option String
    → ControlServer × Answer
unfolding is_authorized route
handle build_url c r now secret =
    if is_authorized c r then route build_url c r now secret else (c, unauthorized)

-- main.go, `onPair`: the window that the key P opens.
unfoldable pub on_pair : ControlServer → (now : ℕ) → Option String → ControlServer
unfolding open_window
on_pair c now none = c
on_pair c now (some secret) = record c { win = open_window c.win secret now c.ttl }

-- What happens to the daemon: a call of the API, a proof that a client presents, the note of who enrolled,
-- and the keys P and C.
pub data Event : Type 0 where
  calls : Request → (now : ℕ) → (secret : Option String) → Event
  verifies : (client_pub_key nonce proof : String) (now : ℕ) → Event
  notes : (client_pub_key : String) → Event
  pairs : (now : ℕ) → (secret : Option String) → Event
  cancels : Event

unfoldable pub step : Primitives → (String → String) → ControlServer → Event → ControlServer
unfolding handle note_enrolled on_pair verify close
step p build_url c (calls r now secret) = (handle build_url c r now secret).0
step p build_url c (verifies key nonce proof now) = record c {
  win = (verify p c.win key nonce proof now).0;
}
step p build_url c (notes key) = note_enrolled c key
step p build_url c (pairs now secret) = on_pair c now secret
step p build_url c cancels = record c { win = close c.win }

unfoldable pub run : Primitives → (String → String) → ControlServer → List Event → ControlServer
unfolding step
run p build_url c [] = c
run p build_url c (e ∷ es) = run p build_url (step p build_url c e) es
