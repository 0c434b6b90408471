-- ===== src/Server/Handshake.antt =====
-- internal/server/remote.go, `serveOnce`: the daemon's side of the handshake, one message at a time.
-- A session is a number; `sess`, `disp` and `sessCancel` are set and cleared together, and are one
-- field. What the outside answers while a message is handled is an `Env`.
pub mod Invariant
pub mod Gate
pub mod Displaced
pub mod Enrolment
pub mod Unsaved
use simbeam.Prelude.{
  ℕ, Bool, true, false, ◌&&◌, ◌||◌, not, Option, none, some, ◌⊎◌, inl, inr, String, List, [], ◌∷◌,
  ◌++◌, map, ltb, str_eq, if◌then◌else◌, length, codes,
}
use simbeam.Signal.Message.{
  MsgType, Msg, IceServer, msg_of, error_msg, code_pair_expired, code_pair_used, code_pair_invalid,
}
use simbeam.Signal.Crypto.{Primitives, sign, verify, new_nonce}
use simbeam.Server.PairingWindow
use simbeam.Server.PairingWindow.{
  PairingWindow, PairResult, pair_ok, pair_no_window, pair_expired, pair_used, pair_bad_proof,
}
use simbeam.Server.Pinned.{PinnedStore, Json, SaveEnv, contains, add}

-- `webrtc.ICECandidateInit`
pub record Candidate : Type 0 where
  pub candidate : String
  pub sdp_mid : Option String
  pub sdp_mline_index : Option ℕ

pub record Setup : Type 0 where
  pub crypto : Primitives
  pub json : Json
  pub pub_b64 : String
  pub priv : List ℕ

-- `nonce` is what the random source gives; `start` and `answer` are the results of `startSession`
-- and `Answer`, an error's text on the right.
pub record Env : Type 0 where
  pub now : ℕ
  pub nonce : Option (List ℕ)
  pub saving : SaveEnv
  pub start : ℕ ⊎ String
  pub answer : String ⊎ String

pub record Conn : Type 0 where
  pub sess : Option ℕ
  pub ice_servers : List IceServer
  pub trickle : Bool
  pub early_cands : List Candidate
  pub auth_pub : String
  pub auth_nonce : String
  pub enrolling : Bool
  pub authed : Bool

pub record Daemon : Type 0 where
  pub conn : Conn
  pub pinned : PinnedStore
  pub win : PairingWindow

-- `watches_close` and `watches_candidates` register the callbacks of a session, `OnClose` and `OnCandidate`;
-- `stops` cancels a session and stops its feed.
pub data Effect : Type 0 where
  sends : Msg → Effect
  enrolls : String → Effect
  starts : (session : ℕ) (servers : List IceServer) (trickle : Bool) → Effect
  watches_close watches_candidates : ℕ → Effect
  adds : ℕ → Candidate → Effect
  stops : ℕ → Effect

abbrev pub max_early_cands : ℕ
max_early_cands = 64

abbrev pub idle : Conn
idle = record {
  sess = none;
  ice_servers = [];
  trickle = false;
  early_cands = [];
  auth_pub = "";
  auth_nonce = "";
  enrolling = false;
  authed = false;
}

abbrev pub refuse : String → String → List Effect
refuse code text = sends (error_msg code text) ∷ []

abbrev stop_sess : Option ℕ → List Effect
stop_sess none = []
stop_sess (some s) = stops s ∷ []

-- `cleanup`
unfoldable pub cleanup : Daemon → Daemon × List Effect
cleanup d = (record d { conn = idle }, stop_sess d.conn.sess)

pub record Admission : Type 0 where
  pub win : PairingWindow
  pub allow : Bool
  pub enrolling : Bool
  pub code : String

abbrev admitted : PairingWindow × PairResult → Admission
admitted (w, pair_ok) = record { win = w; allow = true; enrolling = true; code = "" }
admitted (w, pair_expired) = record {
  win = w;
  allow = false;
  enrolling = false;
  code = code_pair_expired;
}
admitted (w, pair_used) = record {
  win = w;
  allow = false;
  enrolling = false;
  code = code_pair_used;
}
admitted (w, pair_no_window) = record {
  win = w;
  allow = false;
  enrolling = false;
  code = code_pair_invalid;
}
admitted (w, pair_bad_proof) = record {
  win = w;
  allow = false;
  enrolling = false;
  code = code_pair_invalid;
}

-- A pinned key is admitted; any other key needs a proof that the window accepts.
unfoldable pub admit : Setup → ℕ → Daemon → Msg → Admission
admit s now d m =
    if contains d.pinned m.pub_key
    then record { win = d.win; allow = true; enrolling = false; code = "" }
    else admitted (PairingWindow.verify s.crypto d.win m.pub_key m.nonce m.pair now)

abbrev challenge_client : Daemon → Msg → Bool → Option String → Daemon × List Effect
challenge_client d m enr none = (d, refuse "" "nonce error")
challenge_client d m enr (some nonce) = (
  record d {
    conn = record d.conn {
      auth_pub = m.pub_key;
      auth_nonce = nonce;
      enrolling = enr;
      authed = false;
    };
  },
  sends (record (msg_of MsgType.challenge) { nonce = nonce }) ∷ [],
)

abbrev then_emit : List Effect → Daemon × List Effect → Daemon × List Effect
then_emit before (d, es) = (d, before ++ es)

unfoldable pub on_connect : Setup → Env → Daemon → Msg → Daemon × List Effect
unfolding cleanup admit
on_connect s env d m =
    let (clean, closing) = cleanup d in
    let a = admit s env.now clean m in
    let open_door = record clean { win = a.win } in
    then_emit closing (
      if a.allow
      then challenge_client open_door m a.enrolling (new_nonce s.crypto env.nonce)
      else (open_door, refuse a.code "not paired"))

abbrev fail_with : String → Daemon → Daemon × List Effect
fail_with text d = let (clean, closing) = cleanup d in (clean, refuse "" text ++ closing)

-- The key is pinned before it counts as authenticated.
unfoldable pub on_proof : Setup → Env → Daemon → Msg → Daemon × List Effect
unfolding cleanup
on_proof s env d m =
    let c = d.conn in
    if str_eq c.auth_pub "" || not (verify s.crypto c.auth_pub (codes c.auth_nonce) m.sig)
    then fail_with "challenge failed" d
    else if c.enrolling
    then (let (pinned, saved) = add s.json env.saving d.pinned c.auth_pub "" in
        if saved
        then (
          record { conn = record c { authed = true }; pinned = pinned; win = d.win },
          enrolls c.auth_pub ∷ [],
        )
        else fail_with "could not save pairing" (record d { pinned = pinned }))
    else (record d { conn = record c { authed = true } }, [])

unfoldable pub signed_answer : Setup → String → Msg
signed_answer s sdp = record (msg_of MsgType.answer) {
  sdp = sdp;
  sig = sign s.crypto s.priv (codes sdp);
}

abbrev answer_offer : Setup → Daemon → String ⊎ String → Daemon × List Effect
answer_offer s d (inl sdp) = (d, sends (signed_answer s sdp) ∷ [])
answer_offer s d (inr text) = fail_with text d

-- What `startSession` is followed by.
abbrev pub hooks : ℕ → (trickle : Bool) → List Effect
hooks session true = watches_close session ∷ watches_candidates session ∷ []
hooks session false = watches_close session ∷ []

abbrev start_offer : Setup → Env → Daemon → ℕ ⊎ String → Daemon × List Effect
start_offer s env d (inr text) = (d, refuse "" text)
start_offer s env d (inl session) =
    then_emit
      (starts session d.conn.ice_servers d.conn.trickle ∷ hooks session d.conn.trickle
        ++ map (adds session) d.conn.early_cands)
      (answer_offer s (record d { conn = record d.conn { sess = some session; early_cands = [] } })
        env.answer)

unfoldable pub on_offer : Setup → Env → Daemon → Msg → Daemon × List Effect
unfolding cleanup signed_answer
on_offer s env d m =
    if d.conn.authed then start_offer s env d env.start else (d, refuse "" "unauthenticated")

unfoldable pub candidate_init : Msg → Candidate
candidate_init m = record {
  candidate = m.candidate;
  sdp_mid = if str_eq m.sdp_mid "" then none else some m.sdp_mid;
  sdp_mline_index = m.sdp_mline_index;
}

abbrev hold_or_add : Daemon → Candidate → Option ℕ → Daemon × List Effect
hold_or_add d c none = (
  if ltb (length d.conn.early_cands) max_early_cands
      then record d { conn = record d.conn { early_cands = d.conn.early_cands ++ c ∷ [] } }
      else d,
  [],
)
hold_or_add d c (some session) = (d, adds session c ∷ [])

unfoldable pub on_candidate : Daemon → Msg → Daemon × List Effect
unfolding candidate_init
on_candidate d m =
    if not d.conn.authed || not d.conn.trickle
    then (d, [])
    else hold_or_add d (candidate_init m) d.conn.sess

on_message : Setup → Env → Daemon → Msg → MsgType → Daemon × List Effect
on_message s env d m MsgType.connect = on_connect s env d m
on_message s env d m MsgType.ice_servers =
    (record d { conn = record d.conn { ice_servers = m.ice_servers; trickle = m.trickle } }, [])
on_message s env d m MsgType.proof = on_proof s env d m
on_message s env d m MsgType.offer = on_offer s env d m
on_message s env d m MsgType.candidate = on_candidate d m
on_message s env d m MsgType.peer_left = cleanup d
on_message s env d m _ = (d, [])

-- The body of the read loop.
unfoldable pub step : Setup → Env → Daemon → Msg → Daemon × List Effect
unfolding on_message
step s env d m = on_message s env d m m.type

unfoldable register_msg : Setup → Msg
register_msg s = record (msg_of MsgType.register) {
  role = "daemon";
  daemon = s.pub_b64;
  trickle = true;
}

-- A lost broker connection: `serveOnce` returns through `defer cleanup()`, and the next call dials,
-- registers and begins with fresh variables.
unfoldable reconnect : Setup → Daemon → Daemon × List Effect
unfolding cleanup register_msg
reconnect s d = let (clean, closing) = cleanup d in (clean, closing ++ sends (register_msg s) ∷ [])

-- `candidateMsg`; a nil candidate ends the gathering.
unfoldable pub candidate_msg : Option Candidate → Msg
candidate_msg none = msg_of MsgType.candidate
candidate_msg (some c) = record (msg_of MsgType.candidate) {
  candidate = c.candidate;
  sdp_mid = elim c.sdp_mid [ none ↦ "" | some mid ↦ mid ];
  sdp_mline_index = c.sdp_mline_index;
}

-- The callback of `OnCandidate`: `over` is whether the context of its session is done.
unfoldable pub on_gathered : (over : Bool) → Option Candidate → List Effect
unfolding candidate_msg
on_gathered over c = if over then [] else sends (candidate_msg c) ∷ []

-- What a daemon goes through: messages of the broker, the user's arming and disarming of the
-- window, lost connections, and the callbacks of a session, also of one that is no longer current: the end
-- of its peer connection and a candidate that it has gathered.
pub data Input : Type 0 where
  message : Env → Msg → Input
  arms : (secret : String) (now ttl : ℕ) → Input
  disarms reconnects : Input
  peer_closes : (session : ℕ) → Input
  gathers : (over : Bool) → Option Candidate → Input

unfoldable pub react : Setup → Daemon → Input → Daemon × List Effect
unfolding step PairingWindow.open_window PairingWindow.close reconnect on_gathered
react s d (message env m) = step s env d m
react s d (arms secret now ttl) =
    (record d { win = PairingWindow.open_window d.win secret now ttl }, [])
react s d disarms = (record d { win = PairingWindow.close d.win }, [])
react s d reconnects = reconnect s d
react s d (peer_closes session) = (d, stops session ∷ [])
react s d (gathers over c) = (d, on_gathered over c)

unfoldable pub run : Setup → Daemon → List Input → Daemon
run s d [] = d
run s d (i ∷ is) = run s (react s d i).0 is
