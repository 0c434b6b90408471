-- ===== src/Signal/Message.antt =====
-- internal/signal/message.go: the envelope of every signalling message. The type tag of the wire is
-- a constructor, `other` for a tag that the program does not know; an absent text is "", and an
-- absent `sdpMLineIndex` is `none`.
use simbeam.Prelude.{ℕ, Bool, false, Option, none, String, List, []}

pub data MsgType : Type 0 where
  register join ice_servers offer answer peer_left error candidate : MsgType
  connect challenge proof : MsgType
  watch presence : MsgType
  other : String → MsgType

abbrev pub code_offline : String
code_offline = "offline"

abbrev pub code_busy : String
code_busy = "busy"

abbrev pub code_taken_over : String
code_taken_over = "taken_over"

abbrev pub code_pair_expired : String
code_pair_expired = "pair_expired"

abbrev pub code_pair_used : String
code_pair_used = "pair_used"

abbrev pub code_pair_invalid : String
code_pair_invalid = "pair_invalid"

pub record IceServer : Type 0 where
  pub urls : List String
  pub username : String
  pub credential : String

pub record Msg : Type 0 where
  pub type : MsgType
  pub room : String
  pub role : String
  pub sdp : String
  pub pub_key : String
  pub sig : String
  pub ice_servers : List IceServer
  pub msg : String
  pub code : String
  pub daemon : String
  pub nonce : String
  pub broker_nonce : String
  pub pair : String
  pub takeover : Bool
  pub broker_sig : String
  pub daemons : List String
  pub states : List (String × Bool)
  pub trickle : Bool
  pub candidate : String
  pub sdp_mid : String
  pub sdp_mline_index : Option ℕ

-- `Msg{Type: t}`: every other field is zero.
abbrev pub msg_of : MsgType → Msg
msg_of t = record {
  type = t;
  room = "";
  role = "";
  sdp = "";
  pub_key = "";
  sig = "";
  ice_servers = [];
  msg = "";
  code = "";
  daemon = "";
  nonce = "";
  broker_nonce = "";
  pair = "";
  takeover = false;
  broker_sig = "";
  daemons = [];
  states = [];
  trickle = false;
  candidate = "";
  sdp_mid = "";
  sdp_mline_index = none;
}

abbrev pub error_msg : String → String → Msg
error_msg code text = record (msg_of MsgType.error) { code = code; msg = text }
