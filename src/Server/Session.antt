-- ===== src/Server/Session.antt =====
-- internal/server/rtcdispatch.go, attach.go, backend.go, control.go and bulk.go: the control plane of one
-- session. A feed is a number, and so is the attachment that holds it.
pub mod Quality
pub mod Attach
pub mod Lifecycle
pub mod Requests
pub mod Run
pub mod Owned
pub mod Released
pub mod Replies
use simbeam.Prelude.{
  ℕ, Bool, true, false, Option, none, some, ◌⊎◌, inl, inr, String, List, [], ◌∷◌, ◌||◌, str_eq,
  if◌then◌else◌,
}
use simbeam.Server.Bulk.{Frame}
use simbeam.Server.Session.Quality.{QualityOpts}

-- A text that the source builds from pieces is the list of its pieces.
abbrev pub Prose : Type 0
Prose = List String

pub data ReplyType : Type 0 where
  booted attaching attached detached shutdown stream_ended hello error : ReplyType

pub record CtrlReply : Type 0 where
  pub type : ReplyType
  pub msg : Prose
  pub udid : String
  pub operation : String
  pub code : String
  pub retryable : Bool
  pub w : ℕ
  pub h : ℕ

abbrev pub reply_of : ReplyType → String → CtrlReply
reply_of t udid = record {
  type = t;
  msg = [];
  udid = udid;
  operation = "";
  code = "";
  retryable = false;
  w = 0;
  h = 0;
}

-- A failure that the backend reports; `code` is empty if it is not an `AttachError`.
pub record AttachError : Type 0 where
  pub code : String
  pub msg : Prose
  pub retryable : Bool

pub record Feed : Type 0 where
  pub id : ℕ
  pub w : ℕ
  pub h : ℕ

pub record Attachment : Type 0 where
  pub feed : Feed
  pub udid : String

-- A gesture; each coordinate is the word of its float.
pub record Input : Type 0 where
  pub type : String
  pub action : String
  pub at : List ℕ
  pub duration : ℕ
  pub key : String

-- `reliable` says that a reply goes out on "bulk" and not on "control".
abbrev pub Route : Type 0
Route = Bool

-- A goroutine of `attachAs` that waits for the backend.
pub record Attempt : Type 0 where
  pub udid : String
  pub quality : QualityOpts
  pub gen : ℕ
  pub route : Route

pub record Dispatch : Type 0 where
  pub att : Option Attachment
  pub gen : ℕ
  pub pending : String
  pub bulk_lifecycle : Bool
  pub attempts : List Attempt
  pub pumps : List Attachment
  pub base_done : Bool

pub data Effect : Type 0 where
  replies : Route → CtrlReply → Effect
  greets : Effect
  cancels : ℕ → Effect
  closes : ℕ → Effect
  boots : String → Effect
  shuts_down : String → Effect
  shakes : String → Effect
  inputs : ℕ → Input → Effect
  quality_is : QualityOpts → Effect
  bulk_error : (code : String) → (msg : Prose) → Effect
  bulk_frame : Frame → Effect

abbrev pub bad_request : String
bad_request = "bad_request"
