-- ===== src/Peer/Channels.antt =====
-- internal/rtc/peer.go: the data channels of a session, its callbacks, and its end, beside the candidates. A
-- channel and a callback are numbers.
pub mod Ends
use simbeam.Prelude.{
  ℕ, ◌≡◌, refl, ap, ap₂, sym, ◌∙◌, Bool, true, false, Option, none, some, String, List, [], ◌∷◌,
  ◌++◌, if◌then◌else◌, append_assoc,
}
use simbeam.Peer.{Session, Event, new_session, step, run}
use simbeam.Peer.Order.{trickled, run-trickled}

pub record Peer : Type 0 where
  pub session : Session
  pub ctrl : Option ℕ
  pub bulk : Option ℕ
  pub on_ctrl_open : Option ℕ
  pub on_close : Option ℕ
  pub closed : Bool

abbrev pub new_peer : Peer
new_peer = record {
  session = new_session;
  ctrl = none;
  bulk = none;
  on_ctrl_open = none;
  on_close = none;
  closed = false;
}

pub data Label : Type 0 where
  control bulk other : Label

-- `ends` stands for failed, closed and disconnected.
pub data ConnectionState : Type 0 where
  connected connecting ends : ConnectionState

pub data Happening : Type 0 where
  ice : Event → Happening
  opens_channel : Label → (channel : ℕ) → Happening
  channel_open : Label → Happening
  message : Label → List ℕ → Happening
  state_change : ConnectionState → Happening
  sets_on_close : (callback : ℕ) → Happening
  sets_on_control_open : (callback : ℕ) → Happening
  send : List ℕ → Happening
  send_bulk : (text : Bool) → List ℕ → Happening

pub data Effect : Type 0 where
  to_pion : (candidate : String) → Effect
  on_control : List ℕ → Effect
  on_bulk : List ℕ → Effect
  calls : (callback : ℕ) → Effect
  closes_with : (callback : ℕ) → Effect
  sends : (channel : ℕ) → (text : Bool) → List ℕ → Effect
  no_control_channel no_bulk_channel : Effect

abbrev all_to_pion : List String → List Effect
all_to_pion [] = []
all_to_pion (c ∷ cs) = to_pion c ∷ all_to_pion cs

unfoldable pub on_data_channel : Peer → Label → ℕ → Peer
on_data_channel p control channel = record p { ctrl = some channel }
on_data_channel p bulk channel = record p { bulk = some channel }
on_data_channel p other channel = p

abbrev call : Option ℕ → List Effect
call none = []
call (some fn) = calls fn ∷ []

unfoldable pub on_open : Peer → Label → List Effect
on_open p control = call p.on_ctrl_open
on_open p bulk = []
on_open p other = []

unfoldable pub on_message : Label → List ℕ → List Effect
on_message control b = on_control b ∷ []
on_message bulk b = on_bulk b ∷ []
on_message other b = []

abbrev close_call : Option ℕ → List Effect
close_call none = []
close_call (some fn) = closes_with fn ∷ []

-- `closeOnce`
unfoldable pub fire_close : Peer → (closed : Bool) → Peer × List Effect
fire_close p true = (p, [])
fire_close p false = (record p { closed = true }, close_call p.on_close)

unfoldable pub on_state : Peer → ConnectionState → Peer × List Effect
unfolding fire_close
on_state p connected = (p, [])
on_state p connecting = (p, [])
on_state p ends = fire_close p p.closed

abbrev send_on : Option ℕ → (text : Bool) → List ℕ → (missing : Effect) → List Effect
send_on none text b missing = missing ∷ []
send_on (some channel) text b missing = sends channel text b ∷ []

unfoldable pub happen : Peer → Happening → Peer × List Effect
unfolding on_data_channel on_open on_message on_state step
happen p (ice e) = (record p { session = (step p.session e).0 }, all_to_pion (step p.session e).1)
happen p (opens_channel l channel) = (on_data_channel p l channel, [])
happen p (channel_open l) = (p, on_open p l)
happen p (message l b) = (p, on_message l b)
happen p (state_change st) = on_state p st
happen p (sets_on_close fn) = (record p { on_close = some fn }, [])
happen p (sets_on_control_open fn) = (record p { on_ctrl_open = some fn }, [])
happen p (send b) = (p, send_on p.ctrl true b no_control_channel)
happen p (send_bulk text b) = (p, send_on p.bulk text b no_bulk_channel)

unfoldable pub run_peer : Peer → List Happening → Peer × List Effect
unfolding happen
run_peer p [] = (p, [])
run_peer p (h ∷ hs) =
    let (next, out) = happen p h in let (last, later) = run_peer next hs in (last, out ++ later)
