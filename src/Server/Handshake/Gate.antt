-- ===== src/Server/Handshake/Gate.antt =====
-- internal/server/remote.go: what the daemon does for a client, and the gate.
use simbeam.Prelude.{◌≡◌, Bool, true, false, Option, none, some, List, arith, any}
use simbeam.Signal.Message.{MsgType, Msg}
use simbeam.Server.PairingWindow.{PairingWindow, PairResult}
use simbeam.Server.PairingWindow
use simbeam.Server.Pinned.{PinnedStore, contains}
use simbeam.Server.Handshake.{
  Setup, Env, Daemon, Effect, sends, enrolls, starts, adds, stops, watches_close,
  watches_candidates, Candidate, candidate_msg, on_gathered, peer_closes, gathers, idle, on_connect,
  on_proof, on_offer, on_candidate, on_message, cleanup, step, Input, message, arms, disarms,
  reconnects, react, run,
}
use simbeam.Server.Handshake.Invariant.{Proven, idle-Inv, run-Inv}

abbrev is_answer : MsgType → Bool
is_answer MsgType.answer = true
is_answer _ = false

-- Building a session, feeding it candidates, and answering an offer.
abbrev pub is_privileged : Effect → Bool
is_privileged (sends m) = is_answer m.type
is_privileged (enrolls key) = false
is_privileged (starts session servers trickle) = true
is_privileged (adds session c) = true
is_privileged (watches_close session) = false
is_privileged (watches_candidates session) = false
is_privileged (stops session) = false

module _ (s : Setup) where
  on_connect-privileged :
      (env : Env) (d : Daemon) (m : Msg) → any is_privileged (on_connect s env d m).1 ≡ false
  unfolding on_connect
  on_connect-privileged env d m = ground arith

  on_proof-privileged :
      (env : Env) (d : Daemon) (m : Msg) → any is_privileged (on_proof s env d m).1 ≡ false
  unfolding on_proof
  on_proof-privileged env d m = ground arith

  on_message-privileged :
      (env : Env) (d : Daemon) (m : Msg) (t : MsgType)
      → any is_privileged (on_message s env d m t).1 ≡ true
      → d.conn.authed ≡ true
  unfolding on_message
  on_message-privileged env d m MsgType.connect h = cc (on_connect-privileged env d m)
  on_message-privileged env d m MsgType.proof h = cc (on_proof-privileged env d m)
  on_message-privileged env d m MsgType.offer h = unfold on_offer in ground arith
  on_message-privileged env d m MsgType.candidate h = unfold on_candidate in ground arith
  on_message-privileged env d m MsgType.peer_left h = unfold cleanup in ground arith
  on_message-privileged env d m _ h = cc

  on_gathered-privileged :
      (d : Daemon) (over : Bool) (c : Option Candidate)
      → any is_privileged (on_gathered over c) ≡ true
      → d.conn.authed ≡ true
  unfolding on_gathered candidate_msg
  on_gathered-privileged d true c h = cc
  on_gathered-privileged d false none h = cc
  on_gathered-privileged d false (some c) h = cc

  react-privileged :
      (d : Daemon) (i : Input) → any is_privileged (react s d i).1 ≡ true → d.conn.authed ≡ true
  unfolding react step
  react-privileged d (message env m) h = on_message-privileged env d m m.type h
  react-privileged d (arms secret now ttl) h = cc
  react-privileged d disarms h = cc
  react-privileged d reconnects h = ground arith
  react-privileged d (peer_closes session) h = cc
  react-privileged d (gathers over c) h = on_gathered-privileged d over c h

-- A daemon that has just registered on the broker.
abbrev pub fresh : PinnedStore → PairingWindow.PairingWindow → Daemon
fresh pinned win = record { conn = idle; pinned = pinned; win = win }

-- From registration on, whatever the broker sends and the user does: if the daemon builds a session,
-- feeds it a candidate or answers an offer, then the key that the connection is about is pinned, and
-- its owner has signed the nonce of this very connection.
pub react-authorised :
    (s : Setup) (pinned : PinnedStore) (win : PairingWindow.PairingWindow) (is : List Input)
    (i : Input)
    → let d = run s (fresh pinned win) is in
      any is_privileged (react s d i).1 ≡ true
      → (contains d.pinned d.conn.auth_pub ≡ true) × Proven s d.conn
react-authorised s pinned win is i h =
    let d = run s (fresh pinned win) is in
    let v = run-Inv s (fresh pinned win) is (idle-Inv s pinned win) in
    let authed = react-privileged s d i h in (v.pinned authed, v.proven authed)
