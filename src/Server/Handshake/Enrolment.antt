-- ===== src/Server/Handshake/Enrolment.antt =====
-- internal/server/remote.go with pairing_window.go and pinned.go: how many keys get enrolled.
use simbeam.Prelude.{
  delete, ℕ, ◌+◌, ◌≤◌, ◌&&◌, not, String, List, [], ◌∷◌, arith, length, if◌then◌else◌, lookup,
  insert, is_some,
}
use simbeam.Signal.Message.{MsgType, Msg}
use simbeam.Server.PairingWindow
use simbeam.Server.PairingWindow.SingleUse.{live, verify_spends, live-open_window, live-close}
use simbeam.Server.Pinned.{PinnedClient, PinnedStore, contains, add}
use simbeam.Server.Pinned.Saving.{add-contains}
use simbeam.Server.Handshake.{
  Setup, Env, Daemon, idle, cleanup, on_connect, on_proof, on_offer, on_candidate, on_message, step,
  Input, message, arms, disarms, reconnects, peer_closes, gathers, react, run,
}

length-delete :
    (k : String) (m : List (String × PinnedClient))
    → length (delete k m) + (if is_some (lookup k m) then 1 else 0) ≤ length m
unfolding delete lookup
length-delete k [] = omega arith
length-delete k (entry ∷ m) = ground (arith, length-delete k m)

length-add :
    (s : Setup) (env : Env) (ps : PinnedStore) (k : String)
    → length (add s.json env.saving ps k "").0.set
      ≤ length ps.set + (if contains ps k then 0 else 1)
unfolding add contains insert
length-add s env ps k = ground (arith, length-delete k ps.set)

-- The enrollments that are under way: one for a connection that the window admitted and whose key
-- is not yet in the store.
abbrev under_way : Daemon → ℕ
under_way d = if d.conn.enrolling && not (contains d.pinned d.conn.auth_pub) then 1 else 0

-- What has been enrolled or may still be without arming the window again.
abbrev potential : Daemon → ℕ
potential d = length d.pinned.set + live d.win + under_way d

abbrev arms_once : Input → ℕ
arms_once (arms secret now ttl) = 1
arms_once _ = 0

module _ (s : Setup) where
  on_connect-potential :
      (env : Env) (d : Daemon) (m : Msg) → potential (on_connect s env d m).0 ≤ potential d
  unfolding on_connect
  on_connect-potential env d m =
      ground (arith, verify_spends s.crypto d.win m.pub_key m.nonce m.pair env.now)

  on_proof-potential :
      (env : Env) (d : Daemon) (m : Msg) → potential (on_proof s env d m).0 ≤ potential d
  unfolding on_proof
  on_proof-potential env d m = ground (
    arith,
    length-add s env d.pinned d.conn.auth_pub,
    add-contains s.json env.saving d.pinned d.conn.auth_pub "",
  )

  on_message-potential :
      (env : Env) (d : Daemon) (m : Msg) (t : MsgType)
      → potential (on_message s env d m t).0 ≤ potential d
  unfolding on_message
  on_message-potential env d m MsgType.connect = on_connect-potential env d m
  on_message-potential env d m MsgType.proof = on_proof-potential env d m
  on_message-potential env d m MsgType.offer = unfold on_offer in ground arith
  on_message-potential env d m MsgType.candidate = unfold on_candidate in ground arith
  on_message-potential env d m MsgType.peer_left = unfold cleanup in ground arith
  on_message-potential env d m _ = omega arith

  react-potential : (d : Daemon) (i : Input) → potential (react s d i).0 ≤ potential d + arms_once i
  unfolding react step
  react-potential d (message env m) = omega (arith, on_message-potential env d m m.type)
  react-potential d (arms secret now ttl) = ground (arith, live-open_window d.win secret now ttl)
  react-potential d disarms = ground (arith, live-close d.win)
  react-potential d reconnects = ground arith
  react-potential d (peer_closes session) = ground arith
  react-potential d (gathers over c) = ground arith

abbrev pub count_arms : List Input → ℕ
count_arms [] = 0
count_arms (i ∷ is) = arms_once i + count_arms is

run-potential :
    (s : Setup) (d : Daemon) (is : List Input)
    → potential (run s d is) ≤ potential d + count_arms is
unfolding run
run-potential s d [] = omega arith
run-potential s d (i ∷ is) =
    omega (arith, react-potential s d i, run-potential s (react s d i).0 is)

-- However many clients connect, and whatever they and the broker send, a daemon's store never holds
-- more keys than it held at registration and one for each arming of the window, counting one for a
-- window that is live already.
pub run-length-pinned :
    (s : Setup) (pinned : PinnedStore) (win : PairingWindow.PairingWindow) (is : List Input)
    → length (run s (record { conn = idle; pinned = pinned; win = win }) is).pinned.set
      ≤ length pinned.set + live win + count_arms is
run-length-pinned s pinned win is =
    omega (arith, run-potential s (record { conn = idle; pinned = pinned; win = win }) is)
