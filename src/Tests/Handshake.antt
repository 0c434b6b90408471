-- ===== src/Tests/Handshake.antt =====
-- A pairing, a session and what the broker could try, with the stand-ins of `Pairing`.
use simbeam.Prelude.{
  ℕ, ◌+◌, ◌≤◌, ◌≡◌, refl, true, false, some, ◌⊎◌, inl, inr, List, [], ◌∷◌, ◌++◌, any, arith, length,
  insert, lookup,
}
use simbeam.Signal.Message.{MsgType, Msg, msg_of}
use simbeam.Signal.Crypto.{verify, new_nonce}
use simbeam.Server.PairingWindow
use simbeam.Server.PairingWindow.{PairingWindow, new_pairing_window}
use simbeam.Server.PairingWindow.SingleUse.{live}
use simbeam.Server.Pinned.{contains, add}
use simbeam.Server.Handshake.{
  Setup, Env, Daemon, Input, message, arms, reconnects, peer_closes, react, run, step, refuse,
  cleanup, idle, admit, on_connect, on_proof, on_offer,
}
use simbeam.Server.Handshake.Invariant.{Proven}
use simbeam.Server.Handshake.Gate.{fresh, is_privileged, react-authorised}
use simbeam.Server.Handshake.Displaced.{is_stop, effects, second_offer_leaks}
use simbeam.Server.Handshake.Unsaved.{unsaved-admitted}
use simbeam.Server.Handshake.Enrolment.{count_arms, run-length-pinned}
use simbeam.Tests.Pairing.{toy, toy_json, toy_marshal, no_pins, saves, disk_full}

abbrev setup : Setup
setup = record { crypto = toy; json = toy_json; pub_b64 = "mac"; priv = 7 ∷ [] }

abbrev env : Env
env = record { now = 10; nonce = some (5 ∷ []); saving = saves; start = inl 1; answer = inl "sdp" }

abbrev connect : Msg
connect = record (msg_of MsgType.connect) { pub_key = "alice"; nonce = "n"; pair = "digest" }

abbrev proof : Msg
proof = record (msg_of MsgType.proof) { sig = "signed" }

abbrev offer : Msg
offer = record (msg_of MsgType.offer) { sdp = "offer" }

abbrev pairing : List Input
pairing = arms "s3cret" 5 100 ∷ message env connect ∷ message env proof ∷ []

abbrev start : Daemon
start = fresh no_pins new_pairing_window

paired : Daemon
unfolding run react on_connect on_proof new_nonce verify PairingWindow.verify contains add
    toy_marshal insert lookup
paired = run setup start pairing

offer_answered : any is_privileged (react setup paired (message env offer)).1 ≡ true
unfolding paired on_offer
offer_answered = refl

react-authorised_example :
    (contains (run setup start pairing).pinned (run setup start pairing).conn.auth_pub ≡ true)
    × Proven setup (run setup start pairing).conn
unfolding paired on_offer
react-authorised_example =
    react-authorised setup no_pins new_pairing_window pairing (message env offer) refl

run-length-pinned_example :
    length (run setup start pairing).pinned.set
    ≤ length no_pins.set + live new_pairing_window + count_arms pairing
run-length-pinned_example = run-length-pinned setup no_pins new_pairing_window pairing

abbrev second : Env
second = record env { start = inl 2 }

streaming : Daemon
unfolding paired on_offer
streaming = (react setup paired (message env offer)).0

neither : (e : ⊥ ⊎ ⊥) → ⊥
neither (inl e) = e
neither (inr e) = e

not_one : (e : ⊥ ⊎ ◌≡◌ {A = ℕ} 1 2) → ⊥
not_one (inl e) = e
not_one (inr e) = absurd (omega arith)

abbrev disk_is_full : Env
disk_is_full = record env { saving = disk_full }

enrolling : Daemon
unfolding run react on_connect new_nonce verify PairingWindow.verify contains lookup
enrolling = run setup start (arms "s3cret" 5 100 ∷ message env connect ∷ [])

unsaved-admitted_example :
    let (after, told) = step setup disk_is_full enrolling proof in
    let later = run setup after (reconnects ∷ []) in
    (told ≡ refuse "" "could not save pairing" ++ (cleanup enrolling).1)
    × (after.conn ≡ idle)
    × (after.pinned.disk.clients ≡ enrolling.pinned.disk.clients)
    × (admit setup 20 later connect
        ≡ record { win = later.win; allow = true; enrolling = false; code = "" })
unfolding enrolling verify add toy_marshal insert
unsaved-admitted_example =
    unsaved-admitted setup disk_is_full enrolling proof (reconnects ∷ []) 20 connect refl refl refl
      refl refl refl

second_offer_leaks_example :
    ((react setup streaming (message second offer)).0.conn.sess ≡ some 2)
    × (any
          (is_stop 1)
          (effects setup streaming (message second offer ∷ peer_closes 2 ∷ reconnects ∷ []))
        ≡ false)
unfolding streaming
second_offer_leaks_example =
    second_offer_leaks setup second streaming offer 1 2 "sdp" (peer_closes 2 ∷ reconnects ∷ []) refl
      refl refl refl refl (omega arith) (not_one, (neither, tt))
