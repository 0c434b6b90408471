-- ===== src/Server/Handshake/Unsaved.antt =====
-- internal/server/remote.go, the `TypeProof` case: an enrollment that could not be saved.
use simbeam.Prelude.{
  ℕ, ◌≡◌, refl, ap, ◌∙◌, true, false, String, List, [], ◌∷◌, ◌++◌, arith, codes, str_eq,
  lookup-insert,
}
use simbeam.Signal.Message.{MsgType, Msg}
use simbeam.Signal.Crypto.{verify}
use simbeam.Server.Pinned.{Json, PinnedStore, SaveEnv, contains, add}
use simbeam.Server.Pinned.Saving.{add-contains, add_unsaved}
use simbeam.Server.Handshake.{
  Setup, Env, Daemon, idle, refuse, cleanup, admit, on_connect, on_proof, on_offer, on_candidate,
  on_message, step, Input, message, arms, disarms, reconnects, peer_closes, gathers, react, run,
}

contains-add :
    (json : Json) (env : SaveEnv) (ps : PinnedStore) (key name k : String)
    → contains ps k ≡ true
    → contains (add json env ps key name).0 k ≡ true
unfolding contains add
contains-add json env ps key name k h =
    ground (arith, lookup-insert key k (record { pub_key = key; name = name }) ps.set)

module _ (s : Setup) (k : String) where
  abbrev Knows : Daemon → Type 0
  Knows d = contains d.pinned k ≡ true

  on_connect-Knows : (env : Env) (d : Daemon) (m : Msg) → Knows d → Knows (on_connect s env d m).0
  unfolding on_connect
  on_connect-Knows env d m h = ground arith

  on_proof-Knows : (env : Env) (d : Daemon) (m : Msg) → Knows d → Knows (on_proof s env d m).0
  unfolding on_proof
  on_proof-Knows env d m h =
      ground (arith, contains-add s.json env.saving d.pinned d.conn.auth_pub "" k h)

  on_message-Knows :
      (env : Env) (d : Daemon) (m : Msg) (t : MsgType) → Knows d → Knows (on_message s env d m t).0
  unfolding on_message
  on_message-Knows env d m MsgType.connect h = on_connect-Knows env d m h
  on_message-Knows env d m MsgType.proof h = on_proof-Knows env d m h
  on_message-Knows env d m MsgType.offer h = unfold on_offer in ground arith
  on_message-Knows env d m MsgType.candidate h = unfold on_candidate in ground arith
  on_message-Knows env d m MsgType.peer_left h = unfold cleanup in ground arith
  on_message-Knows env d m _ h = h

  react-Knows : (d : Daemon) (i : Input) → Knows d → Knows (react s d i).0
  unfolding react step
  react-Knows d (message env m) h = on_message-Knows env d m m.type h
  react-Knows d (arms secret now ttl) h = h
  react-Knows d disarms h = h
  react-Knows d reconnects h = ground arith
  react-Knows d (peer_closes session) h = h
  react-Knows d (gathers over c) h = h

  run-Knows : (d : Daemon) (is : List Input) → Knows d → Knows (run s d is)
  unfolding run
  run-Knows d [] h = h
  run-Knows d (i ∷ is) h = run-Knows (react s d i).0 is (react-Knows d i h)

-- A proof that is refused because the key could not be saved.
refused :
    (s : Setup) (env : Env) (d : Daemon) (m : Msg)
    → m.type ≡ MsgType.proof
    → str_eq d.conn.auth_pub "" ≡ false
    → verify s.crypto d.conn.auth_pub (codes d.conn.auth_nonce) m.sig ≡ true
    → d.conn.enrolling ≡ true
    → (add s.json env.saving d.pinned d.conn.auth_pub "").1 ≡ false
    → ((step s env d m).1 ≡ refuse "" "could not save pairing" ++ (cleanup d).1)
      × ((step s env d m).0 ≡ record d {
        conn = idle;
        pinned = (add s.json env.saving d.pinned d.conn.auth_pub "").0;
      })
unfolding step on_message on_proof cleanup
refused s env d m t named signed enrolls failed =
    rw (t, named, signed, enrolls, failed) (refl, refl)

admit-known :
    (s : Setup) (now : ℕ) (d : Daemon) (m : Msg)
    → contains d.pinned m.pub_key ≡ true
    → admit s now d m ≡ record { win = d.win; allow = true; enrolling = false; code = "" }
unfolding admit
admit-known s now d m h = rw h refl

-- A client enrolls with a valid signature and the key cannot be saved. Then the client is told so, the file
-- is as before and the connection is back at its start. But from then on, whatever the daemon goes through,
-- a client that connects with this key passes the gate as one that is enrolled: it needs no pairing secret,
-- and the window is not asked.
pub unsaved-admitted :
    (s : Setup) (env : Env) (d : Daemon) (m : Msg) (is : List Input) (now : ℕ) (c : Msg)
    → m.type ≡ MsgType.proof
    → str_eq d.conn.auth_pub "" ≡ false
    → verify s.crypto d.conn.auth_pub (codes d.conn.auth_nonce) m.sig ≡ true
    → d.conn.enrolling ≡ true
    → (add s.json env.saving d.pinned d.conn.auth_pub "").1 ≡ false
    → c.pub_key ≡ d.conn.auth_pub
    → let (after, told) = step s env d m in
      let later = run s after is in
      (told ≡ refuse "" "could not save pairing" ++ (cleanup d).1)
      × (after.conn ≡ idle)
      × (after.pinned.disk.clients ≡ d.pinned.disk.clients)
      × (admit s now later c
          ≡ record { win = later.win; allow = true; enrolling = false; code = "" })
unsaved-admitted s env d m is now c t named signed enrolls failed same =
    let key = d.conn.auth_pub in
    let (told, after) = refused s env d m t named signed enrolls failed in
    let known : contains (step s env d m).0.pinned c.pub_key ≡ true =
      rw (after, same) (add-contains s.json env.saving d.pinned key "") in
    (
      told,
      ap (λ (e : Daemon). e.conn) after,
      ap (λ (e : Daemon). e.pinned.disk.clients) after
          ∙ (add_unsaved s.json env.saving d.pinned key "" failed),
      admit-known s now (run s (step s env d m).0 is) c
          (run-Knows s c.pub_key (step s env d m).0 is known),
    )
