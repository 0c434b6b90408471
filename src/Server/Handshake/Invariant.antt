-- ===== src/Server/Handshake/Invariant.antt =====
-- internal/server/remote.go: what is known of a connection that passed the gate.
use simbeam.Prelude.{
  ℕ, ◌≤◌, ◌≡◌, ◌≢◌, refl, Bool, true, false, not, ◌||◌, Option, none, some, inl, inr, String, List,
  [], ◌∷◌, arith, length, length-append, codes, str_eq, eq_iff, Bool-cases,
}
use simbeam.Signal.Message.{MsgType, Msg}
use simbeam.Signal.Crypto.{verify, new_nonce}
use simbeam.Server.PairingWindow
use simbeam.Server.PairingWindow.{PairResult}
use simbeam.Server.Pinned.{PinnedStore, contains, add}
use simbeam.Server.Pinned.Saving.{add-contains}
use simbeam.Server.Handshake.{
  Setup, Env, Conn, Daemon, max_early_cands, idle, cleanup, challenge_client, admit, on_connect,
  on_proof, on_offer, on_candidate, candidate_init, on_message, step, Input, message, arms, disarms,
  reconnects, peer_closes, gathers, react, run,
}

module _ (s : Setup) where
  -- Someone signed the nonce of this connection with the key that the connection is about.
  abbrev pub Proven : Conn → Type 0
  Proven c = (sig : String) × (verify s.crypto c.auth_pub (codes c.auth_nonce) sig ≡ true)

  pub record Inv (d : Daemon) : Type 0 where
    pub proven : d.conn.authed ≡ true → Proven d.conn
    pub pinned : d.conn.authed ≡ true → contains d.pinned d.conn.auth_pub ≡ true
    pub known :
        d.conn.auth_pub ≢ "" → d.conn.enrolling ≡ false → contains d.pinned d.conn.auth_pub ≡ true
    pub session : d.conn.sess ≢ none → d.conn.authed ≡ true
    pub held : d.conn.early_cands ≢ [] → d.conn.authed ≡ true
    pub bounded : length d.conn.early_cands ≤ max_early_cands

  pub idle-Inv :
      (p : PinnedStore) (w : PairingWindow.PairingWindow)
      → Inv (record { conn = idle; pinned = p; win = w })
  idle-Inv p w = record {
    proven = λ h. cc;
    pinned = λ h. cc;
    known = λ h. absurd (h refl);
    session = λ h. absurd (h refl);
    held = λ h. absurd (h refl);
    bounded = omega arith;
  }

  cleanup-Inv : (d : Daemon) → Inv (cleanup d).0
  unfolding cleanup
  cleanup-Inv d = idle-Inv d.pinned d.win

  admit_known :
      (now : ℕ) (d : Daemon) (m : Msg)
      → (admit s now d m).allow ≡ true
      → (admit s now d m).enrolling ≡ false
      → contains d.pinned m.pub_key ≡ true
  unfolding admit
  admit_known now d m h k = ground arith

  challenge-Inv :
      (p : PinnedStore) (w : PairingWindow.PairingWindow) (m : Msg) (enr : Bool)
      (nonce : Option String)
      → (enr ≡ false → contains p m.pub_key ≡ true)
      → Inv (challenge_client (record { conn = idle; pinned = p; win = w }) m enr nonce).0
  challenge-Inv p w m enr none h = idle-Inv p w
  challenge-Inv p w m enr (some nonce) h = record {
    proven = λ e. cc;
    pinned = λ e. cc;
    known = λ _ e. h e;
    session = λ e. absurd (e refl);
    held = λ e. absurd (e refl);
    bounded = omega arith;
  }

  on_connect-Inv : (env : Env) (d : Daemon) (m : Msg) → Inv (on_connect s env d m).0
  unfolding on_connect
  on_connect-Inv env d m =
      let a = admit s env.now (record d { conn = idle }) m in
      elim (Bool-cases a.allow) [
        | inr refused ↦ rw refused (idle-Inv d.pinned a.win)
        | inl allowed ↦ rw allowed (
            challenge-Inv d.pinned a.win m a.enrolling (new_nonce s.crypto env.nonce)
              (admit_known env.now (record d { conn = idle }) m allowed))
      ]

  on_proof-Inv : (env : Env) (d : Daemon) (m : Msg) → Inv d → Inv (on_proof s env d m).0
  unfolding on_proof
  on_proof-Inv env d m v =
      let c = d.conn in
      let signed : (str_eq c.auth_pub ""
              || not (verify s.crypto c.auth_pub (codes c.auth_nonce) m.sig))
            ≡ false
          → verify s.crypto c.auth_pub (codes c.auth_nonce) m.sig ≡ true =
        λ e. ground arith in
      let named : (str_eq c.auth_pub ""
              || not (verify s.crypto c.auth_pub (codes c.auth_nonce) m.sig))
            ≡ false
          → c.auth_pub ≢ "" =
        λ e. ground (arith, eq_iff c.auth_pub "") in
      elim (Bool-cases
        (str_eq c.auth_pub "" || not (verify s.crypto c.auth_pub (codes c.auth_nonce) m.sig))) [
          | inl bad ↦ rw bad (idle-Inv d.pinned d.win)
          | inr good ↦ elim (Bool-cases c.enrolling) [
            | inr old ↦
                rw (good, old)
                  (record {
                    proven = λ _. (m.sig, signed good);
                    pinned = λ _. v.known (named good) old;
                    known = λ _ _. v.known (named good) old;
                    session = λ _. refl;
                    held = λ _. refl;
                    bounded = v.bounded;
                  })
            | inl new ↦ elim (Bool-cases (add s.json env.saving d.pinned c.auth_pub "").1) [
              | inr failed ↦
                  rw (good, new, failed)
                    (idle-Inv (add s.json env.saving d.pinned c.auth_pub "").0 d.win)
              | inl saved ↦
                  rw (good, new, saved)
                    (record {
                      proven = λ _. (m.sig, signed good);
                      pinned = λ _. add-contains s.json env.saving d.pinned c.auth_pub "";
                      known = λ _ _. add-contains s.json env.saving d.pinned c.auth_pub "";
                      session = λ _. refl;
                      held = λ _. refl;
                      bounded = v.bounded;
                    })
            ]
          ]
        ]

  on_offer-Inv : (env : Env) (d : Daemon) (m : Msg) → Inv d → Inv (on_offer s env d m).0
  unfolding on_offer
  on_offer-Inv env d m v = ground arith

  on_candidate-Inv : (d : Daemon) (m : Msg) → Inv d → Inv (on_candidate d m).0
  unfolding on_candidate
  on_candidate-Inv d m v = ground (arith, length-append d.conn.early_cands (candidate_init m ∷ []))

  on_message-Inv :
      (env : Env) (d : Daemon) (m : Msg) (t : MsgType) → Inv d → Inv (on_message s env d m t).0
  unfolding on_message
  on_message-Inv env d m MsgType.connect v = on_connect-Inv env d m
  on_message-Inv env d m MsgType.ice_servers v = ground arith
  on_message-Inv env d m MsgType.proof v = on_proof-Inv env d m v
  on_message-Inv env d m MsgType.offer v = on_offer-Inv env d m v
  on_message-Inv env d m MsgType.candidate v = on_candidate-Inv d m v
  on_message-Inv env d m MsgType.peer_left v = cleanup-Inv d
  on_message-Inv env d m _ v = v

  -- Whatever the broker sends and the user does, the invariant stays: an authenticated connection
  -- has a pinned key that signed its nonce; only an authenticated one has a session or holds early
  -- candidates; and of these it holds at most `maxEarlyCands`.
  pub react-Inv : (d : Daemon) (i : Input) → Inv d → Inv (react s d i).0
  unfolding react step
  react-Inv d (message env m) v = on_message-Inv env d m m.type v
  react-Inv d (arms secret now ttl) v = ground arith
  react-Inv d disarms v = ground arith
  react-Inv d reconnects v = idle-Inv d.pinned d.win
  react-Inv d (peer_closes session) v = v
  react-Inv d (gathers over c) v = v

  pub run-Inv : (d : Daemon) (is : List Input) → Inv d → Inv (run s d is)
  unfolding run
  run-Inv d [] v = v
  run-Inv d (i ∷ is) v = run-Inv (react s d i).0 is (react-Inv d i v)
