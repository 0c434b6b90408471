-- ===== src/Daemon/Pair/Ends.antt =====
-- cmd/simbeamd/pairctl.go, `runPair`: both of its loops end.
use simbeam.Prelude.{
  ℕ, zero, suc, ◌+◌, ◌*◌, ◌≤◌, ◌<◌, ◌≡◌, ◌≢◌, refl, sym, ap, subst, ◌∙◌, arith, Bool, true, false,
  Option, none, some, String, List, [], ◌∷◌, All, ltb,
}
use simbeam.Signal.Crypto.{Primitives}
use simbeam.Server.PairingWindow.{
  PairingWindow, Phase, phase_none, phase_open, phase_consumed, phase_expired, verify, state, close,
}
use simbeam.Daemon.Control.{
  ControlServer, Request, Answer, told, handle, route, post_pair, is_authorized, get_pair,
  note_enrolled, on_pair, Event, calls, verifies, notes, pairs, cancels, step, run, second,
}
use simbeam.Daemon.Control.Armed.{arms, window_after, handle-win}
use simbeam.Daemon.Pair.{
  Arming, armed, not_armed, half_second, retry, arm_loop, arm, Outcome, window_expired, call_failed,
  World, get_request, decide, unless_down, poll_loop,
}

retry-some :
    (o : Option ℕ) (late : Bool) (later : Option Arming)
    → (late ≡ false → (a : Arming) × (later ≡ some a))
    → (a : Arming) × (retry o late later ≡ some a)
retry-some (some t) late later f = (armed t, refl)
retry-some none true later f = (not_armed, refl)
retry-some none false later f = f refl

arm_loop-ends :
    (attempt : ℕ → Option ℕ) (clock : ℕ → ℕ) (start fuel i : ℕ)
    → ((j : ℕ) → start + j * half_second ≤ clock j)
    → 11 < fuel + i
    → 0 < fuel
    → (a : Arming) × (arm_loop attempt clock (start + 5 * second) fuel i ≡ some a)
unfolding arm_loop
arm_loop-ends attempt clock start zero i slow h k = absurd (omega arith)
arm_loop-ends attempt clock start (suc fuel) i slow h k =
    retry-some (attempt i) (ltb (start + 5 * second) (clock i))
      (arm_loop attempt clock (start + 5 * second) fuel (suc i))
      λ early.
        arm_loop-ends attempt clock start fuel (suc i) slow (omega arith)
          (ground (arith, early, h, slow i))

-- Nothing but time passes for the token and the expiry of a window, as long as nobody arms it.
abbrev pub Quiet : ControlServer → Event → Type 0
Quiet c (calls r now secret) = arms c r ≡ false
Quiet c (verifies key nonce proof now) = Unit
Quiet c (notes key) = Unit
Quiet c (pairs now secret) = secret ≡ none
Quiet c cancels = Unit

record Kept (c d : ControlServer) : Type 0 where
  same_token : d.token ≡ c.token
  same_expires : d.win.expires ≡ c.win.expires

handle-token :
    (build_url : String → String) (c : ControlServer) (r : Request) (now : ℕ)
    (secret : Option String)
    → (handle build_url c r now secret).0.token ≡ c.token
unfolding handle route post_pair
handle-token build_url c r now none = ground arith
handle-token build_url c r now (some s) = ground arith

verify-expires :
    (p : Primitives) (w : PairingWindow) (key nonce proof : String) (now : ℕ)
    → (verify p w key nonce proof now).0.expires ≡ w.expires
unfolding verify
verify-expires p w key nonce proof now = ground arith

quiet_call :
    (w : PairingWindow) (b : Bool) (secret : Option String) (now ttl : ℕ)
    → b ≡ false
    → (window_after b secret now ttl w).expires ≡ w.expires
quiet_call w false secret now ttl h = refl
quiet_call w true secret now ttl h = absurd (cc h)

module _ (p : Primitives) (build_url : String → String) where
  step-Kept : (c : ControlServer) (e : Event) → Quiet c e → Kept c (step p build_url c e)
  unfolding step note_enrolled on_pair close
  step-Kept c (calls r now secret) q = record {
    same_token = handle-token build_url c r now secret;
    same_expires =
        ap (λ (w : PairingWindow). w.expires) (handle-win build_url c r now secret)
        ∙ quiet_call c.win (arms c r) secret now c.ttl q;
  }
  step-Kept c (verifies key nonce proof now) q = record {
    same_token = refl;
    same_expires = verify-expires p c.win key nonce proof now;
  }
  step-Kept c (notes key) q = record { same_token = refl; same_expires = refl }
  step-Kept c (pairs now none) q = record { same_token = refl; same_expires = refl }
  step-Kept c (pairs now (some s)) q = absurd (cc q)
  step-Kept c cancels q = record { same_token = refl; same_expires = refl }

  -- Whether a call arms the window depends on the token alone.
  Quiet-token : (c d : ControlServer) (e : Event) → d.token ≡ c.token → Quiet c e → Quiet d e
  unfolding is_authorized
  Quiet-token c d (calls r now secret) t q = rw t q
  Quiet-token c d (verifies key nonce proof now) t q = tt
  Quiet-token c d (notes key) t q = tt
  Quiet-token c d (pairs now secret) t q = q
  Quiet-token c d cancels t q = tt

  authorized-token :
      (c d : ControlServer) (r : Request)
      → d.token ≡ c.token
      → is_authorized c r ≡ true
      → is_authorized d r ≡ true
  unfolding is_authorized
  authorized-token c d r t a = rw t a

  All-Quiet-token :
      (c d : ControlServer) (es : List Event)
      → d.token ≡ c.token
      → All (Quiet c) es
      → All (Quiet d) es
  All-Quiet-token c d [] t q = tt
  All-Quiet-token c d (e ∷ es) t (q, qs) = (Quiet-token c d e t q, All-Quiet-token c d es t qs)

  Kept-Kept : (b c d : ControlServer) → Kept b c → Kept c d → Kept b d
  Kept-Kept b c d u v = record {
    same_token = v.same_token ∙ u.same_token;
    same_expires = v.same_expires ∙ u.same_expires;
  }

  run-Kept :
      (c : ControlServer) (es : List Event) → All (Quiet c) es → Kept c (run p build_url c es)
  unfolding run
  run-Kept c [] q = record { same_token = refl; same_expires = refl }
  run-Kept c (e ∷ es) (q, qs) =
      let next = step p build_url c e in
      let k = step-Kept c e q in
      Kept-Kept c next _ k (run-Kept next es (All-Quiet-token c next es k.same_token qs))

  handle-get :
      (c : ControlServer) (authorization : String) (now : ℕ)
      → is_authorized c (get_request authorization) ≡ true
      → handle build_url c (get_request authorization) now none ≡ (c, get_pair c now)
  unfolding handle route
  handle-get c authorization now a = rw a refl

  -- An outcome of a loop that is not a failed call.
  abbrev pub Ends : Option Outcome → Type 0
  Ends o = (r : Outcome) × (o ≡ some r) × (r ≢ call_failed)

  decide_told :
      (ph : Phase) (client : String) (later : Option Outcome)
      → (ph ≡ phase_open → Ends later)
      → Ends (decide (told ph client) later)
  decide_told phase_none client later f = (window_expired, refl, λ e. cc e)
  decide_told phase_open client later f = f refl
  decide_told phase_consumed client later f = (_, refl, λ e. cc e)
  decide_told phase_expired client later f = (window_expired, refl, λ e. cc e)

  open_until : (w : PairingWindow) (now : ℕ) → state w now ≡ phase_open → now ≤ w.expires
  unfolding state
  open_until w now e = ground (arith, e)

  poll-Ends :
      (w : World) (last fuel : ℕ) (c : ControlServer) (n : ℕ)
      → ((k : ℕ) → All (Quiet c) (w.others k))
      → is_authorized c (get_request w.authorization) ≡ true
      → ((k : ℕ) → w.down k ≡ false)
      → c.win.expires < w.times last
      → n ≤ last
      → last < n + fuel
      → Ends (poll_loop p build_url w fuel c n)
  unfolding poll_loop get_pair
  poll-Ends w last zero c n q a up late h k = absurd (omega arith)
  poll-Ends w last (suc fuel) c n q a up late h k =
      let now = run p build_url c (w.others n) in
      let kept = run-Kept c (w.others n) (q n) in
      let a' = authorized-token c now (get_request w.authorization) kept.same_token a in
      let got = handle-get now w.authorization (w.times n) a' in
      let next : state now.win (w.times n) ≡ phase_open
          → Ends (poll_loop p build_url w fuel now (suc n)) =
        λ e.
          let early = open_until now.win (w.times n) e in
          let not_last : n ≢ last =
            λ s. absurd (omega (arith, early, kept.same_expires, late, ap w.times s)) in
          poll-Ends w last fuel now (suc n)
            (λ j. All-Quiet-token c now (w.others j) kept.same_token (q j)) a' up
            (omega (arith, kept.same_expires, late)) (omega (arith, not_last)) (omega arith) in
      subst
        (λ (x : ControlServer × Answer).
          Ends (unless_down (w.down n) (decide x.1 (poll_loop p build_url w fuel x.0 (suc n)))))
        (sym got) (rw (up n) (decide_told (state now.win (w.times n)) _ _ next))

  -- `runPair` comes to an end. Its first loop makes at most twelve attempts, each half a second after the
  -- last: it gives up or has armed the window. Its second loop, if the daemon answers, the token is the
  -- daemon's, and nobody arms the window again, makes no more polls than up to the first one, `last`, that
  -- comes after the window expires: it reports a pairing or that the window has expired.
  pub run_pair-ends :
      (attempt : ℕ → Option ℕ) (clock : ℕ → ℕ) (start : ℕ) (w : World) (c : ControlServer)
      (last : ℕ)
      → ((j : ℕ) → start + j * half_second ≤ clock j)
      → ((k : ℕ) → All (Quiet c) (w.others k))
      → is_authorized c (get_request w.authorization) ≡ true
      → ((k : ℕ) → w.down k ≡ false)
      → c.win.expires < w.times last
      → ((a : Arming) × (arm attempt clock start 12 ≡ some a))
        × ((r : Outcome) × (poll_loop p build_url w (suc last) c 0 ≡ some r) × (r ≢ call_failed))
  unfolding arm
  run_pair-ends attempt clock start w c last slow q a up late = (
    arm_loop-ends attempt clock start 12 0 slow (omega arith) (omega arith),
    poll-Ends w last (suc last) c 0 q a up late (omega arith) (omega arith),
  )
