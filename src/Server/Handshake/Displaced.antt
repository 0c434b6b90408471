-- ===== src/Server/Handshake/Displaced.antt =====
-- internal/server/remote.go, the `TypeOffer` case: what a second offer does to the live session.
use simbeam.Prelude.{
  ℕ, ◌≡◌, ◌≢◌, refl, ap, ◌∙◌, Bool, true, false, Option, some, ◌⊎◌, inl, inr, String, List, [], ◌∷◌,
  ◌++◌, map, arith, ◌==◌, any, any-append, ==_iff, All, Bool-cases,
}
use simbeam.Signal.Message.{MsgType, Msg}
use simbeam.Server.Handshake.{
  Setup, Env, Daemon, Effect, stops, adds, sends, Candidate, on_connect, on_proof, on_offer,
  on_candidate, on_message, cleanup, answer_offer, signed_answer, start_offer, step, Input, message,
  arms, disarms, reconnects, peer_closes, gathers, hooks, on_gathered, react,
}

-- The session is cancelled and its feed stopped.
abbrev pub is_stop : ℕ → Effect → Bool
is_stop n (stops m) = n == m
is_stop n _ = false

-- `startSession` returns the session `n` while this input is handled.
abbrev Starts : ℕ → Input → Type 0
Starts n (message env m) = env.start ≡ inl n
Starts n _ = ⊥

abbrev Closes : ℕ → Input → Type 0
Closes n (peer_closes m) = n ≡ m
Closes n _ = ⊥

-- All that the daemon does while it handles the inputs.
unfoldable pub effects : Setup → Daemon → List Input → List Effect
effects s d [] = []
effects s d (i ∷ is) = (react s d i).1 ++ effects s (react s d i).0 is

no_stop_adds :
    (n k : ℕ) (cs : List Candidate) (es : List Effect)
    → any (is_stop n) (map (adds k) cs ++ es) ≡ any (is_stop n) es
no_stop_adds n k [] es = refl
no_stop_adds n k (c ∷ cs) es = no_stop_adds n k cs es

no_stop_hooks :
    (n k : ℕ) (trickle : Bool) (es : List Effect)
    → any (is_stop n) (hooks k trickle ++ es) ≡ any (is_stop n) es
no_stop_hooks n k true es = refl
no_stop_hooks n k false es = refl

no_stop_started :
    (n k : ℕ) (trickle : Bool) (cs : List Candidate) (es : List Effect)
    → any (is_stop n) ((hooks k trickle ++ map (adds k) cs) ++ es) ≡ any (is_stop n) es
no_stop_started n k true cs es = no_stop_adds n k cs es
no_stop_started n k false cs es = no_stop_adds n k cs es

no_stop_gathered :
    (n : ℕ) (over : Bool) (c : Option Candidate) → any (is_stop n) (on_gathered over c) ≡ false
unfolding on_gathered
no_stop_gathered n true c = refl
no_stop_gathered n false c = refl

module _ (s : Setup) (n : ℕ) where
  -- Neither the session variable holds `n`, nor does handling the message stop it.
  abbrev Away : Daemon × List Effect → Type 0
  Away (d, es) = (d.conn.sess ≢ some n) × (any (is_stop n) es ≡ false)

  on_connect-Away :
      (env : Env) (d : Daemon) (m : Msg) → d.conn.sess ≢ some n → Away (on_connect s env d m)
  unfolding on_connect
  on_connect-Away env d m h = ground arith

  on_proof-Away :
      (env : Env) (d : Daemon) (m : Msg) → d.conn.sess ≢ some n → Away (on_proof s env d m)
  unfolding on_proof
  on_proof-Away env d m h = ground arith

  answer_offer-Away :
      (d : Daemon) (answer : String ⊎ String)
      → d.conn.sess ≢ some n
      → Away (answer_offer s d answer)
  unfolding cleanup signed_answer
  answer_offer-Away d (inl sdp) h = ground arith
  answer_offer-Away d (inr text) h = ground arith

  start_offer-Away :
      (env : Env) (d : Daemon) (start : ℕ ⊎ String)
      → d.conn.sess ≢ some n
      → start ≢ inl n
      → Away (start_offer s env d start)
  start_offer-Away env d (inr text) h k = (h, refl)
  start_offer-Away env d (inl session) h k =
      let d' : Daemon = record d {
        conn = record d.conn { sess = some session; early_cands = [] };
      } in
      let (still, quiet) = answer_offer-Away d' env.answer (λ e. k (ap inl (cc))) in
      (
        still,
        no_stop_started n session d.conn.trickle d.conn.early_cands (answer_offer s d' env.answer).1
            ∙ quiet,
      )

  on_message-Away :
      (env : Env) (d : Daemon) (m : Msg) (t : MsgType)
      → d.conn.sess ≢ some n
      → env.start ≢ inl n
      → Away (on_message s env d m t)
  unfolding on_message
  on_message-Away env d m MsgType.connect h k = on_connect-Away env d m h
  on_message-Away env d m MsgType.proof h k = on_proof-Away env d m h
  on_message-Away env d m MsgType.offer h k =
      unfold on_offer in
      elim (Bool-cases d.conn.authed) [
        | inl yes_authed ↦ simp yes_authed (start_offer-Away env d env.start h k)
        | inr not_authed ↦ simp not_authed (h, refl)
      ]
  on_message-Away env d m MsgType.candidate h k = unfold on_candidate in ground arith
  on_message-Away env d m MsgType.peer_left h k = unfold cleanup in ground arith
  on_message-Away env d m _ h k = (h, refl)

  react-Away :
      (d : Daemon) (i : Input)
      → d.conn.sess ≢ some n
      → ¬ (Starts n i ⊎ Closes n i)
      → Away (react s d i)
  unfolding react step
  react-Away d (message env m) h k = on_message-Away env d m m.type h (λ e. k (inl e))
  react-Away d (arms secret now ttl) h k = (h, refl)
  react-Away d disarms h k = (h, refl)
  react-Away d reconnects h k = ground arith
  react-Away d (peer_closes m) h k =
      let other : ¬ (n ≡ m) = λ e. k (inr e) in (h, ground (arith, ==_iff n m, other))
  react-Away d (gathers over c) h k = (h, no_stop_gathered n over c)

  effects-Away :
      (d : Daemon) (is : List Input)
      → d.conn.sess ≢ some n
      → All (λ i. ¬ (Starts n i ⊎ Closes n i)) is
      → any (is_stop n) (effects s d is) ≡ false
  unfolding effects
  effects-Away d [] h k = refl
  effects-Away d (i ∷ is) h (k, ks) =
      let (still, quiet) = react-Away d i h k in
      any-append (is_stop n) (react s d i).1 (effects s (react s d i).0 is)
      ∙ rw quiet (effects-Away (react s d i).0 is still ks)

offer_replaces :
    (s : Setup) (env : Env) (d : Daemon) (m : Msg) (old new : ℕ) (sdp : String)
    → m.type ≡ MsgType.offer
    → d.conn.authed ≡ true
    → env.start ≡ inl new
    → env.answer ≡ inl sdp
    → ((react s d (message env m)).0.conn.sess ≡ some new)
      × (any (is_stop old) (react s d (message env m)).1 ≡ false)
unfolding react step on_message on_offer
offer_replaces s env d m old new sdp t authed start answer = ground (
  arith,
  no_stop_started old new d.conn.trickle d.conn.early_cands (sends (signed_answer s sdp) ∷ []),
)

-- A client that is through the gate and sends a second offer leaves its first session behind: the new session
-- takes the variable, and from then on, whatever the broker sends, the user does or the other sessions go
-- through, lost connections included, nothing stops the old one as long as its own peer connection stays up
-- (that is, its `OnClose` is not called) and its number is not given out again.
pub second_offer_leaks :
    (s : Setup) (env : Env) (d : Daemon) (m : Msg) (old new : ℕ) (sdp : String) (is : List Input)
    → m.type ≡ MsgType.offer
    → d.conn.authed ≡ true
    → d.conn.sess ≡ some old
    → env.start ≡ inl new
    → env.answer ≡ inl sdp
    → new ≢ old
    → All (λ i. ¬ (Starts old i ⊎ Closes old i)) is
    → ((react s d (message env m)).0.conn.sess ≡ some new)
      × (any (is_stop old) (effects s d (message env m ∷ is)) ≡ false)
unfolding effects
second_offer_leaks s env d m old new sdp is t authed live start answer differs others =
    let (taken, quiet) = offer_replaces s env d m old new sdp t authed start answer in
    let next = (react s d (message env m)).0 in
    (
      taken,
      any-append (is_stop old) (react s d (message env m)).1 (effects s next is)
          ∙ rw quiet (effects-Away s old next is (λ e. differs (cc (taken, e))) others),
    )
