-- ===== src/Daemon/Control/Armed.antt =====
-- cmd/simbeamd/pairctl.go: what the holders of the token, and nobody else, can do to the pairing window.
use simbeam.Prelude.{
  ℕ, ◌+◌, ◌≤◌, ◌≡◌, refl, sym, ap, ap₂, codes, same_text, ◌++◌, ◌↔◌, ◌∙◌, arith, Bool, true, false,
  ◌&&◌, Option, none, some, String, List, [], ◌∷◌, str_eq, if◌then◌else◌,
}
use simbeam.Signal.Crypto.{Primitives}
use simbeam.Server.PairingWindow.{PairingWindow, verify, open_window}
use simbeam.Server.PairingWindow.SingleUse as SingleUse
use simbeam.Server.PairingWindow.SingleUse.{one_if_ok, count_opens, live, run-le-opens}
use simbeam.Daemon.Control.{
  ControlServer, Request, post_pair, route, is_authorized, handle, note_enrolled, Event, calls,
  verifies, notes, pairs, on_pair, cancels, step, run,
}

abbrev opens_if : Bool → Option String → (now ttl : ℕ) → List SingleUse.Event → List SingleUse.Event
opens_if false secret now ttl later = later
opens_if true none now ttl later = later
opens_if true (some secret) now ttl later = SingleUse.opens secret now ttl ∷ later

same_text_refl : (s : List ℕ) → same_text s s ≡ true
same_text_refl [] = refl
same_text_refl (x ∷ s) = ground (arith, same_text_refl s)

same_text_sound : (s t : List ℕ) → same_text s t ≡ true → s ≡ t
same_text_sound [] [] h = refl
same_text_sound [] (y ∷ t) h = absurd (cc h)
same_text_sound (x ∷ s) [] h = absurd (cc h)
same_text_sound (x ∷ s) (y ∷ t) h =
    ap₂ ◌∷◌ (ground (arith, h)) (same_text_sound s t (ground (arith, h)))

is_authorized_lem :
    (c : ControlServer) (r : Request)
    → (is_authorized c r ≡ true) ↔ (codes r.authorization ≡ codes "Bearer " ++ codes c.token)
unfolding is_authorized
is_authorized_lem c r = (
  same_text_sound (codes r.authorization) (codes "Bearer " ++ codes c.token),
  λ e. ap (same_text (codes r.authorization)) (sym e) ∙ same_text_refl (codes r.authorization),
)

-- A call with the token that is a POST to /pair.
abbrev pub arms : ControlServer → Request → Bool
arms c r = is_authorized c r && str_eq r.path "/pair" && str_eq r.method "POST"

-- What such a call makes of the window.
abbrev pub window_after : Bool → Option String → (now ttl : ℕ) → PairingWindow → PairingWindow
window_after false secret now ttl w = w
window_after true none now ttl w = w
window_after true (some secret) now ttl w = open_window w secret now ttl

post_pair-win :
    (build_url : String → String) (c : ControlServer) (now : ℕ) (secret : Option String)
    → (post_pair build_url c now secret).0.win ≡ window_after true secret now c.ttl c.win
unfolding post_pair
post_pair-win build_url c now none = refl
post_pair-win build_url c now (some secret) = refl

on_pair-win :
    (c : ControlServer) (now : ℕ) (secret : Option String)
    → (on_pair c now secret).win ≡ window_after true secret now c.ttl c.win
unfolding on_pair
on_pair-win c now none = refl
on_pair-win c now (some secret) = refl

pub handle-win :
    (build_url : String → String) (c : ControlServer) (r : Request) (now : ℕ)
    (secret : Option String)
    → (handle build_url c r now secret).0.win ≡ window_after (arms c r) secret now c.ttl c.win
unfolding handle route
handle-win build_url c r now secret = ground (arith, post_pair-win build_url c now secret)

module _ (p : Primitives) (build_url : String → String) where
  -- What the window sees of the events.
  abbrev pub seen : ControlServer → List Event → List SingleUse.Event
  seen c [] = []
  seen c (calls r now secret ∷ es) =
      opens_if (arms c r) secret now c.ttl (seen (step p build_url c (calls r now secret)) es)
  seen c (verifies key nonce proof now ∷ es) =
      SingleUse.verifies key nonce proof now
      ∷ seen (step p build_url c (verifies key nonce proof now)) es
  seen c (notes key ∷ es) = seen (step p build_url c (notes key)) es
  seen c (pairs now secret ∷ es) =
      opens_if true secret now c.ttl (seen (step p build_url c (pairs now secret)) es)
  seen c (cancels ∷ es) = SingleUse.closes ∷ seen (step p build_url c cancels) es

  -- How many clients were let in, and how many calls held the token and posted to /pair, or keys were P.
  abbrev pub accepted : ControlServer → List Event → ℕ
  accepted c [] = 0
  accepted c (calls r now secret ∷ es) = accepted (step p build_url c (calls r now secret)) es
  accepted c (verifies key nonce proof now ∷ es) =
      one_if_ok (verify p c.win key nonce proof now).1
      + accepted (step p build_url c (verifies key nonce proof now)) es
  accepted c (notes key ∷ es) = accepted (step p build_url c (notes key)) es
  accepted c (pairs now secret ∷ es) = accepted (step p build_url c (pairs now secret)) es
  accepted c (cancels ∷ es) = accepted (step p build_url c cancels) es

  abbrev pub posts : ControlServer → List Event → ℕ
  posts c [] = 0
  posts c (calls r now secret ∷ es) =
      (if arms c r then 1 else 0) + posts (step p build_url c (calls r now secret)) es
  posts c (pairs now secret ∷ es) = 1 + posts (step p build_url c (pairs now secret)) es
  posts c (e ∷ es) = posts (step p build_url c e) es

  run-opens_if :
      (b : Bool) (secret : Option String) (now ttl : ℕ) (w : PairingWindow)
      (later : List SingleUse.Event)
      → SingleUse.run p w (opens_if b secret now ttl later)
        ≡ SingleUse.run p (window_after b secret now ttl w) later
  unfolding SingleUse.run
  run-opens_if false secret now ttl w later = refl
  run-opens_if true none now ttl w later = refl
  run-opens_if true (some secret) now ttl w later = refl

  refines :
      (c : ControlServer) (es : List Event)
      → SingleUse.run p c.win (seen c es) ≡ ((run p build_url c es).win, accepted c es)
  unfolding run step note_enrolled on_pair SingleUse.run
  refines c [] = refl
  refines c (calls r now secret ∷ es) =
      let next = step p build_url c (calls r now secret) in
      run-opens_if (arms c r) secret now c.ttl c.win (seen next es)
      ∙ ap (λ w. SingleUse.run p w (seen next es)) (sym (handle-win build_url c r now secret))
      ∙ refines next es
  refines c (verifies key nonce proof now ∷ es) =
      let next = step p build_url c (verifies key nonce proof now) in
      let n = one_if_ok (verify p c.win key nonce proof now).1 in
      ap (λ (x : PairingWindow × ℕ). (x.0, n + x.1)) (refines next es)
  refines c (notes key ∷ es) = refines (step p build_url c (notes key)) es
  refines c (pairs now secret ∷ es) =
      let next = step p build_url c (pairs now secret) in
      run-opens_if true secret now c.ttl c.win (seen next es)
      ∙ ap (λ w. SingleUse.run p w (seen next es)) (sym (on_pair-win c now secret))
      ∙ refines next es
  refines c (cancels ∷ es) = refines (step p build_url c cancels) es

  -- The window of a daemon, with its control API and the keys of its terminal, is the pairing window of
  -- the enrollment protocol: calls without the token, calls of another path or method, and notes are no
  -- step of it at all; a POST to /pair with the token and the key P arm it, if a secret can be made; and the
  -- clients that are let in are the proofs that the window accepts. A call has the token exactly if its
  -- Authorization is "Bearer " and the token.
  pub run-refines :
      (c : ControlServer) (es : List Event)
      → (SingleUse.run p c.win (seen c es) ≡ ((run p build_url c es).win, accepted c es))
        × ((r : Request)
            → (is_authorized c r ≡ true)
              ↔ (codes r.authorization ≡ codes "Bearer " ++ codes c.token))
  run-refines c es = (refines c es, is_authorized_lem c)

  count_opens-opens_if :
      (b : Bool) (secret : Option String) (now ttl : ℕ) (later : List SingleUse.Event)
      → count_opens (opens_if b secret now ttl later) ≤ (if b then 1 else 0) + count_opens later
  count_opens-opens_if false secret now ttl later = omega arith
  count_opens-opens_if true none now ttl later = omega arith
  count_opens-opens_if true (some secret) now ttl later = omega arith

  count_opens-seen : (c : ControlServer) (es : List Event) → count_opens (seen c es) ≤ posts c es
  count_opens-seen c [] = omega arith
  count_opens-seen c (calls r now secret ∷ es) =
      let next = step p build_url c (calls r now secret) in
      omega (
        arith,
        count_opens-opens_if (arms c r) secret now c.ttl (seen next es),
        count_opens-seen next es,
      )
  count_opens-seen c (verifies key nonce proof now ∷ es) =
      count_opens-seen (step p build_url c (verifies key nonce proof now)) es
  count_opens-seen c (notes key ∷ es) = count_opens-seen (step p build_url c (notes key)) es
  count_opens-seen c (pairs now secret ∷ es) =
      let next = step p build_url c (pairs now secret) in
      omega
        (arith, count_opens-opens_if true secret now c.ttl (seen next es), count_opens-seen next es)
  count_opens-seen c (cancels ∷ es) = count_opens-seen (step p build_url c cancels) es

  -- Whatever calls, proofs, notes and keys come, in any order: no more clients are let in than there are
  -- POST calls to /pair that carry the token and presses of P, and one more if the window is live at the
  -- start.
  pub accepted-le-posts :
      (c : ControlServer) (es : List Event) → accepted c es ≤ posts c es + live c.win
  accepted-le-posts c es = omega (
    arith,
    run-le-opens p c.win (seen c es),
    ap (λ (x : PairingWindow × ℕ). x.1) (refines c es),
    count_opens-seen c es,
  )
