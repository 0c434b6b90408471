-- ===== src/Peer/Channels/Ends.antt =====
-- internal/rtc/peer.go: candidates among everything else that happens to a session, and its end.
use simbeam.Prelude.{
  ℕ, ◌≡◌, refl, ap, ap₂, ◌∙◌, Bool, true, false, Option, none, some, String, List, [], ◌∷◌, ◌++◌,
}
use simbeam.Peer.{max_pending_cands, Session, Event, step, run}
use simbeam.Peer.Order.{trickled, run-trickled}
use simbeam.Peer.Channels.{
  Peer, new_peer, Label, control, bulk, other, connected, connecting, ends, Happening, ice,
  opens_channel, channel_open, message, state_change, sets_on_close, sets_on_control_open, send,
  send_bulk, Effect, to_pion, on_control, on_bulk, calls, closes_with, sends, no_control_channel,
  no_bulk_channel, all_to_pion, on_data_channel, call, on_open, on_message, close_call, fire_close,
  on_state, send_on, happen, run_peer,
}

abbrev pub candidates : List Effect → List String
candidates [] = []
candidates (to_pion c ∷ es) = c ∷ candidates es
candidates (_ ∷ es) = candidates es

abbrev pub close_calls : List Effect → List ℕ
close_calls [] = []
close_calls (closes_with fn ∷ es) = fn ∷ close_calls es
close_calls (_ ∷ es) = close_calls es

abbrev pub ices : List Happening → List Event
ices [] = []
ices (ice e ∷ hs) = e ∷ ices hs
ices (_ ∷ hs) = ices hs

abbrev first_only : Option ℕ → List ℕ
first_only none = []
first_only (some fn) = fn ∷ []

-- The callback that is registered when the session first ends, if there is one.
abbrev pub ended_with : Option ℕ → List Happening → List ℕ
ended_with fn [] = []
ended_with fn (sets_on_close next ∷ hs) = ended_with (some next) hs
ended_with fn (state_change ends ∷ hs) = first_only fn
ended_with fn (_ ∷ hs) = ended_with fn hs

abbrev unless_closed : Bool → List ℕ → List ℕ
unless_closed true fns = []
unless_closed false fns = fns

unless_closed_nil : (b : Bool) → [] ≡ unless_closed b []
unless_closed_nil true = refl
unless_closed_nil false = refl

candidates-append : (a b : List Effect) → candidates (a ++ b) ≡ candidates a ++ candidates b
candidates-append [] b = refl
candidates-append (to_pion c ∷ a) b = ap (◌∷◌ c) (candidates-append a b)
candidates-append (on_control m ∷ a) b = candidates-append a b
candidates-append (on_bulk m ∷ a) b = candidates-append a b
candidates-append (calls fn ∷ a) b = candidates-append a b
candidates-append (closes_with fn ∷ a) b = candidates-append a b
candidates-append (sends ch t m ∷ a) b = candidates-append a b
candidates-append (no_control_channel ∷ a) b = candidates-append a b
candidates-append (no_bulk_channel ∷ a) b = candidates-append a b

close_calls-append : (a b : List Effect) → close_calls (a ++ b) ≡ close_calls a ++ close_calls b
close_calls-append [] b = refl
close_calls-append (to_pion c ∷ a) b = close_calls-append a b
close_calls-append (on_control m ∷ a) b = close_calls-append a b
close_calls-append (on_bulk m ∷ a) b = close_calls-append a b
close_calls-append (calls fn ∷ a) b = close_calls-append a b
close_calls-append (closes_with fn ∷ a) b = ap (◌∷◌ fn) (close_calls-append a b)
close_calls-append (sends ch t m ∷ a) b = close_calls-append a b
close_calls-append (no_control_channel ∷ a) b = close_calls-append a b
close_calls-append (no_bulk_channel ∷ a) b = close_calls-append a b

candidates-all_to_pion : (cs : List String) → candidates (all_to_pion cs) ≡ cs
candidates-all_to_pion [] = refl
candidates-all_to_pion (c ∷ cs) = ap (◌∷◌ c) (candidates-all_to_pion cs)

close_calls-all_to_pion : (cs : List String) → close_calls (all_to_pion cs) ≡ []
close_calls-all_to_pion [] = refl
close_calls-all_to_pion (c ∷ cs) = close_calls-all_to_pion cs

-- An effect list without candidates and calls of the close callback.
abbrev Plain : List Effect → Type 0
Plain es = (candidates es ≡ []) × (close_calls es ≡ [])

call-Plain : (fn : Option ℕ) → Plain (call fn)
call-Plain none = (refl, refl)
call-Plain (some fn) = (refl, refl)

on_open-Plain : (p : Peer) (l : Label) → Plain (on_open p l)
unfolding on_open
on_open-Plain p control = call-Plain p.on_ctrl_open
on_open-Plain p bulk = (refl, refl)
on_open-Plain p other = (refl, refl)

on_message-Plain : (l : Label) (b : List ℕ) → Plain (on_message l b)
unfolding on_message
on_message-Plain control b = (refl, refl)
on_message-Plain bulk b = (refl, refl)
on_message-Plain other b = (refl, refl)

send_on-Plain :
    (channel : Option ℕ) (text : Bool) (b : List ℕ) (e : Effect)
    → Plain (e ∷ [])
    → Plain (send_on channel text b e)
send_on-Plain none text b e v = v
send_on-Plain (some channel) text b e v = (refl, refl)

abbrev Tells : Peer × List Effect → Session → List Event → List ℕ → Type 0
Tells r s es fns =
    (r.0.session ≡ (run s es).0) × (candidates r.1 ≡ (run s es).1) × (close_calls r.1 ≡ fns)

prepend :
    (out : List Effect) (r : Peer × List Effect) (s : Session) (es : List Event) (fns : List ℕ)
    → Plain out
    → Tells r s es fns
    → Tells (r.0, out ++ r.1) s es fns
prepend out r s es fns (v, w) (a, b, c) = (
  a,
  candidates-append out r.1 ∙ ap (◌++ candidates r.1) v ∙ b,
  close_calls-append out r.1 ∙ ap (◌++ close_calls r.1) w ∙ c,
)

prepend_ice :
    (e : Event) (r : Peer × List Effect) (s : Session) (es : List Event) (fns : List ℕ)
    → Tells r (step s e).0 es fns
    → Tells (r.0, all_to_pion (step s e).1 ++ r.1) s (e ∷ es) fns
unfolding run
prepend_ice e r s es fns (a, b, c) = (
  a,
  candidates-append (all_to_pion (step s e).1) r.1
      ∙ ap₂ ◌++◌ (candidates-all_to_pion (step s e).1) b,
  close_calls-append (all_to_pion (step s e).1) r.1
      ∙ ap (◌++ close_calls r.1) (close_calls-all_to_pion (step s e).1)
      ∙ c,
)

prepend_close :
    (fn : Option ℕ) (r : Peer × List Effect) (s : Session) (es : List Event)
    → Tells r s es []
    → Tells (r.0, close_call fn ++ r.1) s es (first_only fn)
prepend_close none r s es t = t
prepend_close (some fn) r s es (a, b, c) = (a, b, ap (◌∷◌ fn) c)

-- The first end; `rest` is what follows of a session that has ended.
end-Tells :
    (p : Peer) (hs : List Happening) (b : Bool)
    → p.closed ≡ b
    → ((q : Peer)
        → Tells
            (run_peer q hs)
            q.session
            (ices hs)
            (unless_closed q.closed (ended_with q.on_close hs)))
    → Tells
        (
          (run_peer (fire_close p b).0 hs).0,
          (fire_close p b).1 ++ (run_peer (fire_close p b).0 hs).1,
        )
        p.session
        (ices hs)
        (unless_closed b (first_only p.on_close))
unfolding fire_close
end-Tells p hs true e rest =
    let (x, y, z) = rest p in (x, y, z ∙ ap (λ c. unless_closed c (ended_with p.on_close hs)) e)
end-Tells p hs false e rest =
    prepend_close p.on_close (run_peer (record p { closed = true }) hs) p.session (ices hs)
      (rest (record p { closed = true }))

channel-Tells :
    (p : Peer) (l : Label) (channel : ℕ) (hs : List Happening)
    → ((q : Peer)
        → Tells
            (run_peer q hs)
            q.session
            (ices hs)
            (unless_closed q.closed (ended_with q.on_close hs)))
    → Tells
        (run_peer (on_data_channel p l channel) hs)
        p.session
        (ices hs)
        (unless_closed p.closed (ended_with p.on_close hs))
unfolding on_data_channel
channel-Tells p control channel hs rest = rest (record p { ctrl = some channel })
channel-Tells p bulk channel hs rest = rest (record p { bulk = some channel })
channel-Tells p other channel hs rest = rest p

run_peer-Tells :
    (p : Peer) (hs : List Happening)
    → Tells (run_peer p hs) p.session (ices hs) (unless_closed p.closed (ended_with p.on_close hs))
unfolding run_peer happen on_state run
run_peer-Tells p [] = (refl, refl, unless_closed_nil p.closed)
run_peer-Tells p (ice e ∷ hs) =
    let next = record p { session = (step p.session e).0 } in
    prepend_ice e (run_peer next hs) p.session (ices hs) _ (run_peer-Tells next hs)
run_peer-Tells p (opens_channel l channel ∷ hs) =
    channel-Tells p l channel hs (λ q. run_peer-Tells q hs)
run_peer-Tells p (channel_open l ∷ hs) =
    prepend (on_open p l) (run_peer p hs) p.session (ices hs) _ (on_open-Plain p l)
      (run_peer-Tells p hs)
run_peer-Tells p (message l b ∷ hs) =
    prepend (on_message l b) (run_peer p hs) p.session (ices hs) _ (on_message-Plain l b)
      (run_peer-Tells p hs)
run_peer-Tells p (state_change connected ∷ hs) = run_peer-Tells p hs
run_peer-Tells p (state_change connecting ∷ hs) = run_peer-Tells p hs
run_peer-Tells p (state_change ends ∷ hs) = end-Tells p hs p.closed refl (λ q. run_peer-Tells q hs)
run_peer-Tells p (sets_on_close fn ∷ hs) = run_peer-Tells (record p { on_close = some fn }) hs
run_peer-Tells p (sets_on_control_open fn ∷ hs) =
    run_peer-Tells (record p { on_ctrl_open = some fn }) hs
run_peer-Tells p (send b ∷ hs) =
    prepend (send_on p.ctrl true b no_control_channel) (run_peer p hs) p.session (ices hs) _
      (send_on-Plain p.ctrl true b no_control_channel (refl, refl)) (run_peer-Tells p hs)
run_peer-Tells p (send_bulk text b ∷ hs) =
    prepend (send_on p.bulk text b no_bulk_channel) (run_peer p hs) p.session (ices hs) _
      (send_on-Plain p.bulk text b no_bulk_channel (refl, refl)) (run_peer-Tells p hs)

-- Whatever happens to a session, in whatever order: the candidates that pion is handed followed by those
-- that are still buffered are the ones that came, in their order, but that only the first 64 of those before
-- the first applied offer are among them; and the close callback is called once, the one that is registered
-- when the session first fails, closes or disconnects, or never, if none is registered by then.
pub run_peer-order :
    (hs : List Happening)
    → (candidates (run_peer new_peer hs).1 ++ (run_peer new_peer hs).0.session.pending
        ≡ trickled false max_pending_cands (ices hs))
      × (close_calls (run_peer new_peer hs).1 ≡ ended_with none hs)
run_peer-order hs =
    let (a, b, c) = run_peer-Tells new_peer hs in
    (ap₂ (λ cs (s : Session). cs ++ s.pending) b a ∙ run-trickled (ices hs), c)
