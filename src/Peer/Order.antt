-- ===== src/Peer/Order.antt =====
-- internal/rtc/peer.go: which candidates reach pion, and in which order.
use simbeam.Prelude.{
  ℕ, zero, suc, ◌≡◌, ◌+◌, refl, ap, sym, ◌∙◌, Bool, true, false, String, List, [], ◌∷◌, ◌++◌,
  length, length-append, append_assoc, append-nil, ltb, arith, Bool-cases, inl, inr,
}
use simbeam.Peer.{
  max_pending_cands, Session, new_session, add_candidate, answer, Event, adds, answers, step, run,
}

-- The candidates of a run, in their order: all once an offer was applied, before that as many as there is
-- room for.
abbrev pub trickled : Bool → ℕ → List Event → List String
trickled open_now room [] = []
trickled true room (adds c ∷ es) = c ∷ trickled true room es
trickled false zero (adds c ∷ es) = trickled false zero es
trickled false (suc room) (adds c ∷ es) = c ∷ trickled false room es
trickled true room (answers applied ∷ es) = trickled true room es
trickled false room (answers true ∷ es) = trickled true room es
trickled false room (answers false ∷ es) = trickled false room es

abbrev after_offer : Session
after_offer = record { remote_set = true; pending = [] }

run-after_offer :
    (room : ℕ) (es : List Event)
    → (run after_offer es).1 ++ (run after_offer es).0.pending ≡ trickled true room es
unfolding run step add_candidate answer
run-after_offer room [] = refl
run-after_offer room (adds c ∷ es) = ap (◌∷◌ c) (run-after_offer room es)
run-after_offer room (answers true ∷ es) = run-after_offer room es
run-after_offer room (answers false ∷ es) = run-after_offer room es

abbrev waiting : List String → Session
waiting pending = record { remote_set = false; pending = pending }

run-waiting :
    (pending : List String) (room : ℕ) (es : List Event)
    → length pending + room ≡ max_pending_cands
    → (run (waiting pending) es).1 ++ (run (waiting pending) es).0.pending
      ≡ pending ++ trickled false room es
unfolding run step add_candidate answer
run-waiting pending room [] h = sym (append-nil pending)
run-waiting pending zero (adds c ∷ es) h =
    elim (Bool-cases (ltb (length pending) max_pending_cands)) [
      | inl more ↦ absurd (ground (arith, h, more))
      | inr full ↦ rw full (run-waiting pending zero es h)
    ]
run-waiting pending (suc room) (adds c ∷ es) h =
    elim (Bool-cases (ltb (length pending) max_pending_cands)) [
      | inl more ↦ rw more (
          run-waiting (pending ++ c ∷ []) room es (omega (arith, h, length-append pending (c ∷ [])))
          ∙ append_assoc pending (c ∷ []) (trickled false room es))
      | inr full ↦ absurd (ground (arith, h, full))
    ]
run-waiting pending room (answers true ∷ es) h =
    append_assoc pending (run after_offer es).1 (run after_offer es).0.pending
    ∙ ap (pending ++◌) (run-after_offer room es)
run-waiting pending room (answers false ∷ es) h = run-waiting pending room es h

-- Whatever comes in, what is handed to pion followed by what is still buffered are the candidates that
-- came, in their order, but that only the first 64 of those before the first applied offer are among them.
pub run-trickled :
    (es : List Event)
    → (run new_session es).1 ++ (run new_session es).0.pending ≡ trickled false max_pending_cands es
run-trickled es = run-waiting [] max_pending_cands es refl
