-- ===== src/Sim/Startup/Select/Heard.antt =====
-- internal/backend/sim/control.go, `newControl`: how a start ends, against what the helper said.
use simbeam.Prelude.{
  ◌≡◌, refl, sym, ◌∙◌, Bool, true, false, Option, none, some, String, List, [], ◌∷◌, if◌then◌else◌,
  ◌||◌, is_some,
}
use simbeam.Server.Session.{AttachError}
use simbeam.Sim.Startup.{ControlEvent, ControlDims, parse_control_event, event_dims, attach_error}
use simbeam.Sim.Startup.Select.{
  Outcome, streams, fails, exited, no_handshake, superseded, Stage, waits, closes_after_exit,
  closes_for, returns, Event, reads, ends, Startup, Helper, no_dims, on_ready, on_line, offer,
}

-- The lines before the end of stderr, the last one first.
abbrev pub heard : Bool → List String → List Event → List String
heard done ls [] = ls
heard done ls (reads line ∷ es) = heard done (if done then ls else line ∷ ls) es
heard done ls (ends ∷ es) = heard true ls es
heard done ls (_ ∷ es) = heard done ls es

module _ {ℓ} {F : Type ℓ} (h : Helper F) where
  -- What a line says, by its kind: a log line, a notice, a handshake, a failure.
  abbrev is_true : Option Bool → Bool
  is_true none = false
  is_true (some b) = b

  abbrev handshake_of : Option (ControlEvent F) → Bool
  handshake_of none = false
  handshake_of (some e) = is_true e.ready

  abbrev ready_failure : ControlEvent F → Option Bool → Option AttachError
  ready_failure e none = none
  ready_failure e (some true) = none
  ready_failure e (some false) = some (attach_error e h.udid)

  abbrev failure_of : Option (ControlEvent F) → Option AttachError
  failure_of none = none
  failure_of (some e) = ready_failure e e.ready

  abbrev keep_first : (new older : Option AttachError) → Option AttachError
  keep_first none older = older
  keep_first (some e) none = some e
  keep_first (some e) (some first) = some first

  abbrev pub parse : String → Option (ControlEvent F)
  parse = parse_control_event h.json

  abbrev pub first_failure : List String → Option AttachError
  first_failure [] = none
  first_failure (l ∷ ls) = keep_first (failure_of (parse l)) (first_failure ls)

  abbrev pub has_handshake : List String → Bool
  has_handshake [] = false
  has_handshake (l ∷ ls) = handshake_of (parse l) || has_handshake ls

  abbrev log_line : String → Option (ControlEvent F) → String → String
  log_line l none older = l
  log_line l (some e) older = older

  -- The last line that is no event.
  abbrev pub last_log : List String → String
  last_log [] = ""
  last_log (l ∷ ls) = log_line l (parse l) (last_log ls)

  abbrev ready_dims : ControlEvent F → Option Bool → ControlDims F → ControlDims F
  ready_dims e none older = older
  ready_dims e (some true) older = event_dims h.floats e
  ready_dims e (some false) older = older

  abbrev dims_of : Option (ControlEvent F) → ControlDims F → ControlDims F
  dims_of none older = older
  dims_of (some e) older = ready_dims e e.ready older

  abbrev pub last_dims : List String → ControlDims F
  last_dims [] = no_dims h
  last_dims (l ∷ ls) = dims_of (parse l) (last_dims ls)

  -- What an outcome rests on, `sent`, `log` and `fail` being what was said until now.
  abbrev pub Rests : Startup F → Bool → String → Option AttachError → Outcome → Type 0
  Rests st sent log fail streams = sent ≡ true
  Rests st sent log fail (fails e) = fail ≡ some e
  Rests st sent log fail (exited line) = (st.done ≡ true) × (fail ≡ none) × (line ≡ log)
  Rests st sent log fail no_handshake = st.expired ≡ true
  Rests st sent log fail superseded = st.cancelled ≡ true

  abbrev pub Meant : Startup F → Bool → String → Option AttachError → Stage → Type 0
  Meant st sent log fail waits = (is_some st.ready ≡ sent) × (st.failed ≡ fail)
  Meant st sent log fail closes_after_exit =
      (st.done ≡ true) × (is_some st.ready ≡ sent) × (st.failed ≡ fail)
  Meant st sent log fail (closes_for o) = Rests st sent log fail o
  Meant st sent log fail (returns o) = Rests st sent log fail o

  pub record Told (st : Startup F) (d : ControlDims F) (sent : Bool) (log : String)
      (fail : Option AttachError) : Type ℓ where
    pub same_dims : st.dims ≡ d
    pub same_sent : st.first_sent ≡ sent
    pub same_log : st.last_line ≡ log
    pub meant : Meant st sent log fail st.stage

  module _ (st next : Startup F) (sent later : Bool) (log line : String)
      (fail new : Option AttachError) where
    -- What an outcome rests on is not taken back.
    Rests-mono :
        (o : Outcome)
        → (sent ≡ true → later ≡ true)
        → ((e : AttachError) → fail ≡ some e → new ≡ some e)
        → (st.done ≡ true → (next.done ≡ true) × (new ≡ fail) × (line ≡ log))
        → (st.expired ≡ true → next.expired ≡ true)
        → (st.cancelled ≡ true → next.cancelled ≡ true)
        → Rests st sent log fail o
        → Rests next later line new o
    Rests-mono streams b c d x y m = b m
    Rests-mono (fails e) b c d x y m = c e m
    Rests-mono (exited l) b c d x y (p, q, r) = let (u, v, w) = d p in (u, v ∙ q, r ∙ sym w)
    Rests-mono no_handshake b c d x y m = x m
    Rests-mono superseded b c d x y m = y m

    Meant-mono :
        (o : Stage)
        → (is_some st.ready ≡ sent
            → st.failed ≡ fail
            → (is_some next.ready ≡ later) × (next.failed ≡ new))
        → (sent ≡ true → later ≡ true)
        → ((e : AttachError) → fail ≡ some e → new ≡ some e)
        → (st.done ≡ true → (next.done ≡ true) × (new ≡ fail) × (line ≡ log))
        → (st.expired ≡ true → next.expired ≡ true)
        → (st.cancelled ≡ true → next.cancelled ≡ true)
        → Meant st sent log fail o
        → Meant next later line new o
    Meant-mono waits a b c d x y (p, q) = a p q
    Meant-mono closes_after_exit a b c d x y (p, q, r) =
        let (u, _, _) = d p in let (v, w) = a q r in (u, v, w)
    Meant-mono (closes_for o) a b c d x y m = Rests-mono o b c d x y m
    Meant-mono (returns o) a b c d x y m = Rests-mono o b c d x y m

  keep_first-keeps :
      (n o : Option AttachError) (e : AttachError) → o ≡ some e → keep_first n o ≡ some e
  keep_first-keeps none o e p = p
  keep_first-keeps (some x) none e p = absurd (cc p)
  keep_first-keeps (some x) (some y) e p = p

  offer-keep_first :
      (o fail : Option AttachError) (e : AttachError)
      → o ≡ fail
      → offer h o e ≡ keep_first (some e) fail
  offer-keep_first none none e p = refl
  offer-keep_first none (some y) e p = absurd (cc p)
  offer-keep_first (some x) none e p = absurd (cc p)
  offer-keep_first (some x) (some y) e p = p

  module _ (st : Startup F) (d : ControlDims F) (sent : Bool) (log : String)
      (fail : Option AttachError) where
    -- The first handshake is sent on, and a later one is not.
    sent-Told :
        (c : ControlDims F) (b : Bool)
        → st.done ≡ false
        → st.first_sent ≡ b
        → Told st d sent log fail
        → Told
            (if b
              then record st { dims = c }
              else record st { dims = c; first_sent = true; ready = some c })
            c
            true
            log
            fail
    sent-Told c true k p t = record {
      same_dims = refl;
      same_sent = p;
      same_log = t.same_log;
      meant =
          Meant-mono st (record st { dims = c }) sent true log log fail fail st.stage
            (λ x y. (x ∙ sym t.same_sent ∙ p, y)) (λ x. refl) (λ e x. x) (λ x. absurd (cc (x, k)))
            (λ x. x) (λ x. x) t.meant;
    }
    sent-Told c false k p t = record {
      same_dims = refl;
      same_sent = refl;
      same_log = t.same_log;
      meant =
          Meant-mono st (record st { dims = c; first_sent = true; ready = some c }) sent true log
            log fail fail st.stage (λ x y. (refl, y)) (λ x. refl) (λ e x. x)
            (λ x. absurd (cc (x, k))) (λ x. x) (λ x. x) t.meant;
    }

    on_ready-Told :
        (e : ControlEvent F) (r : Option Bool)
        → st.done ≡ false
        → Told st d sent log fail
        → Told
            (on_ready h st e r)
            (ready_dims e r d)
            (is_true r || sent)
            log
            (keep_first (ready_failure e r) fail)
    unfolding on_ready
    on_ready-Told e none k t = t
    on_ready-Told e (some true) k t = sent-Told (event_dims h.floats e) st.first_sent k refl t
    on_ready-Told e (some false) k t =
        let failed = some (attach_error e h.udid) in
        record {
          same_dims = t.same_dims;
          same_sent = t.same_sent;
          same_log = t.same_log;
          meant =
              Meant-mono st (on_ready h st e (some false)) sent sent log log fail
                (keep_first failed fail) st.stage
                (λ p q. (p, offer-keep_first st.failed fail (attach_error e h.udid) q)) (λ p. p)
                (keep_first-keeps failed fail) (λ p. absurd (cc (p, k))) (λ p. p) (λ p. p) t.meant;
        }

    pub on_line-Told :
        (line : String) (o : Option (ControlEvent F))
        → st.done ≡ false
        → Told st d sent log fail
        → Told
            (on_line h st line o)
            (dims_of o d)
            (handshake_of o || sent)
            (log_line line o log)
            (keep_first (failure_of o) fail)
    unfolding on_line
    on_line-Told line none k t = record {
      same_dims = t.same_dims;
      same_sent = t.same_sent;
      same_log = refl;
      meant =
          Meant-mono st (record st { last_line = line }) sent sent log line fail fail st.stage
            (λ x y. (x, y)) (λ x. x) (λ e x. x) (λ x. absurd (cc (x, k))) (λ x. x) (λ x. x) t.meant;
    }
    on_line-Told line (some e) k t = on_ready-Told e e.ready k t

    -- The end of stderr, the timer and the context only add to what an outcome can rest on.
    pub flags-Told :
        (done expired cancelled : Bool)
        → (st.done ≡ true → done ≡ true)
        → (st.expired ≡ true → expired ≡ true)
        → (st.cancelled ≡ true → cancelled ≡ true)
        → Told st d sent log fail
        → Told (record st { done = done; expired = expired; cancelled = cancelled }) d sent log fail
    flags-Told done expired cancelled x y z t = record {
      same_dims = t.same_dims;
      same_sent = t.same_sent;
      same_log = t.same_log;
      meant =
          Meant-mono st (record st { done = done; expired = expired; cancelled = cancelled }) sent
            sent log log fail fail st.stage (λ p q. (p, q)) (λ p. p) (λ e p. p)
            (λ p. (x p, refl, refl)) y z t.meant;
    }
