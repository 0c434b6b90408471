-- ===== src/Sim/Startup/Select/Settles.antt =====
-- internal/backend/sim/control.go, `newControl`: every order of what the helper says, its end, the timer, the
-- context and the choices of the `select`.
use simbeam.Prelude.{
  ◌≡◌, refl, sym, subst, ◌∙◌, Bool, true, false, Option, none, some, String, List, [], ◌∷◌, inl,
  inr, if◌then◌else◌, Bool-cases, if-both, is_some,
}
use simbeam.Server.Session.{AttachError}
use simbeam.Sim.Startup.{ControlEvent, ControlDims}
use simbeam.Sim.Startup.Select.{
  Outcome, no_handshake, superseded, Stage, waits, closes_after_exit, closes_for, returns, Case,
  case_ready, case_failed, case_done, case_expired, case_cancelled, Event, reads, ends, expires,
  cancels, selects, reaps, Startup, Helper, spawned, exit_outcome, take_ready, take_failed, choose,
  on_line, on_ready, pick, finish, step, run,
}
use simbeam.Sim.Startup.Select.Heard.{
  heard, Meant, Rests, Told, parse, first_failure, has_handshake, last_log, last_dims, on_line-Told,
  flags-Told,
}

module _ {ℓ} {F : Type ℓ} (h : Helper F) where
  module _ (st : Startup F) (d : ControlDims F) (sent : Bool) (log : String)
      (fail : Option AttachError) where
    settled-Told :
        (next : Startup F)
        → next.dims ≡ st.dims
        → next.first_sent ≡ st.first_sent
        → next.last_line ≡ st.last_line
        → Meant h next sent log fail next.stage
        → Told h st d sent log fail
        → Told h next d sent log fail
    settled-Told next p q r m t = record {
      same_dims = p ∙ t.same_dims;
      same_sent = q ∙ t.same_sent;
      same_log = r ∙ t.same_log;
      meant = m;
    }

    take_ready-Told :
        (o : Option (ControlDims F))
        → is_some o ≡ sent
        → Told h st d sent log fail
        → Told h (take_ready h st o) d sent log fail
    take_ready-Told none p t = t
    take_ready-Told (some c) p t = settled-Told (take_ready h st (some c)) refl refl refl (sym p) t

    take_failed-Told :
        (o : Option AttachError)
        → o ≡ fail
        → Told h st d sent log fail
        → Told h (take_failed h st o) d sent log fail
    take_failed-Told none p t = t
    take_failed-Told (some e) p t =
        settled-Told (take_failed h st (some e)) refl refl refl (sym p) t

    exit-Rests :
        (o : Option AttachError) (next : Stage)
        → o ≡ fail
        → st.done ≡ true
        → st.last_line ≡ log
        → Rests h (record st { stage = next }) sent log fail (exit_outcome h st o)
    unfolding exit_outcome
    exit-Rests (some e) next p q r = sym p
    exit-Rests none next p q r = elim (Bool-cases st.cancelled) [
      | inl c ↦ simp c refl
      | inr c ↦ simp c (q, sym p, r)
    ]

    take_done-Told :
        (b : Bool)
        → st.done ≡ b
        → is_some st.ready ≡ sent
        → st.failed ≡ fail
        → Told h st d sent log fail
        → Told h (if b then record st { stage = closes_after_exit } else st) d sent log fail
    take_done-Told false p q r t = t
    take_done-Told true p q r t =
        settled-Told (record st { stage = closes_after_exit }) refl refl refl (p, q, r) t

    -- The result after a `Close`.
    finish-Told :
        (stage : Stage)
        → st.stage ≡ stage
        → Told h st d sent log fail
        → Told h (finish h st stage) d sent log fail
    unfolding finish
    finish-Told waits p t = t
    finish-Told closes_after_exit p t =
        let (ended, _, failed) = subst (Meant h st sent log fail) p t.meant in
        settled-Told (finish h st closes_after_exit) refl refl refl
          (exit-Rests st.failed (returns (exit_outcome h st st.failed)) failed ended t.same_log) t
    finish-Told (closes_for o) p t =
        settled-Told (finish h st (closes_for o)) refl refl refl
          (subst (Meant h st sent log fail) p t.meant) t
    finish-Told (returns o) p t = t

    flag_set-Told :
        (b : Bool) (o : Outcome)
        → (b ≡ true → Rests h (record st { stage = closes_for o }) sent log fail o)
        → Told h st d sent log fail
        → Told h (if b then record st { stage = closes_for o } else st) d sent log fail
    flag_set-Told false o m t = t
    flag_set-Told true o m t =
        settled-Told (record st { stage = closes_for o }) refl refl refl (m refl) t

    pick-Told :
        (c : Case)
        → is_some st.ready ≡ sent
        → st.failed ≡ fail
        → Told h st d sent log fail
        → Told h (pick h st c) d sent log fail
    unfolding pick
    pick-Told case_ready p q t = take_ready-Told st.ready p t
    pick-Told case_failed p q t = take_failed-Told st.failed q t
    pick-Told case_done p q t = take_done-Told st.done refl p q t
    pick-Told case_expired p q t = flag_set-Told st.expired no_handshake (λ e. e) t
    pick-Told case_cancelled p q t = flag_set-Told st.cancelled superseded (λ e. e) t

    choose-Told :
        (c : Case) (o : Stage)
        → st.stage ≡ o
        → Told h st d sent log fail
        → Told h (choose h st c o) d sent log fail
    choose-Told c closes_after_exit p t = t
    choose-Told c (closes_for o) p t = t
    choose-Told c (returns o) p t = t
    choose-Told c waits p t =
        let (ready, failed) = subst (Meant h st sent log fail) p t.meant in
        pick-Told c ready failed t

  -- The state is what the lines say.
  abbrev Hears : Startup F → List String → Type ℓ
  Hears st ls = Told h st (last_dims h ls) (has_handshake h ls) (last_log h ls) (first_failure h ls)

  abbrev after_line : Bool → String → List String → List String
  after_line done line ls = if done then ls else line ∷ ls

  reads-Hears :
      (st : Startup F) (line : String) (ls : List String) (b : Bool)
      → st.done ≡ b
      → Hears st ls
      → Hears (if b then st else on_line h st line (parse h line)) (after_line b line ls)
  reads-Hears st line ls true p t = t
  reads-Hears st line ls false p t =
      on_line-Told h st (last_dims h ls) (has_handshake h ls) (last_log h ls) (first_failure h ls)
        line (parse h line) p t

  on_ready-done :
      (st : Startup F) (e : ControlEvent F) (r : Option Bool) → (on_ready h st e r).done ≡ st.done
  unfolding on_ready
  on_ready-done st e none = refl
  on_ready-done st e (some true) =
      if-both (λ (x : Startup F). x.done ≡ st.done) st.first_sent _ _ refl refl
  on_ready-done st e (some false) = refl

  on_line-done :
      (st : Startup F) (line : String) (o : Option (ControlEvent F))
      → (on_line h st line o).done ≡ st.done
  unfolding on_line
  on_line-done st line none = refl
  on_line-done st line (some e) = on_ready-done st e e.ready

  pub reads-done : (st : Startup F) (line : String) → (step h st (reads line)).done ≡ st.done
  unfolding step
  reads-done st line =
      if-both (λ (x : Startup F). x.done ≡ st.done) st.done st (on_line h st line (parse h line))
        refl (on_line-done st line (parse h line))

  take_ready-done :
      (st : Startup F) (o : Option (ControlDims F)) → (take_ready h st o).done ≡ st.done
  take_ready-done st none = refl
  take_ready-done st (some c) = refl

  take_failed-done : (st : Startup F) (o : Option AttachError) → (take_failed h st o).done ≡ st.done
  take_failed-done st none = refl
  take_failed-done st (some e) = refl

  pick-done : (st : Startup F) (c : Case) → (pick h st c).done ≡ st.done
  unfolding pick
  pick-done st case_ready = take_ready-done st st.ready
  pick-done st case_failed = take_failed-done st st.failed
  pick-done st case_done = if-both (λ (x : Startup F). x.done ≡ st.done) st.done _ st refl refl
  pick-done st case_expired =
      if-both (λ (x : Startup F). x.done ≡ st.done) st.expired _ st refl refl
  pick-done st case_cancelled =
      if-both (λ (x : Startup F). x.done ≡ st.done) st.cancelled _ st refl refl

  pub choose-done : (st : Startup F) (c : Case) (o : Stage) → (choose h st c o).done ≡ st.done
  choose-done st c waits = pick-done st c
  choose-done st c closes_after_exit = refl
  choose-done st c (closes_for o) = refl
  choose-done st c (returns o) = refl

  finish-done : (st : Startup F) (o : Stage) → (finish h st o).done ≡ st.done
  unfolding finish
  finish-done st waits = refl
  finish-done st closes_after_exit = refl
  finish-done st (closes_for o) = refl
  finish-done st (returns o) = refl

  pub reaps-done :
      (st : Startup F) (b : Bool) → (if b then finish h st st.stage else st).done ≡ st.done
  reaps-done st true = finish-done st st.stage
  reaps-done st false = refl

  reaps-Hears :
      (st : Startup F) (ls : List String) (b : Bool)
      → Hears st ls
      → Hears (if b then finish h st st.stage else st) ls
  reaps-Hears st ls true t = finish-Told st _ _ _ _ st.stage refl t
  reaps-Hears st ls false t = t

  spawned-Hears : Hears (spawned h) []
  spawned-Hears = record {
    same_dims = refl;
    same_sent = refl;
    same_log = refl;
    meant = (refl, refl);
  }

  run-Hears :
      (st : Startup F) (ls : List String) (es : List Event)
      → Hears st ls
      → Hears (run h st es) (heard st.done ls es)
  unfolding run step
  run-Hears st ls [] t = t
  run-Hears st ls (reads line ∷ es) t =
      let next = step h st (reads line) in
      let now = after_line st.done line ls in
      subst (λ b. Hears (run h next es) (heard b now es)) (reads-done st line)
        (run-Hears next now es (reads-Hears st line ls st.done refl t))
  run-Hears st ls (ends ∷ es) t =
      run-Hears (step h st ends) ls es
        (flags-Told h st _ _ _ _ true st.expired st.cancelled (λ x. refl) (λ x. x) (λ x. x) t)
  run-Hears st ls (expires ∷ es) t =
      run-Hears (step h st expires) ls es
        (flags-Told h st _ _ _ _ st.done true st.cancelled (λ x. x) (λ x. refl) (λ x. x) t)
  run-Hears st ls (cancels ∷ es) t =
      run-Hears (step h st cancels) ls es
        (flags-Told h st _ _ _ _ st.done st.expired true (λ x. x) (λ x. x) (λ x. refl) t)
  run-Hears st ls (selects c ∷ es) t =
      let next = step h st (selects c) in
      subst (λ b. Hears (run h next es) (heard b ls es)) (choose-done st c st.stage)
        (run-Hears next ls es (choose-Told st _ _ _ _ c st.stage refl t))
  run-Hears st ls (reaps ∷ es) t =
      let next = step h st reaps in
      subst (λ b. Hears (run h next es) (heard b ls es)) (reaps-done st st.done)
        (run-Hears next ls es (reaps-Hears st ls st.done t))

  -- Whatever the helper says, and in whatever order its lines, its end, the timer, the cancellation of the
  -- context, the choices of the `select` and the reaping of the helper come: the geometry is that of the last handshake before the
  -- end of stderr; and if the start has a result, returned or held up by `Close`, then it is a stream only if a handshake was heard, the
  -- failure it hands up is that of the first failure that was heard, it is "exited before handshake" only
  -- if stderr ended, no failure was heard, and the line it quotes is the last one that is no event, and it
  -- is a timeout or a cancellation only if the timer had fired or the context was cancelled.
  pub run-Meant :
      (es : List Event)
      → ((run h (spawned h) es).dims ≡ last_dims h (heard false [] es))
        × Meant h
            (run h (spawned h) es)
            (has_handshake h (heard false [] es))
            (last_log h (heard false [] es))
            (first_failure h (heard false [] es))
            (run h (spawned h) es).stage
  run-Meant es = let t = run-Hears (spawned h) [] es spawned-Hears in (t.same_dims, t.meant)
