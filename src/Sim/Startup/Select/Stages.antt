-- ===== src/Sim/Startup/Select/Stages.antt =====
-- internal/backend/sim/control.go, `newControl`: a case that has been chosen, and a result, are not taken back.
use simbeam.Prelude.{
  ◌≡◌, refl, sym, subst, ◌∙◌, Bool, true, false, Option, none, some, String, List, [], ◌∷◌,
  if◌then◌else◌, if-both,
}
use simbeam.Sim.Startup.{ControlEvent}
use simbeam.Sim.Startup.Select.{
  Outcome, Stage, waits, closes_after_exit, closes_for, returns, Case, Event, reads, ends, expires,
  cancels, reaps, selects, Startup, Helper, exit_outcome, choose, on_line, on_ready, finish, step,
  run,
}
use simbeam.Sim.Startup.Select.Heard.{parse}
use simbeam.Sim.Startup.Select.Settles.{reads-done, choose-done, reaps-done}

-- A case has been chosen.
abbrev pub Chosen : Stage → Type 0
Chosen waits = ⊥
Chosen closes_after_exit = Unit
Chosen (closes_for o) = Unit
Chosen (returns o) = Unit

module _ {ℓ} {F : Type ℓ} (h : Helper F) where
  on_ready-stage :
      (st : Startup F) (e : ControlEvent F) (r : Option Bool) → (on_ready h st e r).stage ≡ st.stage
  unfolding on_ready
  on_ready-stage st e none = refl
  on_ready-stage st e (some true) =
      if-both (λ (x : Startup F). x.stage ≡ st.stage) st.first_sent _ _ refl refl
  on_ready-stage st e (some false) = refl

  on_line-stage :
      (st : Startup F) (line : String) (o : Option (ControlEvent F))
      → (on_line h st line o).stage ≡ st.stage
  unfolding on_line
  on_line-stage st line none = refl
  on_line-stage st line (some e) = on_ready-stage st e e.ready

  reads-stage : (st : Startup F) (line : String) → (step h st (reads line)).stage ≡ st.stage
  unfolding step
  reads-stage st line =
      if-both (λ (x : Startup F). x.stage ≡ st.stage) st.done st (on_line h st line (parse h line))
        refl (on_line-stage st line (parse h line))

  choose-Chosen :
      (st : Startup F) (c : Case) (o : Stage)
      → st.stage ≡ o
      → Chosen o
      → Chosen (choose h st c o).stage
  choose-Chosen st c waits p k = absurd k
  choose-Chosen st c closes_after_exit p k = subst Chosen (sym p) k
  choose-Chosen st c (closes_for o) p k = subst Chosen (sym p) k
  choose-Chosen st c (returns o) p k = subst Chosen (sym p) k

  pub finish-returns :
      (st : Startup F) (s : Stage)
      → st.stage ≡ s
      → Chosen s
      → (o : Outcome) × ((finish h st s).stage ≡ returns o)
  unfolding finish
  finish-returns st waits p k = absurd k
  finish-returns st closes_after_exit p k = (exit_outcome h st st.failed, refl)
  finish-returns st (closes_for o) p k = (o, refl)
  finish-returns st (returns o) p k = (o, p)

  reaps-Chosen :
      (st : Startup F) (b : Bool)
      → Chosen st.stage
      → Chosen (if b then finish h st st.stage else st).stage
  reaps-Chosen st true k = let (o, e) = finish-returns st st.stage refl k in subst Chosen (sym e) tt
  reaps-Chosen st false k = k

  pub step-Chosen : (st : Startup F) (e : Event) → Chosen st.stage → Chosen (step h st e).stage
  unfolding step
  step-Chosen st (reads line) k = subst Chosen (sym (reads-stage st line)) k
  step-Chosen st ends k = k
  step-Chosen st expires k = k
  step-Chosen st cancels k = k
  step-Chosen st reaps k = reaps-Chosen st st.done k
  step-Chosen st (selects c) k = choose-Chosen st c st.stage refl k

  pub run-Chosen : (st : Startup F) (es : List Event) → Chosen st.stage → Chosen (run h st es).stage
  unfolding run
  run-Chosen st [] k = k
  run-Chosen st (e ∷ es) k = run-Chosen (step h st e) es (step-Chosen st e k)

  step-done : (st : Startup F) (e : Event) → st.done ≡ true → (step h st e).done ≡ true
  unfolding step
  step-done st (reads line) p = reads-done h st line ∙ p
  step-done st ends p = refl
  step-done st expires p = p
  step-done st cancels p = p
  step-done st reaps p = reaps-done h st st.done ∙ p
  step-done st (selects c) p = choose-done h st c st.stage ∙ p

  pub run-done : (st : Startup F) (es : List Event) → st.done ≡ true → (run h st es).done ≡ true
  unfolding run
  run-done st [] p = p
  run-done st (e ∷ es) p = run-done (step h st e) es (step-done st e p)

  choose-returned :
      (st : Startup F) (c : Case) (o : Outcome) (s : Stage)
      → st.stage ≡ s
      → s ≡ returns o
      → (choose h st c s).stage ≡ returns o
  choose-returned st c o waits e f = absurd (cc f)
  choose-returned st c o closes_after_exit e f = e ∙ f
  choose-returned st c o (closes_for x) e f = e ∙ f
  choose-returned st c o (returns x) e f = e ∙ f

  finish-returned :
      (st : Startup F) (b : Bool) (o : Outcome) (s : Stage)
      → st.stage ≡ s
      → s ≡ returns o
      → (if b then finish h st s else st).stage ≡ returns o
  unfolding finish
  finish-returned st false o s e f = e ∙ f
  finish-returned st true o waits e f = absurd (cc f)
  finish-returned st true o closes_after_exit e f = absurd (cc f)
  finish-returned st true o (closes_for x) e f = absurd (cc f)
  finish-returned st true o (returns x) e f = e ∙ f

  step-returned :
      (st : Startup F) (e : Event) (o : Outcome)
      → st.stage ≡ returns o
      → (step h st e).stage ≡ returns o
  unfolding step
  step-returned st (reads line) o p = reads-stage st line ∙ p
  step-returned st ends o p = p
  step-returned st expires o p = p
  step-returned st cancels o p = p
  step-returned st reaps o p = finish-returned st st.done o st.stage refl p
  step-returned st (selects c) o p = choose-returned st c o st.stage refl p

  pub run-returned :
      (st : Startup F) (es : List Event) (o : Outcome)
      → st.stage ≡ returns o
      → (run h st es).stage ≡ returns o
  unfolding run
  run-returned st [] o p = p
  run-returned st (e ∷ es) o p = run-returned (step h st e) es o (step-returned st e o p)
