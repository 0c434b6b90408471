-- ===== src/Sim/Input/Lines.antt =====
-- internal/backend/sim/control.go, `writeCmd` and `closeStdin`: all that the helper reads from its stdin.
use simbeam.Prelude.{
  ℕ, suc, ◌≡◌, refl, sym, subst, ◌∙◌, Bool, true, false, not, Option, none, some, List, [], ◌∷◌,
  ◌++◌, if◌then◌else◌, append_assoc, append-nil, any, if-both,
}
use simbeam.Sim.Startup.{ControlDims}
use simbeam.Sim.Input.{
  Input, Gestures, Control, command_of, marshalled, newline, write_cmd, input, close_stdin, Event,
  gesture, resizes, shuts, step, run,
}

module _ {ℓ} {F : Type ℓ} (g : Gestures F) where
  abbrev pub opened : ControlDims F → Control F
  opened d = record { dims = d; is_open = true; broken = false; received = []; closes = 0 }

  abbrev line_for : Option (List ℕ) → (taken : Bool) → List (List ℕ) → List (List ℕ)
  line_for none taken later = later
  line_for (some b) true later = (b ++ newline g ∷ []) ∷ later
  line_for (some b) false later = []

  -- The lines of the gestures, each at the geometry of its time, up to the end or the first failed write.
  abbrev pub lines : ControlDims F → List (Event g) → List (List ℕ)
  lines d [] = []
  lines d (shuts ∷ es) = []
  lines d (resizes e ∷ es) = lines e es
  lines d (gesture i taken ∷ es) =
      line_for (marshalled g (command_of g (opened d) i)) taken (lines d es)

  abbrev is_end : Event g → Bool
  is_end shuts = true
  is_end (gesture i taken) = false
  is_end (resizes d) = false

  abbrev Closed : Control F → Control F → Type 0
  Closed c next = (next.received ≡ c.received) × (next.closes ≡ c.closes) × (next.is_open ≡ false)

  write-closed :
      (c : Control F) (o : Option (List ℕ)) (taken : Bool)
      → c.is_open ≡ false
      → write_cmd g c o taken ≡ c
  unfolding write_cmd
  write-closed c none taken p = refl
  write-closed c (some b) taken p = simp p refl

  run-Closed : (c : Control F) (es : List (Event g)) → c.is_open ≡ false → Closed c (run g c es)
  unfolding run step input close_stdin
  run-Closed c [] p = (refl, refl, p)
  run-Closed c (gesture i taken ∷ es) p =
      subst (λ x. Closed c (run g x es))
        (sym (write-closed c (marshalled g (command_of g c i)) taken p)) (run-Closed c es p)
  run-Closed c (resizes d ∷ es) p = run-Closed (record c { dims = d }) es p
  run-Closed c (shuts ∷ es) p = simp p (run-Closed c es p)

  -- What is left of a run: the lines that come, and whether stdin is closed once or not at all.
  abbrev Left : Control F → List (List ℕ) → (ended : Bool) → Control F → Type 0
  Left c later ended next =
      (next.received ≡ c.received ++ later)
      × (next.closes ≡ (if ended then suc c.closes else c.closes))
      × (next.is_open ≡ not ended)

  write-broken :
      (c : Control F) (o : Option (List ℕ)) (taken : Bool)
      → c.broken ≡ true
      → write_cmd g c o taken ≡ c
  unfolding write_cmd
  write-broken c none taken p = refl
  write-broken c (some b) taken p =
      if-both (λ (x : Control F). x ≡ c) c.is_open _ c (simp p refl) refl

  write-none : (c : Control F) (taken : Bool) → write_cmd g c none taken ≡ c
  unfolding write_cmd
  write-none c taken = refl

  command_of-dims :
      (c : Control F) (i : Input F) → command_of g c i ≡ command_of g (opened c.dims) i
  unfolding command_of
  command_of-dims c i = refl

  run-shut :
      (c : Control F) (es : List (Event g))
      → c.is_open ≡ true
      → Left c [] true (run g (close_stdin g c) es)
  unfolding close_stdin
  run-shut c es p =
      let shut = record c { is_open = false; closes = suc c.closes } in
      let (a, b, e) = run-Closed shut es refl in simp p (a ∙ sym (append-nil c.received), b, e)

  run-broken :
      (c : Control F) (es : List (Event g))
      → c.is_open ≡ true
      → c.broken ≡ true
      → Left c [] (any is_end es) (run g c es)
  unfolding run step input close_stdin
  run-broken c [] p q = (sym (append-nil c.received), refl, p)
  run-broken c (gesture i taken ∷ es) p q =
      subst (λ x. Left c [] (any is_end es) (run g x es))
        (sym (write-broken c (marshalled g (command_of g c i)) taken q)) (run-broken c es p q)
  run-broken c (resizes d ∷ es) p q = run-broken (record c { dims = d }) es p q
  run-broken c (shuts ∷ es) p q = run-shut c es p

  write-line :
      (c : Control F) (b : List ℕ)
      → c.is_open ≡ true
      → c.broken ≡ false
      → (taken : Bool)
      → write_cmd g c (some b) taken ≡ (
          if taken
          then record c { received = c.received ++ (b ++ newline g ∷ []) ∷ [] }
          else record c { broken = true })
  unfolding write_cmd
  write-line c b p q true = simp (p, q) refl
  write-line c b p q false = simp (p, q) refl

  -- A gesture's line, and then whatever comes.
  run-written :
      (c : Control F) (es : List (Event g)) (o : Option (List ℕ)) (taken : Bool)
      → c.is_open ≡ true
      → c.broken ≡ false
      → ((next : Control F)
          → next.is_open ≡ true
          → next.broken ≡ false
          → Left next (lines next.dims es) (any is_end es) (run g next es))
      → Left c
          (line_for o taken (lines c.dims es))
          (any is_end es)
          (run g (write_cmd g c o taken) es)
  run-written c es none taken p q rest =
      subst (λ x. Left c (lines c.dims es) (any is_end es) (run g x es)) (sym (write-none c taken))
        (rest c p q)
  run-written c es (some b) true p q rest =
      let next = record c { received = c.received ++ (b ++ newline g ∷ []) ∷ [] } in
      let (u, v, w) = rest next p q in
      subst (λ x. Left c (line_for (some b) true (lines c.dims es)) (any is_end es) (run g x es))
        (sym (write-line c b p q true))
        (u ∙ append_assoc c.received ((b ++ newline g ∷ []) ∷ []) (lines c.dims es), v, w)
  run-written c es (some b) false p q rest =
      subst (λ x. Left c [] (any is_end es) (run g x es)) (sym (write-line c b p q false))
        (run-broken (record c { broken = true }) es p refl)

  run-Left :
      (c : Control F) (es : List (Event g))
      → c.is_open ≡ true
      → c.broken ≡ false
      → Left c (lines c.dims es) (any is_end es) (run g c es)
  unfolding run step input
  run-Left c [] p q = (sym (append-nil c.received), refl, p)
  run-Left c (resizes d ∷ es) p q = run-Left (record c { dims = d }) es p q
  run-Left c (shuts ∷ es) p q = run-shut c es p
  run-Left c (gesture i taken ∷ es) p q =
      run-written c es (marshalled g (command_of g c i)) taken p q λ next. run-Left next es

  -- Whatever gestures, changes of geometry and ends come to a control that has just been opened, and
  -- whichever write fails: the helper receives, in order, one line for each gesture that makes a command
  -- which can be marshalled, scaled to the geometry of its time, up to the first failed write or the first
  -- end, and nothing after; stdin is closed exactly once if there is an end at all, and else stays open.
  pub run-lines :
      (d : ControlDims F) (es : List (Event g))
      → ((run g (opened d) es).received ≡ lines d es)
        × ((run g (opened d) es).closes ≡ (if any is_end es then 1 else 0))
        × ((run g (opened d) es).is_open ≡ not (any is_end es))
  run-lines d es = run-Left (opened d) es refl refl
