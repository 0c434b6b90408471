-- ===== src/Server/Session/Released/Attempts.antt =====
-- internal/server/attach.go: what the return of the backend and the end of a feed close.
use simbeam.Prelude.{
  ℕ, ◌≡◌, ◌<◌, ◌+◌, refl, subst, Bool, true, false, Option, none, some, ◌⊎◌, inl, inr, List, [],
  ◌∷◌, ◌==◌, ==_iff, if◌then◌else◌, arith, Bool-cases, Option-cases, if-both,
}
use simbeam.Server.Session.{Prose, AttachError, Feed, Attachment, Attempt, Dispatch, Effect}
use simbeam.Server.Session.Attach.{attach_as, attach_within, install, fail_attach, pump_end, is_att}
use simbeam.Server.Session.Run.{find_attempt, drop_attempt}
use simbeam.Server.Session.Released.{
  closed, live_att, live, Below, Below-weaken, Below-drop, Ordered, Kept,
}
use simbeam.Server.Session.Released.Handlers.{Harmless-Kept}
use simbeam.Server.Session.Attach.{timed_out}

abbrev pub given : ℕ → AttachError ⊎ Feed → ℕ
given n (inl e) = 0
given n (inr feed) = if feed.id == n then 1 else 0

pub find_attempt-Below :
    (n gen : ℕ) (waiting : List Attempt) (a : Attempt)
    → Below n waiting
    → find_attempt gen waiting ≡ some a
    → (a.gen ≡ gen) × (gen < n)
unfolding find_attempt
find_attempt-Below n gen [] a v e = absurd (ground (arith, e))
find_attempt-Below n gen (x ∷ waiting) a v e =
    ground (arith, e, find_attempt-Below x.gen gen waiting a v.1, ==_iff x.gen gen, v.0)

-- What is left once the newest attempt is gone is older.
drop_attempt-Below :
    (n : ℕ) (waiting : List Attempt) → Below (n + 1) waiting → Below n (drop_attempt n waiting)
unfolding drop_attempt
drop_attempt-Below n [] v = tt
drop_attempt-Below n (x ∷ waiting) v = elim (Bool-cases (x.gen == n)) [
  | inl newest ↦
      rw newest (Below-weaken x.gen n waiting (ground (arith, newest, ==_iff x.gen n)) v.1)
  | inr other ↦
      rw other (ground (arith, v.0, other, ==_iff x.gen n), Below-drop x.gen n waiting v.1)
]

-- A step with the feed that it was given.
pub record KeptGiven (d : Dispatch) (given_feed : ℕ → ℕ) (r : Dispatch × List Effect) : Type 0 where
  pub balanced : (n : ℕ) → given_feed n + live n d ≡ closed n r.1 + live n r.0
  pub ordered : Ordered r.0

dropped-Ordered :
    (d : Dispatch) (gen : ℕ)
    → Ordered d
    → Ordered (record d { attempts = drop_attempt gen d.attempts })
dropped-Ordered d gen v = record {
  young = Below-drop (d.gen + 1) gen d.attempts v.young;
  older = λ a e. Below-drop d.gen gen d.attempts (v.older a e);
}

fail_attach-Kept :
    (d : Dispatch) (a : Attempt) (e : AttachError) → Ordered d → Kept d (fail_attach d a e)
unfolding fail_attach closed
fail_attach-Kept d a e v =
    if-both (Kept d) (d.gen == a.gen) _ _ (Harmless-Kept d _ _ refl refl refl (λ n. refl) v)
      (Harmless-Kept d d [] refl refl refl (λ n. refl) v)

-- The feed that is given is closed or installed, and nothing was installed before.
install-Kept :
    (d : Dispatch) (a : Attempt) (feed : Feed)
    → Ordered d
    → find_attempt a.gen d.attempts ≡ some a
    → KeptGiven d
        (λ n. given n (inr feed))
        (install (record d { attempts = drop_attempt a.gen d.attempts }) a feed)
unfolding install closed
install-Kept d a feed v found = elim (Bool-cases (d.gen == a.gen)) [
  | inl current ↦ rw current (record {
    balanced = λ n. ground (arith, idle current);
    ordered = record {
      young = Below-drop (d.gen + 1) a.gen d.attempts v.young;
      older = λ x e.
          subst (λ g. Below d.gen (drop_attempt g d.attempts))
            (ground (arith, current, ==_iff d.gen a.gen))
            (drop_attempt-Below d.gen d.attempts v.young);
    };
  })
  | inr old ↦ rw old (record { balanced = λ n. ground arith; ordered = dropped-Ordered d a.gen v })
]
  where
    idle : d.gen == a.gen ≡ true → d.att ≡ none
    idle current = elim (Option-cases d.att) [
      | inl empty ↦ empty
      | inr (x, held) ↦ absurd (
          ground (
            arith,
            current,
            ==_iff d.gen a.gen,
            find_attempt-Below d.gen a.gen d.attempts a (v.older x held) found,
          ))
    ]

pub returned-Kept :
    (d : Dispatch) (a : Attempt) (expired : Bool) (r : AttachError ⊎ Feed)
    → Ordered d
    → find_attempt a.gen d.attempts ≡ some a
    → KeptGiven d
        (λ n. given n r)
        (attach_as (record d { attempts = drop_attempt a.gen d.attempts }) a expired r)
unfolding attach_as attach_within closed
returned-Kept d a false (inl e) v found =
    let kept =
      fail_attach-Kept (record d { attempts = drop_attempt a.gen d.attempts }) a e
        (dropped-Ordered d a.gen v) in
    record { balanced = λ n. omega (arith, kept.balanced n); ordered = kept.ordered }
returned-Kept d a false (inr feed) v found = install-Kept d a feed v found
returned-Kept d a true (inl e) v found =
    let kept =
      fail_attach-Kept (record d { attempts = drop_attempt a.gen d.attempts }) a (timed_out a.udid)
        (dropped-Ordered d a.gen v) in
    record { balanced = λ n. omega (arith, kept.balanced n); ordered = kept.ordered }
returned-Kept d a true (inr feed) v found =
    let kept =
      fail_attach-Kept (record d { attempts = drop_attempt a.gen d.attempts }) a (timed_out a.udid)
        (dropped-Ordered d a.gen v) in
    record { balanced = λ n. omega (arith, kept.balanced n); ordered = kept.ordered }

is_att-live :
    (n id : ℕ) (o : Option Attachment)
    → is_att o id ≡ true
    → live_att n o ≡ (if id == n then 1 else 0)
is_att-live n id o h = ground (arith, h)

pub pump_end-Kept :
    (d : Dispatch) (att : Attachment) (reason : Option Prose)
    → Ordered d
    → Kept d (pump_end d att reason)
unfolding pump_end closed
pump_end-Kept d att reason v = elim (Bool-cases (is_att d.att att.feed.id)) [
  | inl here ↦ rw here (record {
    balanced = λ n. ground (arith, is_att-live n att.feed.id d.att here);
    ordered = record { young = v.young; older = λ a e. absurd (ground (arith, e)) };
  })
  | inr replaced ↦ rw replaced (Harmless-Kept d d _ refl refl refl (λ n. refl) v)
]
