-- ===== src/Server/Session/Replies.antt =====
-- internal/server/attach.go and rtcdispatch.go: which request gets which reply.
use simbeam.Prelude.{
  ℕ, ◌≡◌, ◌≢◌, refl, Bool, true, false, none, some, ◌⊎◌, inl, inr, List, [], ◌∷◌, ◌==◌, ==_iff,
  arith, str_eq, eq_iff, Bool-cases,
}
use simbeam.Server.Session.{
  attached, error, AttachError, Feed, Attachment, Attempt, Dispatch, Effect, Route, CtrlReply,
  replies, closes,
}
use simbeam.Server.Session.Attach.{
  attach_as, attach_within, install, fail_attach, op_attach, timed_out, fail_code,
  code_attach_failed,
}

-- The lifecycle replies among the effects.
unfoldable pub answers : List Effect → List (Route × CtrlReply)
answers [] = []
answers (replies route v ∷ out) = (route, v) ∷ answers out
answers (_ ∷ out) = answers out

-- How an attach ends for the client.
pub data Terminal (a : Attempt) (d' : Dispatch) (v : CtrlReply) : Type 0 where
  live :
      v.type ≡ attached
      → (att : Attachment) → d'.att ≡ some att
      → att.udid ≡ a.udid
      → Terminal a d' v
  failed : v.type ≡ error → v.operation ≡ op_attach → v.code ≢ "" → Terminal a d' v

-- The newest attempt ends with one terminal reply, for its device and on its route.
pub record Answered (d : Dispatch) (a : Attempt) (r : Dispatch × List Effect) : Type 0 where
  pub newest : d.gen ≡ a.gen
  pub reply : CtrlReply
  pub only : answers r.1 ≡ (a.route, reply) ∷ []
  pub device : reply.udid ≡ a.udid
  pub settled : r.0.pending ≡ ""
  pub terminal : Terminal a r.0 reply

-- A superseded one is silent and changes nothing.
pub record Superseded (d : Dispatch) (a : Attempt) (r : Dispatch × List Effect) : Type 0 where
  pub older : d.gen ≢ a.gen
  pub silent : answers r.1 ≡ []
  pub unchanged : r.0 ≡ d

abbrev Outcome : Dispatch → Attempt → Dispatch × List Effect → Type 0
Outcome d a r = Answered d a r ⊎ Superseded d a r

fail_code-filled : (e : AttachError) → (fail_code e).0 ≢ ""
fail_code-filled e = elim (Bool-cases (str_eq e.code "")) [
  | inl empty ↦ simp empty (λ h. ground (arith, h, eq_iff code_attach_failed ""))
  | inr filled ↦ simp filled (λ h. ground (arith, h, filled, eq_iff e.code ""))
]

fail_attach-Outcome :
    (d : Dispatch) (a : Attempt) (e : AttachError) → Outcome d a (fail_attach d a e)
unfolding fail_attach answers
fail_attach-Outcome d a e = elim (Bool-cases (d.gen == a.gen)) [
  | inl current ↦ rw current (
      inl (record {
        newest = ground (arith, current, ==_iff d.gen a.gen);
        reply = _;
        only = refl;
        device = refl;
        settled = refl;
        terminal = failed refl refl (fail_code-filled e);
      }))
  | inr old ↦ rw old (
      inr (record {
        older = λ h. ground (arith, h, old, ==_iff d.gen a.gen);
        silent = refl;
        unchanged = refl;
      }))
]

install-Outcome : (d : Dispatch) (a : Attempt) (feed : Feed) → Outcome d a (install d a feed)
unfolding install answers
install-Outcome d a feed = elim (Bool-cases (d.gen == a.gen)) [
  | inl current ↦ rw current (
      inl (record {
        newest = ground (arith, current, ==_iff d.gen a.gen);
        reply = _;
        only = refl;
        device = refl;
        settled = refl;
        terminal = live refl (record { feed = feed; udid = a.udid }) refl refl;
      }))
  | inr old ↦ rw old (
      inr (record {
        older = λ h. ground (arith, h, old, ==_iff d.gen a.gen);
        silent = refl;
        unchanged = refl;
      }))
]

after_close-Outcome :
    (d : Dispatch) (a : Attempt) (id : ℕ) (r : Dispatch × List Effect)
    → Outcome d a r
    → Outcome d a (r.0, closes id ∷ r.1)
unfolding answers
after_close-Outcome d a id r (inl v) = inl (record {
  newest = v.newest;
  reply = v.reply;
  only = v.only;
  device = v.device;
  settled = v.settled;
  terminal = v.terminal;
})
after_close-Outcome d a id r (inr v) =
    inr (record { older = v.older; silent = v.silent; unchanged = v.unchanged })

-- When the backend returns to an attach, whatever it returns and whether or not the deadline came first:
-- if no newer intent has claimed the session, the client gets one reply, on the route of its request and
-- for its device, nothing is pending any more, and the reply says "attached" with the feed of that device
-- installed, or is an error of the attach with a code; otherwise the client gets none and the state is
-- unchanged.
pub attach_as-Outcome :
    (d : Dispatch) (a : Attempt) (expired : Bool) (r : AttachError ⊎ Feed)
    → Answered d a (attach_as d a expired r) ⊎ Superseded d a (attach_as d a expired r)
unfolding attach_as attach_within
attach_as-Outcome d a false (inl e) = fail_attach-Outcome d a e
attach_as-Outcome d a false (inr feed) = install-Outcome d a feed
attach_as-Outcome d a true (inl e) = fail_attach-Outcome d a (timed_out a.udid)
attach_as-Outcome d a true (inr feed) =
    after_close-Outcome d a feed.id (fail_attach d a (timed_out a.udid))
      (fail_attach-Outcome d a (timed_out a.udid))

-- Neither a feed nor an attach on its way, of any device.
abbrev pub IsStopped : Dispatch → Type 0
IsStopped d = (d.att ≡ none) × (d.pending ≡ "")
