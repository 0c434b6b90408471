-- ===== src/Daemon/Terminal.antt =====
-- cmd/simbeamd/main.go, `runRemote` and `pairUI`: the pairing block on the terminal and its timer, beside the
-- control API. What is drawn is left out.
use simbeam.Prelude.{
  ℕ, ◌+◌, ◌<◌, ◌≡◌, refl, arith, Bool, true, false, Option, none, some, String, List, [], ◌∷◌, leb,
  if◌then◌else◌,
}
use simbeam.Signal.Crypto.{Primitives}
use simbeam.Server.PairingWindow.{phase_expired, state, close, open_window}
use simbeam.Daemon.Control.{
  ControlServer, Request, is_authorized, Event, calls, verifies, notes, pairs, on_pair, cancels,
  step, handle, route, post_pair,
}

leb_refl : (n : ℕ) → leb n n ≡ true
leb_refl n = ground arith

-- `timer` is the instant at which the armed timer is due.
pub record PairUi : Type 0 where
  pub active : Bool
  pub timer : Option ℕ

pub record Process : Type 0 where
  pub control : ControlServer
  pub ui : PairUi

abbrev pub no_ui : PairUi
no_ui = record { active = false; timer = none }

-- The timer of an older block is stopped.
unfoldable show : PairUi → (now ttl : ℕ) → PairUi
show u now ttl = record { active = true; timer = some (now + ttl) }

unfoldable retire : PairUi → PairUi
retire u = if u.active then no_ui else u

-- The function of the timer, where one is due.
unfoldable on_expire : Process → (now : ℕ) → Option ℕ → Process
unfolding retire close
on_expire p now none = p
on_expire p now (some due) =
    if leb due now
    then record {
      control = record p.control { win = close p.control.win };
      ui = retire (record p.ui { timer = none });
    }
    else p

pub data Happening : Type 0 where
  api : Event → Happening
  expires : (now : ℕ) → Happening

abbrev ui_after : PairUi → (ttl : ℕ) → Event → PairUi
ui_after u ttl (calls r now secret) = u
ui_after u ttl (verifies key nonce proof now) = u
ui_after u ttl (notes key) = retire u
ui_after u ttl (pairs now none) = u
ui_after u ttl (pairs now (some secret)) = show u now ttl
ui_after u ttl cancels = retire u

unfoldable pub happen : Primitives → (String → String) → Process → Happening → Process
unfolding step on_expire show retire
happen c build_url p (api e) = record {
  control = step c build_url p.control e;
  ui = ui_after p.ui p.control.ttl e;
}
happen c build_url p (expires now) = on_expire p now p.ui.timer

unfoldable pub run : Primitives → (String → String) → Process → List Happening → Process
unfolding happen
run c build_url p [] = p
run c build_url p (h ∷ hs) = run c build_url (happen c build_url p h) hs

handle-post :
    (build_url : String → String) (c : ControlServer) (r : Request) (now : ℕ) (secret : String)
    → is_authorized c r ≡ true
    → r.path ≡ "/pair"
    → r.method ≡ "POST"
    → (handle build_url c r now (some secret)).0
      ≡ record c { win = open_window c.win secret now c.ttl }
unfolding handle route post_pair
handle-post build_url c r now secret a b d = simp (a, b, d) refl

-- The timer of an older block, when it is due, and the window that is open then.
on_expire-closes :
    (p : Process) (now : ℕ)
    → on_expire p now (some now) ≡ record {
      control = record p.control { win = close p.control.win };
      ui = retire (record p.ui { timer = none });
    }
unfolding on_expire
on_expire-closes p now = rw (leb_refl now) refl

-- The key P opens a window and arms its timer; before that timer is due, a call with the token, as from
-- `simbeamd pair`, opens a new window. When the timer of the first one comes, it closes the second: its
-- state is "expired", although a whole time to live has not passed since it was opened.
pub expires-closes_newer :
    (c : Primitives) (build_url : String → String) (p : Process) (r : Request) (t s : ℕ)
    (first second : String)
    → is_authorized p.control r ≡ true
    → r.path ≡ "/pair"
    → r.method ≡ "POST"
    → t < s
    → s < t + p.control.ttl
    → let last = run c build_url p (
        api (pairs t (some first))
        ∷ api (calls r s (some second))
        ∷ expires (t + p.control.ttl)
        ∷ []) in
      (state last.control.win (t + p.control.ttl) ≡ phase_expired)
      × (t + p.control.ttl < last.control.win.expires)
unfolding run happen state is_authorized on_pair show open_window close
expires-closes_newer c build_url p r t s first second a b d h k =
    let due = t + p.control.ttl in
    let before : Process = record {
      control = (handle build_url (on_pair p.control t (some first)) r s (some second)).0;
      ui = record { active = true; timer = some due };
    } in
    let opened = handle-post build_url (on_pair p.control t (some first)) r s second a b d in
    rw (on_expire-closes before due, opened) (ground (arith, h), ground (arith, h))
