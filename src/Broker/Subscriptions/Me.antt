-- ===== src/Broker/Subscriptions/Me.antt =====
-- internal/signalbroker/subscription.go, `handleSubscriptionMe`: the reading of a row.
use simbeam.Prelude.{
  ℕ, ◌≡◌, ◌≤◌, ◌+◌, refl, Bool, true, false, ◌||◌, not, Option, none, some, String, arith, str_eq,
  if◌then◌else◌, lookup,
}
use simbeam.Signal.Crypto.{verify, canonical_me}
use simbeam.Store.{Subscription, Table}
use simbeam.Broker.Subscriptions.{ApiConfig, in_window, replay_window}

pub record MeRequest : Type 0 where
  pub method : String
  pub key : String
  pub ts : String
  pub sig : String
  pub now : ℕ
  pub store_fails : Bool

abbrev found_row : Option Subscription → ℕ × Option Subscription
found_row none = (404, none)
found_row (some sub) = (200, some sub)

abbrev fresh_ts : Option ℕ → ℕ → Bool
fresh_ts none now = false
fresh_ts (some t) now = in_window t now

abbrev read_row : ApiConfig → Table → MeRequest → ℕ × Option Subscription
read_row cfg t r =
    if str_eq r.key "" || not (verify cfg.crypto r.key (canonical_me r.key r.ts) r.sig)
    then (401, none)
    else if not (fresh_ts (cfg.times.parse r.ts) r.now)
    then (401, none)
    else if r.store_fails
    then (500, none)
    else found_row (lookup r.key t)

-- The status and the row that is sent.
unfoldable pub handle_subscription_me :
    ApiConfig → Option Table → MeRequest → ℕ × Option Subscription
handle_subscription_me cfg store r =
    if str_eq r.method "OPTIONS"
    then (204, none)
    else if not (str_eq r.method "GET")
    then (405, none)
    else elim store [ none ↦ (503, none) | some t ↦ read_row cfg t r ]

-- A row is sent only to the owner of its key: if the answer holds a row, then the request is signed by the
-- key that it names, over that key and a time stamp that lies within 48 hours of the server's clock, and
-- the row is the stored row of this key.
pub handle_subscription_me-owner :
    (cfg : ApiConfig) (t : Table) (r : MeRequest) (sub : Subscription)
    → (handle_subscription_me cfg (some t) r).1 ≡ some sub
    → (verify cfg.crypto r.key (canonical_me r.key r.ts) r.sig ≡ true)
      × (lookup r.key t ≡ some sub)
      × ((when : ℕ) × (cfg.times.parse r.ts ≡ some when)
          × (r.now ≤ when + replay_window)
          × (when ≤ r.now + replay_window))
unfolding handle_subscription_me
handle_subscription_me-owner cfg t r sub h =
    (ground (arith, h), ground (arith, h), when_of (cfg.times.parse r.ts) refl (ground (arith, h)))
  where
    when_of :
        (o : Option ℕ)
        → cfg.times.parse r.ts ≡ o
        → fresh_ts o r.now ≡ true
        → (when : ℕ) × (cfg.times.parse r.ts ≡ some when)
          × (r.now ≤ when + replay_window)
          × (when ≤ r.now + replay_window)
    when_of none e f = absurd (ground (arith, f))
    when_of (some when) e f = (when, e, ground (arith, f), ground (arith, f))
