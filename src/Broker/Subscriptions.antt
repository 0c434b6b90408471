-- ===== src/Broker/Subscriptions.antt =====
pub mod Me
-- internal/signalbroker/subscription.go: the HTTP handlers of the subscription API. Time stamps are read
-- and written by the standard library, here `Times`; an instant is a number of seconds.
use simbeam.Prelude.{
  ℕ, ◌≡◌, ◌≢◌, ◌≤◌, ◌<◌, ◌+◌, refl, Bool, true, false, ◌||◌, ◌&&◌, not, Option, none, some, ◌⊎◌,
  inl, inr, String, List, [], ◌∷◌, arith, ltb, str_eq, if◌then◌else◌, Bool-cases, Option-cases,
  if-both,
}
use simbeam.Signal.Crypto.{Primitives, verify, verify_app_sig, canonical_subscription, canonical_me}
use simbeam.Store.{Subscription, Table, upsert, get}

pub record Times : Type 0 where
  pub parse : String → Option ℕ
  pub format : ℕ → String

-- 48 hours.
abbrev pub replay_window : ℕ
replay_window = 172800

pub record SubRequest : Type 0 where
  pub client_pub_key : String
  pub product_id : String
  pub expires_at : String
  pub issued_at : String

pub record ApiConfig : Type 0 where
  pub crypto : Primitives
  pub times : Times
  pub app_secret : String

-- A request to the first handler: `body` is `none` if it is no JSON, `store` is `none` if there is none.
pub record Request : Type 0 where
  pub method : String
  pub body : Option SubRequest
  pub app_sig : String
  pub account_sig : String
  pub now : ℕ
  pub store_fails : Bool

abbrev pub in_window : ℕ → ℕ → Bool
in_window issued now =
    not (ltb (issued + replay_window) now) && not (ltb (now + replay_window) issued)

abbrev row_of : Times → SubRequest → (issued exp now : ℕ) → Subscription
row_of t req issued exp now = record {
  client_pub_key = req.client_pub_key;
  product_id = req.product_id;
  expires_at = t.format exp;
  issued_at = t.format issued;
  source = "client";
  updated_at = t.format now;
}

-- The status, and the table afterwards.
abbrev Response : Type 0
Response = Table × ℕ

abbrev write : Table → Bool → Subscription → Response
write t true sub = (t, 500)
write t false sub = (upsert t sub, 200)

abbrev with_expiry : ApiConfig → Table → Request → SubRequest → ℕ → Option ℕ → Response
with_expiry cfg t r req issued none = (t, 400)
with_expiry cfg t r req issued (some exp) =
    write t r.store_fails (row_of cfg.times req issued exp r.now)

abbrev with_issue : ApiConfig → Table → Request → SubRequest → Option ℕ → Response
with_issue cfg t r req none = (t, 400)
with_issue cfg t r req (some issued) =
    if in_window issued r.now
    then with_expiry cfg t r req issued (cfg.times.parse req.expires_at)
    else (t, 400)

abbrev canon : SubRequest → List ℕ
canon req = canonical_subscription req.client_pub_key req.product_id req.expires_at req.issued_at

abbrev with_body : ApiConfig → Table → Request → Option SubRequest → Response
with_body cfg t r none = (t, 400)
with_body cfg t r (some req) =
    if not (verify_app_sig cfg.crypto cfg.app_secret (canon req) r.app_sig)
    then (t, 401)
    else if not (verify cfg.crypto req.client_pub_key (canon req) r.account_sig)
    then (t, 401)
    else with_issue cfg t r req (cfg.times.parse req.issued_at)

-- `none` for the table if no store is configured.
unfoldable pub handle_subscription : ApiConfig → Option Table → Request → Option Table × ℕ
handle_subscription cfg store r =
    if str_eq r.method "OPTIONS"
    then (store, 204)
    else if not (str_eq r.method "POST")
    then (store, 405)
    else elim store [
      | none ↦ (none, 503)
      | some t ↦ let (next, status) = with_body cfg t r r.body in (some next, status)
    ]

-- What a write of the API rests on.
pub record Entitled (cfg : ApiConfig) (t : Table) (r : Request) (out : Option Table × ℕ)
    : Type 0 where
  pub req : SubRequest
  pub sent : r.body ≡ some req
  pub by_app : verify_app_sig cfg.crypto cfg.app_secret (canon req) r.app_sig ≡ true
  pub by_owner : verify cfg.crypto req.client_pub_key (canon req) r.account_sig ≡ true
  pub issued : ℕ
  pub exp : ℕ
  pub parsed : cfg.times.parse req.issued_at ≡ some issued
  pub parsed_exp : cfg.times.parse req.expires_at ≡ some exp
  pub not_old : r.now ≤ issued + replay_window
  pub not_early : issued ≤ r.now + replay_window
  pub written : out ≡ (some (upsert t (row_of cfg.times req issued exp r.now)), 200)

abbrev Verdict : ApiConfig → Table → Request → Option Table × ℕ → Type 0
Verdict cfg t r out = ((out.0 ≡ some t) × (out.1 ≢ 200)) ⊎ Entitled cfg t r out

abbrev held : Response → Option Table × ℕ
held (t, status) = (some t, status)

refused :
    (cfg : ApiConfig) (t : Table) (r : Request) (status : ℕ)
    → status ≢ 200
    → Verdict cfg t r (some t, status)
refused cfg t r status h = inl (refl, h)

module _ (cfg : ApiConfig) (t : Table) (r : Request) (req : SubRequest)
    (sent : r.body ≡ some req) where
  Signed : Type 0
  Signed =
      (verify_app_sig cfg.crypto cfg.app_secret (canon req) r.app_sig ≡ true)
      × (verify cfg.crypto req.client_pub_key (canon req) r.account_sig ≡ true)

  with_expiry-Verdict :
      (issued : ℕ) (o : Option ℕ)
      → Signed
      → cfg.times.parse req.issued_at ≡ some issued
      → in_window issued r.now ≡ true
      → cfg.times.parse req.expires_at ≡ o
      → Verdict cfg t r (held (with_expiry cfg t r req issued o))
  unfolding Signed
  with_expiry-Verdict issued none signed parsed fresh e =
      refused cfg t r 400 (λ h. ground (arith, h))
  with_expiry-Verdict issued (some exp) signed parsed fresh e = elim (Bool-cases r.store_fails) [
    | inl fails ↦ simp fails (refused cfg t r 500 (λ h. ground (arith, h)))
    | inr works ↦ simp works (
        inr (record {
          req = req;
          sent = sent;
          by_app = signed.0;
          by_owner = signed.1;
          issued = issued;
          exp = exp;
          parsed = parsed;
          parsed_exp = e;
          not_old = ground (arith, fresh);
          not_early = ground (arith, fresh);
          written = refl;
        }))
  ]

  with_issue-Verdict :
      (o : Option ℕ)
      → Signed
      → cfg.times.parse req.issued_at ≡ o
      → Verdict cfg t r (held (with_issue cfg t r req o))
  with_issue-Verdict none signed e = refused cfg t r 400 (λ h. ground (arith, h))
  with_issue-Verdict (some issued) signed e = elim (Bool-cases (in_window issued r.now)) [
    | inl fresh ↦
        rw fresh (with_expiry-Verdict issued (cfg.times.parse req.expires_at) signed e fresh refl)
    | inr stale ↦ rw stale (refused cfg t r 400 (λ h. ground (arith, h)))
  ]

with_body-Verdict :
    (cfg : ApiConfig) (t : Table) (r : Request) (o : Option SubRequest)
    → r.body ≡ o
    → Verdict cfg t r (held (with_body cfg t r o))
unfolding Signed
with_body-Verdict cfg t r none e = refused cfg t r 400 (λ h. ground (arith, h))
with_body-Verdict cfg t r (some req) e =
    elim (Bool-cases (verify_app_sig cfg.crypto cfg.app_secret (canon req) r.app_sig)) [
      | inr bad ↦ rw bad (refused cfg t r 401 (λ h. ground (arith, h)))
      | inl by_app ↦
          rw by_app
            (elim (Bool-cases (verify cfg.crypto req.client_pub_key (canon req) r.account_sig)) [
              | inr bad ↦ rw bad (refused cfg t r 401 (λ h. ground (arith, h)))
              | inl by_owner ↦ rw by_owner (
                  with_issue-Verdict cfg t r req e (cfg.times.parse req.issued_at)
                    (by_app, by_owner) refl)
            ])
    ]

-- Whatever is sent to the API, either the table stays as it is and the status is not 200, or the request
-- carries the application's signature and the one of the key's owner over its fields, both dates parse,
-- the time of issue lies within 48 hours of the server's clock, and exactly this row is offered to the
-- table, with status 200.
pub handle_subscription-Entitled :
    (cfg : ApiConfig) (t : Table) (r : Request)
    → ((handle_subscription cfg (some t) r).0 ≡ some t
        × (handle_subscription cfg (some t) r).1 ≢ 200)
      ⊎ Entitled cfg t r (handle_subscription cfg (some t) r)
unfolding handle_subscription
handle_subscription-Entitled cfg t r =
    if-both (Verdict cfg t r) (str_eq r.method "OPTIONS") _ _
      (refused cfg t r 204 (λ h. ground (arith, h)))
      (if-both (Verdict cfg t r) (not (str_eq r.method "POST")) _ _
        (refused cfg t r 405 (λ h. ground (arith, h))) (with_body-Verdict cfg t r r.body refl))
