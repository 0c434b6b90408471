-- ===== src/Tests/Subscriptions.antt =====
-- A report to the subscription API, and the table behind it.
use simbeam.Prelude.{
  ℕ, ◌≡◌, ◌≢◌, ◌≤◌, ◌+◌, refl, true, false, some, ◌⊎◌, Option, String, List, [], ◌∷◌, All, lookup,
  insert,
}
use simbeam.Signal.Crypto.{verify, verify_app_sig, app_sig, canonical_me}
use simbeam.Store.{Subscription, Table, upsert, after}
use simbeam.Store.Latest.{Covers, report, report-Covers}
use simbeam.Broker.Subscriptions.{
  ApiConfig, Request, Entitled, handle_subscription, handle_subscription-Entitled, replay_window,
}
use simbeam.Broker.Subscriptions.Me.{
  MeRequest, handle_subscription_me, handle_subscription_me-owner,
}
use simbeam.Tests.Pairing.{toy}

abbrev row : String → Subscription
row issued = record {
  client_pub_key = "alice";
  product_id = "p";
  expires_at = "2027-01-01T00:00:00Z";
  issued_at = issued;
  source = "client";
  updated_at = issued;
}

abbrev reports : List Subscription
reports = row "2026-01-02T00:00:00Z" ∷ row "2026-01-01T00:00:00Z" ∷ []

latest_kept : lookup "alice" (report [] reports) ≡ some (row "2026-01-02T00:00:00Z")
unfolding report upsert after lookup insert
latest_kept = refl

report-Covers_example : All (Covers (report [] reports)) reports
report-Covers_example = report-Covers [] reports

abbrev cfg : ApiConfig
cfg = record {
  crypto = toy;
  times = record { parse = λ s. some 1000; format = λ t. "2026-01-02T00:00:00Z" };
  app_secret = "s";
}

abbrev request : Request
request = record {
  method = "POST";
  body =
      some
        (record { client_pub_key = "alice"; product_id = "p"; expires_at = "e"; issued_at = "i" });
  app_sig = "digest";
  account_sig = "sig";
  now = 2000;
  store_fails = false;
}

accepted : (handle_subscription cfg (some []) request).1 ≡ 200
unfolding handle_subscription verify verify_app_sig app_sig
accepted = refl

handle_subscription-Entitled_example :
    ((handle_subscription cfg (some []) request).0 ≡ some []
      × (handle_subscription cfg (some []) request).1 ≢ 200)
    ⊎ Entitled cfg [] request (handle_subscription cfg (some []) request)
handle_subscription-Entitled_example = handle_subscription-Entitled cfg [] request

abbrev table : Table
table = ("alice", row "2026-01-02T00:00:00Z") ∷ []

abbrev asks : MeRequest
asks = record {
  method = "GET";
  key = "alice";
  ts = "t";
  sig = "sig";
  now = 1500;
  store_fails = false;
}

answered : (handle_subscription_me cfg (some table) asks).1 ≡ some (row "2026-01-02T00:00:00Z")
unfolding handle_subscription_me verify lookup
answered = refl

handle_subscription_me-owner_example :
    (verify toy "alice" (canonical_me "alice" "t") "sig" ≡ true)
    × (lookup "alice" table ≡ some (row "2026-01-02T00:00:00Z"))
    × ((when : ℕ) × (◌≡◌ {A = Option ℕ} (some 1000) (some when))
        × (1500 ≤ when + replay_window)
        × (when ≤ 1500 + replay_window))
handle_subscription_me-owner_example =
    handle_subscription_me-owner cfg table asks (row "2026-01-02T00:00:00Z") answered
