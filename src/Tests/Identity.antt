-- ===== src/Tests/Identity.antt =====
-- The key of a daemon on two starts, with a base64 that knows one key.
use simbeam.Prelude.{ℕ, zero, suc, ◌≡◌, refl, ap, sym, true, Option, some, List, [], ◌∷◌, length}
use simbeam.Signal.Crypto.{Primitives}
use simbeam.Server.Identity.{
  Keys, FirstRun, missing, loaded, Works, load_or_create_identity, load_or_create_identity-again,
}
use simbeam.Tests.Pairing.{toy}

abbrev zeros : ℕ → List ℕ
zeros zero = []
zeros (suc n) = 0 ∷ zeros n

abbrev keys : Keys
keys = record { public_of = λ priv. 7 ∷ [] }

abbrev first_run : FirstRun
first_run = record {
  generated = some (7 ∷ [], zeros 64);
  directory = true;
  written = true;
  left_over = missing;
}

abbrev base64 : Primitives
base64 = record toy { decode_std = λ s. some (zeros 64) }

pair_of :
    (a b : List ℕ)
    → ◌≡◌ {A = Option (List ℕ × List ℕ)} (some (7 ∷ [], zeros 64)) (some (a, b))
    → (7 ∷ [] ≡ a) × (zeros 64 ≡ b)
pair_of a b e = (cc e, cc e)

works : Works base64 keys first_run.generated
works = record {
  decode_encode = λ a b e. ap some (pair_of a b e).1;
  size = λ a b e. ap length (sym (pair_of a b e).1);
  public = λ a b e. (pair_of a b e).0;
}

first_start :
    (load_or_create_identity base64 keys first_run missing).1
    ≡ loaded (record { pub_b64 = "digest"; priv = zeros 64 })
unfolding load_or_create_identity
first_start = refl

load_or_create_identity-again_example :
    load_or_create_identity base64 keys first_run
      (load_or_create_identity base64 keys first_run missing).0
    ≡ (
      (load_or_create_identity base64 keys first_run missing).0,
      loaded (record { pub_b64 = "digest"; priv = zeros 64 }),
    )
load_or_create_identity-again_example =
    load_or_create_identity-again base64 keys first_run first_run missing
      (record { pub_b64 = "digest"; priv = zeros 64 }) works first_start
