-- ===== src/Signal/Crypto.antt =====
-- internal/signal/auth.go, enroll.go and subscription.go. Base64, Ed25519, HMAC-SHA256 and the random
-- source are libraries of the platform: the fields of `Primitives`.
use simbeam.Prelude.{
  ℕ, ◌++◌, Bool, false, Option, none, some, String, List, ◌∷◌, length, codes, ◌==◌, str_eq,
  if◌then◌else◌,
}

pub record Primitives : Type 0 where
  pub encode_std : List ℕ → String
  pub decode_std : String → Option (List ℕ)
  pub encode_raw_url : List ℕ → String
  pub ed25519_sign : List ℕ → List ℕ → List ℕ
  pub ed25519_verify : List ℕ → List ℕ → List ℕ → Bool
  pub hmac_sha256 : List ℕ → List ℕ → List ℕ

-- `ed25519.PublicKeySize`
abbrev public_key_size : ℕ
public_key_size = 32

module _ (c : Primitives) where
  open c use {encode_std, decode_std, encode_raw_url, ed25519_sign, ed25519_verify, hmac_sha256}

  unfoldable pub sign : List ℕ → List ℕ → String
  sign priv msg = encode_std (ed25519_sign priv msg)

  -- Whatever cannot be decoded, or has the wrong size, is an invalid signature.
  unfoldable pub verify : String → List ℕ → String → Bool
  verify pub_b64 msg sig_b64 = elim (decode_std pub_b64) [
    | none ↦ false
    | some key ↦
        if length key == public_key_size
        then elim (decode_std sig_b64) [ none ↦ false | some sig ↦ ed25519_verify key msg sig ]
        else false
  ]

  -- `random` is what the random source gave, `none` its error.
  unfoldable pub new_nonce : Option (List ℕ) → Option String
  new_nonce none = none
  new_nonce (some bytes) = some (encode_std bytes)

  unfoldable new_pairing_secret : Option (List ℕ) → Option String
  new_pairing_secret none = none
  new_pairing_secret (some bytes) = some (encode_raw_url bytes)

  unfoldable enroll_proof : String → String → String → String
  enroll_proof secret client_pub_key nonce =
      encode_std (hmac_sha256 (codes secret) (codes client_pub_key ++ 0 ∷ codes nonce))

  unfoldable pub verify_enroll_proof : String → String → String → String → Bool
  unfolding enroll_proof
  verify_enroll_proof secret client_pub_key nonce proof =
      str_eq (enroll_proof secret client_pub_key nonce) proof

  unfoldable pub app_sig : String → List ℕ → String
  app_sig app_secret canonical = encode_std (hmac_sha256 (codes app_secret) canonical)

  unfoldable pub verify_app_sig : String → List ℕ → String → Bool
  unfolding app_sig
  verify_app_sig app_secret canonical sig_b64 = str_eq (app_sig app_secret canonical) sig_b64

-- The bytes that both subscription signatures cover; 31 is the unit separator.
unfoldable pub canonical_subscription : String → String → String → String → List ℕ
canonical_subscription client_pub_key product_id expires_at issued_at =
    codes client_pub_key
    ++ (31 ∷ codes product_id ++ (31 ∷ codes expires_at ++ (31 ∷ codes issued_at)))

-- The bytes that `handleSubscriptionMe` checks: the key and the time stamp.
unfoldable pub canonical_me : String → String → List ℕ
canonical_me client_pub_key ts = codes client_pub_key ++ 31 ∷ codes ts
