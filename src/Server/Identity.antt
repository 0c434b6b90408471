-- ===== src/Server/Identity.antt =====
-- internal/server/identity.go: the key of the daemon, and its file. Ed25519 and base64 are parameters; a file
-- is its bytes, and what each call of the file system does is an argument.
use simbeam.Prelude.{
  ℕ, ◌≡◌, refl, ap, ◌∙◌, Bool, true, false, Option, none, some, String, List, ◌==◌, if◌then◌else◌,
  length,
}
use simbeam.Signal.Crypto.{Primitives}

-- `priv.Public()`
pub record Keys : Type 0 where
  pub public_of : List ℕ → List ℕ

pub record Identity : Type 0 where
  pub pub_b64 : String
  pub priv : List ℕ

-- What `os.ReadFile` finds.
pub data KeyFile : Type 0 where
  missing : KeyFile
  unreadable : KeyFile
  holds : String → KeyFile

pub data Loaded : Type 0 where
  loaded : Identity → Loaded
  malformed : Loaded
  read_failed : Loaded
  key_failed : Loaded
  directory_failed : Loaded
  write_failed : Loaded

-- `ed25519.PrivateKeySize`
abbrev private_key_size : ℕ
private_key_size = 64

-- The results of the calls on the first run: the generated keys, public and private, the directory, and what a write that fails
-- leaves behind.
pub record FirstRun : Type 0 where
  pub generated : Option (List ℕ × List ℕ)
  pub directory : Bool
  pub written : Bool
  pub left_over : KeyFile

module _ (c : Primitives) (keys : Keys) where
  unfoldable identity_of : List ℕ → Identity
  identity_of priv = record { pub_b64 = c.encode_std (keys.public_of priv); priv = priv }

  unfoldable pub decoded : Option (List ℕ) → Loaded
  unfolding identity_of
  decoded none = malformed
  decoded (some raw) =
      if length raw == private_key_size then loaded (identity_of raw) else malformed

  -- `directory` and `written` are whether `MkdirAll` and `WriteFile` succeed.
  abbrev stored : FirstRun → (pub_key priv : List ℕ) → (directory written : Bool) → KeyFile × Loaded
  stored run pub_key priv false written = (missing, directory_failed)
  stored run pub_key priv true false = (run.left_over, write_failed)
  stored run pub_key priv true true =
      (holds (c.encode_std priv), loaded (record { pub_b64 = c.encode_std pub_key; priv = priv }))

  unfoldable create : FirstRun → Option (List ℕ × List ℕ) → KeyFile × Loaded
  create run none = (missing, key_failed)
  create run (some (pub_key, priv)) = stored run pub_key priv run.directory run.written

  -- The file afterwards, and the result.
  unfoldable pub load_or_create_identity : FirstRun → KeyFile → KeyFile × Loaded
  unfolding decoded create
  load_or_create_identity run (holds text) = (holds text, decoded (c.decode_std text))
  load_or_create_identity run unreadable = (unreadable, read_failed)
  load_or_create_identity run missing = create run run.generated

  -- Base64 gives back the key that it was given; a generated private key has its size and its public key.
  pub record Works (generated : Option (List ℕ × List ℕ)) : Type 0 where
    pub decode_encode :
        (pub_key priv : List ℕ)
        → generated ≡ some (pub_key, priv)
        → c.decode_std (c.encode_std priv) ≡ some priv
    pub size :
        (pub_key priv : List ℕ) → generated ≡ some (pub_key, priv) → length priv ≡ private_key_size
    pub public :
        (pub_key priv : List ℕ) → generated ≡ some (pub_key, priv) → keys.public_of priv ≡ pub_key

  decoded-again :
      (pub_key priv : List ℕ)
      → Works (some (pub_key, priv))
      → decoded (c.decode_std (c.encode_std priv))
        ≡ loaded (record { pub_b64 = c.encode_std pub_key; priv = priv })
  unfolding decoded
  decoded-again pub_key priv w =
      rw (w.decode_encode pub_key priv refl, w.size pub_key priv refl, w.public pub_key priv refl)
        refl

  stored-again :
      (run : FirstRun) (pub_key priv : List ℕ) (directory written : Bool) (i : Identity)
      → Works (some (pub_key, priv))
      → (stored run pub_key priv directory written).1 ≡ loaded i
      → (again : FirstRun)
      → load_or_create_identity again (stored run pub_key priv directory written).0
        ≡ ((stored run pub_key priv directory written).0, loaded i)
  unfolding load_or_create_identity
  stored-again run pub_key priv false written i w e again = absurd (cc e)
  stored-again run pub_key priv true false i w e again = absurd (cc e)
  stored-again run pub_key priv true true i w e again =
      ap (λ l. (holds (c.encode_std priv), l)) (decoded-again pub_key priv w ∙ e)

  create-again :
      (run again : FirstRun) (o : Option (List ℕ × List ℕ)) (i : Identity)
      → Works o
      → (create run o).1 ≡ loaded i
      → load_or_create_identity again (create run o).0 ≡ ((create run o).0, loaded i)
  unfolding create
  create-again run again none i w e = absurd (cc e)
  create-again run again (some (pub_key, priv)) i w e =
      stored-again run pub_key priv run.directory run.written i w e again

  -- Whatever identity a start comes up with, from a file or made on the first run, the next start comes up
  -- with the same one, does not touch the file, and this whatever its own calls would have done.
  pub load_or_create_identity-again :
      (run again : FirstRun) (file : KeyFile) (i : Identity)
      → Works run.generated
      → (load_or_create_identity run file).1 ≡ loaded i
      → load_or_create_identity again (load_or_create_identity run file).0
        ≡ ((load_or_create_identity run file).0, loaded i)
  unfolding load_or_create_identity
  load_or_create_identity-again run again missing i w e = create-again run again run.generated i w e
  load_or_create_identity-again run again unreadable i w e = absurd (cc e)
  load_or_create_identity-again run again (holds text) i w e = ap (λ l. (holds text, l)) e
