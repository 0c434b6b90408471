-- ===== src/Tests/Pairing.antt =====
-- A window, a store and signed texts, with a stand-in for the cryptographic library that accepts
-- every signature of a decodable key and whose digest is a constant.
use simbeam.Prelude.{
  ℕ, ◌≡◌, refl, Bool, true, false, Option, none, some, String, List, [], ◌∷◌, All, arith, str_eq,
  ◌==◌, ◌&&◌, eq_iff, insert, delete, lookup, if◌then◌else◌,
}
use simbeam.Signal.Crypto.{Primitives}
use simbeam.Signal.Canonical.{canonical_subscription-injective}
use simbeam.Server.PairingWindow.{PairingWindow, new_pairing_window, open_window, verify}
use simbeam.Server.PairingWindow.SingleUse.{Event, opens, verifies, run}
use simbeam.Server.Pinned.{
  PinnedClient, Json, Disk, PinnedStore, remove, loaded, load_pinned_store, contains, SaveEnv, save,
  add, values, all_space,
}
use simbeam.Daemon.Unpair.{unpair, run_unpair, beside, unpair-undone}
use simbeam.Server.Pinned.Saving.{RoundTrips, OldOrNew, save_atomic, add-load}

abbrev pub toy_key : List ℕ
toy_key =
    1 ∷ 1 ∷ 1 ∷ 1 ∷ 1 ∷ 1 ∷ 1 ∷ 1 ∷ 1 ∷ 1 ∷ 1 ∷ 1 ∷ 1 ∷ 1 ∷ 1 ∷ 1 ∷ 1 ∷ 1 ∷ 1 ∷ 1 ∷ 1 ∷ 1 ∷ 1 ∷ 1
    ∷ 1 ∷ 1 ∷ 1 ∷ 1 ∷ 1 ∷ 1 ∷ 1 ∷ 1 ∷ []

abbrev pub toy : Primitives
toy = record {
  encode_std = λ b. "digest";
  decode_std = λ s. if str_eq s "" then none else some toy_key;
  encode_raw_url = λ b. "secret";
  ed25519_sign = λ k m. m;
  ed25519_verify = λ k m sig. true;
  hmac_sha256 = λ k m. m;
}

abbrev proofs : List Event
proofs =
    opens "s3cret" 100 50
    ∷ verifies "alice" "n1" "wrong" 110
    ∷ verifies "alice" "n1" "digest" 120
    ∷ verifies "mallory" "n2" "digest" 121
    ∷ []

one_accepted : (run toy new_pairing_window proofs).1 ≡ 1
unfolding run verify open_window
one_accepted = refl

abbrev armed : PairingWindow
armed = record { secret = "s3cret"; expires = 150; consumed = false; cancelled = false }

canonical_subscription-injective_example :
    ◌≡◌ {A = String} "k" "k"
    × ◌≡◌ {A = String} "p" "p"
    × ◌≡◌ {A = String} "e" "e"
    × ◌≡◌ {A = String} "i" "i"
canonical_subscription-injective_example =
    canonical_subscription-injective "k" "p" "e" "i" "k" "p" "e" "i" (omega arith) (omega arith)
      (omega arith) (omega arith) (omega arith) (omega arith) refl

abbrev alice : PinnedClient
alice = record { pub_key = "alice"; name = "" }

abbrev bob : PinnedClient
bob = record { pub_key = "bob"; name = "" }

abbrev is_bob : PinnedClient → Bool
is_bob c = str_eq c.pub_key "bob" && str_eq c.name ""

abbrev is_alice : PinnedClient → Bool
is_alice c = str_eq c.pub_key "alice" && str_eq c.name ""

-- Stands in for the JSON library at the lists that the examples write.
unfoldable pub toy_marshal : List PinnedClient → Option (List ℕ)
toy_marshal [] = some (91 ∷ 93 ∷ [])
toy_marshal (c ∷ []) = if is_alice c then some (65 ∷ []) else none
toy_marshal (c ∷ d ∷ []) = if is_bob c && is_alice d then some (66 ∷ []) else none
toy_marshal (c ∷ d ∷ e ∷ l) = none

unfoldable pub toy_unmarshal : List ℕ → Option (List PinnedClient)
toy_unmarshal [] = none
toy_unmarshal (b ∷ bs) =
    if b == 91 then some [] else if b == 66 then some (bob ∷ alice ∷ []) else some (alice ∷ [])

abbrev pub toy_json : Json
toy_json = record { marshal = toy_marshal; unmarshal = toy_unmarshal }

toy_json-RoundTrips : RoundTrips toy_json
unfolding toy_marshal toy_unmarshal all_space
toy_json-RoundTrips [] b e = ground arith
toy_json-RoundTrips (c ∷ []) b e = ground (arith, eq_iff c.pub_key "alice", eq_iff c.name "")
toy_json-RoundTrips (c ∷ d ∷ []) b e =
    ground
      (arith, eq_iff c.pub_key "bob", eq_iff c.name "", eq_iff d.pub_key "alice", eq_iff d.name "")
toy_json-RoundTrips (c ∷ d ∷ x ∷ l) b e = cc

abbrev pub no_pins : PinnedStore
no_pins = record { set = []; disk = record { clients = none; temps = [] } }

abbrev pub saves : SaveEnv
saves = record {
  mkdir_all = true;
  create_temp = true;
  chmod = true;
  write = true;
  written = 0;
  close = true;
  rename = true;
}

abbrev pub disk_full : SaveEnv
disk_full = record saves { write = false }

save_atomic_example :
    All (OldOrNew toy_json disk_full no_pins.disk (("alice", alice) ∷ [])) (
      (save toy_json disk_full no_pins.disk (("alice", alice) ∷ [])).last
      ∷ (save toy_json disk_full no_pins.disk (("alice", alice) ∷ [])).passed)
    × ((save toy_json disk_full no_pins.disk (("alice", alice) ∷ [])).saved ≡ true
        → (save toy_json disk_full no_pins.disk (("alice", alice) ∷ [])).last.clients
          ≡ toy_json.marshal (values (("alice", alice) ∷ [])))
    × ((save toy_json disk_full no_pins.disk (("alice", alice) ∷ [])).saved ≡ false
        → (save toy_json disk_full no_pins.disk (("alice", alice) ∷ [])).last.clients ≡ none)
    × ((save toy_json disk_full no_pins.disk (("alice", alice) ∷ [])).last.temps
        ≡ no_pins.disk.temps)
save_atomic_example = save_atomic toy_json disk_full no_pins.disk (("alice", alice) ∷ [])

add-load_example :
    (fresh : PinnedStore) × (load_pinned_store toy_json true
        (add toy_json saves no_pins "alice" "").0.disk
      ≡ loaded fresh)
    × ((k : String) → contains fresh k ≡ contains (add toy_json saves no_pins "alice" "").0 k)
    × (contains fresh "alice" ≡ true)
unfolding add toy_marshal insert
add-load_example = add-load toy_json saves no_pins "alice" "" toy_json-RoundTrips tt refl

abbrev paired : PinnedStore
paired = record {
  set = ("alice", alice) ∷ [];
  disk = record { clients = some (65 ∷ []); temps = [] };
}

abbrev unpaired : Disk
unpaired = (run_unpair toy_json saves true paired.disk "alice").0

revoked : (run_unpair toy_json saves true paired.disk "alice").1 ≡ true
unfolding run_unpair unpair load_pinned_store toy_marshal toy_unmarshal remove all_space delete
    insert
revoked = refl

unpair-undone_example :
    (contains (beside paired unpaired) "alice" ≡ true)
    × ((fresh : PinnedStore) × (load_pinned_store toy_json true
            (add toy_json saves (beside paired unpaired) "bob" "").0.disk
          ≡ loaded fresh)
        × (contains fresh "alice" ≡ true))
unfolding add contains toy_marshal insert lookup
unpair-undone_example =
    unpair-undone toy_json saves saves paired "alice" "bob" "" toy_json-RoundTrips (refl, tt) refl
      refl
