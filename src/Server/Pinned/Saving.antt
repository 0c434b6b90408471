-- ===== src/Server/Pinned/Saving.antt =====
-- internal/server/pinned.go: what `save` leaves on disk, and what a restart reads back.
use simbeam.Prelude.{
  ℕ, ◌≡◌, ◌⊎◌, inl, inr, refl, ◌∙◌, true, false, ◌||◌, none, some, String, List, [], ◌∷◌, arith,
  All, lookup, insert, delete, is_some, lookup-insert, eq_iff, eq_refl, Option-cases,
}
use simbeam.Server.Pinned.{
  PinnedClient, Json, Disk, PinnedStore, loaded, all_space, index_clients, load_pinned_store,
  contains, SaveEnv, values, save, add,
}

module _ (json : Json) (env : SaveEnv) (disk : Disk) (set : List (String × PinnedClient)) where
  abbrev pub OldOrNew : Disk → Type 0
  OldOrNew d = (d.clients ≡ disk.clients) ⊎ (d.clients ≡ json.marshal (values set))

  -- Whenever the process dies during `save`, `clients.json` holds the old list whole or the new one
  -- whole; when `save` returns, its temporary file is gone and those of other runs are as before, and the file
  -- holds the new list exactly if `save` reports success.
  pub save_atomic :
      All OldOrNew ((save json env disk set).last ∷ (save json env disk set).passed)
      × ((save json env disk set).saved ≡ true
          → (save json env disk set).last.clients ≡ json.marshal (values set))
      × ((save json env disk set).saved ≡ false
          → (save json env disk set).last.clients ≡ disk.clients)
      × ((save json env disk set).last.temps ≡ disk.temps)
  unfolding save
  save_atomic = ground arith

-- Each client stands under its own key.
abbrev pub IsKeyed : List (String × PinnedClient) → Type 0
IsKeyed = All (λ entry. entry.0 ≡ entry.1.pub_key)

-- What the JSON library promises: a list that was written is read back, and is no white space.
abbrev pub RoundTrips : Json → Type 0
RoundTrips json =
    (l : List PinnedClient) (b : List ℕ)
    → json.marshal l ≡ some b
    → (json.unmarshal b ≡ some l) × (all_space b ≡ false)

lookup_nil : (k : String) → lookup {V = PinnedClient} k [] ≡ none
unfolding lookup
lookup_nil k = refl

contains_index :
    (k : String) (acc set : List (String × PinnedClient))
    → IsKeyed set
    → is_some (lookup k (index_clients acc (values set)))
      ≡ (is_some (lookup k acc) || is_some (lookup k set))
unfolding index_clients lookup
contains_index k acc [] h = ground arith
contains_index k acc ((j, c) ∷ set) h = ground (
  arith,
  contains_index k (insert c.pub_key c acc) set h.1,
  lookup-insert c.pub_key k c acc,
  eq_iff j k,
  eq_iff c.pub_key k,
)

contains_reloaded :
    (k : String) (set : List (String × PinnedClient))
    → IsKeyed set
    → is_some (lookup k (index_clients [] (values set))) ≡ is_some (lookup k set)
contains_reloaded k set h = contains_index k [] set h ∙ rw (lookup_nil k)

delete-IsKeyed :
    (k : String) (set : List (String × PinnedClient)) → IsKeyed set → IsKeyed (delete k set)
unfolding delete
delete-IsKeyed k [] h = tt
delete-IsKeyed k (entry ∷ set) h = ground (arith, delete-IsKeyed k set h.1)

insert-IsKeyed :
    (k name : String) (set : List (String × PinnedClient))
    → IsKeyed set
    → IsKeyed (insert k (record { pub_key = k; name = name }) set)
unfolding insert
insert-IsKeyed k name set h = (refl, delete-IsKeyed k set h)

save-saved :
    (json : Json) (env : SaveEnv) (disk : Disk) (set : List (String × PinnedClient))
    → (save json env disk set).saved ≡ true
    → (bytes : List ℕ) × (json.marshal (values set) ≡ some bytes)
      × ((save json env disk set).last.clients ≡ some bytes)
unfolding save
save-saved json env disk set h = elim (Option-cases (json.marshal (values set))) [
  | inl e ↦ absurd (ground arith)
  | inr (bytes, e) ↦ (bytes, e, ground arith)
]

load_lem :
    (json : Json) (disk : Disk) (bytes : List ℕ) (clients : List PinnedClient)
    → disk.clients ≡ some bytes
    → json.unmarshal bytes ≡ some clients
    → all_space bytes ≡ false
    → load_pinned_store json true disk
      ≡ loaded (record { set = index_clients [] clients; disk = disk })
unfolding load_pinned_store
load_lem json disk bytes clients d u s = ground arith

module _ (json : Json) (env : SaveEnv) (ps : PinnedStore) (key name : String) where
  -- Once `Add` has returned without an error, a daemon that is started afresh knows exactly the
  -- clients that this one knows, the new one among them.
  pub add-load :
      RoundTrips json
      → IsKeyed ps.set
      → (add json env ps key name).1 ≡ true
      → (fresh : PinnedStore) × (load_pinned_store json true (add json env ps key name).0.disk
          ≡ loaded fresh)
        × ((k : String) → contains fresh k ≡ contains (add json env ps key name).0 k)
        × (contains fresh key ≡ true)
  unfolding add contains
  add-load round h ok =
      let set = insert key (record { pub_key = key; name = name }) ps.set in
      let (bytes, m, d) = save-saved json env ps.disk set ok in
      let (u, s) = round (values set) bytes m in
      let same : (k : String)
          → is_some (lookup k (index_clients [] (values set))) ≡ is_some (lookup k set) =
        λ k. contains_reloaded k set (insert-IsKeyed key name ps.set h) in
      (
        record { set = index_clients [] (values set); disk = (save json env ps.disk set).last },
        load_lem json _ bytes (values set) d u s,
        same,
        same key ∙ rw (lookup-insert, eq_refl),
      )

  -- In memory the key is enrolled whether or not the save succeeds.
  pub add-contains : contains (add json env ps key name).0 key ≡ true
  unfolding add contains
  add-contains = rw (lookup-insert, eq_refl)

  pub add_unsaved :
      (add json env ps key name).1 ≡ false
      → (add json env ps key name).0.disk.clients ≡ ps.disk.clients
  unfolding add
  add_unsaved failed = (save_atomic json env ps.disk _).2 failed
