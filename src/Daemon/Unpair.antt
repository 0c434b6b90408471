-- ===== src/Daemon/Unpair.antt =====
-- cmd/simbeamd/main.go, `runUnpair`: a second process that takes a client out of the file of a daemon that
-- may be running.
use simbeam.Prelude.{
  ◌≡◌, refl, ◌∙◌, Bool, true, false, String, lookup, lookup-insert, is_some, if-both, str_eq,
}
use simbeam.Server.Pinned.{
  Json, Disk, PinnedStore, LoadResult, loaded, load_failed, load_pinned_store, contains, SaveEnv,
  add, remove,
}
use simbeam.Server.Pinned.Saving.{RoundTrips, IsKeyed, add-load}

unfoldable pub unpair : Json → SaveEnv → Disk → String → LoadResult → Disk × Bool
unfolding remove
unpair json env disk pub_key load_failed = (disk, false)
unpair json env disk pub_key (loaded ps) =
    ((remove json env ps pub_key).0.disk, (remove json env ps pub_key).1)

-- The files afterwards, and whether it reports "revoked".
unfoldable pub run_unpair : Json → SaveEnv → (readable : Bool) → Disk → String → Disk × Bool
unfolding unpair load_pinned_store
run_unpair json env readable disk pub_key =
    unpair json env disk pub_key (load_pinned_store json readable disk)

-- A running daemon whose files another process has changed.
abbrev pub beside : PinnedStore → Disk → PinnedStore
beside ps disk = record ps { disk = disk }

module _ (json : Json) (env later : SaveEnv) (ps : PinnedStore) (key other name : String) where
  still_known :
      contains ps key ≡ true
      → contains
          (add json later (beside ps (run_unpair json env true ps.disk key).0) other name).0
          key
        ≡ true
  unfolding add contains
  still_known h =
      rw (lookup-insert)
        (if-both (λ o. is_some o ≡ true) (str_eq other key) _ (lookup key ps.set) refl h)

  -- A client that a running daemon knows is revoked with `simbeamd unpair`, whether that succeeds or fails.
  -- The daemon still admits it, since it looks at its set in memory alone; and when the next client enrolls
  -- and that is saved, the key is back in the file: a daemon that is started afresh admits it too.
  pub unpair-undone :
      RoundTrips json
      → IsKeyed ps.set
      → contains ps key ≡ true
      → (add json later (beside ps (run_unpair json env true ps.disk key).0) other name).1 ≡ true
      → (contains (beside ps (run_unpair json env true ps.disk key).0) key ≡ true)
        × ((fresh : PinnedStore) × (load_pinned_store json true
                (add json later
                  (beside ps (run_unpair json env true ps.disk key).0)
                  other
                  name).0.disk
              ≡ loaded fresh)
            × (contains fresh key ≡ true))
  unfolding contains
  unpair-undone round keyed known saved =
      let ran = beside ps (run_unpair json env true ps.disk key).0 in
      let (fresh, l, same, _) = add-load json later ran other name round keyed saved in
      (known, (fresh, l, same key ∙ still_known known))
