-- ===== src/Sim/Startup/Select/Returns.antt =====
-- internal/backend/sim/control.go, `newControl`: whether its `select` can go on, and its `Close` after that.
use simbeam.Prelude.{◌≡◌, true, String, List, ◌⊎◌, is_some}
use simbeam.Sim.Startup.Select.{Startup, Helper}
use simbeam.Sim.Startup.Select.Heard.{first_failure, has_handshake}

module _ {ℓ} {F : Type ℓ} (h : Helper F) where
  -- Something that `newControl` waits for has happened.
  abbrev Woken : Startup F → List String → Type 0
  Woken st ls =
      (has_handshake h ls ≡ true)
      ⊎ (is_some (first_failure h ls) ≡ true)
      ⊎ (st.done ≡ true)
      ⊎ (st.expired ≡ true)
      ⊎ (st.cancelled ≡ true)
