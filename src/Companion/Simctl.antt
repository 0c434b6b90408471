-- ===== src/Companion/Simctl.antt =====
-- internal/companion/companion.go: the calls of simctl and what is made of their failures. `Ran` is what came of
-- one run of a command, and a text is its code points.
use simbeam.Prelude.{
  ℕ, Bool, true, false, Option, none, some, ◌⊎◌, inl, inr, List, [], ◌∷◌, ◌++◌, if◌then◌else◌,
  codes, trim_left, trim_right, contains_text,
}
use simbeam.Companion.{Simulator, SimctlList, parse_simctl_devices}

-- `err` is `none` if the command succeeded.
pub record Ran : Type 0 where
  pub stdout : List ℕ
  pub stderr : List ℕ
  pub err : Option (List ℕ)

-- An error is the list of its parts.
abbrev Error : Type 0
Error = List (List ℕ)

abbrev trimmed : List ℕ → List ℕ
trimmed s = trim_right (trim_left s)

abbrev is_blank : List ℕ → Bool
is_blank [] = true
is_blank (x ∷ s) = false

-- "simctl <args>: err", and stderr if it says anything.
abbrev simctl_error : (args : List ℕ) → (err stderr : List ℕ) → Error
simctl_error args err stderr =
    if is_blank (trimmed stderr)
    then codes "simctl " ∷ args ∷ codes ": " ∷ err ∷ []
    else codes "simctl " ∷ args ∷ codes ": " ∷ err ∷ codes ": " ∷ trimmed stderr ∷ []

unfoldable run_simctl : (args : List ℕ) → Ran → Option (List ℕ) → Error ⊎ List ℕ
run_simctl args r none = inr r.stdout
run_simctl args r (some err) = inl (simctl_error args err r.stderr)

-- `Boot` and `Shutdown`, which take a failure for success if stderr holds `already`.
abbrev power : (verb udid already : List ℕ) → Ran → Option (List ℕ) → Option Error
power verb udid already r none = none
power verb udid already r (some err) =
    if contains_text r.stderr already
    then none
    else some (simctl_error (verb ++ 32 ∷ udid) err r.stderr)

unfoldable pub boot : (udid : List ℕ) → Ran → Option Error
boot udid r = power (codes "boot") udid (codes "current state: Booted") r r.err

unfoldable pub shutdown : (udid : List ℕ) → Ran → Option Error
shutdown udid r = power (codes "shutdown") udid (codes "current state: Shutdown") r r.err

-- The notification that Simulator.app posts for a shake.
unfoldable pub shake : (udid : List ℕ) → Ran → Option Error
unfolding run_simctl
shake udid r =
    elim (run_simctl
      (codes "spawn " ++ udid ++ codes " notifyutil -p com.apple.UIKit.SimulatorShake") r r.err) [
        | inl e ↦ some e
        | inr out ↦ none
      ]

abbrev parsed : Option (List Simulator) → Error ⊎ List Simulator
parsed none = inl (codes "parsing simctl device list" ∷ [])
parsed (some sims) = inr sims

abbrev listed : (unmarshal : List ℕ → Option SimctlList) → Error ⊎ List ℕ → Error ⊎ List Simulator
listed unmarshal (inl e) = inl e
listed unmarshal (inr out) = parsed (parse_simctl_devices (unmarshal out))

unfoldable pub list : (unmarshal : List ℕ → Option SimctlList) → Ran → Error ⊎ List Simulator
unfolding run_simctl parse_simctl_devices
list unmarshal r = listed unmarshal (run_simctl (codes "list -j devices available") r r.err)

-- What the file system does for a screenshot: the name of the new file, and what is read back from it.
pub record Shot : Type 0 where
  pub path : Option (List ℕ)
  pub read : Option (List ℕ)

abbrev captured : (udid : List ℕ) → Option (List ℕ) → Error ⊎ List ℕ
captured udid none = inl (codes "screenshot read" ∷ [])
captured udid (some []) = inl (codes "screenshot " ∷ udid ∷ codes ": empty capture" ∷ [])
captured udid (some (x ∷ bytes)) = inr (x ∷ bytes)

abbrev shot : (udid : List ℕ) → Option (List ℕ) → Error ⊎ List ℕ → Error ⊎ List ℕ
shot udid read (inl e) = inl e
shot udid read (inr out) = captured udid read

abbrev taken : (udid : List ℕ) → Ran → Shot → Option (List ℕ) → Error ⊎ List ℕ
taken udid r file none = inl (codes "screenshot temp file" ∷ [])
taken udid r file (some path) =
    shot udid file.read
      (run_simctl (codes "io " ++ udid ++ codes " screenshot --type=png " ++ path) r r.err)

unfoldable pub screenshot : (udid : List ℕ) → Ran → Shot → Error ⊎ List ℕ
unfolding run_simctl
screenshot udid r file = taken udid r file file.path

-- `found` is whether xcrun finds simctl, and `selected` what `xcode-select -p` prints, if it succeeds; the text
-- of the advice is left out but for its hint.
unfoldable check_toolchain :
    (found : Bool) → (selected : Option (List ℕ)) → Option (Option (List ℕ))
check_toolchain true selected = none
check_toolchain false none = some none
check_toolchain false (some out) =
    some
      (if contains_text (trimmed out) (codes "CommandLineTools") then some (trimmed out) else none)
