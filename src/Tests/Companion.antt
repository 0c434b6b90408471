-- ===== src/Tests/Companion.antt =====
-- The list of simulators, for a map that is met in two orders.
use mathlib.Core.List.{Permᴰ}
use simbeam.Prelude.{
  ℕ, ◌≡◌, refl, Bool, true, false, some, String, List, [], ◌∷◌, inl, none, codes, if◌then◌else◌,
}
use simbeam.Companion.{
  Simulator, SimctlDevice, os_version_from_runtime, runtime_devices, flatten, parse_simctl_devices,
}
use simbeam.Companion.Simctl.{Ran, boot, shutdown, screenshot}
use simbeam.Companion.Order.{text_eq}
use simbeam.Companion.Listing.{AllListed}
use simbeam.Companion.Sorted.{IsSorted, parse-perm}

abbrev device : (udid name : String) → (is_available : Bool) → SimctlDevice
device udid name is_available = record {
  udid = codes udid;
  name = codes name;
  state = codes "Shutdown";
  is_available = is_available;
  device_type_identifier = codes "com.apple.CoreSimulator.SimDeviceType.iPhone-17-Pro";
}

abbrev newer : List ℕ × List SimctlDevice
newer = (
  codes "com.apple.CoreSimulator.SimRuntime.iOS-26-4",
  device "B" "iPhone" true ∷ device "C" "iPad" false ∷ [],
)

abbrev older : List ℕ × List SimctlDevice
older = (codes "com.apple.CoreSimulator.SimRuntime.iOS-18-0", device "A" "iPhone" true ∷ [])

abbrev found : (udid os_version : String) → Simulator
found udid os_version = record {
  udid = codes udid;
  name = codes "iPhone";
  model = codes "iPhone 17 Pro";
  os_version = codes os_version;
  state = codes "Shutdown";
}

versions : os_version_from_runtime newer.0 ≡ codes "26.4"
unfolding os_version_from_runtime
versions = refl

listed :
    parse_simctl_devices (some (newer ∷ older ∷ []))
    ≡ some (found "A" "18.0" ∷ found "B" "26.4" ∷ [])
unfolding parse_simctl_devices
listed = refl

abbrev registry : List ℕ → Simulator
registry udid = if text_eq udid (codes "A") then found "A" "18.0" else found "B" "26.4"

listed_all : AllListed registry (newer ∷ older ∷ [])
unfolding runtime_devices
listed_all = ((refl, tt), ((refl, tt), tt))

parse-perm_example :
    (sims : List Simulator) × (parse_simctl_devices (some (newer ∷ older ∷ [])) ≡ some sims)
    × (parse_simctl_devices (some (older ∷ newer ∷ [])) ≡ some sims)
    × Permᴰ (flatten (newer ∷ older ∷ [])) sims
    × IsSorted sims
parse-perm_example =
    parse-perm registry (newer ∷ older ∷ []) (older ∷ newer ∷ []) (Permᴰ.swap refl refl) listed_all

abbrev already : Ran
already = record {
  stdout = [];
  stderr = codes "Unable to boot device in current state: Booted\n";
  err = some (codes "exit status 149");
}

boots :
    (boot (codes "A") already ≡ none)
    × (shutdown (codes "A") already
        ≡ some (
            codes "simctl "
            ∷ codes "shutdown A"
            ∷ codes ": "
            ∷ codes "exit status 149"
            ∷ codes ": "
            ∷ codes "Unable to boot device in current state: Booted"
            ∷ []))
unfolding boot shutdown
boots = (refl, refl)

no_picture :
    screenshot
      (codes "A")
      (record already { err = none })
      (record { path = some (codes "f"); read = some [] })
    ≡ inl (codes "screenshot " ∷ codes "A" ∷ codes ": empty capture" ∷ [])
unfolding screenshot
no_picture = refl
