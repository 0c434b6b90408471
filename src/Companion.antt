-- ===== src/Companion.antt =====
-- internal/companion/companion.go: the simulators of the Mac, through `xcrun simctl`. A run of simctl is an
-- argument, JSON is outside, and a text is its code points, whose order is that of the bytes of its UTF-8.
pub mod Order
pub mod Listing
pub mod Sorted
pub mod Simctl
use simbeam.Prelude.{
  ℕ, Bool, true, false, not, ◌||◌, Option, none, some, ◌⊎◌, inl, inr, String, List, [], ◌∷◌, ◌++◌,
  ◌==◌, if◌then◌else◌, codes, map, split_on, trim_prefix, trim_left, trim_right,
}
use simbeam.Companion.Order.{text_eq, text_less}

pub record Simulator : Type 0 where
  pub udid : List ℕ
  pub name : List ℕ
  pub model : List ℕ
  pub os_version : List ℕ
  pub state : List ℕ

pub record SimctlDevice : Type 0 where
  pub udid : List ℕ
  pub name : List ℕ
  pub state : List ℕ
  pub is_available : Bool
  pub device_type_identifier : List ℕ

-- `parsed.Devices`, in the order of one iteration over the map.
abbrev pub SimctlList : Type 0
SimctlList = List (List ℕ × List SimctlDevice)

abbrev dash : ℕ
dash = 45

abbrev join_dots : List (List ℕ) → List ℕ
join_dots [] = []
join_dots (part ∷ []) = part
join_dots (part ∷ next ∷ parts) = (part ++ 46 ∷ []) ++ join_dots (next ∷ parts)

abbrev after_first : (id : List ℕ) → List (List ℕ) → List ℕ
after_first id [] = id
after_first id (part ∷ []) = id
after_first id (part ∷ next ∷ parts) = join_dots (next ∷ parts)

unfoldable pub os_version_from_runtime : List ℕ → List ℕ
os_version_from_runtime runtime =
    let id = trim_prefix (codes "com.apple.CoreSimulator.SimRuntime.") runtime in
    after_first id (split_on dash id)

unfoldable model_from_device_type : List ℕ → List ℕ
model_from_device_type id =
    map (λ c. if c == dash then 32 else c)
      (trim_prefix (codes "com.apple.CoreSimulator.SimDeviceType.") id)

abbrev is_nil : List ℕ → Bool
is_nil [] = true
is_nil (x ∷ s) = false

abbrev simulator_of : (os_version : List ℕ) → SimctlDevice → Simulator
simulator_of os_version d = record {
  udid = d.udid;
  name = d.name;
  model = model_from_device_type d.device_type_identifier;
  os_version = os_version;
  state = d.state;
}

unfoldable devices_of : (os_version : List ℕ) → List SimctlDevice → List Simulator
unfolding model_from_device_type
devices_of os_version [] = []
devices_of os_version (d ∷ ds) =
    let rest = devices_of os_version ds in
    if is_nil d.udid || not d.is_available then rest else simulator_of os_version d ∷ rest

unfoldable pub runtime_devices : List ℕ × List SimctlDevice → List Simulator
unfolding os_version_from_runtime devices_of
runtime_devices entry = devices_of (os_version_from_runtime entry.0) entry.1

unfoldable pub less : Simulator → Simulator → Bool
less a b =
    if not (text_eq a.name b.name)
    then text_less a.name b.name
    else if not (text_eq a.os_version b.os_version)
    then text_less a.os_version b.os_version
    else text_less a.udid b.udid

-- `sort.Slice`; it promises no order of devices that are equal under `less`, and this is one of them.
unfoldable pub insert_sorted : Simulator → List Simulator → List Simulator
unfolding less
insert_sorted s [] = s ∷ []
insert_sorted s (x ∷ xs) =
    let rest = insert_sorted s xs in if less x s then x ∷ rest else s ∷ x ∷ xs

unfoldable pub sort_onto : List Simulator → List Simulator → List Simulator
unfolding insert_sorted
sort_onto [] done = done
sort_onto (s ∷ sims) done = insert_sorted s (sort_onto sims done)

unfoldable pub flatten : SimctlList → List Simulator
unfolding runtime_devices
flatten [] = []
flatten (entry ∷ entries) = runtime_devices entry ++ flatten entries

-- `none` is JSON that cannot be read.
unfoldable pub parse_simctl_devices : Option SimctlList → Option (List Simulator)
unfolding flatten sort_onto
parse_simctl_devices none = none
parse_simctl_devices (some entries) = some (sort_onto (flatten entries) [])
