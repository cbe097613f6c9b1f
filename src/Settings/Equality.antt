-- ===== src/Settings/Equality.antt =====
-- loader/settings.c: the comparison of two settings files, after which the loader keeps the old one.
use vulkan_sc_loader.Base.{
  length, ℕ, Bool, true, false, not, ◌&&◌, Option, none, some, List, [], ◌∷◌, CString, str_eq, ◌==◌,
  if◌then◌else◌,
}
use vulkan_sc_loader.Layers.{
  LayerControl, control_default, control_on, control_off, unordered_layer_location,
}

-- The null pointer is `none`.
pub record LayerConfiguration : Type 0 where
  pub name : Option CString
  pub path : Option CString
  pub control : LayerControl
  pub treat_as_implicit_manifest : Bool

-- Both identifiers are arrays of VK_UUID_SIZE bytes, given as lists.
pub record DeviceConfiguration : Type 0 where
  pub device_uuid : List ℕ
  pub driver_uuid : List ℕ
  pub driver_version : ℕ
  pub device_name : CString
  pub driver_name : CString

-- A driver's configuration is its path. The arrays are lists with their counts as lengths.
pub record LoaderSettings : Type 0 where
  pub settings_active : Bool
  pub has_unordered_layer_location : Bool
  pub debug_level : ℕ
  pub layer_configurations_active : Bool
  pub layer_configurations : List LayerConfiguration
  pub additional_drivers_use_exclusively : Bool
  pub additional_drivers : List (Option CString)
  pub device_configurations_active : Bool
  pub device_configurations : List DeviceConfiguration

abbrev pub same_bool : Bool → Bool → Bool
same_bool true b = b
same_bool false b = not b

abbrev pub same_control : LayerControl → LayerControl → Bool
same_control control_default control_default = true
same_control control_on control_on = true
same_control control_off control_off = true
same_control unordered_layer_location unordered_layer_location = true
same_control _ _ = false

-- `a && b && 0 == strcmp(a, b)`
abbrev pub same_string : Option CString → Option CString → Bool
same_string (some a) (some b) = str_eq a b
same_string (some a) none = false
same_string none b = false

unfoldable pub check_if_layer_configurations_are_equal :
    LayerConfiguration → LayerConfiguration → Bool
check_if_layer_configurations_are_equal a b =
    if not (same_string a.name b.name)
    then false
    else if not (same_string a.path b.path)
    then false
    else same_control a.control b.control
      && same_bool a.treat_as_implicit_manifest b.treat_as_implicit_manifest

unfoldable pub check_if_driver_configurations_are_equal : Option CString → Option CString → Bool
check_if_driver_configurations_are_equal a b = same_string a b

unfoldable pub check_if_device_configurations_are_equal :
    DeviceConfiguration → DeviceConfiguration → Bool
check_if_device_configurations_are_equal a b =
    if not (str_eq a.device_uuid b.device_uuid)
    then false
    else if not (str_eq a.driver_uuid b.driver_uuid)
    then false
    else if not (a.driver_version == b.driver_version)
    then false
    else if not (str_eq a.device_name b.device_name)
    then false
    else str_eq a.driver_name b.driver_name

-- A loop over two arrays, up to the end of the shorter.
abbrev pub all_pairs : {A : Type 0} → (A → A → Bool) → List A → List A → Bool
all_pairs eq [] ys = true
all_pairs eq (x ∷ xs) [] = true
all_pairs eq (x ∷ xs) (y ∷ ys) = eq x y && all_pairs eq xs ys

abbrev pub same_count : {A : Type 0} → List A → List A → Bool
same_count xs ys = length xs == length ys

unfoldable pub check_if_settings_are_equal : LoaderSettings → LoaderSettings → Bool
unfolding check_if_layer_configurations_are_equal check_if_driver_configurations_are_equal
    check_if_device_configurations_are_equal
check_if_settings_are_equal a b =
    let are_equal =
      same_bool a.settings_active b.settings_active
      && same_bool a.has_unordered_layer_location b.has_unordered_layer_location
      && a.debug_level == b.debug_level
      && same_bool a.layer_configurations_active b.layer_configurations_active
      && same_count a.layer_configurations b.layer_configurations
      && same_bool a.additional_drivers_use_exclusively b.additional_drivers_use_exclusively
      && same_count a.additional_drivers b.additional_drivers
      && same_bool a.device_configurations_active b.device_configurations_active
      && same_count a.device_configurations b.device_configurations in
    if not are_equal
    then false
    else all_pairs check_if_layer_configurations_are_equal a.layer_configurations
        b.layer_configurations
      && all_pairs check_if_driver_configurations_are_equal a.additional_drivers
          b.additional_drivers
      && all_pairs check_if_device_configurations_are_equal a.device_configurations
          b.device_configurations
