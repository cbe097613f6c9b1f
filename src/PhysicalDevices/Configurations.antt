-- ===== src/PhysicalDevices/Configurations.antt =====
-- loader/loader.c: what vkEnumeratePhysicalDevices gives to the caller, in the
-- order of the device configurations of the settings file. Logging and what only it reads are left
-- out, and an id is the list of its 16 bytes. What drivers and the stack answer is a parameter.

use Prim.Native.Nat.{zero}
use vulkan_sc_loader.Base.{
  ◌||◌, suc, is_out_of_host_memory, not, ◌&&◌, ℕ, ◌+◌, min, Bool, true, false, Option, none, some,
  List, [], ◌∷◌, ◌++◌, length, ◌==◌, ltb, leb, take, replicate, if◌then◌else◌, VkResult, success,
  incomplete, error_out_of_host_memory, error_initialization_failed, is_success, CString, codes,
  str_eq,
}
use vulkan_sc_loader.PhysicalDevices.{DeviceTerm, Instance, Driver, setup_loader_term_phys_devs}
use vulkan_sc_loader.Settings.Equality.{DeviceConfiguration, LoaderSettings}

-- The answers for one device: `vkGetPhysicalDeviceProperties`; both calls of
-- `vkEnumerateDeviceExtensionProperties`, with the names that the second writes; and what
-- `vkGetPhysicalDeviceProperties2` writes to the ids, where the driver has it, with the struct for
-- driver properties in the chain or without.
pub record DeviceAnswers : Type 0 where
  pub api_version : ℕ
  pub driver_version : ℕ
  pub extension_count : VkResult × ℕ
  pub extension_data : ℕ → VkResult × ℕ × (ℕ → CString)
  pub properties2 : Option (Bool → List ℕ × List ℕ)

-- `physical_device_configuration_details`, with the device that it is about.
pub record Details : Type 0 where
  pub term : DeviceTerm
  pub pd_supports_vulkan_11 : Bool
  pub pd_supports_driver_properties : Bool
  pub device_uuid : List ℕ
  pub driver_uuid : List ℕ
  pub details_driver_version : ℕ

-- VK_API_VERSION_1_1, VK_API_VERSION_1_2 and VK_UUID_SIZE.
abbrev pub vk_api_version_1_1 : ℕ
vk_api_version_1_1 = 4198400

abbrev pub vk_api_version_1_2 : ℕ
vk_api_version_1_2 = 4202496

abbrev pub vk_uuid_size : ℕ
vk_uuid_size = 16

-- The loop over the first names from the index `i` on.
abbrev pub names_driver_properties : ℕ → ℕ → (ℕ → CString) → Bool
names_driver_properties zero i names = false
names_driver_properties (suc n) i names =
    str_eq (names i) (codes "VK_KHR_driver_properties") || names_driver_properties n (i + 1) names

-- `stack n` says whether the stack has room for `n` entries.
unfoldable pub check_physical_device_extensions_for_driver_properties_extension :
    (ℕ → Bool) → DeviceAnswers → VkResult × Bool
check_physical_device_extensions_for_driver_properties_extension stack d =
    let (res, allocated_count) = d.extension_count in
    let (res', extension_count, names) = d.extension_data allocated_count in
    if not (is_success res) || allocated_count == 0
    then (success, false)
    else if not (stack allocated_count)
    then (error_out_of_host_memory, false)
    else if is_success res'
    then (success, names_driver_properties (min extension_count allocated_count) 0 names)
    else (success, false)

-- The end of a round of the loop over the devices: what the second call for the properties writes.
abbrev pub details_of : DeviceTerm → DeviceAnswers → Bool → Details
details_of t d driver_properties =
    let (device_id, driver_id) = elim d.properties2 as (λ x. List ℕ × List ℕ) [
      | none ↦ (replicate vk_uuid_size 0, replicate vk_uuid_size 0)
      | some write ↦ write driver_properties
    ] in
    record {
      term = t;
      pd_supports_vulkan_11 = true;
      pd_supports_driver_properties = driver_properties;
      device_uuid = device_id;
      driver_uuid = driver_id;
      details_driver_version = d.driver_version;
    }

-- One round, where `none` is that memory ran out.
unfoldable pub read_details : (ℕ → Bool) → DeviceTerm → DeviceAnswers → Option Details
unfolding check_physical_device_extensions_for_driver_properties_extension
read_details stack t d =
    let (res, found) = check_physical_device_extensions_for_driver_properties_extension stack d in
    if ltb d.api_version vk_api_version_1_1
    then some (record {
      term = t;
      pd_supports_vulkan_11 = false;
      pd_supports_driver_properties = false;
      device_uuid = replicate vk_uuid_size 0;
      driver_uuid = replicate vk_uuid_size 0;
      details_driver_version = d.driver_version;
    })
    else if leb vk_api_version_1_2 d.api_version
    then some (details_of t d true)
    else if is_out_of_host_memory res
    then none
    else some (details_of t d found)

unfoldable pub read_all_details :
    (ℕ → Bool) → (DeviceTerm → DeviceAnswers) → List DeviceTerm → Option (List Details)
unfolding read_details
read_all_details stack answers [] = some []
read_all_details stack answers (t ∷ ts) =
    let rest = read_all_details stack answers ts in
    elim (read_details stack t (answers t)) [
      | none ↦ none
      | some d ↦ elim rest [ none ↦ none | some ds ↦ some (d ∷ ds) ]
    ]

unfoldable pub is_configured_by : DeviceConfiguration → Details → Bool
is_configured_by c d =
    d.pd_supports_vulkan_11
    && (str_eq c.device_uuid d.device_uuid
        && (str_eq c.driver_uuid d.driver_uuid && c.driver_version == d.details_driver_version))

-- The inner loop, up to its `break`.
unfoldable pub find_configured : DeviceConfiguration → List Details → Option DeviceTerm
unfolding is_configured_by
find_configured c [] = none
find_configured c (d ∷ ds) = if is_configured_by c d then some d.term else find_configured c ds

-- What the caller gets: the result, its count and what was written to its array.
abbrev pub Given : Type 0
Given = VkResult × ℕ × List DeviceTerm

-- The loop over the configurations, with room for `count` devices and those that were written.
unfoldable pub configurations_loop :
    List DeviceConfiguration → List Details → ℕ → List DeviceTerm → Given
unfolding find_configured
configurations_loop [] devices count written =
    if length written == 0
    then (error_initialization_failed, count, written)
    else (success, length written, written)
configurations_loop (c ∷ cs) devices count written = elim (find_configured c devices) [
  | none ↦ configurations_loop cs devices count written
  | some t ↦
      let rest = configurations_loop cs devices count (written ++ t ∷ []) in
      if leb count (length written) then (incomplete, length written, written) else rest
]

unfoldable pub loader_apply_settings_device_configurations :
    (ℕ → Bool)
    → (DeviceTerm → DeviceAnswers)
    → List DeviceConfiguration
    → List DeviceTerm
    → ℕ
    → Given
unfolding read_all_details configurations_loop
loader_apply_settings_device_configurations stack answers configurations devices count =
    let details = read_all_details stack answers devices in
    if not (stack (length devices)) then (error_out_of_host_memory, count, []) else elim details [
      | none ↦ (error_out_of_host_memory, count, [])
      | some ds ↦ configurations_loop configurations ds count []
    ]

-- What follows the enumeration: with `has_array` if the caller's pointer is not NULL, and `count` for
-- what is in the caller's count.
unfoldable pub give_physical_devices :
    (ℕ → Bool) → (DeviceTerm → DeviceAnswers) → LoaderSettings → List DeviceTerm → Bool → ℕ → Given
unfolding loader_apply_settings_device_configurations
give_physical_devices stack answers settings devices has_array count =
    if settings.settings_active && settings.device_configurations_active
    then (if has_array
        then loader_apply_settings_device_configurations stack answers
            settings.device_configurations devices count
        else (success, min (length settings.device_configurations) (length devices), []))
    else if has_array
    then (
      if ltb count (length devices) then incomplete else success,
      min (length devices) count,
      take (min (length devices) count) devices,
    )
    else (success, length devices, [])

unfoldable pub terminator_EnumeratePhysicalDevices :
    (ℕ → Bool)
    → (DeviceTerm → DeviceAnswers)
    → LoaderSettings
    → List Driver
    → Bool
    → ℕ
    → Instance
    → Given × Instance
unfolding give_physical_devices setup_loader_term_phys_devs
terminator_EnumeratePhysicalDevices stack answers settings drivers has_array count inst =
    let (res, inst') = setup_loader_term_phys_devs stack drivers inst in
    if is_success res
    then (give_physical_devices stack answers settings inst'.phys_devs_term has_array count, inst')
    else ((res, count, []), inst')
