-- ===== src/Activation/ExtensionChecks.antt =====
-- loader/loader.c: the extensions that an application asks for are offered by a driver or by a layer
-- that is activated. The extensions of a layer, which are fields of its struct, are read by a
-- function; the list of the known extensions is generated and a parameter.

pub mod Lookup
pub mod Offers
pub mod DeviceOffers
mod Tests
use vulkan_sc_loader.Base.{
  ℕ, Bool, true, false, not, ◌&&◌, ◌||◌, Option, none, some, List, [], ◌∷◌, CString, str_eq, leb,
  ltb, ◌==◌, if◌then◌else◌, VkResult, success, error_extension_not_present, is_success, Heap,
}
use vulkan_sc_loader.Layers.{any_equal}
use vulkan_sc_loader.Extensions.{ExtensionProperties, DevExtProps}
use vulkan_sc_loader.Utf8.{vk_string_validate}
use vulkan_sc_loader.Activation.{
  EnabledByWhat, LayerPointer, Surroundings, Activation, Outcome, returned, fault, too_many,
  out_of_fuel,
}
use vulkan_sc_loader.Activation.Enabling.{Settings, loader_enable_instance_layers}
use vulkan_sc_loader.Activation.Correct.{idle}
use vulkan_sc_loader.Activation.Validation.{max_loader_string_length, is_error}

unfoldable pub get_extension_property :
    CString → List ExtensionProperties → Option ExtensionProperties
get_extension_property name [] = none
get_extension_property name (e ∷ es) =
    if str_eq name e.extension_name then some e else get_extension_property name es

unfoldable pub get_dev_extension_property : CString → List DevExtProps → Option ExtensionProperties
get_dev_extension_property name [] = none
get_dev_extension_property name (e ∷ es) =
    if str_eq name e.props.extension_name then some e.props else get_dev_extension_property name es

abbrev pub is_space : ℕ → Bool
is_space b = b == 32 || (leb 9 b && leb b 13)

-- Whether the digits that a text begins with are a number other than zero.
abbrev pub digits_nonzero : CString → Bool
digits_nonzero [] = false
digits_nonzero (b ∷ s) = if leb 48 b && leb b 57 then not (b == 48) || digits_nonzero s else false

abbrev pub signed_nonzero : CString → Bool
signed_nonzero [] = false
signed_nonzero (b ∷ s) = if b == 43 || b == 45 then digits_nonzero s else digits_nonzero (b ∷ s)

-- `atoi(value) != 0`, for a number that an int can hold.
abbrev pub atoi_nonzero : CString → Bool
atoi_nonzero [] = false
atoi_nonzero (b ∷ s) = if is_space b then atoi_nonzero s else signed_nonzero (b ∷ s)

abbrev pub disables_filter : Option CString → Bool
disables_filter none = false
disables_filter (some value) = atoi_nonzero value

abbrev pub is_found : Option ExtensionProperties → Bool
is_found none = false
is_found (some e) = true

module _ (known : List CString)
    (instance_extension_list : LayerPointer → List ExtensionProperties) where
  -- The loop over the layers ends with the first that has the extension.
  unfoldable pub in_expanded_layers : CString → List LayerPointer → Bool
  unfolding get_extension_property
  in_expanded_layers name [] = false
  in_expanded_layers name (p ∷ ps) =
      is_found (get_extension_property name (instance_extension_list p))
      || in_expanded_layers name ps

  -- The body of the loop over the extensions: whether it goes on.
  abbrev pub accepts_instance_extension :
      Bool → List ExtensionProperties → List LayerPointer → Option CString → Bool
  accepts_instance_extension check_if_known icd_exts layers none =
      not (is_error (vk_string_validate max_loader_string_length none))
  accepts_instance_extension check_if_known icd_exts layers (some name) =
      not (is_error (vk_string_validate max_loader_string_length (some name)))
      && (not check_if_known || any_equal known name)
      && (is_found (get_extension_property name icd_exts) || in_expanded_layers name layers)

  unfoldable pub instance_extensions_loop :
      Option CString
      → Bool
      → List ExtensionProperties
      → List LayerPointer
      → List (Option CString)
      → VkResult
  unfolding vk_string_validate get_extension_property in_expanded_layers
  instance_extensions_loop env_value check_if_known icd_exts layers [] = success
  instance_extensions_loop env_value check_if_known icd_exts layers (name ∷ names) =
      let check = (if disables_filter env_value then false else check_if_known) in
      let rest = instance_extensions_loop env_value check icd_exts layers names in
      if accepts_instance_extension check icd_exts layers name
      then rest
      else error_extension_not_present

  -- What follows the activation of the layers, into lists of this function's own.
  abbrev pub check_activated :
      Option CString
      → List ExtensionProperties
      → List (Option CString)
      → Outcome (Unit {0})
      → Option VkResult
  check_activated env_value icd_exts names (returned res st u) =
      if is_success res
      then some
          (instance_extensions_loop env_value true icd_exts st.expanded_target_list.list names)
      else some res
  check_activated env_value icd_exts names _ = none

  -- The array of names, or NULL; if there is one it has `count` entries. The activation is that of
  -- `loader_enable_instance_layers`, whose statements the source repeats.
  unfoldable pub loader_validate_instance_extensions :
      Surroundings
      → ℕ
      → Settings
      → Option CString
      → List CString
      → Option CString
      → List ExtensionProperties
      → ℕ
      → Option (List (Option CString))
      → Heap
      → (ℕ → EnabledByWhat)
      → Option VkResult
  unfolding loader_enable_instance_layers instance_extensions_loop
  loader_validate_instance_extensions c depth settings env layer_names env_value icd_exts count
        names h marks =
      let activated =
        loader_enable_instance_layers c depth settings env layer_names (idle h marks) in
      elim names [
        | none ↦
            if ltb 0 count
            then some error_extension_not_present
            else check_activated env_value icd_exts [] activated
        | some ns ↦ check_activated env_value icd_exts ns activated
      ]

module _ (device_extension_list : LayerPointer → List DevExtProps) where
  unfoldable pub in_activated_layers : CString → List LayerPointer → Bool
  unfolding get_dev_extension_property
  in_activated_layers name [] = false
  in_activated_layers name (p ∷ ps) =
      is_found (get_dev_extension_property name (device_extension_list p))
      || in_activated_layers name ps

  -- A name that is NULL is passed over.
  abbrev pub accepts_device_extension :
      List ExtensionProperties → List LayerPointer → Option CString → Bool
  accepts_device_extension icd_exts layers none = true
  accepts_device_extension icd_exts layers (some name) =
      not (is_error (vk_string_validate max_loader_string_length (some name)))
      && (is_found (get_extension_property name icd_exts) || in_activated_layers name layers)

  unfoldable pub device_extensions_loop :
      List ExtensionProperties → List LayerPointer → List (Option CString) → VkResult
  unfolding vk_string_validate get_extension_property in_activated_layers
  device_extensions_loop icd_exts layers [] = success
  device_extensions_loop icd_exts layers (name ∷ names) =
      let rest = device_extensions_loop icd_exts layers names in
      if accepts_device_extension icd_exts layers name then rest else error_extension_not_present

  unfoldable pub loader_validate_device_extensions :
      List LayerPointer → List ExtensionProperties → Option (List (Option CString)) → VkResult
  unfolding device_extensions_loop
  loader_validate_device_extensions activated_device_layers icd_exts none = success
  loader_validate_device_extensions activated_device_layers icd_exts (some names) =
      device_extensions_loop icd_exts activated_device_layers names
