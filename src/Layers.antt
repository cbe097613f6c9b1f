-- ===== src/Layers.antt =====
-- loader/loader.c: the lists of layers, with the data of a layer from loader/loader_common.h.
pub mod Blacklist
pub mod Duplicates
pub mod Filters
pub mod Precedence
pub mod Lists
pub mod Room
pub mod Pointers
pub mod Capacity
pub mod MetaLayers
pub mod Kept
mod Tests
use vulkan_sc_loader.Base.{
  length, ℕ, zero, suc, ◌+◌, ◌-◌, ◌*◌, ◌%◌, ◌^◌, Bool, true, false, not, ◌&&◌, ◌||◌, Option, none,
  some, List, [], ◌∷◌, ◌++◌, CString, codes, str_eq, ltb, leb, ◌==◌, if◌then◌else◌, remove_at,
  VkResult, success, error_out_of_host_memory, is_success, Heap, allocate, reallocate,
}

-- loader/settings.h: what the settings file says of a layer.
pub data LayerControl : Type 0 where
  control_default control_on control_off unordered_layer_location : LayerControl

-- The fields that decide about a layer. Of `type_flags` there are the explicit and the meta flag; a
-- variable is its name and the value that enables the layer.
pub record LayerProperties : Type 0 where
  pub layer_name : CString
  pub spec_version : ℕ
  pub is_explicit : Bool
  pub is_meta : Bool
  pub settings_control_value : LayerControl
  pub lib_name : Option CString
  pub disable_env_var : Option (CString × CString)
  pub enable_env_var : Option (CString × CString)
  pub component_layer_names : List CString
  pub blacklist_layer_names : List CString
  pub is_override : Bool
  pub app_key_paths : List CString

-- What `memset(…, 0, …)` leaves.
abbrev pub zero_layer : LayerProperties
zero_layer = record {
  layer_name = [];
  spec_version = 0;
  is_explicit = false;
  is_meta = false;
  settings_control_value = control_default;
  lib_name = none;
  disable_env_var = none;
  enable_env_var = none;
  component_layer_names = [];
  blacklist_layer_names = [];
  is_override = false;
  app_key_paths = [];
}

abbrev pub any_equal : List CString → CString → Bool
any_equal [] name = false
any_equal (x ∷ xs) name = str_eq x name || any_equal xs name

abbrev pub override_layer_name : CString
override_layer_name = codes "VK_LAYER_LUNARG_override"

abbrev pub has_name : CString → LayerProperties → Bool
has_name name l = str_eq name l.layer_name

-- The pointer into the list is given as what it points to, which does not change while it is used.
unfoldable pub loader_find_layer_property : CString → List LayerProperties → Option LayerProperties
loader_find_layer_property name [] = none
loader_find_layer_property name (l ∷ ls) =
    if has_name name l then some l else loader_find_layer_property name ls

abbrev pub loader_find_layer_name_in_blacklist : CString → LayerProperties → Bool
loader_find_layer_name_in_blacklist layer_name meta_layer_props =
    any_equal meta_layer_props.blacklist_layer_names layer_name

unfoldable pub loader_remove_layer_in_list : List LayerProperties → ℕ → List LayerProperties
loader_remove_layer_in_list layers i = if leb (length layers) i then layers else remove_at layers i

-- The loop over the index, with the layers before it and those from it on. After a removal the same
-- index is looked at again and the override layer is searched again; to read the blacklist through
-- the null pointer is the outcome `none`.
unfoldable pub blacklist_loop :
    Option LayerProperties
    → List LayerProperties
    → List LayerProperties
    → Option (List LayerProperties)
unfolding loader_find_layer_property
blacklist_loop override_prop before [] = some before
blacklist_loop override_prop before (cur ∷ after) =
    let skipped = blacklist_loop override_prop (before ++ cur ∷ []) after in
    let removed =
      blacklist_loop (loader_find_layer_property override_layer_name (before ++ after)) before
        after in
    if has_name override_layer_name cur then skipped else elim override_prop [
      | none ↦ none
      | some prop ↦
          if loader_find_layer_name_in_blacklist cur.layer_name prop then removed else skipped
    ]

unfoldable pub loader_remove_layers_in_blacklist :
    List LayerProperties → Option (List LayerProperties)
unfolding blacklist_loop
loader_remove_layers_in_blacklist layers =
    elim (loader_find_layer_property override_layer_name layers) [
      | none ↦ some layers
      | some prop ↦ blacklist_loop (some prop) [] layers
    ]

-- The inner loop: the index, from `j` on, of the first layer that has the name.
unfoldable pub duplicate_index : CString → List LayerProperties → ℕ → Option ℕ
duplicate_index name [] j = none
duplicate_index name (l ∷ ls) j =
    if str_eq name l.layer_name then some j else duplicate_index name ls (j + 1)

-- One round of the outer loop, for the layer `l` with `after` behind it: what is then behind it.
unfoldable pub without_duplicate : LayerProperties → List LayerProperties → List LayerProperties
unfolding duplicate_index loader_remove_layer_in_list
without_duplicate l after = elim (duplicate_index l.layer_name after 0) [
  | none ↦ after
  | some j ↦ loader_remove_layer_in_list after j
]

-- The outer loop, with the number of rounds as fuel. The layers before the index do not change.
unfoldable pub duplicates_loop : ℕ → List LayerProperties → List LayerProperties
unfolding without_duplicate
duplicates_loop zero layers = layers
duplicates_loop (suc rounds) [] = []
duplicates_loop (suc rounds) (l ∷ after) = l ∷ duplicates_loop rounds (without_duplicate l after)

unfoldable pub loader_remove_duplicate_layers : List LayerProperties → List LayerProperties
unfolding duplicates_loop
loader_remove_duplicate_layers layers = duplicates_loop (length layers) layers
