-- ===== src/Layers/Filters.antt =====
-- loader/loader.c: whether the environment makes a layer available, and an implicit layer enabled.
use vulkan_sc_loader.Base.{
  Bool, true, false, not, ◌&&◌, ◌||◌, Option, none, some, List, CString, str_eq, if◌then◌else◌,
}
use vulkan_sc_loader.Environment.Filter.{Environ, AllFilters}
use vulkan_sc_loader.Environment.Match.{check_name_matches_filter_environment_var}
use vulkan_sc_loader.Layers.{
  LayerProperties, any_equal, override_layer_name, loader_find_layer_property,
}

-- The parts of the instance that are read: whether there is an override layer, and its layers.
pub record Instance : Type 0 where
  pub override_layer_present : Bool
  pub instance_layer_list : List LayerProperties

unfoldable pub loader_layer_is_available : AllFilters → LayerProperties → Bool
loader_layer_is_available filters prop =
    let disabled_by_type =
      (if not prop.is_explicit
        then filters.disable_filter.disable_all_implicit
        else filters.disable_filter.disable_all_explicit) in
    let disabled =
      (filters.disable_filter.disable_all
        || disabled_by_type
        || check_name_matches_filter_environment_var prop.layer_name
            filters.disable_filter.additional_filters)
      && not (check_name_matches_filter_environment_var prop.layer_name filters.allow_filter) in
    if check_name_matches_filter_environment_var prop.layer_name filters.enable_filter
    then true
    else not disabled

-- `loader_getenv`, and the comparison with the value that enables the layer.
abbrev pub enabled_by_variable : Environ → Option (CString × CString) → Bool
enabled_by_variable getenv none = true
enabled_by_variable getenv (some (name, value)) = elim (getenv name) [
  | none ↦ false
  | some env_value ↦ str_eq value env_value
]

abbrev pub is_defined : Environ → Option (CString × CString) → Bool
is_defined getenv none = false
is_defined getenv (some (name, value)) = elim (getenv name) [ none ↦ false | some env_value ↦ true ]

-- The search for the override layer, and for the layer among its components.
abbrev pub component_of_override : Option Instance → CString → Bool
component_of_override none name = false
component_of_override (some inst) name =
    inst.override_layer_present
    && elim (loader_find_layer_property override_layer_name inst.instance_layer_list) [
      | none ↦ false
      | some override ↦ any_equal override.component_layer_names name
    ]

-- What follows the filters: the variable that disables the layer, then the override layer.
abbrev pub after_filters : Option Instance → Environ → LayerProperties → Bool → Bool
after_filters inst getenv prop enable =
    let enable' = (if is_defined getenv prop.disable_env_var then false else enable) in
    if component_of_override inst prop.layer_name then true else enable'

unfoldable pub loader_implicit_layer_is_enabled :
    Option Instance → Environ → AllFilters → LayerProperties → Bool
unfolding loader_find_layer_property
loader_implicit_layer_is_enabled inst getenv filters prop =
    let forced_disabled =
      (filters.disable_filter.disable_all
        || filters.disable_filter.disable_all_implicit
        || check_name_matches_filter_environment_var prop.layer_name
            filters.disable_filter.additional_filters)
      && not (check_name_matches_filter_environment_var prop.layer_name filters.allow_filter) in
    let forced_enabled =
      check_name_matches_filter_environment_var prop.layer_name filters.enable_filter in
    let enable = enabled_by_variable getenv prop.enable_env_var in
    if forced_enabled
    then after_filters inst getenv prop true
    else if enable && forced_disabled
    then false
    else after_filters inst getenv prop enable
