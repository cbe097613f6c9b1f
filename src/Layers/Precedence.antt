-- ===== src/Layers/Precedence.antt =====
-- loader/loader.c: which setting wins when several of them speak about a layer.
use vulkan_sc_loader.Base.{
  ◌≡◌, ◌↔◌, ◌⊎◌, Bool, true, false, ◌||◌, Option, CString, if◌then◌else◌, All, arith,
}
use vulkan_sc_loader.Environment.Filter.{Environ, AllFilters}
use vulkan_sc_loader.Environment.Meaning.{
  MeetsOne, IsMeasured, check_name_matches_filter_environment_var_iff,
}
use vulkan_sc_loader.Layers.{LayerProperties}
use vulkan_sc_loader.Layers.Filters.{
  loader_layer_is_available, loader_implicit_layer_is_enabled, Instance, enabled_by_variable,
  is_defined, component_of_override,
}

-- Each filter is stored with the length of its text, as the parsing leaves it.
pub record AreMeasured (filters : AllFilters) : Type 0 where
  pub enable : All IsMeasured filters.enable_filter.filters
  pub disable : All IsMeasured filters.disable_filter.additional_filters.filters
  pub allow : All IsMeasured filters.allow_filter.filters

-- The flags of the disable variable that are about a layer of this kind.
abbrev pub disabled_by_flag : AllFilters → Bool → Bool
disabled_by_flag filters is_explicit =
    filters.disable_filter.disable_all
    || (if is_explicit
        then filters.disable_filter.disable_all_explicit
        else filters.disable_filter.disable_all_implicit)

-- The disable variable is about the layer, as text, and the allow variable does not except it.
abbrev pub IsDisabled : AllFilters → Bool → CString → Type 0
IsDisabled filters is_explicit name =
    ((disabled_by_flag filters is_explicit ≡ true)
      ⊎ MeetsOne name filters.disable_filter.additional_filters.filters)
    × (MeetsOne name filters.allow_filter.filters → ⊥)

-- The enable variable wins over the allow variable, which wins over the disable variable: a layer is
-- available exactly if it meets an enable filter as text, or is not disabled or is allowed.
pub loader_layer_is_available_iff :
    (filters : AllFilters) (prop : LayerProperties)
    → AreMeasured filters
    → (loader_layer_is_available filters prop ≡ true) ↔ (
        MeetsOne prop.layer_name filters.enable_filter.filters
        ⊎ (IsDisabled filters prop.is_explicit prop.layer_name → ⊥))
unfolding loader_layer_is_available
loader_layer_is_available_iff filters prop m =
    let enable =
      check_name_matches_filter_environment_var_iff prop.layer_name filters.enable_filter
        m.enable in
    let disable =
      check_name_matches_filter_environment_var_iff prop.layer_name
        filters.disable_filter.additional_filters m.disable in
    let allow =
      check_name_matches_filter_environment_var_iff prop.layer_name filters.allow_filter m.allow in
    ground arith

-- What decides about an implicit layer, as the code has it. By itself the layer is on if it has no
-- variable that enables it or that variable has its value. It ends up enabled exactly if
-- * it meets an enable filter, or is not on by itself, or is not disabled by the filters; and
-- * the override layer names it, or the variable that disables it is not defined and it is on by itself
--   or meets an enable filter.
pub loader_implicit_layer_is_enabled_iff :
    (inst : Option Instance) (getenv : Environ) (filters : AllFilters) (prop : LayerProperties)
    → AreMeasured filters
    → (loader_implicit_layer_is_enabled inst getenv filters prop ≡ true) ↔ (
        (MeetsOne prop.layer_name filters.enable_filter.filters
          ⊎ (enabled_by_variable getenv prop.enable_env_var ≡ false)
          ⊎ (IsDisabled filters false prop.layer_name → ⊥))
        × ((component_of_override inst prop.layer_name ≡ true)
            ⊎ ((is_defined getenv prop.disable_env_var ≡ false)
                × ((enabled_by_variable getenv prop.enable_env_var ≡ true)
                    ⊎ MeetsOne prop.layer_name filters.enable_filter.filters))))
unfolding loader_implicit_layer_is_enabled
loader_implicit_layer_is_enabled_iff inst getenv filters prop m =
    let enable =
      check_name_matches_filter_environment_var_iff prop.layer_name filters.enable_filter
        m.enable in
    let disable =
      check_name_matches_filter_environment_var_iff prop.layer_name
        filters.disable_filter.additional_filters m.disable in
    let allow =
      check_name_matches_filter_environment_var_iff prop.layer_name filters.allow_filter m.allow in
    ground arith
