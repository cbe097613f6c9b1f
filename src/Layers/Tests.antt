-- ===== src/Layers/Tests.antt =====
-- loader/loader.c: lists of layers at concrete inputs.
use vulkan_sc_loader.Base.{
  inr, ℕ, ◌≡◌, refl, true, false, none, some, List, [], ◌∷◌, codes, Heap, arith, ◌↔◌, ◌⊎◌,
}
use vulkan_sc_loader.Environment.Filter.{
  Environ, AllFilters, no_filter, no_disable_filter, fullname,
}
use vulkan_sc_loader.Environment.Match.{
  check_name_matches_filter_environment_var, filter_matches, switch_type,
  name_segment_matches_filter_value,
}
use vulkan_sc_loader.Environment.Meaning.{MeetsOne}
use vulkan_sc_loader.Layers.{
  LayerProperties, zero_layer, loader_find_layer_property, override_layer_name,
  loader_remove_layers_in_blacklist, loader_remove_duplicate_layers,
}
use vulkan_sc_loader.Layers.Blacklist.{loader_remove_layers_in_blacklist_lem}
use vulkan_sc_loader.Layers.Duplicates.{count_name, count_name-loader_remove_duplicate_layers}
use vulkan_sc_loader.Layers.Filters.{
  Instance, loader_layer_is_available, loader_implicit_layer_is_enabled, enabled_by_variable,
  is_defined, component_of_override,
}
use vulkan_sc_loader.Layers.Precedence.{
  AreMeasured, IsDisabled, loader_layer_is_available_iff, loader_implicit_layer_is_enabled_iff,
}
use vulkan_sc_loader.Layers.MetaLayers.{loader_remove_layers_not_in_implicit_meta_layers}
use vulkan_sc_loader.Layers.Kept.{loader_remove_layers_not_in_implicit_meta_layers_lem}
use vulkan_sc_loader.Layers.Lists.{
  LayerList, PointerLayerList, loader_append_layer_property, loader_add_layer_properties_to_list,
}
use vulkan_sc_loader.Layers.Room.{IsValid, Appended, loader_append_layer_property-Appended}
use vulkan_sc_loader.Layers.Pointers.{Added, loader_add_layer_properties_to_list-Added}

abbrev validation : LayerProperties
validation = record zero_layer { layer_name = codes "validation" }

abbrev overlay : LayerProperties
overlay = record zero_layer { layer_name = codes "overlay"; is_explicit = true }

abbrev override : LayerProperties
override = record zero_layer {
  layer_name = override_layer_name;
  blacklist_layer_names = codes "overlay" ∷ [];
  component_layer_names = codes "validation" ∷ [];
}

abbrev three_layers : List LayerProperties
three_layers = overlay ∷ override ∷ validation ∷ []

blacklist_run : loader_remove_layers_in_blacklist three_layers ≡ some (override ∷ validation ∷ [])
unfolding loader_remove_layers_in_blacklist
blacklist_run = refl

loader_remove_layers_in_blacklist_lem_example :
    loader_remove_layers_in_blacklist three_layers ≡ some (override ∷ validation ∷ [])
unfolding loader_find_layer_property
loader_remove_layers_in_blacklist_lem_example =
    loader_remove_layers_in_blacklist_lem three_layers override refl

-- Of three copies two are left.
duplicates_run :
    loader_remove_duplicate_layers (overlay ∷ overlay ∷ validation ∷ overlay ∷ [])
    ≡ overlay ∷ validation ∷ overlay ∷ []
unfolding loader_remove_duplicate_layers
duplicates_run = refl

count_name-loader_remove_duplicate_layers_example :
    count_name
      (codes "overlay")
      (loader_remove_duplicate_layers (overlay ∷ overlay ∷ validation ∷ overlay ∷ []))
    ≡ 2
count_name-loader_remove_duplicate_layers_example =
    count_name-loader_remove_duplicate_layers (codes "overlay")
      (overlay ∷ overlay ∷ validation ∷ overlay ∷ [])

-- All layers are disabled but the overlay, which the allow variable excepts.
abbrev filters : AllFilters
filters = record {
  enable_filter = no_filter;
  disable_filter = record no_disable_filter { disable_all = true };
  allow_filter = record {
    count = 1;
    filters = record { value = codes "overlay"; length = 7; type = fullname } ∷ [];
  };
}

filters-AreMeasured : AreMeasured filters
filters-AreMeasured = record { enable = tt; disable = tt; allow = (refl, tt) }

available_run : loader_layer_is_available filters overlay ≡ true
unfolding loader_layer_is_available check_name_matches_filter_environment_var filter_matches
    switch_type name_segment_matches_filter_value
available_run = refl

loader_layer_is_available_iff_example :
    (loader_layer_is_available filters overlay ≡ true)
    ↔ (MeetsOne (codes "overlay") [] ⊎ (IsDisabled filters true (codes "overlay") → ⊥))
loader_layer_is_available_iff_example =
    loader_layer_is_available_iff filters overlay filters-AreMeasured

abbrev instance_with_override : Instance
instance_with_override = record {
  override_layer_present = true;
  instance_layer_list = three_layers;
}

abbrev unset : Environ
unset name = none

-- The filters disable the layer, and they win over the override layer.
enabled_run :
    loader_implicit_layer_is_enabled (some instance_with_override) unset filters validation ≡ false
unfolding loader_implicit_layer_is_enabled check_name_matches_filter_environment_var filter_matches
    switch_type name_segment_matches_filter_value
enabled_run = refl

loader_implicit_layer_is_enabled_iff_example :
    (loader_implicit_layer_is_enabled (some instance_with_override) unset filters validation ≡ true)
    ↔ ((MeetsOne (codes "validation") []
          ⊎ (enabled_by_variable unset none ≡ false)
          ⊎ (IsDisabled filters false (codes "validation") → ⊥))
        × ((component_of_override (some instance_with_override) (codes "validation") ≡ true)
            ⊎ ((is_defined unset none ≡ false)
                × ((enabled_by_variable unset none ≡ true) ⊎ MeetsOne (codes "validation") []))))
loader_implicit_layer_is_enabled_iff_example =
    loader_implicit_layer_is_enabled_iff (some instance_with_override) unset filters validation
      filters-AreMeasured

abbrev memory : Heap
memory = record { answers = true ∷ []; live = 1 }

-- A list of one layer that is full.
abbrev full : LayerList
full = record { capacity = 1000; count = 1; list = overlay ∷ [] }

full-IsValid : IsValid 1000 full
full-IsValid = record { counted = refl; fits = omega arith; one_fits = inr (omega arith) }

loader_append_layer_property-Appended_example :
    Appended 1000 full validation (loader_append_layer_property 1000 memory full validation)
loader_append_layer_property-Appended_example =
    loader_append_layer_property-Appended 1000 memory full validation full-IsValid (omega arith)
      (omega arith) (omega arith) (omega arith)

abbrev pointers : PointerLayerList ℕ
pointers = record { capacity = 256; count = 1; allocated = true; list = 5 ∷ [] }

loader_add_layer_properties_to_list-Added_example :
    Added pointers 7 (loader_add_layer_properties_to_list 1000 memory pointers 7)
loader_add_layer_properties_to_list-Added_example =
    loader_add_layer_properties_to_list-Added 1000 memory pointers 7
      (record { counted = refl; fits = omega arith; one_fits = λ e. omega arith; absent = λ e. cc })
      (omega arith) (omega arith) (omega arith) (omega arith)

-- The overlay stays, since another layer, a meta-layer, has it among its components.
abbrev bundle : LayerProperties
bundle = record zero_layer {
  layer_name = codes "bundle";
  is_meta = true;
  component_layer_names = codes "overlay" ∷ [];
}

kept_run :
    loader_remove_layers_not_in_implicit_meta_layers
      (record overlay { layer_name = codes "tracer" } ∷ overlay ∷ bundle ∷ [])
    ≡ overlay ∷ bundle ∷ []
unfolding loader_remove_layers_not_in_implicit_meta_layers
kept_run = refl

loader_remove_layers_not_in_implicit_meta_layers_lem_example :
    loader_remove_layers_not_in_implicit_meta_layers
      (record overlay { layer_name = codes "tracer" } ∷ overlay ∷ bundle ∷ [])
    ≡ overlay ∷ bundle ∷ []
loader_remove_layers_not_in_implicit_meta_layers_lem_example =
    loader_remove_layers_not_in_implicit_meta_layers_lem
      (record overlay { layer_name = codes "tracer" } ∷ overlay ∷ bundle ∷ [])
