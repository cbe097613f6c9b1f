-- ===== src/Settings/Tests.antt =====
-- loader/settings.c: the combination of two lists at concrete inputs.
use vulkan_sc_loader.Base.{
  ◌↔◌, false, ◌≡◌, refl, true, some, [], ◌∷◌, CString, codes, Heap, arith, success,
}
use vulkan_sc_loader.Layers.{LayerProperties, zero_layer, control_on, unordered_layer_location}
use vulkan_sc_loader.Layers.Lists.{LayerList, no_layers}
use vulkan_sc_loader.Settings.{split_at_location, combine_settings_layers_with_regular_layers}
use vulkan_sc_loader.Settings.Equality.{LoaderSettings, check_if_settings_are_equal}
use vulkan_sc_loader.Settings.EqualityLaws.{IsComplete, check_if_settings_are_equal_iff}
use vulkan_sc_loader.Settings.Combined.{
  Combines, combine_settings_layers_with_regular_layers-Combines,
}

abbrev layer : CString → LayerProperties
layer name = record zero_layer { layer_name = name; settings_control_value = control_on }

abbrev here : LayerProperties
here = record zero_layer { settings_control_value = unordered_layer_location }

abbrev settings : LayerList
settings = record {
  capacity = 10000;
  count = 3;
  list = layer (codes "a") ∷ here ∷ layer (codes "b") ∷ [];
}

abbrev regular : LayerList
regular = record { capacity = 10000; count = 2; list = layer (codes "b") ∷ layer (codes "c") ∷ [] }

abbrev memory : Heap
memory = record { answers = true ∷ []; live = 2 }

-- The regular layer "b" is left out, since the settings have it.
combine_run :
    combine_settings_layers_with_regular_layers 1000 memory settings regular no_layers
    ≡ some (
      success,
      record { answers = []; live = 3 },
      record {
        capacity = 160000;
        count = 3;
        list = layer (codes "a") ∷ layer (codes "c") ∷ layer (codes "b") ∷ [];
      },
      tt,
    )
unfolding combine_settings_layers_with_regular_layers
combine_run = refl

combine_settings_layers_with_regular_layers-Combines_example :
    Combines true
      (layer (codes "a") ∷ [])
      here
      (layer (codes "b") ∷ [])
      regular.list
      (combine_settings_layers_with_regular_layers 1000 memory settings regular no_layers)
unfolding split_at_location
combine_settings_layers_with_regular_layers-Combines_example =
    combine_settings_layers_with_regular_layers-Combines 1000 memory settings regular no_layers
      (layer (codes "a") ∷ []) here (layer (codes "b") ∷ []) refl refl (omega arith) (omega arith)
      (omega arith) (omega arith) refl

-- A settings file with one layer, whose path is not null.
abbrev file : LoaderSettings
file = record {
  settings_active = true;
  has_unordered_layer_location = false;
  debug_level = 0;
  layer_configurations_active = true;
  layer_configurations =
      record {
        name = some (codes "a");
        path = some (codes "/a.json");
        control = control_on;
        treat_as_implicit_manifest = false;
      }
      ∷ [];
  additional_drivers_use_exclusively = false;
  additional_drivers = [];
  device_configurations_active = false;
  device_configurations = [];
}

equal_run : check_if_settings_are_equal file file ≡ true
unfolding check_if_settings_are_equal
equal_run = refl

check_if_settings_are_equal_iff_example :
    (check_if_settings_are_equal file file ≡ true) ↔ ((file ≡ file) × IsComplete file)
check_if_settings_are_equal_iff_example = check_if_settings_are_equal_iff file file
