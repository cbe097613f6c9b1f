-- ===== src/Activation/Cases.antt =====
-- loader/loader.c: meta-layers at the edges of what the verification and the activation do.
use vulkan_sc_loader.Base.{
  VkResult, incomplete, Bool, zero, suc, success, ℕ, ◌≡◌, refl, true, false, [], ◌∷◌, codes,
}
use vulkan_sc_loader.Layers.{zero_layer}
use vulkan_sc_loader.Activation.{
  meta_layer, LayerPointer, Surroundings, Activation, Outcome, returned, out_of_fuel,
  find_layer_pointer, mark, loader_find_layer_name_in_list, loader_add_meta_layer,
}
use vulkan_sc_loader.Versions.{loader_make_version, loader_check_version_meets_required}
use vulkan_sc_loader.Environment.Match.{check_name_matches_filter_environment_var}
use vulkan_sc_loader.Layers.Filters.{loader_layer_is_available}
use vulkan_sc_loader.Layers.Lists.{loader_add_layer_properties_to_list}
use vulkan_sc_loader.Activation.Requested.{loader_add_layer_names_to_list, add_layer_names}
use vulkan_sc_loader.Activation.Correct.{idle}
use vulkan_sc_loader.Activation.Verification.{verdict, verify_meta_layer_component_layers}
use vulkan_sc_loader.Activation.TestLayers.{
  validation, overlay, tools, with_layers, plenty, no_marks, four, itself, listed,
}

-- The result for a name that is not found is overwritten by the next.
abbrev result_of : Outcome (Unit {0}) → VkResult
result_of (returned result st u) = result
result_of _ = incomplete

lost_result_run :
    result_of (
      loader_add_layer_names_to_list four 2
        (codes "gone" ∷ codes "validation" ∷ [])
        (idle plenty no_marks))
    ≡ success
unfolding add_layer_names find_layer_pointer loader_find_layer_name_in_list
    loader_layer_is_available check_name_matches_filter_environment_var
    loader_add_layer_properties_to_list
lost_result_run = refl

-- A meta-layer whose component is an incomplete meta-layer is activated all the same.
abbrev pub broken : LayerPointer
broken = record {
  address = 0;
  props = record zero_layer {
    layer_name = codes "broken";
    is_explicit = true;
    is_meta = true;
    component_layer_names = codes "gone" ∷ [];
  };
}

abbrev pub whole : LayerPointer
whole = record {
  address = 1;
  props = record zero_layer {
    layer_name = codes "whole";
    is_explicit = true;
    is_meta = true;
    component_layer_names = codes "broken" ∷ [];
  };
}

incomplete_run :
    listed (
      loader_add_layer_names_to_list
        (with_layers (broken ∷ whole ∷ []))
        2
        (codes "whole" ∷ [])
        (idle plenty no_marks))
    ≡ (codes "whole" ∷ [], [])
unfolding add_layer_names find_layer_pointer loader_find_layer_name_in_list
    loader_layer_is_available check_name_matches_filter_environment_var
    loader_add_layer_properties_to_list
incomplete_run = refl

-- Two meta-layers that are each other's component, with another layer that has the name of the first:
-- the verification looks at that one, the activation at the first.
abbrev first_one : LayerPointer
first_one = record {
  address = 0;
  props = record zero_layer {
    layer_name = codes "first";
    is_explicit = true;
    is_meta = true;
    component_layer_names = codes "second" ∷ [];
  };
}

abbrev second_one : LayerPointer
second_one = record {
  address = 1;
  props = record zero_layer {
    layer_name = codes "second";
    is_explicit = true;
    is_meta = true;
    component_layer_names = codes "first" ∷ [];
  };
}

abbrev first_again : LayerPointer
first_again = record {
  address = 2;
  props = record zero_layer { layer_name = codes "first"; is_explicit = true };
}

cycle_valid :
    verify_meta_layer_component_layers itself itself itself
      (first_one ∷ second_one ∷ first_again ∷ [])
      first_one
      0
    ≡ verdict true (true ∷ true ∷ true ∷ [])
unfolding verify_meta_layer_component_layers loader_check_version_meets_required loader_make_version
cycle_valid = refl

second_valid :
    verify_meta_layer_component_layers itself itself itself
      (first_one ∷ second_one ∷ first_again ∷ [])
      second_one
      1
    ≡ verdict true (false ∷ true ∷ true ∷ [])
unfolding verify_meta_layer_component_layers loader_check_version_meets_required loader_make_version
second_valid = refl

abbrev cyclic : Surroundings
cyclic = with_layers (first_one ∷ second_one ∷ [])

-- The third is removed as a duplicate; then the recursion does not end.
endless :
    (depth : ℕ) (out : Bool) (st : Activation)
    → (loader_add_meta_layer cyclic depth first_one out st ≡ out_of_fuel)
      × (loader_add_meta_layer cyclic depth second_one out st ≡ out_of_fuel)
unfolding loader_add_meta_layer find_layer_pointer loader_layer_is_available
    check_name_matches_filter_environment_var
endless zero out st = (refl, refl)
endless (suc depth) out st = (
  rw (endless depth true (mark meta_layer second_one st)).1 refl,
  rw (endless depth true (mark meta_layer first_one st)).0 refl,
)

-- A meta-layer that two meta-layers have as a component counts as a recursion.
abbrev left_one : LayerPointer
left_one = record {
  address = 2;
  props = record zero_layer {
    layer_name = codes "left";
    is_explicit = true;
    is_meta = true;
    component_layer_names = codes "tools" ∷ [];
  };
}

abbrev top : LayerPointer
top = record {
  address = 3;
  props = record zero_layer {
    layer_name = codes "top";
    is_explicit = true;
    is_meta = true;
    component_layer_names = codes "tools" ∷ codes "left" ∷ [];
  };
}

shared_run :
    verify_meta_layer_component_layers itself itself itself
      (validation ∷ overlay ∷ tools ∷ left_one ∷ top ∷ [])
      top
      4
    ≡ verdict false (false ∷ false ∷ true ∷ true ∷ true ∷ [])
unfolding verify_meta_layer_component_layers loader_check_version_meets_required loader_make_version
shared_run = refl
