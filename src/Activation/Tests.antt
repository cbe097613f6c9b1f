-- ===== src/Activation/Tests.antt =====
-- loader/loader.c: the activation of layers at concrete inputs.
use vulkan_sc_loader.Base.{
  false≢true, ◌⊎◌, ◌++◌, All, success, ◌≡◌, refl, true, false, none, some, [], ◌∷◌, codes, arith,
  map,
}
use vulkan_sc_loader.Activation.{
  unset, is_available, find_layer_pointer, loader_find_layer_name_in_list, loader_add_meta_layer,
}
use vulkan_sc_loader.Versions.{loader_make_version, loader_check_version_meets_required}
use vulkan_sc_loader.Environment.Match.{check_name_matches_filter_environment_var}
use vulkan_sc_loader.Layers.Filters.{loader_layer_is_available, loader_implicit_layer_is_enabled}
use vulkan_sc_loader.Layers.Lists.{loader_add_layer_properties_to_list}
use vulkan_sc_loader.Activation.Requested.{
  loader_add_layer_names_to_list, path_names, implicit_layers_loop, loader_add_environment_layers,
  add_layer_names,
}
use vulkan_sc_loader.Activation.Names.{separator, with_separators, HasNoSeparator, path_names_lem}
use vulkan_sc_loader.Activation.Enabling.{loader_enable_instance_layers}
use vulkan_sc_loader.Activation.Keeps.{Ends}
use vulkan_sc_loader.Activation.Sound.{IsActivated, IsLeft}
use vulkan_sc_loader.Activation.Asked.{IsRequested}
use vulkan_sc_loader.Activation.Correct.{idle, idle-IsActivated, loader_enable_instance_layers-Ends}
use vulkan_sc_loader.Activation.Complete.{Has}
use vulkan_sc_loader.Activation.Flags.{FlagIsTrue, loader_add_meta_layer-FlagIsTrue}
use vulkan_sc_loader.Activation.Results.{Usual}
use vulkan_sc_loader.Activation.Validation.{
  loader_validate_layers, loader_enable_instance_layers-loader_validate_layers,
}
use vulkan_sc_loader.Activation.Verification.{verdict, verify_meta_layer_component_layers}
use vulkan_sc_loader.Activation.Verification.Depth.{
  Reaches, Settled, verify_meta_layer_component_layers-Settled,
}
use vulkan_sc_loader.Activation.Verified.{
  names_differ, AreValid, loader_enable_instance_layers-verify_meta_layer_component_layers,
  loader_add_layer_names_to_list-find_layer_pointer,
}
use vulkan_sc_loader.Activation.Cases.{broken, whole}
use vulkan_sc_loader.Activation.TestLayers.{
  validation, tools, suite, four_layers, with_layers, plenty, no_settings, no_marks, four, itself,
  listed,
}

enable_run :
    listed (
      loader_enable_instance_layers
        (with_layers four_layers)
        2
        no_settings
        none
        (codes "suite" ∷ [])
        (idle plenty (λ address. unset)))
    ≡ (
      codes "overlay" ∷ codes "validation" ∷ codes "tools" ∷ codes "suite" ∷ [],
      codes "overlay" ∷ codes "validation" ∷ [],
    )
unfolding loader_enable_instance_layers implicit_layers_loop loader_implicit_layer_is_enabled
    check_name_matches_filter_environment_var loader_find_layer_name_in_list
    loader_add_layer_properties_to_list loader_add_environment_layers add_layer_names
    loader_layer_is_available
enable_run = refl

loader_enable_instance_layers-Ends_example :
    Ends
      (IsActivated four (IsRequested four no_settings none (codes "suite" ∷ [])))
      (IsLeft four (IsRequested four no_settings none (codes "suite" ∷ [])))
      Unit
      (loader_enable_instance_layers four 2 no_settings none
        (codes "suite" ∷ [])
        (idle plenty no_marks))
loader_enable_instance_layers-Ends_example =
    loader_enable_instance_layers-Ends four 2 no_settings none (codes "suite" ∷ []) plenty no_marks
      (omega arith) (omega arith)

tools_valid :
    verify_meta_layer_component_layers itself itself itself four_layers tools 2
    ≡ verdict true (false ∷ false ∷ true ∷ false ∷ [])
unfolding verify_meta_layer_component_layers loader_check_version_meets_required loader_make_version
tools_valid = refl

suite_valid :
    verify_meta_layer_component_layers itself itself itself four_layers suite 3
    ≡ verdict true (false ∷ false ∷ true ∷ true ∷ [])
unfolding verify_meta_layer_component_layers loader_check_version_meets_required loader_make_version
suite_valid = refl

four_AreValid : AreValid itself itself itself four_layers
four_AreValid = (
  λ e. absurd (false≢true e),
  (
    λ e. absurd (false≢true e),
    (
      λ e. record {
        index = 2;
        in_range = omega arith;
        checked = false ∷ false ∷ true ∷ false ∷ [];
        valid = tools_valid;
      },
      (
        λ e. record {
          index = 3;
          in_range = omega arith;
          checked = false ∷ false ∷ true ∷ true ∷ [];
          valid = suite_valid;
        },
        tt,
      ),
    ),
  ),
)

four_differ : names_differ four_layers ≡ true
unfolding loader_find_layer_name_in_list
four_differ = refl

loader_enable_instance_layers-verify_meta_layer_component_layers_example :
    Ends
      (IsActivated four (IsRequested four no_settings none (codes "suite" ∷ [])))
      (IsLeft four (IsRequested four no_settings none (codes "suite" ∷ [])))
      ⊥
      (loader_enable_instance_layers four 4 no_settings none
        (codes "suite" ∷ [])
        (idle plenty no_marks))
loader_enable_instance_layers-verify_meta_layer_component_layers_example =
    loader_enable_instance_layers-verify_meta_layer_component_layers itself itself itself four
      no_settings none (codes "suite" ∷ []) plenty no_marks (omega arith) (omega arith) four_differ
      four_AreValid

validation_found : find_layer_pointer (codes "validation") four_layers ≡ some validation
unfolding find_layer_pointer
validation_found = refl

validation_available : is_available four validation ≡ true
unfolding loader_layer_is_available check_name_matches_filter_environment_var
validation_available = refl

-- The name is not lost behind one that is not found.
loader_add_layer_names_to_list-find_layer_pointer_example :
    Ends (Has four (λ q. Unit) (codes "validation")) (IsLeft four (λ q. Unit)) ⊥ (
      loader_add_layer_names_to_list four 4
        (codes "gone" ∷ codes "validation" ∷ [])
        (idle plenty no_marks))
unfolding find_layer_pointer
loader_add_layer_names_to_list-find_layer_pointer_example =
    loader_add_layer_names_to_list-find_layer_pointer itself itself itself four
      (codes "gone" ∷ codes "validation" ∷ []) (codes "validation") validation
      (idle plenty no_marks) (omega arith) (omega arith) four_differ four_AreValid refl
      validation_found validation_available refl (idle-IsActivated four (λ q. Unit) plenty no_marks)

suite_validated :
    loader_validate_layers four no_settings 1 (some (map some (codes "suite" ∷ []))) ≡ success
unfolding loader_validate_layers
suite_validated = refl

loader_enable_instance_layers-loader_validate_layers_example : Usual (
    loader_enable_instance_layers four 4 no_settings none
      (codes "suite" ∷ [])
      (idle plenty no_marks))
loader_enable_instance_layers-loader_validate_layers_example =
    loader_enable_instance_layers-loader_validate_layers four no_settings 4 1 none
      (codes "suite" ∷ []) (idle plenty no_marks) suite_validated

path_names_lem_example :
    ((with_separators (path_names 4 (codes "a:bc")) ≡ codes "a:bc")
      ⊎ (with_separators (path_names 4 (codes "a:bc")) ≡ codes "a:bc" ++ separator ∷ []))
    × All HasNoSeparator (path_names 4 (codes "a:bc"))
path_names_lem_example = path_names_lem 4 (codes "a:bc") (omega arith)

verify_meta_layer_component_layers-Settled_example :
    Settled four_layers 4
      (Reaches four_layers 4 suite)
      (verify_meta_layer_component_layers itself itself itself four_layers suite 3)
verify_meta_layer_component_layers-Settled_example =
    verify_meta_layer_component_layers-Settled itself itself itself four_layers suite 3
      (omega arith)

loader_add_meta_layer-FlagIsTrue_example :
    FlagIsTrue (
      loader_add_meta_layer (with_layers (broken ∷ whole ∷ [])) 2 whole true (idle plenty no_marks))
loader_add_meta_layer-FlagIsTrue_example =
    loader_add_meta_layer-FlagIsTrue (with_layers (broken ∷ whole ∷ [])) 2 whole
      (idle plenty no_marks)
