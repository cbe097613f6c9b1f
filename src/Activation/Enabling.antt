-- ===== src/Activation/Enabling.antt =====
-- loader/settings.c and loader/loader.c: the layers of an instance, in the order of the settings file
-- if there is one, and else by default, by the environment and by the application.
use vulkan_sc_loader.Base.{
  ℕ, Bool, true, false, not, ◌&&◌, ◌||◌, Option, none, some, List, [], ◌∷◌, CString, if◌then◌else◌,
  VkResult, success, error_out_of_host_memory, is_success,
}
use vulkan_sc_loader.Environment.Match.{check_name_matches_filter_environment_var}
use vulkan_sc_loader.Layers.{
  control_default, control_on, control_off, unordered_layer_location, any_equal,
}
use vulkan_sc_loader.Layers.Lists.{loader_init_pointer_layer_list}
use vulkan_sc_loader.Activation.{
  EnabledByWhat, loader_settings_file, implicit_layer, vk_instance_layers, vk_loader_layers_enable,
  in_application_api, LayerPointer, Surroundings, Activation, Outcome, returned, on_memory, mark,
  implicit_is_enabled,
}
use vulkan_sc_loader.Activation.Requested.{
  names_of_variable, add_requested, loader_add_layer_names_to_list, loader_add_implicit_layers,
  loader_add_environment_layers,
}

-- The instance: whether its settings file is active and configures layers.
pub record Settings : Type 0 where
  pub settings_active : Bool
  pub layer_configurations_active : Bool

module _ (c : Surroundings) where
  -- A layer that the settings file leaves to the other sources. The disable variable applies with its
  -- `~implicit~` to every layer here.
  abbrev pub is_filtered_out : LayerPointer → Bool
  is_filtered_out p =
      (c.filters.disable_filter.disable_all
        || c.filters.disable_filter.disable_all_implicit
        || check_name_matches_filter_environment_var p.props.layer_name
            c.filters.disable_filter.additional_filters)
      && not (check_name_matches_filter_environment_var p.props.layer_name c.filters.allow_filter)

  -- The sources after the disable filter, the first that enables the layer first.
  abbrev pub enabled_by_source : Option CString → List CString → LayerPointer → Option EnabledByWhat
  enabled_by_source env app_enabled_names p =
      if check_name_matches_filter_environment_var p.props.layer_name c.filters.enable_filter
      then some vk_loader_layers_enable
      else if any_equal (names_of_variable env) p.props.layer_name
      then some vk_instance_layers
      else if any_equal app_enabled_names p.props.layer_name
      then some in_application_api
      else if not p.props.is_explicit && implicit_is_enabled c p
      then some implicit_layer
      else none

  -- What enables a layer of the list that the settings file has ordered, if anything does.
  unfoldable pub settings_enable :
      Option CString → List CString → LayerPointer → Option EnabledByWhat
  unfolding names_of_variable
  settings_enable env app_enabled_names p = elim p.props.settings_control_value [
    | unordered_layer_location ↦ none
    | control_off ↦ none
    | control_on ↦ some loader_settings_file
    | control_default ↦
        if is_filtered_out p then none else enabled_by_source env app_enabled_names p
  ]

  module _ (depth : ℕ) where
    unfoldable pub settings_layers_loop :
        Option CString
        → List CString
        → List LayerPointer
        → VkResult
        → Activation
        → Outcome (Unit {0})
    unfolding settings_enable add_requested
    settings_layers_loop env names [] res st = returned res st tt
    settings_layers_loop env names (p ∷ ps) res st = elim (settings_enable env names p) [
      | none ↦ settings_layers_loop env names ps res st
      | some what ↦
          on_memory tt (add_requested c depth what p (mark what p st))
            (λ res' st' u. settings_layers_loop env names ps res' st')
    ]

    abbrev pub enable_correct_layers_from_settings :
        Option CString → List CString → Activation → Outcome (Unit {0})
    enable_correct_layers_from_settings env names st =
        settings_layers_loop env names c.source_list success st

    -- `if (res != VK_SUCCESS) goto out;`
    abbrev pub on_success :
        Outcome (Unit {0}) → (Activation → Outcome (Unit {0})) → Outcome (Unit {0})
    on_success o k =
        on_memory tt o (λ res st u. if is_success res then k st else returned res st tt)

    -- What follows the initialisation of the two lists.
    unfoldable pub enable_layers :
        Settings → Option CString → List CString → Activation → Outcome (Unit {0})
    unfolding settings_layers_loop
    enable_layers settings env names st =
        elim (settings.settings_active && settings.layer_configurations_active) [
          | true ↦ enable_correct_layers_from_settings env names st
          | false ↦ on_success (loader_add_implicit_layers c depth env st) (λ st1.
              on_success (loader_add_environment_layers c depth env st1)
                (λ st2. loader_add_layer_names_to_list c depth names st2))
        ]

    -- The lists of the instance are those of the state. The warnings for old layers are left out.
    unfoldable pub loader_enable_instance_layers :
        Settings → Option CString → List CString → Activation → Outcome (Unit {0})
    unfolding enable_layers loader_init_pointer_layer_list
    loader_enable_instance_layers settings env names st =
        let (ok, h, target) = loader_init_pointer_layer_list st.heap st.target_list in
        let (ok', h', expanded) = loader_init_pointer_layer_list h st.expanded_target_list in
        if ok
        then (if ok'
            then enable_layers settings env names
                (record st { heap = h'; target_list = target; expanded_target_list = expanded })
            else returned error_out_of_host_memory
                (record st { heap = h'; target_list = target; expanded_target_list = expanded }) tt)
        else returned error_out_of_host_memory (record st { heap = h; target_list = target }) tt
