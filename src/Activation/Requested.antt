-- ===== src/Activation/Requested.antt =====
-- loader/loader.c, loader/loader_environment.c and loader/settings.c: the layers that the environment,
-- the application and the settings file ask for. Paths are separated by a colon here, as in
-- loader/vk_loader_platform.h for everything but Windows.
use vulkan_sc_loader.Base.{
  ℕ, zero, suc, Bool, true, false, not, ◌&&◌, ◌||◌, Option, none, some, List, [], ◌∷◌, CString,
  str_eq, ◌==◌, length, if◌then◌else◌, VkResult, success, error_layer_not_present,
}
use vulkan_sc_loader.Environment.Match.{check_name_matches_filter_environment_var}
use vulkan_sc_loader.Activation.{
  EnabledByWhat, vk_instance_layers, vk_loader_layers_enable, in_application_api, LayerPointer,
  Surroundings, Activation, Outcome, returned, on_memory, without_flag, find_layer_pointer,
  loader_find_layer_name_in_list, activate_layer, is_available, in_target,
  loader_add_implicit_layer, loader_add_meta_layer,
}

-- What stands before the separator, which is overwritten, and what is behind it.
unfoldable pub loader_get_next_path : CString → CString × CString
loader_get_next_path [] = ([], [])
loader_get_next_path (b ∷ path) =
    let (name, next) = loader_get_next_path path in if b == 58 then ([], path) else (b ∷ name, next)

-- The loop `while (name && *name)`: all the names it goes through. Every round shortens the path.
unfoldable pub path_names : ℕ → CString → List CString
unfolding loader_get_next_path
path_names zero path = []
path_names (suc rounds) [] = []
path_names (suc rounds) (b ∷ path) =
    let (name, next) = loader_get_next_path (b ∷ path) in name ∷ path_names rounds next

unfoldable pub names_of_variable : Option CString → List CString
unfolding path_names
names_of_variable none = []
names_of_variable (some value) = path_names (length value) value

abbrev pub starts_with : CString → CString → Bool
starts_with [] s = true
starts_with (b ∷ name) [] = false
starts_with (b ∷ name) (x ∷ s) = b == x && starts_with name s

-- `strstr(s, name) != NULL`
abbrev pub has_substring : CString → CString → Bool
has_substring name [] = starts_with name []
has_substring name (x ∷ s) = starts_with name (x ∷ s) || has_substring name s

abbrev pub stands_in : Option CString → CString → Bool
stands_in none name = false
stands_in (some value) name = has_substring name value

module _ (c : Surroundings) (depth : ℕ) where
  -- A layer that is no meta-layer goes into both lists; the other is entered, with NULL.
  unfoldable pub add_requested : EnabledByWhat → LayerPointer → Activation → Outcome (Unit {0})
  unfolding activate_layer loader_add_meta_layer
  add_requested what p st = elim p.props.is_meta [
    | false ↦ activate_layer c.size what p st
    | true ↦ without_flag (loader_add_meta_layer c depth p true st)
  ]

  -- One round, for a name that the application gave; `err` is the result so far.
  unfoldable pub add_layer_name : CString → VkResult → Activation → Outcome (Unit {0})
  unfolding find_layer_pointer loader_find_layer_name_in_list add_requested
  add_layer_name name err st = elim (find_layer_pointer name c.source_list) [
    | none ↦ returned error_layer_not_present st tt
    | some p ↦
        if loader_find_layer_name_in_list name st.target_list.list
        then returned err st tt
        else if not (is_available c p)
        then returned err st tt
        else add_requested in_application_api p st
  ]

  unfoldable pub add_layer_names : List CString → VkResult → Activation → Outcome (Unit {0})
  unfolding add_layer_name
  add_layer_names [] err st = returned err st tt
  add_layer_names (name ∷ names) err st =
      on_memory tt (add_layer_name name err st) (λ err' st' u. add_layer_names names err' st')

  abbrev pub loader_add_layer_names_to_list : List CString → Activation → Outcome (Unit {0})
  loader_add_layer_names_to_list names st = add_layer_names names success st

  -- The loop over the source list, of which `ps` is left. The names in the variable are those of
  -- layers that `loader_add_environment_layers` adds.
  unfoldable pub implicit_layers_loop :
      Option CString → List LayerPointer → Activation → Outcome (Unit {0})
  unfolding loader_add_implicit_layer loader_add_meta_layer
  implicit_layers_loop enabled_layers_env [] st = returned success st tt
  implicit_layers_loop enabled_layers_env (p ∷ ps) st =
      elim (not p.props.is_explicit && not (stands_in enabled_layers_env p.props.layer_name)) [
        | true ↦
            on_memory tt (loader_add_implicit_layer c (loader_add_meta_layer c depth) p st)
              (λ result st' u. implicit_layers_loop enabled_layers_env ps st')
        | false ↦ implicit_layers_loop enabled_layers_env ps st
      ]

  abbrev pub loader_add_implicit_layers : Option CString → Activation → Outcome (Unit {0})
  loader_add_implicit_layers enabled_layers_env st =
      implicit_layers_loop enabled_layers_env c.source_list st

  -- The inner loop for a name in the variable: it ends with the first layer that is added.
  unfoldable pub add_variable_name :
      CString → List LayerPointer → VkResult → Activation → Outcome (Unit {0})
  unfolding add_requested
  add_variable_name name [] res st = returned res st tt
  add_variable_name name (p ∷ ps) res st =
      elim (str_eq name p.props.layer_name && not (in_target c p st)) [
        | true ↦ add_requested vk_instance_layers p st
        | false ↦ add_variable_name name ps res st
      ]

  unfoldable pub add_variable_names : List CString → VkResult → Activation → Outcome (Unit {0})
  unfolding add_variable_name
  add_variable_names [] res st = returned res st tt
  add_variable_names ([] ∷ names) res st = add_variable_names names res st
  add_variable_names ((b ∷ name) ∷ names) res st =
      on_memory tt (add_variable_name (b ∷ name) c.source_list res st)
        (λ res' st' u. add_variable_names names res' st')

  -- The loop over the filters. Whether the layer is disabled is only logged: the test of the enable
  -- filter overwrites `adding` either way.
  unfoldable pub enable_filter_loop : List LayerPointer → VkResult → Activation → Outcome (Unit {0})
  unfolding add_requested
  enable_filter_loop [] res st = returned res st tt
  enable_filter_loop (p ∷ ps) res st =
      let matches =
        check_name_matches_filter_environment_var p.props.layer_name c.filters.enable_filter in
      elim (p.props.is_explicit && matches && not (in_target c p st)) [
        | true ↦
            on_memory tt (add_requested vk_loader_layers_enable p st)
              (λ res' st' u. enable_filter_loop ps res' st')
        | false ↦ enable_filter_loop ps res st
      ]

  unfoldable pub loader_add_environment_layers : Option CString → Activation → Outcome (Unit {0})
  unfolding names_of_variable add_variable_names enable_filter_loop
  loader_add_environment_layers enabled_layers_env st =
      on_memory tt (add_variable_names (names_of_variable enabled_layers_env) success st)
        (λ res st' u. enable_filter_loop c.source_list res st')
