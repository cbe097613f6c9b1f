-- ===== src/Activation/Validation.antt =====
-- loader/loader.c: the names of layers that an application gives are checked before they are used, so
-- that to use them does not find one missing.
use vulkan_sc_loader.Base.{
  ℕ, ◌≡◌, refl, Bool, true, false, not, ◌&&◌, ◌||◌, ◌==◌, Option, none, some, List, [], ◌∷◌, map,
  CString, if◌then◌else◌, VkResult, success, error_layer_not_present, is_success, Bool-cases, inl,
  inr, arith, next_answer, later_answers,
}
use vulkan_sc_loader.Layers.{LayerControl, control_default, control_on}
use vulkan_sc_loader.Layers.Lists.{loader_init_pointer_layer_list}
use vulkan_sc_loader.Activation.{
  LayerPointer, Surroundings, Activation, Outcome, find_layer_pointer,
  loader_find_layer_name_in_list, is_available, in_application_api,
}
use vulkan_sc_loader.Activation.Requested.{add_layer_name, add_layer_names}
use vulkan_sc_loader.Activation.Enabling.{
  Settings, enable_layers, loader_enable_instance_layers, on_success,
}
use vulkan_sc_loader.Activation.Asked.{are_configured}
use vulkan_sc_loader.Activation.Results.{is_usual, Usual, on_memory-Usual}
use vulkan_sc_loader.Activation.ListResults.{
  add_requested-Usual, implicit_layers_loop-Usual, settings_layers_loop-Usual,
  loader_add_environment_layers-Usual,
}
use vulkan_sc_loader.Utf8.{StringErrors, vk_string_validate}

abbrev pub max_loader_string_length : ℕ
max_loader_string_length = 256

abbrev pub is_error : StringErrors → Bool
is_error e = e.null_ptr || e.length || e.bad_data

abbrev pub is_on_or_default : LayerControl → Bool
is_on_or_default control_on = true
is_on_or_default control_default = true
is_on_or_default _ = false

module _ (c : Surroundings) (settings : Settings) where
  -- A name that is found; the settings file may prevent its layer.
  abbrev pub validate_found : Option LayerPointer → VkResult → VkResult
  validate_found none rest = error_layer_not_present
  validate_found (some p) rest =
      if are_configured settings && not (is_on_or_default p.props.settings_control_value)
      then error_layer_not_present
      else rest

  -- A name that is NULL is no valid string, so that it is not searched.
  abbrev pub find_given : Option CString → Option LayerPointer
  find_given none = none
  find_given (some name) = find_layer_pointer name c.source_list

  unfoldable pub validate_layer_names : List (Option CString) → VkResult
  unfolding find_layer_pointer vk_string_validate
  validate_layer_names [] = success
  validate_layer_names (name ∷ names) =
      let rest = validate_layer_names names in
      if is_error (vk_string_validate max_loader_string_length name)
      then error_layer_not_present
      else validate_found (find_given name) rest

  -- The array of names, or NULL; if there is one it has `layer_count` entries.
  unfoldable pub loader_validate_layers : ℕ → Option (List (Option CString)) → VkResult
  unfolding validate_layer_names
  loader_validate_layers layer_count none =
      if layer_count == 0 then success else error_layer_not_present
  loader_validate_layers layer_count (some names) = validate_layer_names names

  validated :
      (wrong : Bool) (o : Option LayerPointer) (rest : VkResult)
      → (if wrong then error_layer_not_present else validate_found o rest) ≡ success
      → ((p : LayerPointer) × (o ≡ some p)) × (rest ≡ success)
  validated true o rest e = cc
  validated false none rest e = cc
  validated false (some p) rest e = ((p, refl), ground arith)

  -- To add layers by names that were validated finds each of them.
  add_layer_names-Usual :
      (depth : ℕ) (names : List CString) (err : VkResult) (st : Activation)
      → validate_layer_names (map some names) ≡ success
      → is_usual err ≡ true
      → Usual (add_layer_names c depth names err st)
  unfolding add_layer_names add_layer_name validate_layer_names
  add_layer_names-Usual depth [] err st valid well = well
  add_layer_names-Usual depth (name ∷ names) err st valid well =
      let ((p, found), rest) = validated _ _ _ valid in
      on_memory-Usual tt _ _ (round p found)
        (λ err' st' u e. add_layer_names-Usual depth names err' st' rest e)
    where
      round :
          (p : LayerPointer)
          → find_layer_pointer name c.source_list ≡ some p
          → Usual (add_layer_name c depth name err st)
      round p found = elim (Bool-cases (loader_find_layer_name_in_list name st.target_list.list)) [
        | inl already ↦ rw (found, already, add_layer_name) well
        | inr new ↦ elim (Bool-cases (is_available c p)) [
          | inr off ↦ rw (found, new, off, add_layer_name) well
          | inl on ↦
              rw (found, new, on, add_layer_name)
                (add_requested-Usual c depth in_application_api p st)
        ]
      ]

  on_success-Usual :
      (depth : ℕ) (o : Outcome (Unit {0})) (k : Activation → Outcome (Unit {0}))
      → Usual o
      → ((st : Activation) → Usual (k st))
      → Usual (on_success c depth o k)
  on_success-Usual depth o k e h = on_memory-Usual tt o _ e (λ res st u q.
      elim (Bool-cases (is_success res)) [ inl good ↦ rw good (h st) | inr other ↦ rw other q ])

  enable_layers-Usual :
      (depth : ℕ) (env : Option CString) (names : List CString) (st : Activation)
      → validate_layer_names (map some names) ≡ success
      → Usual (enable_layers c depth settings env names st)
  unfolding enable_layers
  enable_layers-Usual depth env names st valid = elim (Bool-cases (are_configured settings)) [
    | inl on ↦
        rw (on, enable_layers)
          (settings_layers_loop-Usual c depth env names c.source_list success st refl)
    | inr off ↦
        rw (off, enable_layers)
          (on_success-Usual depth _ _ (implicit_layers_loop-Usual c depth env c.source_list st)
            (λ st1.
              on_success-Usual depth _ _ (loader_add_environment_layers-Usual c depth env st1)
                (λ st2. add_layer_names-Usual depth names success st2 valid refl)))
  ]

-- Once the names that the application gives have passed the validation, to enable the layers of the
-- instance returns nothing but success or that memory ran out, whatever the environment and the
-- settings file say: no layer is missing any more.
pub loader_enable_instance_layers-loader_validate_layers :
    (c : Surroundings) (settings : Settings) (depth layer_count : ℕ) (env : Option CString)
    (names : List CString) (st : Activation)
    → loader_validate_layers c settings layer_count (some (map some names)) ≡ success
    → Usual (loader_enable_instance_layers c depth settings env names st)
unfolding loader_enable_instance_layers loader_init_pointer_layer_list loader_validate_layers
loader_enable_instance_layers-loader_validate_layers c settings depth layer_count env names st
      valid =
    elim (Bool-cases (next_answer st.heap.answers)) [
      | inr out ↦ rw out refl
      | inl ok ↦ elim (Bool-cases (next_answer (later_answers st.heap.answers))) [
        | inr out ↦ rw (ok, out) refl
        | inl ok' ↦ rw (ok, ok') (enable_layers-Usual c settings depth env names _ valid)
      ]
    ]
