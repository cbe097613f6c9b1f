-- ===== src/Activation/ListResults.antt =====
-- loader/loader.c, loader/loader_environment.c and loader/settings.c: the results of the loops over the
-- requested layers.
use vulkan_sc_loader.Environment.Match.{check_name_matches_filter_environment_var}
use vulkan_sc_loader.Base.{
  ℕ, ◌≡◌, refl, true, not, ◌&&◌, Option, List, [], ◌∷◌, CString, str_eq, VkResult, success,
  Bool-cases, Option-cases, inl, inr,
}
use vulkan_sc_loader.Activation.{
  EnabledByWhat, LayerPointer, Surroundings, Activation, mark, in_target, vk_loader_layers_enable,
  loader_add_meta_layer,
}
use vulkan_sc_loader.Activation.Requested.{
  names_of_variable, stands_in, add_requested, implicit_layers_loop, add_variable_name,
  add_variable_names, enable_filter_loop, loader_add_environment_layers,
}
use vulkan_sc_loader.Activation.Enabling.{settings_enable, settings_layers_loop}
use vulkan_sc_loader.Activation.Results.{
  is_usual, Usual, on_memory-Usual, activate_layer-Usual, loader_add_implicit_layer-Usual,
  loader_add_meta_layer-Usual,
}

module _ (c : Surroundings) (depth : ℕ) where
  pub add_requested-Usual :
      (what : EnabledByWhat) (p : LayerPointer) (st : Activation)
      → Usual (add_requested c depth what p st)
  unfolding add_requested
  add_requested-Usual what p st = elim (Bool-cases p.props.is_meta) [
    | inr plain ↦ rw (plain, add_requested) (activate_layer-Usual c.size what p st)
    | inl meta ↦
        rw (meta, add_requested)
          (on_memory-Usual tt (loader_add_meta_layer c depth p true st) _
            (loader_add_meta_layer-Usual c depth p true st) (λ result st' a e. e))
  ]

  pub implicit_layers_loop-Usual :
      (env : Option CString) (ps : List LayerPointer) (st : Activation)
      → Usual (implicit_layers_loop c depth env ps st)
  unfolding implicit_layers_loop
  implicit_layers_loop-Usual env [] st = refl
  implicit_layers_loop-Usual env (p ∷ ps) st =
      elim (Bool-cases (not p.props.is_explicit && not (stands_in env p.props.layer_name))) [
        | inr other ↦ rw (other, implicit_layers_loop) (implicit_layers_loop-Usual env ps st)
        | inl on ↦
            rw (on, implicit_layers_loop)
              (on_memory-Usual tt _ _
                (loader_add_implicit_layer-Usual c (loader_add_meta_layer c depth) p st
                  (loader_add_meta_layer-Usual c depth))
                (λ result st' u e. implicit_layers_loop-Usual env ps st'))
      ]

  add_variable_name-Usual :
      (name : CString) (ps : List LayerPointer) (res : VkResult) (st : Activation)
      → is_usual res ≡ true
      → Usual (add_variable_name c depth name ps res st)
  unfolding add_variable_name
  add_variable_name-Usual name [] res st well = well
  add_variable_name-Usual name (p ∷ ps) res st well =
      elim (Bool-cases (str_eq name p.props.layer_name && not (in_target c p st))) [
        | inr other ↦ rw (other, add_variable_name) (add_variable_name-Usual name ps res st well)
        | inl new ↦ rw (new, add_variable_name) (add_requested-Usual _ p st)
      ]

  add_variable_names-Usual :
      (names : List CString) (res : VkResult) (st : Activation)
      → is_usual res ≡ true
      → Usual (add_variable_names c depth names res st)
  unfolding add_variable_names
  add_variable_names-Usual [] res st well = well
  add_variable_names-Usual ([] ∷ names) res st well = add_variable_names-Usual names res st well
  add_variable_names-Usual ((b ∷ name) ∷ names) res st well =
      on_memory-Usual tt _ _ (add_variable_name-Usual (b ∷ name) c.source_list res st well)
        (λ res' st' u e. add_variable_names-Usual names res' st' e)

  enable_filter_loop-Usual :
      (ps : List LayerPointer) (res : VkResult) (st : Activation)
      → is_usual res ≡ true
      → Usual (enable_filter_loop c depth ps res st)
  unfolding enable_filter_loop
  enable_filter_loop-Usual [] res st well = well
  enable_filter_loop-Usual (p ∷ ps) res st well =
      elim (Bool-cases (
        p.props.is_explicit
        && check_name_matches_filter_environment_var p.props.layer_name c.filters.enable_filter
        && not (in_target c p st))) [
          | inr other ↦ rw (other, enable_filter_loop) (enable_filter_loop-Usual ps res st well)
          | inl new ↦
              rw (new, enable_filter_loop)
                (on_memory-Usual tt _ _ (add_requested-Usual vk_loader_layers_enable p st)
                  (λ res' st' u e. enable_filter_loop-Usual ps res' st' e))
        ]

  pub settings_layers_loop-Usual :
      (env : Option CString) (names : List CString) (ps : List LayerPointer) (res : VkResult)
      (st : Activation)
      → is_usual res ≡ true
      → Usual (settings_layers_loop c depth env names ps res st)
  unfolding settings_layers_loop
  settings_layers_loop-Usual env names [] res st well = well
  settings_layers_loop-Usual env names (p ∷ ps) res st well =
      elim (Option-cases (settings_enable c env names p)) [
        | inl none_of_them ↦
            rw (none_of_them, settings_layers_loop)
              (settings_layers_loop-Usual env names ps res st well)
        | inr (what, e) ↦
            rw (e, settings_layers_loop)
              (on_memory-Usual tt _ _ (add_requested-Usual what p (mark what p st))
                (λ res' st' u q. settings_layers_loop-Usual env names ps res' st' q))
      ]

  pub loader_add_environment_layers-Usual :
      (env : Option CString) (st : Activation)
      → Usual (loader_add_environment_layers c depth env st)
  unfolding loader_add_environment_layers
  loader_add_environment_layers-Usual env st =
      on_memory-Usual tt _ _ (add_variable_names-Usual (names_of_variable env) success st refl)
        (λ res st' u e. enable_filter_loop-Usual c.source_list res st' e)
