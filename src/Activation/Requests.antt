-- ===== src/Activation/Requests.antt =====
-- loader/loader.c, loader/loader_environment.c and loader/settings.c: what the loops over the requested
-- layers keep, and which layers they ask for.
use mathlib.Core.List.{Memᴰ}
use vulkan_sc_loader.Base.{
  ℕ, ◌≡◌, refl, true, false, not, ◌&&◌, Option, some, List, [], ◌∷◌, CString, str_eq, VkResult,
  success, is_success, is_out_of_host_memory, Bool-cases, Option-cases, inl, inr, arith,
  str_eq_refl, str_eq_comm,
}
use vulkan_sc_loader.Environment.Match.{check_name_matches_filter_environment_var}
use vulkan_sc_loader.Layers.{any_equal}
use vulkan_sc_loader.Activation.{
  EnabledByWhat, LayerPointer, Surroundings, Activation, Outcome, find_layer_pointer,
  loader_find_layer_name_in_list, mark, is_available, implicit_is_enabled, in_target,
  loader_add_meta_layer,
}
use vulkan_sc_loader.Activation.Requested.{
  names_of_variable, stands_in, add_requested, add_layer_name, add_layer_names,
  implicit_layers_loop, add_variable_name, add_variable_names, enable_filter_loop,
  loader_add_environment_layers,
}
use vulkan_sc_loader.Activation.Enabling.{
  Settings, settings_enable, settings_layers_loop, enable_layers, on_success,
}
use vulkan_sc_loader.Activation.Keeps.{
  Ends, Keeping, on_memory-Ends, returned-Ends, loader_add_implicit_layer-Ends,
  loader_add_meta_layer-Ends,
}
use vulkan_sc_loader.Activation.Asked.{
  are_configured, IsRequested, by_settings, by_default, by_variable, by_filter, by_application,
}

module _ (Inv Bad : Activation → Type 0) (Stuck : Type 0) (c : Surroundings)
    {MayAdd : ℕ → LayerPointer → Type 0} (keeping : Keeping Inv Bad Stuck c MayAdd)
    (depth : ℕ) where
  pub add_requested-Ends :
      (what : EnabledByWhat) (p : LayerPointer) (st : Activation)
      → MayAdd depth p
      → Inv st
      → Ends Inv Bad Stuck (add_requested c depth what p st)
  unfolding add_requested
  add_requested-Ends what p st may v = elim (Bool-cases p.props.is_meta) [
    | inr plain ↦ rw (plain, add_requested) (keeping.layer_added depth what p st may plain v)
    | inl meta ↦
        rw (meta, add_requested)
          (on_memory-Ends Inv Inv Bad Stuck tt _ _
            (loader_add_meta_layer-Ends Inv Bad Stuck c keeping depth p true st may meta v)
            (λ result st' a q v'. returned-Ends Inv Bad Stuck result st' q v'))
  ]

  pub add_layer_name-Ends :
      (name : CString) (err : VkResult) (st : Activation)
      → ((p : LayerPointer)
          → find_layer_pointer name c.source_list ≡ some p
          → is_available c p ≡ true
          → MayAdd depth p)
      → is_out_of_host_memory err ≡ false
      → Inv st
      → Ends Inv Bad Stuck (add_layer_name c depth name err st)
  unfolding add_layer_name
  add_layer_name-Ends name err st may well v =
      elim (Option-cases (find_layer_pointer name c.source_list)) [
        | inl missing ↦ rw (missing, add_layer_name) v
        | inr (p, e) ↦
            rw (e, add_layer_name)
              (elim (Bool-cases (loader_find_layer_name_in_list name st.target_list.list)) [
                | inl already ↦ rw already (returned-Ends Inv Bad Stuck err st well v)
                | inr new ↦ rw new (elim (Bool-cases (is_available c p)) [
                  | inr off ↦ rw off (returned-Ends Inv Bad Stuck err st well v)
                  | inl on ↦ rw on (add_requested-Ends _ p st (may p e on) v)
                ])
              ])
      ]

  pub add_layer_names-Ends :
      (names : List CString) (err : VkResult) (st : Activation)
      → ((name : CString) (p : LayerPointer)
          → any_equal names name ≡ true
          → find_layer_pointer name c.source_list ≡ some p
          → is_available c p ≡ true
          → MayAdd depth p)
      → is_out_of_host_memory err ≡ false
      → Inv st
      → Ends Inv Bad Stuck (add_layer_names c depth names err st)
  unfolding add_layer_names
  add_layer_names-Ends [] err st may well v = returned-Ends Inv Bad Stuck err st well v
  add_layer_names-Ends (name ∷ names) err st may well v =
      on_memory-Ends Inv Inv Bad Stuck tt _ _
        (add_layer_name-Ends name err st (λ p. may name p (ground (arith, str_eq_refl name))) well
          v)
        (λ err' st' u q v'.
          add_layer_names-Ends names err' st' (λ other p m. may other p (ground (arith, m))) q v')

  pub implicit_layers_loop-Ends :
      (env : Option CString) (ps : List LayerPointer) (st : Activation)
      → ((p : LayerPointer)
          → Memᴰ p ps
          → (not p.props.is_explicit && not (stands_in env p.props.layer_name)) ≡ true
          → implicit_is_enabled c p ≡ true
          → MayAdd depth p)
      → Inv st
      → Ends Inv Bad Stuck (implicit_layers_loop c depth env ps st)
  unfolding implicit_layers_loop
  implicit_layers_loop-Ends env [] st may v = v
  implicit_layers_loop-Ends env (p ∷ ps) st may v =
      elim (Bool-cases (not p.props.is_explicit && not (stands_in env p.props.layer_name))) [
        | inr other ↦
            rw (other, implicit_layers_loop)
              (implicit_layers_loop-Ends env ps st (λ q m. may q (Memᴰ.tail m)) v)
        | inl on ↦
            rw (on, implicit_layers_loop)
              (on_memory-Ends Inv Inv Bad Stuck tt _ _
                (loader_add_implicit_layer-Ends Inv Bad Stuck c keeping depth
                  (loader_add_meta_layer c depth) p st
                  (loader_add_meta_layer-Ends Inv Bad Stuck c keeping depth)
                  (may p (Memᴰ.head refl) on) v)
                (λ result st' u q v'.
                  implicit_layers_loop-Ends env ps st' (λ r m. may r (Memᴰ.tail m)) v'))
      ]

  pub add_variable_name-Ends :
      (name : CString) (ps : List LayerPointer) (res : VkResult) (st : Activation)
      → ((p : LayerPointer) → Memᴰ p ps → str_eq name p.props.layer_name ≡ true → MayAdd depth p)
      → is_out_of_host_memory res ≡ false
      → Inv st
      → Ends Inv Bad Stuck (add_variable_name c depth name ps res st)
  unfolding add_variable_name
  add_variable_name-Ends name [] res st may well v = returned-Ends Inv Bad Stuck res st well v
  add_variable_name-Ends name (p ∷ ps) res st may well v =
      elim (Bool-cases (str_eq name p.props.layer_name && not (in_target c p st))) [
        | inr other ↦
            rw (other, add_variable_name)
              (add_variable_name-Ends name ps res st (λ q m. may q (Memᴰ.tail m)) well v)
        | inl new ↦
            rw (new, add_variable_name)
              (add_requested-Ends _ p st (may p (Memᴰ.head refl) (ground arith)) v)
      ]

  pub add_variable_names-Ends :
      (names : List CString) (res : VkResult) (st : Activation)
      → ((p : LayerPointer)
          → Memᴰ p c.source_list
          → any_equal names p.props.layer_name ≡ true
          → MayAdd depth p)
      → is_out_of_host_memory res ≡ false
      → Inv st
      → Ends Inv Bad Stuck (add_variable_names c depth names res st)
  unfolding add_variable_names
  add_variable_names-Ends [] res st may well v = returned-Ends Inv Bad Stuck res st well v
  add_variable_names-Ends ([] ∷ names) res st may well v =
      add_variable_names-Ends names res st (λ p m e. may p m (ground (arith, e))) well v
  add_variable_names-Ends ((b ∷ name) ∷ names) res st may well v =
      on_memory-Ends Inv Inv Bad Stuck tt _ _
        (add_variable_name-Ends (b ∷ name) c.source_list res st
          (λ p m e. may p m (ground (arith, str_eq_comm (b ∷ name) p.props.layer_name, e))) well v)
        (λ res' st' u q v'.
          add_variable_names-Ends names res' st' (λ p m e. may p m (ground (arith, e))) q v')

  pub enable_filter_loop-Ends :
      (ps : List LayerPointer) (res : VkResult) (st : Activation)
      → ((p : LayerPointer)
          → Memᴰ p ps
          → p.props.is_explicit ≡ true
          → check_name_matches_filter_environment_var p.props.layer_name c.filters.enable_filter
            ≡ true
          → MayAdd depth p)
      → is_out_of_host_memory res ≡ false
      → Inv st
      → Ends Inv Bad Stuck (enable_filter_loop c depth ps res st)
  unfolding enable_filter_loop
  enable_filter_loop-Ends [] res st may well v = returned-Ends Inv Bad Stuck res st well v
  enable_filter_loop-Ends (p ∷ ps) res st may well v =
      elim (Bool-cases (
        p.props.is_explicit
        && check_name_matches_filter_environment_var p.props.layer_name c.filters.enable_filter
        && not (in_target c p st))) [
          | inr other ↦
              rw (other, enable_filter_loop)
                (enable_filter_loop-Ends ps res st (λ q m. may q (Memᴰ.tail m)) well v)
          | inl new ↦
              rw (new, enable_filter_loop)
                (on_memory-Ends Inv Inv Bad Stuck tt _ _
                  (add_requested-Ends _ p st (may p (Memᴰ.head refl) (ground arith) (ground arith))
                    v)
                  (λ res' st' u q v'.
                    enable_filter_loop-Ends ps res' st' (λ r m. may r (Memᴰ.tail m)) q v'))
        ]

  pub settings_layers_loop-Ends :
      (env : Option CString) (names : List CString) (ps : List LayerPointer) (res : VkResult)
      (st : Activation)
      → ((p : LayerPointer) (what : EnabledByWhat)
          → Memᴰ p ps
          → settings_enable c env names p ≡ some what
          → MayAdd depth p)
      → is_out_of_host_memory res ≡ false
      → Inv st
      → Ends Inv Bad Stuck (settings_layers_loop c depth env names ps res st)
  unfolding settings_layers_loop
  settings_layers_loop-Ends env names [] res st may well v =
      returned-Ends Inv Bad Stuck res st well v
  settings_layers_loop-Ends env names (p ∷ ps) res st may well v =
      elim (Option-cases (settings_enable c env names p)) [
        | inl none_of_them ↦
            rw (none_of_them, settings_layers_loop)
              (settings_layers_loop-Ends env names ps res st (λ q what m. may q what (Memᴰ.tail m))
                well v)
        | inr (what, e) ↦
            rw (e, settings_layers_loop)
              (on_memory-Ends Inv Inv Bad Stuck tt _ _
                (add_requested-Ends what p (mark what p st) (may p what (Memᴰ.head refl) e)
                  (keeping.marked what p st v))
                (λ res' st' u q v'.
                  settings_layers_loop-Ends env names ps res' st' (λ r w m. may r w (Memᴰ.tail m)) q
                    v'))
      ]

  on_success-Ends :
      (o : Outcome (Unit {0})) (k : Activation → Outcome (Unit {0}))
      → Ends Inv Bad Stuck o
      → ((st : Activation) → Inv st → Ends Inv Bad Stuck (k st))
      → Ends Inv Bad Stuck (on_success c depth o k)
  on_success-Ends o k e h = on_memory-Ends Inv Inv Bad Stuck tt o _ e (λ res st u q v.
      elim (Bool-cases (is_success res)) [
        | inl good ↦ rw good (h st v)
        | inr other ↦ rw other (returned-Ends Inv Bad Stuck res st q v)
      ])

  loader_add_environment_layers-Ends :
      (env : Option CString) (st : Activation)
      → ((p : LayerPointer)
          → Memᴰ p c.source_list
          → any_equal (names_of_variable env) p.props.layer_name ≡ true
          → MayAdd depth p)
      → ((p : LayerPointer)
          → Memᴰ p c.source_list
          → p.props.is_explicit ≡ true
          → check_name_matches_filter_environment_var p.props.layer_name c.filters.enable_filter
            ≡ true
          → MayAdd depth p)
      → Inv st
      → Ends Inv Bad Stuck (loader_add_environment_layers c depth env st)
  unfolding loader_add_environment_layers
  loader_add_environment_layers-Ends env st named matched v =
      on_memory-Ends Inv Inv Bad Stuck tt _ _
        (add_variable_names-Ends (names_of_variable env) success st named refl v)
        (λ res st' u q v'. enable_filter_loop-Ends c.source_list res st' matched q v')

  -- All that is added is asked for or a component.
  pub enable_layers-Ends :
      (settings : Settings) (env : Option CString) (names : List CString) (st : Activation)
      → ((p : LayerPointer) → IsRequested c settings env names p → MayAdd depth p)
      → Inv st
      → Ends Inv Bad Stuck (enable_layers c depth settings env names st)
  unfolding enable_layers
  enable_layers-Ends settings env names st may v = elim (Bool-cases (are_configured settings)) [
    | inl on ↦
        rw (on, enable_layers)
          (settings_layers_loop-Ends env names c.source_list success st
            (λ p what m e. may p (by_settings what on m e)) refl v)
    | inr off ↦
        rw (off, enable_layers)
          (on_success-Ends _ _
            (implicit_layers_loop-Ends env c.source_list st
              (λ p m s e. may p (by_default off m s e)) v)
            (λ st1 v1.
              on_success-Ends _ _
                (loader_add_environment_layers-Ends env st1 (λ p m e. may p (by_variable off m e))
                  (λ p m x e. may p (by_filter off m x e)) v1)
                (λ st2 v2.
                  add_layer_names-Ends names success st2
                    (λ name p m f a. may p (by_application name off m f a)) refl v2)))
  ]
