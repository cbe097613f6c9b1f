-- ===== src/Activation/Keeps.antt =====
-- loader/loader.c: what the activation of meta-layers keeps, from what its two ways to add a layer
-- keep.
use vulkan_sc_loader.Base.{
  arith, ◌⊎◌, str_eq_refl, ℕ, zero, suc, ◌≡◌, refl, Bool, true, false, some, List, [], ◌∷◌, CString,
  if◌then◌else◌, VkResult, success, is_out_of_host_memory, Bool-cases, Option-cases, inl, inr,
}
use vulkan_sc_loader.Layers.{any_equal}
use vulkan_sc_loader.Activation.{
  EnabledByWhat, implicit_layer, meta_layer, LayerPointer, Surroundings, Activation, Outcome,
  returned, fault, too_many, out_of_fuel, on_memory, with_flag, find_layer_pointer, mark,
  add_to_target, activate_layer, Visit, is_available, implicit_is_enabled, in_target,
  loader_add_implicit_layer, add_found_component, add_component, add_components,
  add_complete_meta_layer, loader_add_meta_layer,
}

-- `Inv` holds of the lists, and `Bad` after memory ran out. `Stuck` says what is known when the fuel
-- is used up.
module _ (Inv Bad : Activation → Type 0) (Stuck : Type 0) where
  abbrev pub EndsIn : VkResult → Activation → Type 0
  EndsIn result st = if is_out_of_host_memory result then Bad st else Inv st

  abbrev pub Ends : {A : Type 0} → Outcome A → Type 0
  Ends (returned result st a) = EndsIn result st
  Ends fault = ⊥
  Ends too_many = Unit
  Ends out_of_fuel = Stuck

-- Without loss of memory an outcome continues with what leads from `Mid` to `Inv`.
pub on_memory-Ends :
    (Mid Inv Bad : Activation → Type 0) (Stuck : Type 0) {A B : Type 0} (b : B) (o : Outcome A)
    (k : VkResult → Activation → A → Outcome B)
    → Ends Mid Bad Stuck o
    → ((result : VkResult) (st : Activation) (a : A)
        → is_out_of_host_memory result ≡ false
        → Mid st
        → Ends Inv Bad Stuck (k result st a))
    → Ends Inv Bad Stuck (on_memory b o k)
on_memory-Ends Mid Inv Bad Stuck b fault k e h = e
on_memory-Ends Mid Inv Bad Stuck b too_many k e h = tt
on_memory-Ends Mid Inv Bad Stuck b out_of_fuel k e h = e
on_memory-Ends Mid Inv Bad Stuck b (returned result st a) k e h =
    by_result (is_out_of_host_memory result) refl e
  where
    by_result :
        (x : Bool)
        → is_out_of_host_memory result ≡ x
        → (if x then Bad st else Mid st)
        → Ends Inv Bad Stuck (if x then returned result st b else k result st a)
    by_result true q e' = rw q e'
    by_result false q e' = h result st a q e'

pub Ends-weaken :
    (Inv Inv' Bad Bad' : Activation → Type 0) (Stuck : Type 0) {A : Type 0} (o : Outcome A)
    → ((st : Activation) → Inv st → Inv' st)
    → ((st : Activation) → Bad st → Bad' st)
    → Ends Inv Bad Stuck o
    → Ends Inv' Bad' Stuck o
Ends-weaken Inv Inv' Bad Bad' Stuck fault good bad e = e
Ends-weaken Inv Inv' Bad Bad' Stuck too_many good bad e = tt
Ends-weaken Inv Inv' Bad Bad' Stuck out_of_fuel good bad e = e
Ends-weaken Inv Inv' Bad Bad' Stuck (returned result st a) good bad e =
    by_result (is_out_of_host_memory result) e
  where
    by_result : (x : Bool) → (if x then Bad st else Inv st) → (if x then Bad' st else Inv' st)
    by_result true e' = bad st e'
    by_result false e' = good st e'

module _ (Inv Bad : Activation → Type 0) (Stuck : Type 0) where
  pub returned-Ends :
      (result : VkResult) (st : Activation)
      → is_out_of_host_memory result ≡ false
      → Inv st
      → EndsIn Inv Bad Stuck result st
  returned-Ends result st q v = rw q v

  -- What the two ways to add a layer keep. `MayAdd` says which layers may be added, the meta-layers
  -- with the fuel that there is for their components.
  pub record Keeping (c : Surroundings) (MayAdd : ℕ → LayerPointer → Type 0) : Type 0 where
    pub no_fuel : (p : LayerPointer) → MayAdd zero p → p.props.is_meta ≡ true → Stuck
    pub component :
        (depth : ℕ) (p q : LayerPointer) (name : CString)
        → MayAdd (suc depth) p
        → p.props.is_meta ≡ true
        → any_equal p.props.component_layer_names name ≡ true
        → find_layer_pointer name c.source_list ≡ some q
        → is_available c q ≡ true
        → (q.props.is_explicit ≡ true) ⊎ (implicit_is_enabled c q ≡ true)
        → MayAdd depth q
    pub marked :
        (what : EnabledByWhat) (p : LayerPointer) (st : Activation) → Inv st → Inv (mark what p st)
    pub layer_added :
        (depth : ℕ) (what : EnabledByWhat) (p : LayerPointer) (st : Activation)
        → MayAdd depth p
        → p.props.is_meta ≡ false
        → Inv st
        → Ends Inv Bad Stuck (activate_layer c.size what p st)
    pub meta_added :
        (depth : ℕ) (p : LayerPointer) (st : Activation)
        → MayAdd depth p
        → p.props.is_meta ≡ true
        → Inv st
        → Ends Inv Bad Stuck (add_to_target c.size p (mark meta_layer p st))

  module _ (c : Surroundings) {MayAdd : ℕ → LayerPointer → Type 0}
      (keeping : Keeping c MayAdd) where
    abbrev pub Enters : ℕ → Visit → Type 0
    Enters depth visit =
        (p : LayerPointer) (out : Bool) (st : Activation)
        → MayAdd depth p
        → p.props.is_meta ≡ true
        → Inv st
        → Ends Inv Bad Stuck (visit p out st)

    with_flag-Ends :
        {A : Type 0} (flag : Bool) (o : Outcome A)
        → Ends Inv Bad Stuck o
        → Ends Inv Bad Stuck (with_flag flag o)
    with_flag-Ends flag o e =
        on_memory-Ends Inv Inv Bad Stuck flag o (λ result st a. returned result st flag) e
          (λ result st a q v. returned-Ends result st q v)

    pub loader_add_implicit_layer-Ends :
        (depth : ℕ) (visit : Visit) (p : LayerPointer) (st : Activation)
        → Enters depth visit
        → (implicit_is_enabled c p ≡ true → MayAdd depth p)
        → Inv st
        → Ends Inv Bad Stuck (loader_add_implicit_layer c visit p st)
    unfolding loader_add_implicit_layer
    loader_add_implicit_layer-Ends depth visit p st enters may v =
        elim (Bool-cases (implicit_is_enabled c p)) [
          | inr off ↦ rw (off, loader_add_implicit_layer) v
          | inl on ↦
              rw (on, loader_add_implicit_layer)
                (elim (Bool-cases p.props.is_meta) [
                  | inl meta ↦ rw meta (
                      on_memory-Ends Inv Inv Bad Stuck tt (visit p true st) _
                        (enters p true st (may on) meta v)
                        (λ result st' a q v'. returned-Ends result st' q v'))
                  | inr plain ↦ rw plain (elim (Bool-cases (in_target c p st)) [
                    | inl already ↦ rw already v
                    | inr new ↦
                        rw new (keeping.layer_added depth implicit_layer p st (may on) plain v)
                  ])
                ])
        ]

    MayComponent : ℕ → LayerPointer → Type 0
    MayComponent depth q =
        is_available c q ≡ true
        → (q.props.is_explicit ≡ true) ⊎ (implicit_is_enabled c q ≡ true)
        → MayAdd depth q

    add_found_component-Ends :
        (depth : ℕ) (visit : Visit) (q : LayerPointer) (result : VkResult) (found : Bool)
        (st : Activation)
        → Enters depth visit
        → MayComponent depth q
        → is_out_of_host_memory result ≡ false
        → Inv st
        → Ends Inv Bad Stuck (add_found_component c visit q result found st)
    unfolding add_found_component MayComponent
    add_found_component-Ends depth visit q result found st enters may well v =
        elim (Bool-cases (is_available c q)) [
          | inr off ↦ rw (off, add_found_component) (returned-Ends result st well v)
          | inl on ↦
              rw (on, add_found_component)
                (elim (Bool-cases q.props.is_explicit) [
                  | inr implicit ↦ rw implicit (
                      with_flag-Ends found _ (
                        loader_add_implicit_layer-Ends depth visit q (mark meta_layer q st) enters
                          (λ enabled. may on (inr enabled)) (keeping.marked meta_layer q st v)))
                  | inl explicit ↦ rw explicit (elim (Bool-cases q.props.is_meta) [
                    | inl meta ↦ rw meta (
                        on_memory-Ends Inv Inv Bad Stuck found (visit q true (mark meta_layer q st))
                          _
                          (enters q true (mark meta_layer q st) (may on (inl explicit)) meta
                            (keeping.marked meta_layer q st v))
                          (λ result' st' all w v'. returned-Ends result' st' w v'))
                    | inr plain ↦ rw plain (elim (Bool-cases (in_target c q st)) [
                      | inl already ↦ rw already (returned-Ends result st well v)
                      | inr new ↦ rw new (
                          with_flag-Ends found _ (
                            keeping.layer_added depth meta_layer q st (may on (inl explicit)) plain
                              v))
                    ])
                  ])
                ])
        ]

    add_components-Ends :
        (depth : ℕ) (visit : Visit) (names : List CString) (result : VkResult) (found : Bool)
        (st : Activation)
        → Enters depth visit
        → ((name : CString) (q : LayerPointer)
            → any_equal names name ≡ true
            → find_layer_pointer name c.source_list ≡ some q
            → MayComponent depth q)
        → is_out_of_host_memory result ≡ false
        → Inv st
        → Ends Inv Bad Stuck (add_components c visit names result found st)
    unfolding add_components add_component
    add_components-Ends depth visit [] result found st enters may well v =
        returned-Ends result st well v
    add_components-Ends depth visit (name ∷ names) result found st enters may well v =
        on_memory-Ends Inv Inv Bad Stuck found (add_component c visit name result found st) _ first
          (λ result' st' found' w v'.
            add_components-Ends depth visit names result' found' st' enters
              (λ other q m. may other q (ground (arith, m))) w v')
      where
        first : Ends Inv Bad Stuck (add_component c visit name result found st)
        first = elim (Option-cases (find_layer_pointer name c.source_list)) [
          | inl missing ↦ rw (missing, add_component) (returned-Ends result st well v)
          | inr (q, e) ↦
              rw (e, add_component)
                (add_found_component-Ends depth visit q result found st enters
                  (may name q (ground (arith, str_eq_refl name)) e) well v)
        ]

    -- The whole of the recursion through meta-layers.
    pub loader_add_meta_layer-Ends :
        (depth : ℕ) (p : LayerPointer) (out : Bool) (st : Activation)
        → MayAdd depth p
        → p.props.is_meta ≡ true
        → Inv st
        → Ends Inv Bad Stuck (loader_add_meta_layer c depth p out st)
    unfolding loader_add_meta_layer add_complete_meta_layer MayComponent
    loader_add_meta_layer-Ends zero p out st may meta v = keeping.no_fuel p may meta
    loader_add_meta_layer-Ends (suc depth) p out st may meta v =
        on_memory-Ends Inv Inv Bad Stuck out _ (add_complete_meta_layer c p out)
          (add_components-Ends depth (loader_add_meta_layer c depth) p.props.component_layer_names
            success true st (loader_add_meta_layer-Ends depth)
            (λ name q m e. keeping.component depth p q name may meta m e) refl v)
          (λ result st' found q v'. complete found result st' q v')
      where
        complete :
            (found : Bool) (result : VkResult) (st' : Activation)
            → is_out_of_host_memory result ≡ false
            → Inv st'
            → Ends Inv Bad Stuck (add_complete_meta_layer c p out result st' found)
        complete false result st' q v' = returned-Ends result st' q v'
        complete true result st' q v' =
            on_memory-Ends Inv Inv Bad Stuck out _ _
              (keeping.meta_added (suc depth) p st' may meta v')
              (λ result' st'' u w v''. returned-Ends result' st'' w v'')
