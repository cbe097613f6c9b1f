-- ===== src/Activation/Results.antt =====
-- loader/loader.c and loader/loader_environment.c: the results of the functions that activate layers.
use vulkan_sc_loader.Base.{
  subst, ◌+◌, ◌*◌, leb, ◌==◌, next_answer, later_answers, Heap, ℕ, zero, suc, ◌≡◌, refl, Bool, true,
  false, not, ◌||◌, none, some, List, [], ◌∷◌, CString, VkResult, success, is_success,
  is_out_of_host_memory, Bool-cases, Option-cases, inl, inr,
}
use vulkan_sc_loader.Layers.Lists.{
  struct_bytes, PointerOutcome, PointerLayerList, pointer_size, write_pointer, ensure_pointer_room,
  loader_init_pointer_layer_list, loader_add_layer_properties_to_list,
}
use vulkan_sc_loader.Activation.{
  EnabledByWhat, implicit_layer, meta_layer, LayerPointer, Surroundings, Activation, Outcome,
  returned, fault, too_many, out_of_fuel, most_layers, on_memory, with_flag, find_layer_pointer,
  mark, add_to_target, add_to_expanded, activate_layer, Visit, is_available, implicit_is_enabled,
  in_target, loader_add_implicit_layer, add_found_component, add_component, add_components,
  add_complete_meta_layer, loader_add_meta_layer,
}

abbrev pub is_usual : VkResult → Bool
is_usual result = is_success result || is_out_of_host_memory result

-- Whatever is returned is success or that memory ran out.
abbrev pub Usual : {A : Type 0} → Outcome A → Type 0
Usual (returned result st a) = is_usual result ≡ true
Usual _ = Unit

pub on_memory-Usual :
    {A B : Type 0} (b : B) (o : Outcome A) (k : VkResult → Activation → A → Outcome B)
    → Usual o
    → ((result : VkResult) (st : Activation) (a : A)
        → is_usual result ≡ true
        → Usual (k result st a))
    → Usual (on_memory b o k)
on_memory-Usual b fault k e h = tt
on_memory-Usual b too_many k e h = tt
on_memory-Usual b out_of_fuel k e h = tt
on_memory-Usual b (returned result st a) k e h = elim (Bool-cases (is_out_of_host_memory result)) [
  | inl out ↦ rw out e
  | inr more ↦ rw more (h result st a e)
]

abbrev UsualAddition : PointerOutcome LayerPointer → Type 0
UsualAddition none = Unit
UsualAddition (some (result, h, l)) = is_usual result ≡ true

write_pointer-Usual :
    (h : Heap) (l : PointerLayerList LayerPointer) (p : LayerPointer)
    → UsualAddition (write_pointer h l p)
write_pointer-Usual h l p = elim (Bool-cases (leb ((l.count + 1) * pointer_size) l.capacity)) [
  | inl room ↦ rw room refl
  | inr full ↦ rw full tt
]

ensure_pointer_room-Usual :
    (size : ℕ) (h : Heap) (l : PointerLayerList LayerPointer) (p : LayerPointer)
    → UsualAddition (ensure_pointer_room size h l p)
unfolding ensure_pointer_room
ensure_pointer_room-Usual size h l p =
    elim (Bool-cases (leb l.capacity (struct_bytes (l.count + 1) size))) [
      | inr room ↦ rw room (write_pointer-Usual h l p)
      | inl full ↦ elim (Bool-cases (next_answer h.answers)) [
        | inl ok ↦ rw (full, ok) (write_pointer-Usual _ _ p)
        | inr out ↦ rw (full, out) refl
      ]
    ]

addition-Usual :
    (size : ℕ) (h : Heap) (l : PointerLayerList LayerPointer) (p : LayerPointer)
    → UsualAddition (loader_add_layer_properties_to_list size h l p)
unfolding loader_add_layer_properties_to_list loader_init_pointer_layer_list
addition-Usual size h l p = elim (Bool-cases (not l.allocated || l.capacity == 0)) [
  | inr there ↦ rw there (ensure_pointer_room-Usual size h l p)
  | inl missing ↦ elim (Bool-cases (next_answer h.answers)) [
    | inl ok ↦
        rw (missing, ok)
          (ensure_pointer_room-Usual size
            (record { answers = later_answers h.answers; live = h.live + 1 })
            (record { capacity = 32 * pointer_size; count = 0; allocated = true; list = [] }) p)
    | inr out ↦ rw (missing, out) refl
  ]
]

add_to_target-Usual :
    (size : ℕ) (p : LayerPointer) (st : Activation) → Usual (add_to_target size p st)
unfolding add_to_target
add_to_target-Usual size p st = elim (Bool-cases (leb most_layers st.target_list.count)) [
  | inl many ↦ rw many tt
  | inr few ↦
      elim (Option-cases (loader_add_layer_properties_to_list size st.heap st.target_list p)) [
        | inl beyond ↦ rw (few, beyond) tt
        | inr ((result, h, l), e) ↦
            rw (few, e) (subst UsualAddition e (addition-Usual size st.heap st.target_list p))
      ]
]

add_to_expanded-Usual :
    (size : ℕ) (p : LayerPointer) (st : Activation) → Usual (add_to_expanded size p st)
unfolding add_to_expanded
add_to_expanded-Usual size p st =
    elim (Bool-cases (leb most_layers st.expanded_target_list.count)) [
      | inl many ↦ rw many tt
      | inr few ↦
          elim (Option-cases
            (loader_add_layer_properties_to_list size st.heap st.expanded_target_list p)) [
              | inl beyond ↦ rw (few, beyond) tt
              | inr ((result, h, l), e) ↦
                  rw (few, e)
                    (subst UsualAddition e (addition-Usual size st.heap st.expanded_target_list p))
            ]
    ]

pub activate_layer-Usual :
    (size : ℕ) (what : EnabledByWhat) (p : LayerPointer) (st : Activation)
    → Usual (activate_layer size what p st)
unfolding activate_layer
activate_layer-Usual size what p st =
    on_memory-Usual tt _ _ (add_to_target-Usual size p (mark what p st))
      (λ result st' u e. add_to_expanded-Usual size p st')

module _ (c : Surroundings) where
  with_flag-Usual : {A : Type 0} (flag : Bool) (o : Outcome A) → Usual o → Usual (with_flag flag o)
  with_flag-Usual flag o e = on_memory-Usual flag o _ e (λ result st a q. q)

  abbrev AllUsual : Visit → Type 0
  AllUsual visit = (p : LayerPointer) (out : Bool) (st : Activation) → Usual (visit p out st)

  pub loader_add_implicit_layer-Usual :
      (visit : Visit) (p : LayerPointer) (st : Activation)
      → AllUsual visit
      → Usual (loader_add_implicit_layer c visit p st)
  unfolding loader_add_implicit_layer
  loader_add_implicit_layer-Usual visit p st usual = elim (Bool-cases (implicit_is_enabled c p)) [
    | inr off ↦ rw (off, loader_add_implicit_layer) refl
    | inl on ↦ elim (Bool-cases p.props.is_meta) [
      | inl meta ↦
          rw (on, meta, loader_add_implicit_layer)
            (on_memory-Usual tt (visit p true st) _ (usual p true st) (λ result st' a q. q))
      | inr plain ↦ elim (Bool-cases (in_target c p st)) [
        | inl already ↦ rw (on, plain, already, loader_add_implicit_layer) refl
        | inr new ↦
            rw (on, plain, new, loader_add_implicit_layer)
              (activate_layer-Usual c.size implicit_layer p st)
      ]
    ]
  ]

  add_found_component-Usual :
      (visit : Visit) (q : LayerPointer) (result : VkResult) (found : Bool) (st : Activation)
      → AllUsual visit
      → is_usual result ≡ true
      → Usual (add_found_component c visit q result found st)
  unfolding add_found_component
  add_found_component-Usual visit q result found st usual well =
      elim (Bool-cases (is_available c q)) [
        | inr off ↦ rw (off, add_found_component) well
        | inl on ↦ elim (Bool-cases q.props.is_explicit) [
          | inr implicit ↦
              rw (on, implicit, add_found_component)
                (with_flag-Usual found _
                  (loader_add_implicit_layer-Usual visit q (mark meta_layer q st) usual))
          | inl explicit ↦ elim (Bool-cases q.props.is_meta) [
            | inl meta ↦
                rw (on, explicit, meta, add_found_component)
                  (on_memory-Usual found (visit q true (mark meta_layer q st)) _
                    (usual q true (mark meta_layer q st)) (λ result' st' a e. e))
            | inr plain ↦ elim (Bool-cases (in_target c q st)) [
              | inl already ↦ rw (on, explicit, plain, already, add_found_component) well
              | inr new ↦
                  rw (on, explicit, plain, new, add_found_component)
                    (with_flag-Usual found _ (activate_layer-Usual c.size meta_layer q st))
            ]
          ]
        ]
      ]

  add_components-Usual :
      (visit : Visit) (names : List CString) (result : VkResult) (found : Bool) (st : Activation)
      → AllUsual visit
      → is_usual result ≡ true
      → Usual (add_components c visit names result found st)
  unfolding add_components add_component
  add_components-Usual visit [] result found st usual well = well
  add_components-Usual visit (name ∷ names) result found st usual well =
      on_memory-Usual found (add_component c visit name result found st) _
        (elim (Option-cases (find_layer_pointer name c.source_list)) [
          | inl missing ↦ rw (missing, add_component) well
          | inr (q, e) ↦
              rw (e, add_component) (add_found_component-Usual visit q result found st usual well)
        ])
        (λ result' st' found' e. add_components-Usual visit names result' found' st' usual e)

  pub loader_add_meta_layer-Usual :
      (depth : ℕ) (p : LayerPointer) (out : Bool) (st : Activation)
      → Usual (loader_add_meta_layer c depth p out st)
  unfolding loader_add_meta_layer add_complete_meta_layer
  loader_add_meta_layer-Usual zero p out st = tt
  loader_add_meta_layer-Usual (suc depth) p out st =
      on_memory-Usual out _ (add_complete_meta_layer c p out)
        (add_components-Usual (loader_add_meta_layer c depth) p.props.component_layer_names success
          true st (loader_add_meta_layer-Usual depth) refl)
        (λ result st' found e. complete found result st' e)
    where
      complete :
          (found : Bool) (result : VkResult) (st' : Activation)
          → is_usual result ≡ true
          → Usual (add_complete_meta_layer c p out result st' found)
      complete false result st' e = e
      complete true result st' e =
          on_memory-Usual out _ _ (add_to_target-Usual c.size p (mark meta_layer p st'))
            (λ result' st'' u e'. e')
