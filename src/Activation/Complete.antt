-- ===== src/Activation/Complete.antt =====
-- loader/loader.c: the layers that the application names are activated.
use mathlib.Core.List.{Memᴰ}
use vulkan_sc_loader.Activation.Verification.Searches.{find_layer_pointer-Memᴰ}
use vulkan_sc_loader.Base.{
  ℕ, ◌^◌, ◌≤◌, ◌<◌, ◌≡◌, refl, false≢true, true, false, some, List, [], ◌∷◌, ◌++◌, CString, str_eq,
  Bool-cases, inl, inr, arith, VkResult, success, is_out_of_host_memory, sym, subst, str_eq_iff,
}
use vulkan_sc_loader.Layers.{any_equal}
use vulkan_sc_loader.Layers.Lists.{pointer_size}
use vulkan_sc_loader.Activation.{
  LayerPointer, Surroundings, Activation, Outcome, find_layer_pointer,
  loader_find_layer_name_in_list, is_available, in_application_api,
}
use vulkan_sc_loader.Activation.Requested.{
  add_requested, add_layer_name, add_layer_names, loader_add_layer_names_to_list,
}
use vulkan_sc_loader.Activation.Keeps.{Ends, Keeping, Ends-weaken, on_memory-Ends, returned-Ends}
use vulkan_sc_loader.Activation.Sound.{
  Reached, IsLeft, IsActivated, IsNext, activate_layer-Ends, meta_added-Ends,
}
use vulkan_sc_loader.Activation.Requests.{add_layer_name-Ends, add_layer_names-Ends}
use vulkan_sc_loader.Activation.Correct.{IsGrounded, MayAddGrounded, total}

pub in_list-append :
    (name : CString) (ps : List LayerPointer) (p : LayerPointer)
    → loader_find_layer_name_in_list name ps ≡ true
    → loader_find_layer_name_in_list name (ps ++ p ∷ []) ≡ true
unfolding loader_find_layer_name_in_list find_layer_pointer
in_list-append name [] p e = absurd (false≢true e)
in_list-append name (q ∷ ps) p e = ground (arith, in_list-append name ps p)

in_list-new :
    (name : CString) (ps : List LayerPointer) (p : LayerPointer)
    → str_eq name p.props.layer_name ≡ true
    → loader_find_layer_name_in_list name (ps ++ p ∷ []) ≡ true
unfolding loader_find_layer_name_in_list find_layer_pointer
in_list-new name [] p e = ground arith
in_list-new name (q ∷ ps) p e = ground (arith, in_list-new name ps p e)

found-has-name :
    (name : CString) (ps : List LayerPointer) (p : LayerPointer)
    → find_layer_pointer name ps ≡ some p
    → str_eq name p.props.layer_name ≡ true
unfolding find_layer_pointer
found-has-name name [] p e = cc
found-has-name name (q ∷ ps) p e = ground (arith, found-has-name name ps p)

-- The lists are as they should be and a layer with the name is among the activated ones.
pub record Has (c : Surroundings) (IsRoot : LayerPointer → Type 0) (name : CString)
    (st : Activation) : Type 0 where
  pub activated : IsActivated c IsRoot st
  pub listed : loader_find_layer_name_in_list name st.target_list.list ≡ true

module _ (c : Surroundings) (IsRoot : LayerPointer → Type 0) (wide : pointer_size ≤ c.size)
    (limit : c.size < 2 ^ 30) (name : CString) where
  keep_listed :
      (p : LayerPointer) (st : Activation) (o : Outcome (Unit {0}))
      → Has c IsRoot name st
      → Ends (IsNext c IsRoot p st.target_list.list) (IsLeft c IsRoot) ⊥ o
      → Ends (Has c IsRoot name) (IsLeft c IsRoot) ⊥ o
  keep_listed p st o v =
      Ends-weaken (IsNext c IsRoot p st.target_list.list) (Has c IsRoot name) (IsLeft c IsRoot)
        (IsLeft c IsRoot) ⊥ o
        (λ st' n. record {
          activated = n.activated;
          listed = rw n.target_is (in_list-append name st.target_list.list p v.listed);
        })
        (λ st' l. l)

  -- A layer that is activated stays so.
  keeping_listed :
      Keeping (Has c IsRoot name) (IsLeft c IsRoot) ⊥ c (MayAddGrounded c IsRoot wide limit)
  keeping_listed =
      let keeping = total c IsRoot wide limit in
      record {
        no_fuel = keeping.no_fuel;
        component = keeping.component;
        marked = λ what p st v. record {
          activated = keeping.marked what p st v.activated;
          listed = v.listed;
        };
        layer_added = λ depth what p st r plain v.
            keep_listed p st _ v
              (activate_layer-Ends c IsRoot ⊥ wide limit what p st r.0 plain v.activated);
        meta_added = λ depth p st r meta v.
            keep_listed p st _ v (meta_added-Ends c IsRoot ⊥ wide limit p st r.0 meta v.activated);
      }

  -- The round for the name.
  add_layer_name-lists :
      (depth : ℕ) (p : LayerPointer) (err : VkResult) (st : Activation)
      → IsRoot p
      → find_layer_pointer name c.source_list ≡ some p
      → is_available c p ≡ true
      → p.props.is_meta ≡ false
      → is_out_of_host_memory err ≡ false
      → IsActivated c IsRoot st
      → Ends (Has c IsRoot name) (IsLeft c IsRoot) ⊥ (add_layer_name c depth name err st)
  unfolding add_layer_name add_requested
  add_layer_name-lists depth p err st r found on plain well v =
      elim (Bool-cases (loader_find_layer_name_in_list name st.target_list.list)) [
        | inl already ↦
            rw (found, already, add_layer_name)
              (returned-Ends (Has c IsRoot name) (IsLeft c IsRoot) ⊥ err st well
                (record { activated = v; listed = already }))
        | inr new ↦
            rw (found, new, on, plain, add_layer_name, add_requested)
              (Ends-weaken (IsNext c IsRoot p st.target_list.list) (Has c IsRoot name)
                (IsLeft c IsRoot) (IsLeft c IsRoot) ⊥ _
                (λ st' n. record {
                  activated = n.activated;
                  listed = rw n.target_is (
                      in_list-new name st.target_list.list p
                        (found-has-name name c.source_list p found));
                })
                (λ st' l. l)
                (activate_layer-Ends c IsRoot ⊥ wide limit in_application_api p st (Reached.root r)
                  plain v))
      ]

  add_layer_names-lists :
      (depth : ℕ) (p : LayerPointer) (names : List CString) (err : VkResult) (st : Activation)
      → ((q : LayerPointer) → IsRoot q)
      → ((q : LayerPointer) → Memᴰ q c.source_list → q.props.is_meta ≡ true → IsGrounded c depth q)
      → any_equal names name ≡ true
      → find_layer_pointer name c.source_list ≡ some p
      → is_available c p ≡ true
      → p.props.is_meta ≡ false
      → is_out_of_host_memory err ≡ false
      → IsActivated c IsRoot st
      → Ends (Has c IsRoot name) (IsLeft c IsRoot) ⊥ (add_layer_names c depth names err st)
  unfolding add_layer_names
  add_layer_names-lists depth p [] err st roots low named found on plain well v =
      absurd (false≢true named)
  add_layer_names-lists depth p (x ∷ names) err st roots low named found on plain well v =
      elim (Bool-cases (str_eq x name)) [
        | inl same ↦
            let here : name ≡ x = sym ((str_eq_iff x name).0 same) in
            on_memory-Ends (Has c IsRoot name) (Has c IsRoot name) (IsLeft c IsRoot) ⊥ tt _ _
              (subst
                (λ y.
                  Ends (Has c IsRoot name) (IsLeft c IsRoot) ⊥ (add_layer_name c depth y err st))
                here (add_layer_name-lists depth p err st (roots p) found on plain well v))
              (λ err' st' u q h.
                add_layer_names-Ends (Has c IsRoot name) (IsLeft c IsRoot) ⊥ c keeping_listed depth
                  names err' st'
                  (λ other q' m f a. (
                    Reached.root (roots q'),
                    low q' (find_layer_pointer-Memᴰ other c.source_list q' f),
                  ))
                  q h)
        | inr other ↦
            on_memory-Ends (IsActivated c IsRoot) (Has c IsRoot name) (IsLeft c IsRoot) ⊥ tt _ _
              (add_layer_name-Ends (IsActivated c IsRoot) (IsLeft c IsRoot) ⊥ c
                (total c IsRoot wide limit) depth x err st
                (λ q' f a.
                  (Reached.root (roots q'), low q' (find_layer_pointer-Memᴰ x c.source_list q' f)))
                well v)
              (λ err' st' u q h.
                add_layer_names-lists depth p names err' st' roots low (ground (arith, other)) found
                  on plain q h)
      ]

-- For any roots, from any state.
pub loader_add_layer_names_to_list-lists :
    (c : Surroundings) (depth : ℕ) (names : List CString) (name : CString) (p : LayerPointer)
    (st : Activation)
    → pointer_size ≤ c.size
    → c.size < 2 ^ 30
    → ((q : LayerPointer) → Memᴰ q c.source_list → q.props.is_meta ≡ true → IsGrounded c depth q)
    → any_equal names name ≡ true
    → find_layer_pointer name c.source_list ≡ some p
    → is_available c p ≡ true
    → p.props.is_meta ≡ false
    → IsActivated c (λ q. Unit) st
    → Ends
        (Has c (λ q. Unit) name)
        (IsLeft c (λ q. Unit))
        ⊥
        (loader_add_layer_names_to_list c depth names st)
loader_add_layer_names_to_list-lists c depth names name p st wide limit low named found on plain v =
    add_layer_names-lists c (λ q. Unit) wide limit name depth p names success st (λ q. tt) low named
      found on plain refl v
