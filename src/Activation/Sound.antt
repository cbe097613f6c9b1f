-- ===== src/Activation/Sound.antt =====
-- loader/loader.c: why a layer is in the lists of activated layers, and how the two lists agree.
use vulkan_sc_loader.Base.{
  subst, sym, ◌^◌, ◌≤◌, ◌<◌, ◌≡◌, ◌⊎◌, refl, true, false, some, List, [], ◌∷◌, ◌++◌, CString,
  if◌then◌else◌, leb, Bool-cases, inl, inr, arith, All, All-append,
}
use vulkan_sc_loader.Layers.{any_equal}
use vulkan_sc_loader.Layers.Lists.{pointer_size}
use vulkan_sc_loader.Layers.Capacity.{Fits, loader_add_layer_properties_to_list-cases}
use vulkan_sc_loader.Activation.{
  most_layers, EnabledByWhat, meta_layer, LayerPointer, Surroundings, Activation,
  find_layer_pointer, mark, add_to_target, add_to_expanded, activate_layer, is_available,
  implicit_is_enabled,
}
use vulkan_sc_loader.Activation.Keeps.{Ends-weaken, on_memory-Ends, Ends}

-- A layer is reached from the roots by going from a meta-layer to the layers that its component
-- names find: they are available, and explicit or enabled by the environment.
pub data Reached (c : Surroundings) (IsRoot : LayerPointer → Type 0) : LayerPointer → Type 0 where
  root : {p : LayerPointer} → IsRoot p → Reached c IsRoot p
  component :
      {p q : LayerPointer} (name : CString)
      → Reached c IsRoot p
      → p.props.is_meta ≡ true
      → any_equal p.props.component_layer_names name ≡ true
      → find_layer_pointer name c.source_list ≡ some q
      → is_available c q ≡ true
      → (q.props.is_explicit ≡ true) ⊎ (implicit_is_enabled c q ≡ true)
      → Reached c IsRoot q

-- The layers of a list that are no meta-layers.
abbrev pub plain_layers : List LayerPointer → List LayerPointer
plain_layers [] = []
plain_layers (p ∷ ps) = if p.props.is_meta then plain_layers ps else p ∷ plain_layers ps

pub plain_layers-append-meta :
    (ps : List LayerPointer) (p : LayerPointer)
    → p.props.is_meta ≡ true
    → plain_layers (ps ++ p ∷ []) ≡ plain_layers ps
plain_layers-append-meta [] p e = rw e refl
plain_layers-append-meta (q ∷ ps) p e = ground (arith, plain_layers-append-meta ps p e)

pub plain_layers-append-plain :
    (ps : List LayerPointer) (p : LayerPointer)
    → p.props.is_meta ≡ false
    → plain_layers (ps ++ p ∷ []) ≡ plain_layers ps ++ p ∷ []
plain_layers-append-plain [] p e = rw e refl
plain_layers-append-plain (q ∷ ps) p e = ground (arith, plain_layers-append-plain ps p e)

module _ (c : Surroundings) (IsRoot : LayerPointer → Type 0) where
  -- Both lists have their arrays, and hold layers that are reached.
  pub record IsLeft (st : Activation) : Type 0 where
    pub target_fits : Fits c.size st.target_list
    pub expanded_fits : Fits c.size st.expanded_target_list
    pub target_reached : All (Reached c IsRoot) st.target_list.list

  -- Besides, the expanded list has the layers of the target list that are no meta-layers, in the same
  -- order.
  pub record IsActivated (st : Activation) : Type 0 where
    pub left : IsLeft st
    pub expanded_is : st.expanded_target_list.list ≡ plain_layers st.target_list.list

  -- The state after a layer was activated.
  pub record IsNext (p : LayerPointer) (before : List LayerPointer) (st : Activation) : Type 0 where
    pub activated : IsActivated st
    pub target_is : st.target_list.list ≡ before ++ p ∷ []

  Reaching : List LayerPointer → Type 0
  Reaching = All (Reached c IsRoot)

  module _ (Stuck : Type 0) (wide : pointer_size ≤ c.size) (limit : c.size < 2 ^ 30) where
    -- A layer goes into the target list: the lists are as after the first half of its activation.
    pub record IsAdded (p : LayerPointer) (st st' : Activation) : Type 0 where
      pub left : IsLeft st'
      pub target_is : st'.target_list.list ≡ st.target_list.list ++ p ∷ []
      pub expanded_same : st'.expanded_target_list ≡ st.expanded_target_list

    add_to_target-Ends :
        (p : LayerPointer) (st : Activation)
        → Reached c IsRoot p
        → IsLeft st
        → Ends (IsAdded p st) IsLeft Stuck (add_to_target c.size p st)
    unfolding add_to_target Reaching
    add_to_target-Ends p st r v = elim (Bool-cases (leb most_layers st.target_list.count)) [
      | inl many ↦ rw many tt
      | inr few ↦
          let (h, l, cases) =
            loader_add_layer_properties_to_list-cases c.size st.heap st.target_list p v.target_fits
              (ground arith) wide limit in
          elim cases [
            | inl (e, list, fits) ↦
                rw (few, e)
                  (record {
                    left = record {
                      target_fits = fits;
                      expanded_fits = v.expanded_fits;
                      target_reached = subst Reaching (sym list) (
                          All-append (Reached c IsRoot) st.target_list.list (p ∷ [])
                            v.target_reached (r, tt));
                    };
                    target_is = list;
                    expanded_same = refl;
                  })
            | inr (e, list, fits) ↦
                rw (few, e)
                  (record {
                    target_fits = fits;
                    expanded_fits = v.expanded_fits;
                    target_reached = subst Reaching (sym list) v.target_reached;
                  })
          ]
    ]

    add_to_expanded-Ends :
        (p : LayerPointer) (st st' : Activation)
        → p.props.is_meta ≡ false
        → IsActivated st
        → IsAdded p st st'
        → Ends (IsNext p st.target_list.list) IsLeft Stuck (add_to_expanded c.size p st')
    unfolding add_to_expanded
    add_to_expanded-Ends p st st' plain v a =
        elim (Bool-cases (leb most_layers st'.expanded_target_list.count)) [
          | inl many ↦ rw many tt
          | inr few ↦
              let (h, l, cases) =
                loader_add_layer_properties_to_list-cases c.size st'.heap st'.expanded_target_list p
                  a.left.expanded_fits (ground arith) wide limit in
              elim cases [
                | inl (e, list, fits) ↦
                    rw (few, e)
                      (record {
                        activated = record {
                          left = record {
                            target_fits = a.left.target_fits;
                            expanded_fits = fits;
                            target_reached = a.left.target_reached;
                          };
                          expanded_is = cc (
                            list,
                            a.expanded_same,
                            a.target_is,
                            v.expanded_is,
                            plain_layers-append-plain st.target_list.list p plain,
                          );
                        };
                        target_is = a.target_is;
                      })
                | inr (e, list, fits) ↦
                    rw (few, e)
                      (record {
                        target_fits = a.left.target_fits;
                        expanded_fits = fits;
                        target_reached = a.left.target_reached;
                      })
              ]
        ]

    pub mark-IsActivated :
        (what : EnabledByWhat) (p : LayerPointer) (st : Activation)
        → IsActivated st
        → IsActivated (mark what p st)
    mark-IsActivated what p st v = record {
      left = record {
        target_fits = v.left.target_fits;
        expanded_fits = v.left.expanded_fits;
        target_reached = v.left.target_reached;
      };
      expanded_is = v.expanded_is;
    }

    pub activate_layer-Ends :
        (what : EnabledByWhat) (p : LayerPointer) (st : Activation)
        → Reached c IsRoot p
        → p.props.is_meta ≡ false
        → IsActivated st
        → Ends (IsNext p st.target_list.list) IsLeft Stuck (activate_layer c.size what p st)
    unfolding activate_layer
    activate_layer-Ends what p st r plain v =
        let v' = mark-IsActivated what p st v in
        on_memory-Ends (IsAdded p (mark what p st)) (IsNext p st.target_list.list) IsLeft Stuck tt _
          _ (add_to_target-Ends p (mark what p st) r v'.left)
          (λ result st' a q added. add_to_expanded-Ends p (mark what p st) st' plain v' added)

    pub meta_added-Ends :
        (p : LayerPointer) (st : Activation)
        → Reached c IsRoot p
        → p.props.is_meta ≡ true
        → IsActivated st
        → Ends
            (IsNext p st.target_list.list)
            IsLeft
            Stuck
            (add_to_target c.size p (mark meta_layer p st))
    meta_added-Ends p st r meta v =
        let v' = mark-IsActivated meta_layer p st v in
        Ends-weaken (IsAdded p (mark meta_layer p st)) (IsNext p st.target_list.list) IsLeft IsLeft
          Stuck _
          (λ st' a. record {
            activated = record {
              left = a.left;
              expanded_is = cc (
                a.expanded_same,
                a.target_is,
                v.expanded_is,
                plain_layers-append-meta st.target_list.list p meta,
              );
            };
            target_is = a.target_is;
          })
          (λ st' l. l) (add_to_target-Ends p (mark meta_layer p st) r v'.left)
