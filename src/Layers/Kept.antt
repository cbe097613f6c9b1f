-- ===== src/Layers/Kept.antt =====
-- loader/loader.c: which layers stay beside implicit meta-layers.
use vulkan_sc_loader.Base.{
  or_assoc, subst, ℕ, ◌+◌, ◌<◌, ◌≡◌, refl, sym, ◌∙◌, Bool, true, false, not, ◌&&◌, ◌||◌, List, [],
  ◌∷◌, ◌++◌, CString, if◌then◌else◌, ◌==◌, arith, length, append_assoc, length-append,
}
use vulkan_sc_loader.Layers.{LayerProperties, any_equal}
use vulkan_sc_loader.Layers.MetaLayers.{
  in_other_meta_layer, mark_layers, remove_unmarked,
  loader_remove_layers_not_in_implicit_meta_layers,
}

-- A meta-layer of the list has the name among its components.
abbrev pub named_by_meta : CString → List LayerProperties → Bool
named_by_meta name [] = false
named_by_meta name (l ∷ ls) =
    (l.is_meta && any_equal l.component_layer_names name) || named_by_meta name ls

-- The layers that are implicit or that a meta-layer before or behind them names.
abbrev pub kept : List LayerProperties → List LayerProperties → List LayerProperties
kept before [] = []
kept before (l ∷ after) =
    if not l.is_explicit || named_by_meta l.layer_name before || named_by_meta l.layer_name after
    then l ∷ kept (before ++ l ∷ []) after
    else kept (before ++ l ∷ []) after

in_other-beyond :
    (i : ℕ) (name : CString) (ls : List LayerProperties) (j : ℕ)
    → i < j
    → in_other_meta_layer i name ls j ≡ named_by_meta name ls
unfolding in_other_meta_layer
in_other-beyond i name [] j h = refl
in_other-beyond i name (l ∷ ls) j h = ground (arith, in_other-beyond i name ls (j + 1))

in_other-cons :
    (i : ℕ) (name : CString) (l : LayerProperties) (ls : List LayerProperties) (j : ℕ)
    → in_other_meta_layer i name (l ∷ ls) j ≡ (
        if i == j
        then in_other_meta_layer i name ls (j + 1)
        else (l.is_meta && any_equal l.component_layer_names name)
          || in_other_meta_layer i name ls (j + 1))
unfolding in_other_meta_layer
in_other-cons i name l ls j = refl

in_other-split :
    (i : ℕ) (name : CString) (before : List LayerProperties) (l : LayerProperties)
    → (after : List LayerProperties) (j : ℕ) → j + length before ≡ i
    → in_other_meta_layer i name (before ++ l ∷ after) j
      ≡ (named_by_meta name before || named_by_meta name after)
in_other-split i name [] l after j e =
    let same : (i == j) ≡ true = ground arith in
    rw (in_other-cons i name l after j, same) (in_other-beyond i name after (j + 1) (omega arith))
in_other-split i name (b ∷ before) l after j e =
    let differs : (i == j) ≡ false = ground arith in
    let rest = in_other-split i name before l after (j + 1) (omega arith) in
    rw (in_other-cons i name b (before ++ l ∷ after) j, differs, rest)
      (sym (
        or_assoc (b.is_meta && any_equal b.component_layer_names name) (named_by_meta name before)
          (named_by_meta name after)))

mark-cons :
    (layers : List LayerProperties) (l : LayerProperties) (ls : List LayerProperties) (i : ℕ)
    → remove_unmarked (mark_layers layers (l ∷ ls) i) ≡ (
        let rest = remove_unmarked (mark_layers layers ls (i + 1)) in
        if not (if not l.is_explicit then true else in_other_meta_layer i l.layer_name layers 0)
        then rest
        else l ∷ rest)
unfolding remove_unmarked mark_layers
mark-cons layers l ls i = refl

mark-nil : (layers : List LayerProperties) (i : ℕ) → remove_unmarked (mark_layers layers [] i) ≡ []
unfolding remove_unmarked mark_layers
mark-nil layers i = refl

mark_lem :
    (layers before after : List LayerProperties) (i : ℕ)
    → layers ≡ before ++ after
    → i ≡ length before
    → remove_unmarked (mark_layers layers after i) ≡ kept before after
mark_lem layers before [] i e at = mark-nil layers i
mark_lem layers before (l ∷ after) i e at =
    let others : in_other_meta_layer i l.layer_name layers 0
        ≡ (named_by_meta l.layer_name before || named_by_meta l.layer_name after) =
      subst
        (λ ls.
          in_other_meta_layer i l.layer_name ls 0
          ≡ (named_by_meta l.layer_name before || named_by_meta l.layer_name after))
        (sym e) (in_other-split i l.layer_name before l after 0 (omega arith)) in
    let rest =
      mark_lem layers (before ++ l ∷ []) after (i + 1)
        (e ∙ sym (append_assoc before (l ∷ []) after))
        (omega (arith, length-append before (l ∷ []))) in
    rw (mark-cons layers l after i, others, rest) (ground arith)

-- Exactly the layers stay that are implicit or that some other layer of the list, a meta-layer whether
-- implicit or explicit, has among its components; they keep their order. The comment on the function
-- speaks of implicit meta-layers only.
pub loader_remove_layers_not_in_implicit_meta_layers_lem :
    (layers : List LayerProperties)
    → loader_remove_layers_not_in_implicit_meta_layers layers ≡ kept [] layers
unfolding loader_remove_layers_not_in_implicit_meta_layers
loader_remove_layers_not_in_implicit_meta_layers_lem layers = mark_lem layers [] layers 0 refl refl
