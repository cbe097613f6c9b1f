-- ===== src/Layers/Blacklist.antt =====
-- loader/loader.c: which layers the override layer's blacklist removes.
use vulkan_sc_loader.Base.{
  ap, ◌≡◌, refl, sym, ◌∙◌, Bool, false, not, ◌||◌, some, List, [], ◌∷◌, ◌++◌, if◌then◌else◌,
  Bool-cases, append_assoc, append-nil, inl, inr,
}
use vulkan_sc_loader.Layers.{
  LayerProperties, override_layer_name, has_name, loader_find_layer_property,
  loader_find_layer_name_in_blacklist, blacklist_loop, loader_remove_layers_in_blacklist,
}

-- A layer stays if it has the override layer's name or is not in its blacklist.
abbrev pub stays : LayerProperties → LayerProperties → Bool
stays prop l =
    has_name override_layer_name l || not (loader_find_layer_name_in_blacklist l.layer_name prop)

abbrev pub those_that_stay : LayerProperties → List LayerProperties → List LayerProperties
those_that_stay prop [] = []
those_that_stay prop (l ∷ ls) =
    if stays prop l then l ∷ those_that_stay prop ls else those_that_stay prop ls

blacklist_loop-cons :
    (prop cur : LayerProperties) (before after : List LayerProperties)
    → blacklist_loop (some prop) before (cur ∷ after) ≡ (
        if has_name override_layer_name cur
        then blacklist_loop (some prop) (before ++ cur ∷ []) after
        else if loader_find_layer_name_in_blacklist cur.layer_name prop
        then blacklist_loop
            (loader_find_layer_property override_layer_name (before ++ after))
            before
            after
        else blacklist_loop (some prop) (before ++ cur ∷ []) after)
unfolding blacklist_loop
blacklist_loop-cons prop cur before after = refl

-- A layer of another name is passed by in the search.
find-without :
    (before after : List LayerProperties) (cur : LayerProperties)
    → has_name override_layer_name cur ≡ false
    → loader_find_layer_property override_layer_name (before ++ cur ∷ after)
      ≡ loader_find_layer_property override_layer_name (before ++ after)
unfolding loader_find_layer_property
find-without [] after cur other = rw other refl
find-without (l ∷ ls) after cur other = rw (find-without ls after cur other) refl

nothing_left :
    (prop : LayerProperties) (before : List LayerProperties)
    → blacklist_loop (some prop) before [] ≡ some (before ++ [])
unfolding blacklist_loop
nothing_left prop before = rw append-nil refl

blacklist_loop_lem :
    (prop : LayerProperties) (before after : List LayerProperties)
    → loader_find_layer_property override_layer_name (before ++ after) ≡ some prop
    → blacklist_loop (some prop) before after ≡ some (before ++ those_that_stay prop after)
blacklist_loop_lem prop before [] found = nothing_left prop before
blacklist_loop_lem prop before (cur ∷ after) found =
    let kept : blacklist_loop (some prop) (before ++ cur ∷ []) after
        ≡ some (before ++ cur ∷ those_that_stay prop after) =
      blacklist_loop_lem prop (before ++ cur ∷ []) after
        (rw (append_assoc before (cur ∷ []) after) found)
      ∙ ap some (append_assoc before (cur ∷ []) (those_that_stay prop after)) in
    elim (Bool-cases (has_name override_layer_name cur)) [
      | inl own ↦ rw (blacklist_loop-cons prop cur before after, own) kept
      | inr other ↦ elim (Bool-cases (loader_find_layer_name_in_blacklist cur.layer_name prop)) [
        | inl listed ↦
            let found' = sym (find-without before after cur other) ∙ found in
            rw (blacklist_loop-cons prop cur before after, other, listed, found')
              (blacklist_loop_lem prop before after found')
        | inr free ↦ rw (blacklist_loop-cons prop cur before after, other, free) kept
      ]
    ]

-- If there is an override layer, exactly the layers that its blacklist names are removed, itself
-- excepted, and the others keep their order. The blacklist is never read through a null pointer,
-- although the override layer is searched anew after each removal.
pub loader_remove_layers_in_blacklist_lem :
    (layers : List LayerProperties) (prop : LayerProperties)
    → loader_find_layer_property override_layer_name layers ≡ some prop
    → loader_remove_layers_in_blacklist layers ≡ some (those_that_stay prop layers)
unfolding loader_remove_layers_in_blacklist
loader_remove_layers_in_blacklist_lem layers prop found =
    rw (found, loader_remove_layers_in_blacklist) (blacklist_loop_lem prop [] layers found)
