-- ===== src/Layers/MetaLayers.antt =====
-- loader/loader.c: the layers that stay beside implicit meta-layers.
use vulkan_sc_loader.Base.{
  ℕ, ◌+◌, Bool, true, false, not, ◌&&◌, ◌||◌, List, [], ◌∷◌, CString, if◌then◌else◌, ◌==◌,
}
use vulkan_sc_loader.Layers.{LayerProperties, any_equal}

-- A layer with its mark `keep`.
pub record Marked : Type 0 where
  pub properties : LayerProperties
  pub keep : Bool

-- The inner loop over `j`, for the layer at the index `i`: whether another layer is a meta-layer that
-- has the name among its components.
unfoldable pub in_other_meta_layer : ℕ → CString → List LayerProperties → ℕ → Bool
in_other_meta_layer i name [] j = false
in_other_meta_layer i name (l ∷ ls) j =
    let rest = in_other_meta_layer i name ls (j + 1) in
    if i == j then rest else (l.is_meta && any_equal l.component_layer_names name) || rest

-- The loop over `i` that marks the layers.
unfoldable pub mark_layers : List LayerProperties → List LayerProperties → ℕ → List Marked
unfolding in_other_meta_layer
mark_layers layers [] i = []
mark_layers layers (l ∷ ls) i =
    record {
      properties = l;
      keep = (if not l.is_explicit then true else in_other_meta_layer i l.layer_name layers 0);
    }
    ∷ mark_layers layers ls (i + 1)

-- The loop that removes: after a removal the same index is looked at again.
unfoldable pub remove_unmarked : List Marked → List LayerProperties
remove_unmarked [] = []
remove_unmarked (m ∷ ms) =
    let rest = remove_unmarked ms in if not m.keep then rest else m.properties ∷ rest

unfoldable pub loader_remove_layers_not_in_implicit_meta_layers :
    List LayerProperties → List LayerProperties
unfolding mark_layers remove_unmarked
loader_remove_layers_not_in_implicit_meta_layers layers =
    remove_unmarked (mark_layers layers layers 0)
