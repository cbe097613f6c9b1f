-- ===== src/Activation/TestLayers.antt =====
-- Layers for the tests of the activation.
use vulkan_sc_loader.Base.{ℕ, true, false, none, List, [], ◌∷◌, CString, codes, Heap, map}
use vulkan_sc_loader.Environment.Filter.{no_filter, no_disable_filter}
use vulkan_sc_loader.Layers.{zero_layer}
use vulkan_sc_loader.Activation.{
  EnabledByWhat, unset, LayerPointer, Surroundings, Outcome, returned,
}
use vulkan_sc_loader.Activation.Enabling.{Settings}

abbrev pub validation : LayerPointer
validation = record {
  address = 0;
  props = record zero_layer { layer_name = codes "validation"; is_explicit = true };
}

abbrev pub overlay : LayerPointer
overlay = record { address = 1; props = record zero_layer { layer_name = codes "overlay" } }

abbrev pub tools : LayerPointer
tools = record {
  address = 2;
  props = record zero_layer {
    layer_name = codes "tools";
    is_explicit = true;
    is_meta = true;
    component_layer_names = codes "validation" ∷ codes "overlay" ∷ [];
  };
}

-- A meta-layer with a meta-layer among its components.
abbrev pub suite : LayerPointer
suite = record {
  address = 3;
  props = record zero_layer {
    layer_name = codes "suite";
    is_explicit = true;
    is_meta = true;
    component_layer_names = codes "tools" ∷ [];
  };
}

abbrev pub four_layers : List LayerPointer
four_layers = validation ∷ overlay ∷ tools ∷ suite ∷ []

abbrev pub with_layers : List LayerPointer → Surroundings
with_layers layers = record {
  size = 1600;
  inst = none;
  getenv = λ name. none;
  filters = record {
    enable_filter = no_filter;
    disable_filter = no_disable_filter;
    allow_filter = no_filter;
  };
  source_list = layers;
}

abbrev pub plenty : Heap
plenty = record { answers = []; live = 0 }

abbrev pub no_settings : Settings
no_settings = record { settings_active = false; layer_configurations_active = false }

abbrev pub names_in : List LayerPointer → List CString
names_in = map (λ p. p.props.layer_name)

-- The names in the two lists of what was returned.
abbrev pub listed : Outcome (Unit {0}) → List CString × List CString
listed (returned result st u) =
    (names_in st.target_list.list, names_in st.expanded_target_list.list)
listed _ = ([], [])

abbrev pub no_marks : ℕ → EnabledByWhat
no_marks address = unset

abbrev pub four : Surroundings
four = with_layers four_layers

-- A packed version is taken for its major number.
abbrev pub itself : ℕ → ℕ
itself version = version
