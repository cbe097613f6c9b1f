-- ===== src/Activation/Asked.antt =====
-- loader/loader.c, loader/loader_environment.c and loader/settings.c: why a layer is asked for.
use mathlib.Core.List.{Memᴰ}
use vulkan_sc_loader.Base.{◌≡◌, Bool, true, false, not, ◌&&◌, Option, some, List, CString}
use vulkan_sc_loader.Environment.Match.{check_name_matches_filter_environment_var}
use vulkan_sc_loader.Layers.{any_equal}
use vulkan_sc_loader.Activation.{
  EnabledByWhat, LayerPointer, Surroundings, find_layer_pointer, is_available, implicit_is_enabled,
}
use vulkan_sc_loader.Activation.Requested.{names_of_variable, stands_in}
use vulkan_sc_loader.Activation.Enabling.{Settings, settings_enable}

-- The settings file decides about the layers.
abbrev pub are_configured : Settings → Bool
are_configured settings = settings.settings_active && settings.layer_configurations_active

-- Why a layer of the source list is asked for. If the settings file does not decide, an implicit
-- layer is enabled by the environment and not named by the variable; or the variable names the layer;
-- or it is explicit and matches the enable filter; or it is the first that has a name which the
-- application gave, and is available.
pub data IsRequested (c : Surroundings) (settings : Settings) (env : Option CString)
    (names : List CString) : LayerPointer → Type 0 where
  by_settings :
      {p : LayerPointer} (what : EnabledByWhat)
      → are_configured settings ≡ true
      → Memᴰ p c.source_list
      → settings_enable c env names p ≡ some what
      → IsRequested c settings env names p
  by_default :
      {p : LayerPointer}
      → are_configured settings ≡ false
      → Memᴰ p c.source_list
      → (not p.props.is_explicit && not (stands_in env p.props.layer_name)) ≡ true
      → implicit_is_enabled c p ≡ true
      → IsRequested c settings env names p
  by_variable :
      {p : LayerPointer}
      → are_configured settings ≡ false
      → Memᴰ p c.source_list
      → any_equal (names_of_variable env) p.props.layer_name ≡ true
      → IsRequested c settings env names p
  by_filter :
      {p : LayerPointer}
      → are_configured settings ≡ false
      → Memᴰ p c.source_list
      → p.props.is_explicit ≡ true
      → check_name_matches_filter_environment_var p.props.layer_name c.filters.enable_filter ≡ true
      → IsRequested c settings env names p
  by_application :
      {p : LayerPointer} (name : CString)
      → are_configured settings ≡ false
      → any_equal names name ≡ true
      → find_layer_pointer name c.source_list ≡ some p
      → is_available c p ≡ true
      → IsRequested c settings env names p
