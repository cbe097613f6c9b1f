-- ===== src/Settings.antt =====
-- loader/settings.c: how the layers that the settings file configures are combined with the layers
-- that the loader finds by itself.
pub mod Names
pub mod Picks
pub mod Loops
pub mod Location
pub mod Combined
pub mod Equality
pub mod EqualityLaws
mod Tests
use vulkan_sc_loader.Base.{
  ◌^◌, ◌%◌, ℕ, ◌+◌, ◌*◌, Bool, true, false, not, ◌&&◌, ◌||◌, Option, none, some, List, [], ◌∷◌,
  ◌++◌, CString, str_eq, ◌==◌, if◌then◌else◌, VkResult, success, Heap, is_success,
}
use vulkan_sc_loader.Layers.{
  LayerProperties, LayerControl, control_default, control_on, control_off, unordered_layer_location,
}
use vulkan_sc_loader.Layers.Lists.{
  LayerList, no_layers, init_layer_list, loader_append_layer_property,
}

abbrev pub is_off : LayerControl → Bool
is_off control_off = true
is_off _ = false

abbrev pub is_location : LayerControl → Bool
is_location unordered_layer_location = true
is_location _ = false

-- The comparison of the library paths, if both layers have one; otherwise the search goes on.
abbrev pub same_library : Option CString → Option CString → Bool → Bool
same_library (some a) (some b) next = str_eq a b
same_library (some a) none next = next
same_library none b next = next

unfoldable pub check_if_layer_is_in_list : List LayerProperties → LayerProperties → Bool → Bool
check_if_layer_is_in_list [] layer_property consider_lib_path = false
check_if_layer_is_in_list (l ∷ ls) layer_property consider_lib_path =
    let next = check_if_layer_is_in_list ls layer_property consider_lib_path in
    if str_eq l.layer_name layer_property.layer_name
    then (if is_off l.settings_control_value
        then true
        else if layer_property.is_meta
        then true
        else if not consider_lib_path
        then true
        else same_library l.lib_name layer_property.lib_name next)
    else next

-- The results with the heap, the output and what else is carried along; `none` is a write beyond the
-- output's array.
abbrev pub Combining : Type 0 → Type 0
Combining B = Option (VkResult × Heap × LayerList × B)

abbrev pub and_then :
    {A B : Type 0}
    → Combining A
    → (Heap → LayerList → A → Combining B)
    → (VkResult → Heap → LayerList → Combining B)
    → Combining B
and_then none next stop = none
and_then (some (res, h, out, a)) next stop = if is_success res then next h out a else stop res h out

-- A loop over a part of the settings' layers. A layer that is added is zeroed in its own list, of
-- which `seen` is the part that the loop has passed.
unfoldable pub settings_loop :
    ℕ
    → List LayerProperties
    → List LayerProperties
    → Heap
    → LayerList
    → Combining (List LayerProperties)
unfolding check_if_layer_is_in_list loader_append_layer_property
settings_loop size seen [] h out = some (success, h, out, seen)
settings_loop size seen (s ∷ settings) h out =
    let listed = settings_loop size (seen ++ s ∷ []) settings h out in
    let added =
      and_then (loader_append_layer_property size h out s)
        (λ h' out' left. settings_loop size (seen ++ left ∷ []) settings h' out')
        (λ res h' out'. some (res, h', out', [])) in
    if check_if_layer_is_in_list out.list s true then listed else added

-- The loop over the regular layers.
unfoldable pub regular_loop :
    ℕ → List LayerProperties → List LayerProperties → Heap → LayerList → Combining Unit
unfolding check_if_layer_is_in_list loader_append_layer_property
regular_loop size settings [] h out = some (success, h, out, tt)
regular_loop size settings (r ∷ regular) h out =
    let ordered = regular_loop size settings regular h out in
    let added =
      and_then (loader_append_layer_property size h out r)
        (λ h' out' left. regular_loop size settings regular h' out')
        (λ res h' out'. some (res, h', out', tt)) in
    if check_if_layer_is_in_list out.list r false || check_if_layer_is_in_list settings r false
    then ordered
    else added

-- The settings' layers before the first location entry, that entry, and those behind it.
unfoldable pub split_at_location :
    List LayerProperties → Option (List LayerProperties × LayerProperties × List LayerProperties)
split_at_location [] = none
split_at_location (s ∷ settings) =
    if is_location s.settings_control_value
    then some ([], s, settings)
    else elim (split_at_location settings) [
      | none ↦ none
      | some (before, location, after) ↦ some (s ∷ before, location, after)
    ]

-- The three loops; if one fails the output is deleted.
unfoldable pub combine_in_order :
    ℕ
    → List LayerProperties
    → LayerProperties
    → List LayerProperties
    → List LayerProperties
    → Heap
    → LayerList
    → Combining Unit
unfolding settings_loop regular_loop
combine_in_order size before location after regular h out =
    let deleted : VkResult → Heap → LayerList → Combining Unit =
      λ res h' out'. some (res, h', no_layers, tt) in
    and_then (settings_loop size [] before h out)
      (λ h1 out1 seen.
        and_then (regular_loop size (seen ++ location ∷ after) regular h1 out1)
          (λ h2 out2 done.
            and_then (settings_loop size [] after h2 out2)
              (λ h3 out3 seen'. some (success, h3, out3, tt)) deleted)
          deleted)
      deleted

abbrev pub combine_split :
    ℕ
    → Heap
    → LayerList
    → LayerList
    → Option (List LayerProperties × LayerProperties × List LayerProperties)
    → Combining Unit
combine_split size h settings regular none = some (success, h, settings, tt)
combine_split size h settings regular (some (before, location, after)) =
    let (res, h', out) = init_layer_list ((settings.count + regular.count) % 2 ^ 32 * size) h in
    if regular.count == 0
    then some (success, h, settings, tt)
    else if is_success res
    then combine_in_order size before location after regular.list h' out
    else some (res, h', no_layers, tt)

-- The output is given as the result has it; the two lists that are passed are emptied or freed.
unfoldable pub combine_settings_layers_with_regular_layers :
    ℕ → Heap → LayerList → LayerList → LayerList → Combining Unit
unfolding init_layer_list combine_in_order split_at_location
combine_settings_layers_with_regular_layers size h settings_layers regular_layers output_layers =
    if settings_layers.count == 0 && regular_layers.count == 0
    then some (success, h, output_layers, tt)
    else if settings_layers.count == 0
    then some (success, h, regular_layers, tt)
    else combine_split size h settings_layers regular_layers
        (split_at_location settings_layers.list)
