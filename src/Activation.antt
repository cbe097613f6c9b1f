-- ===== src/Activation.antt =====
-- loader/loader.c, with loader/loader_common.h: the activation of layers. The lists that are built
-- hold pointers into the list of the layers that were found.

pub mod Requested
pub mod Names
pub mod Enabling
pub mod Keeps
pub mod Asked
pub mod Requests
pub mod Correct
pub mod Complete
pub mod Results
pub mod ListResults
pub mod Validation
pub mod Verification
pub mod Verified
pub mod Flags
pub mod ExtensionChecks
pub mod TestLayers
pub mod Cases
mod Tests
pub mod Sound
use vulkan_sc_loader.Base.{
  ℕ, zero, suc, ◌^◌, Bool, true, false, Option, none, some, List, [], ◌∷◌, CString, leb, ◌==◌,
  if◌then◌else◌, VkResult, success, is_out_of_host_memory, Heap,
}
use vulkan_sc_loader.Environment.Filter.{Environ, AllFilters}
use vulkan_sc_loader.Layers.{LayerProperties, has_name}
use vulkan_sc_loader.Layers.Filters.{
  Instance, loader_layer_is_available, loader_implicit_layer_is_enabled,
}
use vulkan_sc_loader.Layers.Lists.{PointerLayerList, loader_add_layer_properties_to_list}

-- loader/loader_common.h: what caused a layer to be activated.
pub data EnabledByWhat : Type 0 where
  unset loader_settings_file implicit_layer vk_instance_layers : EnabledByWhat
  vk_loader_layers_enable in_application_api meta_layer : EnabledByWhat

-- A pointer is its address with what is there, but for `enabled_by_what`, which alone is written.
pub record LayerPointer : Type 0 where
  pub address : ℕ
  pub props : LayerProperties

-- What does not change while layers are activated. The size is that of the struct for a layer.
pub record Surroundings : Type 0 where
  pub size : ℕ
  pub inst : Option Instance
  pub getenv : Environ
  pub filters : AllFilters
  pub source_list : List LayerPointer

-- Every caller passes a list of the expanded layers, so that the tests of it for NULL always pass.
pub record Activation : Type 0 where
  pub heap : Heap
  pub enabled_by_what : ℕ → EnabledByWhat
  pub target_list : PointerLayerList LayerPointer
  pub expanded_target_list : PointerLayerList LayerPointer

-- The outcome `fault` is a write beyond an array. The model stops with `too_many` before a list has
-- more than `most_layers` entries.
pub data Outcome (A : Type 0) : Type 0 where
  returned : VkResult → Activation → A → Outcome A
  fault too_many out_of_fuel : Outcome A

abbrev pub most_layers : ℕ
most_layers = 2 ^ 31

abbrev pub ran_out :
    {A B : Type 0}
    → B
    → (VkResult → Activation → A → Outcome B)
    → VkResult
    → Activation
    → A
    → Outcome B
ran_out b k result st a =
    if is_out_of_host_memory result then returned result st b else k result st a

-- `if (result == VK_ERROR_OUT_OF_HOST_MEMORY) return result;` after a call, and what follows.
abbrev pub on_memory :
    {A B : Type 0} → B → Outcome A → (VkResult → Activation → A → Outcome B) → Outcome B
on_memory b (returned result st a) k = ran_out b k result st a
on_memory b fault k = fault
on_memory b too_many k = too_many
on_memory b out_of_fuel k = out_of_fuel

abbrev pub with_flag : {A : Type 0} → Bool → Outcome A → Outcome Bool
with_flag flag o = on_memory flag o (λ result st a. returned result st flag)

abbrev pub without_flag : Outcome Bool → Outcome (Unit {0})
without_flag o = on_memory tt o (λ result st a. returned result st tt)

unfoldable pub find_layer_pointer : CString → List LayerPointer → Option LayerPointer
find_layer_pointer name [] = none
find_layer_pointer name (p ∷ ps) =
    if has_name name p.props then some p else find_layer_pointer name ps

unfoldable pub loader_find_layer_name_in_list : CString → List LayerPointer → Bool
unfolding find_layer_pointer
loader_find_layer_name_in_list name ps = elim (find_layer_pointer name ps) [
  | none ↦ false
  | some p ↦ true
]

abbrev pub mark : EnabledByWhat → LayerPointer → Activation → Activation
mark what p st = record st {
  enabled_by_what = λ address. if address == p.address then what else st.enabled_by_what address;
}

unfoldable pub add_to_target : ℕ → LayerPointer → Activation → Outcome (Unit {0})
add_to_target size p st =
    if leb most_layers st.target_list.count
    then too_many
    else elim (loader_add_layer_properties_to_list size st.heap st.target_list p) [
      | none ↦ fault
      | some (result, h, l) ↦ returned result (record st { heap = h; target_list = l }) tt
    ]

unfoldable pub add_to_expanded : ℕ → LayerPointer → Activation → Outcome (Unit {0})
add_to_expanded size p st =
    if leb most_layers st.expanded_target_list.count
    then too_many
    else elim (loader_add_layer_properties_to_list size st.heap st.expanded_target_list p) [
      | none ↦ fault
      | some (result, h, l) ↦ returned result (record st { heap = h; expanded_target_list = l }) tt
    ]

-- A layer that is no meta-layer goes into both lists.
unfoldable pub activate_layer : ℕ → EnabledByWhat → LayerPointer → Activation → Outcome (Unit {0})
unfolding add_to_target add_to_expanded
activate_layer size what p st =
    on_memory tt (add_to_target size p (mark what p st))
      (λ result st' u. add_to_expanded size p st')

-- How the functions below enter a meta-layer: with what `*out_found_all_component_layers` holds, and
-- what it holds after. A caller that passes NULL ignores it.
abbrev pub Visit : Type 0
Visit = LayerPointer → Bool → Activation → Outcome Bool

module _ (c : Surroundings) where
  abbrev pub is_available : LayerPointer → Bool
  is_available p = loader_layer_is_available c.filters p.props

  abbrev pub implicit_is_enabled : LayerPointer → Bool
  implicit_is_enabled p = loader_implicit_layer_is_enabled c.inst c.getenv c.filters p.props

  abbrev pub in_target : LayerPointer → Activation → Bool
  in_target p st = loader_find_layer_name_in_list p.props.layer_name st.target_list.list

  unfoldable pub loader_add_implicit_layer : Visit → LayerPointer → Activation → Outcome (Unit {0})
  unfolding activate_layer
  loader_add_implicit_layer visit p st = elim (implicit_is_enabled p) [
    | true ↦ elim p.props.is_meta [
      | false ↦
          if in_target p st
          then returned success st tt
          else activate_layer c.size implicit_layer p st
      | true ↦ without_flag (visit p true st)
    ]
    | false ↦ returned success st tt
  ]

  -- One round of the loop over the component layers, for a layer that was found. The comparison of
  -- the versions is only logged.
  unfoldable pub add_found_component :
      Visit → LayerPointer → VkResult → Bool → Activation → Outcome Bool
  unfolding activate_layer loader_add_implicit_layer
  add_found_component visit q result found st = elim (is_available q) [
    | false ↦ returned result st found
    | true ↦ elim q.props.is_explicit [
      | false ↦ with_flag found (loader_add_implicit_layer visit q (mark meta_layer q st))
      | true ↦ elim q.props.is_meta [
        | true ↦
            on_memory found (visit q true (mark meta_layer q st))
              (λ result' st' all. returned result' st' (if all then found else false))
        | false ↦
            if in_target q st
            then returned result st found
            else with_flag found (activate_layer c.size meta_layer q st)
      ]
    ]
  ]

  unfoldable pub add_component : Visit → CString → VkResult → Bool → Activation → Outcome Bool
  unfolding find_layer_pointer add_found_component
  add_component visit name result found st = elim (find_layer_pointer name c.source_list) [
    | none ↦ returned result st false
    | some q ↦ add_found_component visit q result found st
  ]

  unfoldable pub add_components : Visit → List CString → VkResult → Bool → Activation → Outcome Bool
  unfolding add_component
  add_components visit [] result found st = returned result st found
  add_components visit (name ∷ names) result found st =
      on_memory found (add_component visit name result found st)
        (λ result' st' found'. add_components visit names result' found' st')

  -- What follows the loop.
  unfoldable pub add_complete_meta_layer :
      LayerPointer → Bool → VkResult → Activation → Bool → Outcome Bool
  unfolding add_to_target
  add_complete_meta_layer p out result st found = elim found [
    | true ↦
        on_memory out (add_to_target c.size p (mark meta_layer p st))
          (λ result' st' u. returned result' st' true)
    | false ↦ returned result st out
  ]

  -- The fuel bounds how deep meta-layers are components of each other.
  unfoldable pub loader_add_meta_layer : ℕ → LayerPointer → Bool → Activation → Outcome Bool
  unfolding add_components add_complete_meta_layer
  loader_add_meta_layer zero p out st = out_of_fuel
  loader_add_meta_layer (suc depth) p out st =
      on_memory out
        (add_components (loader_add_meta_layer depth) p.props.component_layer_names success true st)
        (add_complete_meta_layer p out)
