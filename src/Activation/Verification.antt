-- ===== src/Activation/Verification.antt =====
-- loader/loader.c: whether a meta-layer and its components, through all its meta-layers, are valid.
-- The macros of the Vulkan headers that take a version apart are parameters, as for the versions.
pub mod Searches
pub mod Unchecked
pub mod Depth
use vulkan_sc_loader.Base.{
  ℕ, zero, suc, ◌+◌, Bool, true, false, not, Option, none, some, List, [], ◌∷◌, CString, str_eq,
  set, get_or, replicate, length, if◌then◌else◌,
}
use vulkan_sc_loader.Layers.{LayerProperties}
use vulkan_sc_loader.Versions.{loader_make_version, loader_check_version_meets_required}
use vulkan_sc_loader.Activation.{LayerPointer, find_layer_pointer}

-- The answer, with the array of the meta-layers that were checked already.
pub data Verdict : Type 0 where
  verdict : Bool → List Bool → Verdict
  fault out_of_fuel : Verdict

-- The loop that looks for the index of a name, from the index `i` on: the last one counts.
unfoldable pub last_index : CString → List LayerPointer → ℕ → Option (ℕ × LayerPointer)
last_index name [] i = none
last_index name (p ∷ ps) i =
    let later = last_index name ps (i + 1) in
    elim later [
      | none ↦ if str_eq name p.props.layer_name then some (i, p) else none
      | some found ↦ some found
    ]

abbrev pub Verify : Type 0
Verify = LayerPointer → ℕ → List Bool → Verdict

abbrev pub if_valid : Verdict → (List Bool → Verdict) → Verdict
if_valid (verdict true checked) next = next checked
if_valid (verdict false checked) next = verdict false checked
if_valid fault next = fault
if_valid out_of_fuel next = out_of_fuel

module _ (version_major version_minor version_patch : ℕ → ℕ)
    (instance_layers : List LayerPointer) where
  abbrev pub meets_version : LayerPointer → LayerPointer → Bool
  meets_version prop comp_prop =
      loader_check_version_meets_required
        (loader_make_version version_major version_minor version_patch prop.props.spec_version)
        (loader_make_version version_major version_minor version_patch comp_prop.props.spec_version)

  -- A component that is a meta-layer: its name is looked for a second time, for the index. To go on
  -- with the index of no layer is a read beyond the list.
  unfoldable pub verify_component_meta : Verify → LayerPointer → List Bool → Verdict
  unfolding last_index
  verify_component_meta verify comp_prop checked =
      elim (last_index comp_prop.props.layer_name instance_layers 0) [
        | none ↦ fault
        | some (i, p) ↦ if get_or checked i false then verdict false checked else verify p i checked
      ]

  -- The loop over the component layers.
  unfoldable pub verify_components : Verify → LayerPointer → List CString → List Bool → Verdict
  unfolding find_layer_pointer verify_component_meta loader_check_version_meets_required
  verify_components verify prop [] checked = verdict true checked
  verify_components verify prop (name ∷ names) checked =
      elim (find_layer_pointer name instance_layers) [
        | none ↦ verdict false checked
        | some comp_prop ↦
            if not (meets_version prop comp_prop)
            then verdict false checked
            else if str_eq prop.props.layer_name name
            then verdict false checked
            else elim comp_prop.props.is_meta [
              | true ↦
                  if_valid (verify_component_meta verify comp_prop checked)
                    (verify_components verify prop names)
              | false ↦ verify_components verify prop names checked
            ]
      ]

  -- The recursion, with fuel for as many layers as there are.
  unfoldable pub verify_from : ℕ → Verify
  unfolding verify_components
  verify_from zero prop prop_index checked = out_of_fuel
  verify_from (suc depth) prop prop_index checked =
      verify_components (verify_from depth) prop prop.props.component_layer_names
        (set checked prop_index true)

  unfoldable pub verify_meta_layer_component_layers : LayerPointer → ℕ → Verdict
  unfolding verify_from
  verify_meta_layer_component_layers prop prop_index =
      verify_from (length instance_layers) prop prop_index
        (replicate (length instance_layers) false)
