-- ===== src/UnknownFunctions/Tests.antt =====
-- loader/unknown_function_handling.c: the table of unknown device functions at concrete inputs.
use vulkan_sc_loader.Base.{
  List, ℕ, ◌≡◌, ◌<◌, ◌⊎◌, ◌↔◌, refl, true, false, Option, none, some, [], ◌∷◌, CString, codes,
  str_eq, if◌then◌else◌, Heap, next_answer, length, arith,
}
use vulkan_sc_loader.UnknownFunctions.{
  Device, Instance, is_some, max_num_unknown_exts, loader_dev_ext_gpa_impl,
}
use mathlib.Core.List.{Memᴰ}
use vulkan_sc_loader.UnknownFunctions.Support.{IsSupported}
use vulkan_sc_loader.UnknownFunctions.PhysicalSupport.{PhysDriverHas, PhysLayerHas}
use vulkan_sc_loader.UnknownFunctions.Physical.{
  PhysInstance, PhysLayer, tramp, loader_phys_dev_ext_gpa_impl,
}
use vulkan_sc_loader.UnknownFunctions.PhysicalTable.{
  PhysGives, loader_phys_dev_ext_gpa_impl-PhysGives, loader_phys_dev_ext_gpa_impl-some_iff,
}
use vulkan_sc_loader.UnknownFunctions.Table.{
  Gives, loader_dev_ext_gpa_impl-Gives, loader_dev_ext_gpa_impl-some_iff,
}
use vulkan_sc_loader.UnknownFunctions.Dispatch.{StaysInStep, loader_dev_ext_gpa_impl-StaysInStep}

-- A driver and a device that have the function "vkA" at an address.
abbrev known : CString → Option ℕ
known name = if str_eq name (codes "vkA") then some 4096 else none

abbrev device : Device
device = record { get_device_proc_addr = known; ext_dispatch = λ i. none }

abbrev instance_before : Instance
instance_before = record {
  icd_terms = record { get_instance_proc_addr = known; logical_device_list = device ∷ [] } ∷ [];
  expanded_activated_layer_list = [];
  dev_ext_disp_functions = [];
}

abbrev memory : Heap
memory = record { answers = true ∷ []; live = 5 }

new_name_run : (loader_dev_ext_gpa_impl memory instance_before (codes "vkA") false).0 ≡ some 0
unfolding loader_dev_ext_gpa_impl
new_name_run = refl

unknown_name_run : (loader_dev_ext_gpa_impl memory instance_before (codes "vkB") true).0 ≡ none
unfolding loader_dev_ext_gpa_impl
unknown_name_run = refl

loader_dev_ext_gpa_impl-Gives_example :
    Gives instance_before
      (codes "vkA")
      (loader_dev_ext_gpa_impl memory instance_before (codes "vkA") false)
loader_dev_ext_gpa_impl-Gives_example =
    loader_dev_ext_gpa_impl-Gives memory instance_before (codes "vkA") false (omega arith)

loader_dev_ext_gpa_impl-some_iff_example :
    (is_some (loader_dev_ext_gpa_impl memory instance_before (codes "vkA") false).0 ≡ true) ↔ (
      Memᴰ (codes "vkA") []
      ⊎ (IsSupported instance_before (codes "vkA") false
          × (length {A = CString} [] < max_num_unknown_exts)
          × (next_answer (true ∷ []) ≡ true)))
loader_dev_ext_gpa_impl-some_iff_example =
    loader_dev_ext_gpa_impl-some_iff memory instance_before (codes "vkA") false

loader_dev_ext_gpa_impl-StaysInStep_example :
    StaysInStep (loader_dev_ext_gpa_impl memory instance_before (codes "vkA") false)
loader_dev_ext_gpa_impl-StaysInStep_example =
    loader_dev_ext_gpa_impl-StaysInStep memory instance_before (codes "vkA") false
      ((λ i a h e. absurd (omega arith), tt), tt)

-- A layer that is too old for the lookup, and one that has it.
abbrev phys_layers : List PhysLayer
phys_layers =
    record { interface_version = 1; get_physical_device_proc_addr = some known }
    ∷ record { interface_version = 2; get_physical_device_proc_addr = some known }
    ∷ []

-- A driver of a version that has the lookup for physical devices, and one that is too old.
abbrev phys_instance : PhysInstance
phys_instance = record {
  icd_terms =
      record {
        interface_version = 5;
        get_physical_device_proc_addr = some known;
        phys_dev_ext = λ i. none;
      }
      ∷ record {
        interface_version = 3;
        get_physical_device_proc_addr = some known;
        phys_dev_ext = λ i. none;
      }
      ∷ [];
  expanded_activated_layer_list = phys_layers;
  phys_dev_ext_disp_functions = codes "vkB" ∷ [];
  phys_dispatch = λ i. none;
}

phys_run :
    (loader_phys_dev_ext_gpa_impl 4 memory phys_instance (codes "vkA") true).0 ≡ some (tramp 1)
unfolding loader_phys_dev_ext_gpa_impl
phys_run = refl

loader_phys_dev_ext_gpa_impl-PhysGives_example :
    PhysGives 4 phys_instance
      (codes "vkA")
      true
      (loader_phys_dev_ext_gpa_impl 4 memory phys_instance (codes "vkA") true)
loader_phys_dev_ext_gpa_impl-PhysGives_example =
    loader_phys_dev_ext_gpa_impl-PhysGives 4 memory phys_instance (codes "vkA") true (omega arith)

loader_phys_dev_ext_gpa_impl-some_iff_example :
    (is_some (loader_phys_dev_ext_gpa_impl 4 memory phys_instance (codes "vkA") true).0 ≡ true) ↔ (
      (PhysDriverHas 4 phys_instance (codes "vkA")
        ⊎ ((true ≡ true) × PhysLayerHas phys_layers (codes "vkA")))
      × (Memᴰ (codes "vkA") (codes "vkB" ∷ [])
          ⊎ ((length (codes "vkB" ∷ []) < max_num_unknown_exts)
              × (next_answer (true ∷ []) ≡ true))))
loader_phys_dev_ext_gpa_impl-some_iff_example =
    loader_phys_dev_ext_gpa_impl-some_iff 4 memory phys_instance (codes "vkA") true
