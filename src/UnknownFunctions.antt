-- ===== src/UnknownFunctions.antt =====
-- loader/unknown_function_handling.c: the tables of functions that the loader does not know, with a
-- trampoline for each entry. The functions of drivers, layers and devices are parameters, as
-- functions from a name to the address that they give.
pub mod Support
pub mod Table
pub mod Dispatch
pub mod Physical
pub mod PhysicalSupport
pub mod PhysicalTable
mod Tests
use vulkan_sc_loader.Base.{
  ℕ, ◌+◌, Bool, true, false, not, ◌&&◌, ◌||◌, Option, none, some, List, [], ◌∷◌, ◌++◌, map, CString,
  str_eq, length, leb, ltb, ◌==◌, if◌then◌else◌, Heap, allocate,
}

-- MAX_NUM_UNKNOWN_EXTS of loader/vk_loader_platform.h.
abbrev pub max_num_unknown_exts : ℕ
max_num_unknown_exts = 250

abbrev pub Lookup : Type 0
Lookup = CString → Option ℕ

-- A logical device: its `GetDeviceProcAddr`, and its dispatch table by index.
pub record Device : Type 0 where
  pub get_device_proc_addr : Lookup
  pub ext_dispatch : ℕ → Option ℕ

-- An entry of the instance's list of drivers.
pub record IcdTerm : Type 0 where
  pub get_instance_proc_addr : Lookup
  pub logical_device_list : List Device

-- An activated layer: the entry points that its manifest lists for each device extension.
pub record ActivatedLayer : Type 0 where
  pub entrypoints : List (List CString)
  pub get_instance_proc_addr : Option Lookup

-- The parts of the instance that are used; the array of names up to its count.
pub record Instance : Type 0 where
  pub icd_terms : List IcdTerm
  pub expanded_activated_layer_list : List ActivatedLayer
  pub dev_ext_disp_functions : List CString

abbrev pub is_some {ℓ} : {A : Type ℓ} → Option A → Bool
is_some none = false
is_some (some a) = true

abbrev pub any : {A : Type 0} → (A → Bool) → List A → Bool
any p [] = false
any p (x ∷ xs) = p x || any p xs

-- The write of a non-null address to one entry of a table.
abbrev pub write_entry : (ℕ → Option ℕ) → ℕ → Option ℕ → ℕ → Option ℕ
write_entry table idx none j = table j
write_entry table idx (some address) j = if j == idx then some address else table j

-- `loader_init_dispatch_dev_ext_entry` for one device.
unfoldable pub init_device_entry : ℕ → CString → Device → Device
init_device_entry idx func_name dev = record dev {
  ext_dispatch = write_entry dev.ext_dispatch idx (dev.get_device_proc_addr func_name);
}

abbrev pub init_icd_entry : ℕ → CString → IcdTerm → IcdTerm
init_icd_entry idx func_name icd = record icd {
  logical_device_list = map (init_device_entry idx func_name) icd.logical_device_list;
}

-- The same without a device: for all devices of the instance.
unfoldable pub loader_init_dispatch_dev_ext_entry : Instance → ℕ → CString → Instance
unfolding init_device_entry
loader_init_dispatch_dev_ext_entry inst idx func_name = record inst {
  icd_terms = map (init_icd_entry idx func_name) inst.icd_terms;
}

-- The loop over the table for a new device, from the index `i` on.
unfoldable pub init_entries : List CString → ℕ → Device → Device
unfolding init_device_entry
init_entries [] i dev = dev
init_entries (name ∷ names) i dev = init_entries names (i + 1) (init_device_entry i name dev)

unfoldable pub loader_init_dispatch_dev_ext : Instance → Device → Device
unfolding init_entries
loader_init_dispatch_dev_ext inst dev = init_entries inst.dev_ext_disp_functions 0 dev

unfoldable pub loader_check_icds_for_dev_ext_address : Instance → CString → Bool
loader_check_icds_for_dev_ext_address inst func_name =
    any (λ (icd : IcdTerm). is_some (icd.get_instance_proc_addr func_name)) inst.icd_terms

-- Down the chain, which begins with the first layer.
abbrev pub chain_supports : List ActivatedLayer → CString → Bool
chain_supports [] func_name = false
chain_supports (layer ∷ layers) func_name = elim layer.get_instance_proc_addr [
  | none ↦ false
  | some get_instance_proc_addr ↦ is_some (get_instance_proc_addr func_name)
]

unfoldable pub loader_check_layer_list_for_dev_ext_address : Instance → CString → Bool
loader_check_layer_list_for_dev_ext_address inst func_name =
    if any
      (λ (layer : ActivatedLayer). any (any (λ entry. str_eq entry func_name)) layer.entrypoints)
      inst.expanded_activated_layer_list
    then true
    else chain_supports inst.expanded_activated_layer_list func_name

-- The search among the names that are stored, from the index `i` on.
unfoldable pub find_name : CString → List CString → ℕ → Option ℕ
find_name func_name [] i = none
find_name func_name (name ∷ names) i =
    if str_eq name func_name then some i else find_name func_name names (i + 1)

abbrev pub supported : Instance → CString → Bool → Bool
supported inst func_name is_tramp =
    loader_check_icds_for_dev_ext_address inst func_name
    || (is_tramp && loader_check_layer_list_for_dev_ext_address inst func_name)

-- From the test of the table's size on.
unfoldable pub add_name : Heap → Instance → CString → Option ℕ × Heap × Instance
unfolding loader_init_dispatch_dev_ext_entry
add_name h inst func_name =
    let index = length inst.dev_ext_disp_functions in
    let (ok, h') = allocate h in
    if leb max_num_unknown_exts index
    then (none, h, inst)
    else if not ok
    then (none, h', inst)
    else (
      some index,
      h',
      record (loader_init_dispatch_dev_ext_entry inst index func_name) {
        dev_ext_disp_functions = inst.dev_ext_disp_functions ++ func_name ∷ [];
      },
    )

-- The result is the index of the trampoline, or the null pointer.
unfoldable pub loader_dev_ext_gpa_impl :
    Heap → Instance → CString → Bool → Option ℕ × Heap × Instance
unfolding find_name loader_check_icds_for_dev_ext_address
    loader_check_layer_list_for_dev_ext_address add_name
loader_dev_ext_gpa_impl h inst func_name is_tramp =
    elim (find_name func_name inst.dev_ext_disp_functions 0) [
      | none ↦
          if supported inst func_name is_tramp then add_name h inst func_name else (none, h, inst)
      | some i ↦ (some i, h, inst)
    ]

abbrev pub loader_dev_ext_gpa_tramp : Heap → Instance → CString → Option ℕ × Heap × Instance
loader_dev_ext_gpa_tramp h inst func_name = loader_dev_ext_gpa_impl h inst func_name true

abbrev pub loader_dev_ext_gpa_term : Heap → Instance → CString → Option ℕ × Heap × Instance
loader_dev_ext_gpa_term h inst func_name = loader_dev_ext_gpa_impl h inst func_name false
