-- ===== src/UnknownFunctions/Physical.antt =====
-- loader/unknown_function_handling.c: the table of unknown functions of physical devices. The version
-- from which a driver has the lookup for them is a constant of the driver interface's header, and a
-- parameter.
use vulkan_sc_loader.Base.{
  ℕ, Bool, true, false, not, ◌&&◌, ◌||◌, Option, none, some, List, [], ◌∷◌, ◌++◌, map, CString,
  length, leb, ltb, ◌==◌, if◌then◌else◌, Heap, allocate,
}
use vulkan_sc_loader.UnknownFunctions.{Lookup, max_num_unknown_exts, is_some, any, find_name}

-- The loader's own functions by index, and functions of drivers and layers.
pub data Address : Type 0 where
  tramp termin external : ℕ → Address

-- A driver, with its table for these functions by index.
pub record PhysIcdTerm : Type 0 where
  pub interface_version : ℕ
  pub get_physical_device_proc_addr : Option Lookup
  pub phys_dev_ext : ℕ → Option ℕ

pub record PhysLayer : Type 0 where
  pub interface_version : ℕ
  pub get_physical_device_proc_addr : Option Lookup

pub record PhysInstance : Type 0 where
  pub icd_terms : List PhysIcdTerm
  pub expanded_activated_layer_list : List PhysLayer
  pub phys_dev_ext_disp_functions : List CString
  pub phys_dispatch : ℕ → Option Address

-- What a driver says of a name: nothing if it is too old or has no lookup.
unfoldable pub driver_answer : ℕ → CString → PhysIcdTerm → Option ℕ
driver_answer min_version func_name icd =
    if leb min_version icd.interface_version
    then elim icd.get_physical_device_proc_addr [ none ↦ none | some lookup ↦ lookup func_name ]
    else none

unfoldable pub loader_check_icds_for_phys_dev_ext_address : ℕ → PhysInstance → CString → Bool
unfolding driver_answer
loader_check_icds_for_phys_dev_ext_address min_version inst func_name =
    any (λ icd. is_some (driver_answer min_version func_name icd)) inst.icd_terms

-- The lookup of a layer that has one.
unfoldable pub layer_lookup : PhysLayer → Option Lookup
layer_lookup layer =
    if ltb 1 layer.interface_version then layer.get_physical_device_proc_addr else none

-- The first layer with a lookup decides.
unfoldable pub check_layers : List PhysLayer → CString → Bool
unfolding layer_lookup
check_layers [] func_name = false
check_layers (layer ∷ layers) func_name = elim (layer_lookup layer) [
  | none ↦ check_layers layers func_name
  | some lookup ↦ is_some (lookup func_name)
]

abbrev pub loader_check_layer_list_for_phys_dev_ext_address : PhysInstance → CString → Bool
loader_check_layer_list_for_phys_dev_ext_address inst func_name =
    check_layers inst.expanded_activated_layer_list func_name

-- The index of a name: the one that it has, or a new one if there is room and memory.
unfoldable pub store_name : Heap → List CString → CString → Option ℕ × Heap × List CString
unfolding find_name
store_name h names func_name =
    let (ok, h') = allocate h in
    elim (find_name func_name names 0) [
      | none ↦
          if leb max_num_unknown_exts (length names)
          then (none, h, names)
          else if not ok
          then (none, h', names)
          else (some (length names), h', names ++ func_name ∷ [])
      | some i ↦ (some i, h, names)
    ]

abbrev pub assign : {A : Type 0} → (ℕ → A) → ℕ → A → ℕ → A
assign table idx value j = if j == idx then value else table j

-- The entry of one driver: its function, or the null pointer.
unfoldable pub set_up_icd : ℕ → ℕ → CString → PhysIcdTerm → PhysIcdTerm
unfolding driver_answer
set_up_icd min_version idx func_name icd = record icd {
  phys_dev_ext = assign icd.phys_dev_ext idx (driver_answer min_version func_name icd);
}

-- The function of the first layer that gives one.
unfoldable pub layer_answer : List PhysLayer → CString → Option ℕ
unfolding layer_lookup
layer_answer [] func_name = none
layer_answer (layer ∷ layers) func_name =
    let next = layer_answer layers func_name in
    elim (layer_lookup layer) [
      | none ↦ next
      | some lookup ↦ elim (lookup func_name) [ none ↦ next | some address ↦ some address ]
    ]

-- The instance's own entry, after the drivers and after the layers.
abbrev pub dispatch_of_drivers : Bool → ℕ → Option Address → Option Address
dispatch_of_drivers true idx before = some (termin idx)
dispatch_of_drivers false idx before = before

abbrev pub dispatch_of_layers : Option ℕ → Option Address → Option Address
dispatch_of_layers none before = before
dispatch_of_layers (some address) before = some (external address)

-- From the set-up of the drivers on.
unfoldable pub set_up : ℕ → PhysInstance → CString → Bool → ℕ → PhysInstance
unfolding set_up_icd layer_answer loader_check_icds_for_phys_dev_ext_address
set_up min_version inst func_name is_tramp idx =
    let in_drivers =
      dispatch_of_drivers (loader_check_icds_for_phys_dev_ext_address min_version inst func_name)
        idx (inst.phys_dispatch idx) in
    let in_layers =
      dispatch_of_layers (layer_answer inst.expanded_activated_layer_list func_name) in_drivers in
    record inst {
      icd_terms = map (set_up_icd min_version idx func_name) inst.icd_terms;
      phys_dispatch = assign inst.phys_dispatch idx (if is_tramp then in_layers else in_drivers);
    }

abbrev pub phys_supported : ℕ → PhysInstance → CString → Bool → Bool
phys_supported min_version inst func_name is_tramp =
    loader_check_icds_for_phys_dev_ext_address min_version inst func_name
    || (is_tramp && loader_check_layer_list_for_phys_dev_ext_address inst func_name)

abbrev pub finish :
    ℕ
    → PhysInstance
    → CString
    → Bool
    → Option ℕ × Heap × List CString
    → Option Address × Heap × PhysInstance
finish min_version inst func_name is_tramp (none, h, names) = (none, h, inst)
finish min_version inst func_name is_tramp (some idx, h, names) = (
  some (if is_tramp then tramp idx else termin idx),
  h,
  record (set_up min_version inst func_name is_tramp idx) { phys_dev_ext_disp_functions = names },
)

unfoldable pub loader_phys_dev_ext_gpa_impl :
    ℕ → Heap → PhysInstance → CString → Bool → Option Address × Heap × PhysInstance
unfolding loader_check_icds_for_phys_dev_ext_address check_layers store_name set_up
loader_phys_dev_ext_gpa_impl min_version h inst func_name is_tramp =
    if not (phys_supported min_version inst func_name is_tramp)
    then (none, h, inst)
    else finish min_version inst func_name is_tramp
        (store_name h inst.phys_dev_ext_disp_functions func_name)

abbrev pub loader_phys_dev_ext_gpa_tramp :
    ℕ → Heap → PhysInstance → CString → Option Address × Heap × PhysInstance
loader_phys_dev_ext_gpa_tramp min_version h inst func_name =
    loader_phys_dev_ext_gpa_impl min_version h inst func_name true

abbrev pub loader_phys_dev_ext_gpa_term :
    ℕ → Heap → PhysInstance → CString → Option Address × Heap × PhysInstance
loader_phys_dev_ext_gpa_term min_version h inst func_name =
    loader_phys_dev_ext_gpa_impl min_version h inst func_name false
