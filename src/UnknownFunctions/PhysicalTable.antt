-- ===== src/UnknownFunctions/PhysicalTable.antt =====
-- loader/unknown_function_handling.c: the index and the entries of a function of physical devices.
use vulkan_sc_loader.Base.{
  false, false≢true, ◌↔◌, ℕ, ◌-◌, ◌≤◌, ◌<◌, ◌≡◌, refl, subst, ◌⊎◌, inl, inr, Bool, true, Option,
  none, some, List, [], ◌∷◌, map, All, CString, length, get_or, leb, ◌==◌, ==_iff, if◌then◌else◌,
  Heap, next_answer, Bool-cases, Option-cases, arith,
}
use mathlib.Core.List.{Memᴰ}
use vulkan_sc_loader.UnknownFunctions.Support.{find_name_iff}
use vulkan_sc_loader.UnknownFunctions.PhysicalSupport.{
  DriverGives, driver_answer_iff, PhysDriverHas, phys_drivers_iff, GivesNothing, FirstGives,
  PhysLayerHas, phys_supported_iff, Answers, layer_answer-Answers,
}
use vulkan_sc_loader.UnknownFunctions.{is_some, max_num_unknown_exts, find_name}
use vulkan_sc_loader.UnknownFunctions.Table.{IsAt, find_name-IsAt, find_name-append, get_or-last}
use vulkan_sc_loader.UnknownFunctions.Physical.{
  Address, tramp, termin, external, PhysIcdTerm, PhysInstance, store_name, set_up_icd,
  dispatch_of_drivers, dispatch_of_layers, set_up, phys_supported, finish,
  loader_phys_dev_ext_gpa_impl,
}

-- The index that a name gets, against the names before.
abbrev Stores : List CString → CString → Option ℕ × Heap × List CString → Type 0
Stores names name (none, h, names') = names' ≡ names
Stores names name (some i, h, names') =
    (i < max_num_unknown_exts)
    × (get_or names' i [] ≡ name)
    × ((other : CString) (j : ℕ)
        → find_name other names 0 ≡ some j
        → find_name other names' 0 ≡ some j)

store_name-Stores :
    (h : Heap) (names : List CString) (name : CString)
    → length names ≤ max_num_unknown_exts
    → Stores names name (store_name h names name)
unfolding store_name
store_name-Stores h names name few = elim (Option-cases (find_name name names 0)) [
  | inl new ↦ elim (Bool-cases (leb max_num_unknown_exts (length names))) [
    | inl full ↦ rw (new, store_name) (rw full refl)
    | inr room ↦ elim (Bool-cases (next_answer h.answers)) [
      | inr out ↦ rw (new, store_name) (rw (room, out) refl)
      | inl ok ↦
          let below : length names < max_num_unknown_exts = ground arith in
          rw (new, store_name)
            (rw (room, ok)
              (
                below,
                get_or-last names name,
                λ other j e. find_name-append other names (name ∷ []) 0 j e,
              ))
    ]
  ]
  | inr (i, found) ↦
      let at = subst (IsAt name names 0) found (find_name-IsAt name names 0) in
      let e : i - 0 ≡ i = omega arith in
      rw (found, store_name) (omega (arith, at.1, few, e), rw e at at.2, λ other j h. h)
]

-- None of the layers is to decide.
abbrev pub NoLayer : PhysInstance → CString → Bool → Type 0
NoLayer inst name is_tramp =
    (is_tramp ≡ false) ⊎ All (GivesNothing name) inst.expanded_activated_layer_list

-- The entry that the instance's table gets: on the trampoline side the address of the first layer that
-- gives one; else the terminator if a driver gives an address; else what was there.
pub data IsEntry (min_version : ℕ) (inst : PhysInstance) (name : CString) (is_tramp : Bool) (i : ℕ)
    : Option Address → Type 0 where
  of_layer :
      {address : ℕ}
      → is_tramp ≡ true
      → FirstGives name inst.expanded_activated_layer_list address
      → IsEntry min_version inst name is_tramp i (some (external address))
  of_driver :
      NoLayer inst name is_tramp
      → PhysDriverHas min_version inst name
      → IsEntry min_version inst name is_tramp i (some (termin i))
  unchanged :
      NoLayer inst name is_tramp
      → (PhysDriverHas min_version inst name → ⊥)
      → IsEntry min_version inst name is_tramp i (inst.phys_dispatch i)

-- A driver's entry is an address exactly if the driver gives it.
abbrev pub IsDriverEntry : ℕ → CString → ℕ → PhysIcdTerm → Type 0
IsDriverEntry min_version name i icd =
    (address : ℕ) → (icd.phys_dev_ext i ≡ some address) ↔ DriverGives min_version name icd address

abbrev pub PhysGives :
    ℕ → PhysInstance → CString → Bool → Option Address × Heap × PhysInstance → Type 0
PhysGives min_version inst name is_tramp (none, h, inst') = inst' ≡ inst
PhysGives min_version inst name is_tramp (some address, h, inst') =
    (i : ℕ) × (address ≡ (if is_tramp then tramp i else termin i))
    × (i < max_num_unknown_exts)
    × (get_or inst'.phys_dev_ext_disp_functions i [] ≡ name)
    × All (IsDriverEntry min_version name i) inst'.icd_terms
    × IsEntry min_version inst name is_tramp i (inst'.phys_dispatch i)
    × ((other : CString) (j : ℕ)
        → find_name other inst.phys_dev_ext_disp_functions 0 ≡ some j
        → find_name other inst'.phys_dev_ext_disp_functions 0 ≡ some j)

drivers_set_up :
    (min_version i : ℕ) (name : CString) (icds : List PhysIcdTerm)
    → All (IsDriverEntry min_version name i) (map (set_up_icd min_version i name) icds)
unfolding set_up_icd
drivers_set_up min_version i name [] = tt
drivers_set_up min_version i name (icd ∷ icds) =
    let here : (i == i) ≡ true = (==_iff i i).1 refl in
    (
      λ address. rw here (driver_answer_iff min_version name icd address),
      drivers_set_up min_version i name icds,
    )

-- What the drivers alone make of the entry, where no layer decides.
dispatch_of_drivers-IsEntry :
    (min_version i : ℕ) (inst : PhysInstance) (name : CString) (is_tramp has : Bool)
    → NoLayer inst name is_tramp
    → (has ≡ true) ↔ PhysDriverHas min_version inst name
    → IsEntry min_version inst name is_tramp i (dispatch_of_drivers has i (inst.phys_dispatch i))
dispatch_of_drivers-IsEntry min_version i inst name is_tramp true no_layer has_iff =
    of_driver no_layer (has_iff.0 refl)
dispatch_of_drivers-IsEntry min_version i inst name is_tramp false no_layer has_iff =
    unchanged no_layer (λ h. false≢true (has_iff.1 h))

dispatch_of_layers-IsEntry :
    (min_version i : ℕ) (inst : PhysInstance) (name : CString) (has : Bool) (o : Option ℕ)
    → Answers name inst.expanded_activated_layer_list o
    → (has ≡ true) ↔ PhysDriverHas min_version inst name
    → IsEntry min_version inst name true i
        (dispatch_of_layers o (dispatch_of_drivers has i (inst.phys_dispatch i)))
dispatch_of_layers-IsEntry min_version i inst name has none nothing has_iff =
    dispatch_of_drivers-IsEntry min_version i inst name true has (inr nothing) has_iff
dispatch_of_layers-IsEntry min_version i inst name has (some address) first has_iff =
    of_layer refl first

set_up-IsEntry :
    (min_version : ℕ) (inst : PhysInstance) (name : CString) (is_tramp : Bool) (i : ℕ)
    → IsEntry min_version inst name is_tramp i
        ((set_up min_version inst name is_tramp i).phys_dispatch i)
unfolding set_up
set_up-IsEntry min_version inst name true i =
    let here : (i == i) ≡ true = (==_iff i i).1 refl in
    rw here (
      dispatch_of_layers-IsEntry min_version i inst name _ _
        (layer_answer-Answers name inst.expanded_activated_layer_list)
        (phys_drivers_iff min_version inst name))
set_up-IsEntry min_version inst name false i =
    let here : (i == i) ≡ true = (==_iff i i).1 refl in
    rw here (
      dispatch_of_drivers-IsEntry min_version i inst name false _ (inl refl)
        (phys_drivers_iff min_version inst name))

finish-PhysGives :
    (min_version : ℕ) (inst : PhysInstance) (name : CString) (is_tramp : Bool)
    → (stored : Option ℕ × Heap × List CString)
    → Stores inst.phys_dev_ext_disp_functions name stored
    → PhysGives min_version inst name is_tramp (finish min_version inst name is_tramp stored)
unfolding set_up
finish-PhysGives min_version inst name is_tramp (none, h, names) s = refl
finish-PhysGives min_version inst name is_tramp (some i, h, names) s = (
  i,
  refl,
  s.0,
  s.1,
  drivers_set_up min_version i name inst.icd_terms,
  set_up-IsEntry min_version inst name is_tramp i,
  s.2,
)

-- If the table fits its array, a request for a function of physical devices that gives an address gives
-- the trampoline or the terminator, as asked, of an index inside the table at which the name stands.
-- Each driver's entry there is an address exactly if the driver is new enough and its lookup gives
-- this address for the name. The instance's entry is on the trampoline side the address of the first
-- layer that gives one; else the terminator if a driver gives an address; else what was there. Every
-- name that had an index keeps it. The null pointer leaves the instance as it was.
pub loader_phys_dev_ext_gpa_impl-PhysGives :
    (min_version : ℕ) (h : Heap) (inst : PhysInstance) (name : CString) (is_tramp : Bool)
    → length inst.phys_dev_ext_disp_functions ≤ max_num_unknown_exts
    → PhysGives min_version inst name is_tramp
        (loader_phys_dev_ext_gpa_impl min_version h inst name is_tramp)
unfolding loader_phys_dev_ext_gpa_impl
loader_phys_dev_ext_gpa_impl-PhysGives min_version h inst name is_tramp few =
    elim (Bool-cases (phys_supported min_version inst name is_tramp)) [
      | inl known ↦ rw known (
          finish-PhysGives min_version inst name is_tramp
            (store_name h inst.phys_dev_ext_disp_functions name)
            (store_name-Stores h inst.phys_dev_ext_disp_functions name few))
      | inr unknown ↦ rw unknown refl
    ]

some_in_steps :
    (min_version : ℕ) (h : Heap) (inst : PhysInstance) (name : CString) (is_tramp : Bool)
    → (is_some (loader_phys_dev_ext_gpa_impl min_version h inst name is_tramp).0 ≡ true) ↔ (
        (phys_supported min_version inst name is_tramp ≡ true)
        × ((is_some (find_name name inst.phys_dev_ext_disp_functions 0) ≡ true)
            ⊎ ((length inst.phys_dev_ext_disp_functions < max_num_unknown_exts)
                × (next_answer h.answers ≡ true))))
unfolding loader_phys_dev_ext_gpa_impl store_name
some_in_steps min_version h inst name is_tramp =
    elim (Option-cases (find_name name inst.phys_dev_ext_disp_functions 0)) [
      | inl new ↦ rw (new, store_name) (ground arith)
      | inr (i, found) ↦ rw (found, store_name) (ground arith)
    ]

-- Exactly then does the request give an address: a driver that is new enough has a lookup that gives an
-- address for the name, or the request comes from the trampoline side and the first layer that has a
-- lookup gives one; and the name is in the table, or the table has room and there is memory for the
-- name. So a name that is in the table is refused where it is not supported, against the comment on
-- the function.
pub loader_phys_dev_ext_gpa_impl-some_iff :
    (min_version : ℕ) (h : Heap) (inst : PhysInstance) (name : CString) (is_tramp : Bool)
    → (is_some (loader_phys_dev_ext_gpa_impl min_version h inst name is_tramp).0 ≡ true) ↔ (
        (PhysDriverHas min_version inst name
          ⊎ ((is_tramp ≡ true) × PhysLayerHas inst.expanded_activated_layer_list name))
        × (Memᴰ name inst.phys_dev_ext_disp_functions
            ⊎ ((length inst.phys_dev_ext_disp_functions < max_num_unknown_exts)
                × (next_answer h.answers ≡ true))))
loader_phys_dev_ext_gpa_impl-some_iff min_version h inst name is_tramp =
    let steps = some_in_steps min_version h inst name is_tramp in
    let known = phys_supported_iff min_version inst name is_tramp in
    let found = find_name_iff name inst.phys_dev_ext_disp_functions 0 in
    (
      λ e.
          let (s, place) = steps.0 e in
          (known.0 s, elim place [ inl f ↦ inl (found.0 f) | inr new ↦ inr new ]),
      λ e.
          let (s, place) = e in
          steps.1 (known.1 s, elim place [ inl m ↦ inl (found.1 m) | inr new ↦ inr new ]),
    )
