-- ===== src/UnknownFunctions/PhysicalSupport.antt =====
-- loader/unknown_function_handling.c: what it means that a driver or a layer has a function of physical
-- devices, and which of the layers answers first.
use mathlib.Core.List.{Memᴰ}
use vulkan_sc_loader.Base.{
  ◌↔◌, ℕ, ◌≤◌, ◌<◌, ◌≡◌, refl, ◌∙◌, ap, inl, inr, ◌⊎◌, Bool, true, false≢true, Option, none, some,
  List, [], ◌∷◌, CString, Bool-cases, Option-cases, All, leb, ltb, arith,
}
use vulkan_sc_loader.UnknownFunctions.{is_some, Lookup}
use vulkan_sc_loader.UnknownFunctions.Support.{is_some_iff, any_iff, either_iff}
use vulkan_sc_loader.UnknownFunctions.Physical.{
  PhysIcdTerm, PhysLayer, PhysInstance, driver_answer, layer_lookup, check_layers, layer_answer,
  loader_check_icds_for_phys_dev_ext_address, phys_supported,
}

-- A driver that is new enough has a lookup, which gives the address for the name.
abbrev pub DriverGives : ℕ → CString → PhysIcdTerm → ℕ → Type 0
DriverGives min_version name icd address =
    (min_version ≤ icd.interface_version)
    × ((lookup : Lookup) × (icd.get_physical_device_proc_addr ≡ some lookup)
        × (lookup name ≡ some address))

pub driver_answer_iff :
    (min_version : ℕ) (name : CString) (icd : PhysIcdTerm) (address : ℕ)
    → (driver_answer min_version name icd ≡ some address) ↔ DriverGives min_version name icd address
unfolding driver_answer
driver_answer_iff min_version name icd address =
    elim (Bool-cases (leb min_version icd.interface_version)) [
      | inr old ↦ rw old (λ e. cc, λ h. absurd (ground (arith, old, h.0)))
      | inl recent ↦ elim (Option-cases icd.get_physical_device_proc_addr) [
        | inl missing ↦ rw (recent, missing) (λ e. cc, λ h. let (v, (lookup, e, g)) = h in cc)
        | inr (lookup, there) ↦
            rw (recent, there)
              (
                λ e. (ground (arith, recent), (lookup, refl, e)),
                λ h.
                    let (v, (lookup', e, g)) = h in
                    let same : lookup ≡ lookup' = cc in ap (λ l. l name) same ∙ g,
              )
      ]
    ]

-- One of the drivers gives an address for the name.
abbrev pub PhysDriverHas : ℕ → PhysInstance → CString → Type 0
PhysDriverHas min_version inst name =
    (icd : PhysIcdTerm) × Memᴰ icd inst.icd_terms
    × ((address : ℕ) × DriverGives min_version name icd address)

pub phys_drivers_iff :
    (min_version : ℕ) (inst : PhysInstance) (name : CString)
    → (loader_check_icds_for_phys_dev_ext_address min_version inst name ≡ true)
      ↔ PhysDriverHas min_version inst name
unfolding loader_check_icds_for_phys_dev_ext_address
phys_drivers_iff min_version inst name =
    let all = any_iff (λ icd. is_some (driver_answer min_version name icd)) inst.icd_terms in
    (
      λ e.
          let (icd, m, h) = all.0 e in
          let (address, g) = (is_some_iff (driver_answer min_version name icd)).0 h in
          (icd, m, (address, (driver_answer_iff min_version name icd address).0 g)),
      λ h.
          let (icd, m, (address, g)) = h in
          all.1 (
            icd,
            m,
            (is_some_iff (driver_answer min_version name icd)).1
                (address, (driver_answer_iff min_version name icd address).1 g),
          ),
    )

-- A layer has a lookup for physical devices, or has none.
abbrev pub HasLookup : PhysLayer → Lookup → Type 0
HasLookup layer lookup =
    (1 < layer.interface_version) × (layer.get_physical_device_proc_addr ≡ some lookup)

abbrev pub HasNoLookup : PhysLayer → Type 0
HasNoLookup layer = (layer.interface_version ≤ 1) ⊎ (layer.get_physical_device_proc_addr ≡ none)

layer_lookup-cases :
    (layer : PhysLayer)
    → HasNoLookup layer × (layer_lookup layer ≡ none)
      ⊎ ((lookup : Lookup) × HasLookup layer lookup × (layer_lookup layer ≡ some lookup))
unfolding layer_lookup
layer_lookup-cases layer = elim (Bool-cases (ltb 1 layer.interface_version)) [
  | inr old ↦ inl (inl (ground (arith, old)), rw old refl)
  | inl recent ↦ elim (Option-cases layer.get_physical_device_proc_addr) [
    | inl missing ↦ inl (inr missing, rw (recent, missing) refl)
    | inr (lookup, there) ↦ inr (lookup, (ground (arith, recent), there), rw (recent, there) refl)
  ]
]

both_lookups :
    (layer : PhysLayer) (lookup : Lookup) → HasNoLookup layer → HasLookup layer lookup → ⊥
both_lookups layer lookup (inl old) h = omega (arith, old, h.0)
both_lookups layer lookup (inr missing) (v, there) = cc

same_lookup : (layer : PhysLayer) (a b : Lookup) → HasLookup layer a → HasLookup layer b → a ≡ b
same_lookup layer a b (v, e) (v', e') = cc

-- The layer's lookup gives the address for the name.
abbrev pub LayerGives : CString → PhysLayer → ℕ → Type 0
LayerGives name layer address =
    (lookup : Lookup) × HasLookup layer lookup × (lookup name ≡ some address)

-- The layer has no lookup, or one that gives nothing for the name.
abbrev pub GivesNothing : CString → PhysLayer → Type 0
GivesNothing name layer =
    HasNoLookup layer ⊎ ((lookup : Lookup) × HasLookup layer lookup × (lookup name ≡ none))

-- The first layer that has a lookup gives an address for the name.
abbrev pub PhysLayerHas : List PhysLayer → CString → Type 0
PhysLayerHas [] name = ⊥
PhysLayerHas (layer ∷ layers) name =
    (HasNoLookup layer × PhysLayerHas layers name) ⊎ ((address : ℕ) × LayerGives name layer address)

-- The first layer that gives an address for the name gives this one.
abbrev pub FirstGives : CString → List PhysLayer → ℕ → Type 0
FirstGives name [] address = ⊥
FirstGives name (layer ∷ layers) address =
    (GivesNothing name layer × FirstGives name layers address) ⊎ LayerGives name layer address

check_layers_iff :
    (layers : List PhysLayer) (name : CString)
    → (check_layers layers name ≡ true) ↔ PhysLayerHas layers name
unfolding check_layers
check_layers_iff [] name = (λ e. absurd (false≢true e), λ h. absurd h)
check_layers_iff (layer ∷ layers) name =
    let rest = check_layers_iff layers name in
    elim (layer_lookup-cases layer) [
      | inl (nothing, e) ↦
          rw (e, check_layers)
            (
              λ c. inl (nothing, rest.0 c),
              λ h. elim h [
                | inl (n, later) ↦ rest.1 later
                | inr (address, (lookup, has, g)) ↦ absurd (both_lookups layer lookup nothing has)
              ],
            )
      | inr (lookup, has, e) ↦
          rw (e, check_layers)
            (
              λ c.
                  let (address, g) = (is_some_iff (lookup name)).0 c in
                  inr (address, (lookup, has, g)),
              λ h. elim h [
                | inl (n, later) ↦ absurd (both_lookups layer lookup n has)
                | inr (address, (lookup', has', g)) ↦
                    (is_some_iff (lookup name)).1
                      (address, ap (λ l. l name) (same_lookup layer lookup lookup' has has') ∙ g)
              ],
            )
    ]

pub phys_supported_iff :
    (min_version : ℕ) (inst : PhysInstance) (name : CString) (is_tramp : Bool)
    → (phys_supported min_version inst name is_tramp ≡ true) ↔ (
        PhysDriverHas min_version inst name
        ⊎ ((is_tramp ≡ true) × PhysLayerHas inst.expanded_activated_layer_list name))
phys_supported_iff min_version inst name is_tramp =
    either_iff _ is_tramp _ (phys_drivers_iff min_version inst name)
      (check_layers_iff inst.expanded_activated_layer_list name)

-- What the search for the first answer says.
abbrev pub Answers : CString → List PhysLayer → Option ℕ → Type 0
Answers name layers none = All (GivesNothing name) layers
Answers name layers (some address) = FirstGives name layers address

Answers-later :
    (name : CString) (layer : PhysLayer) (layers : List PhysLayer) (o : Option ℕ)
    → GivesNothing name layer
    → Answers name layers o
    → Answers name (layer ∷ layers) o
Answers-later name layer layers none n a = (n, a)
Answers-later name layer layers (some address) n a = inl (n, a)

pub layer_answer-Answers :
    (name : CString) (layers : List PhysLayer) → Answers name layers (layer_answer layers name)
unfolding layer_answer
layer_answer-Answers name [] = tt
layer_answer-Answers name (layer ∷ layers) =
    let rest = layer_answer-Answers name layers in
    elim (layer_lookup-cases layer) [
      | inl (nothing, e) ↦
          rw (e, layer_answer) (Answers-later name layer layers _ (inl nothing) rest)
      | inr (lookup, has, e) ↦ elim (Option-cases (lookup name)) [
        | inl unknown ↦
            rw (e, layer_answer)
              (rw unknown (Answers-later name layer layers _ (inr (lookup, has, unknown)) rest))
        | inr (address, g) ↦ rw (e, layer_answer) (rw g (inr (lookup, has, g)))
      ]
    ]
