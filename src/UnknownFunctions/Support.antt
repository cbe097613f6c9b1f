-- ===== src/UnknownFunctions/Support.antt =====
-- loader/unknown_function_handling.c: what it means that a driver or a layer has a device function.
use mathlib.Core.List.{Memᴰ}
use vulkan_sc_loader.Base.{
  if◌then◌else◌, ◌↔◌, ℕ, ◌≡◌, refl, sym, ◌∙◌, ap, inl, inr, ◌⊎◌, Bool, true, false, false≢true,
  Option, none, some, List, [], ◌∷◌, CString, str_eq, str_eq_iff, str_eq_refl, subst, Bool-cases,
  Option-cases, ◌||◌, ◌&&◌, arith,
}
use vulkan_sc_loader.UnknownFunctions.{
  ActivatedLayer, IcdTerm, Instance, is_some, any, chain_supports, find_name, supported,
  loader_check_icds_for_dev_ext_address, loader_check_layer_list_for_dev_ext_address,
}

pub is_some_iff : {A : Type 0} (o : Option A) → (is_some o ≡ true) ↔ ((a : A) × (o ≡ some a))
is_some_iff none = (λ e. absurd (false≢true e), λ h. let (a, e) = h in cc)
is_some_iff (some a) = (λ e. (a, refl), λ h. refl)

pub any_iff :
    {A : Type 0} (p : A → Bool) (xs : List A)
    → (any p xs ≡ true) ↔ ((x : A) × Memᴰ x xs × (p x ≡ true))
any_iff p [] = (λ e. absurd (false≢true e), λ h. elim h.1 [ ])
any_iff p (x ∷ xs) =
    let rest = any_iff p xs in
    (
      λ e. elim (Bool-cases (p x)) [
        | inl here ↦ (x, Memᴰ.head refl, here)
        | inr other ↦ let (y, m, h) = rest.0 (ground (arith, e, other)) in (y, Memᴰ.tail m, h)
      ],
      λ found.
          let (y, m, h) = found in
          elim m [
            | Memᴰ.head here ↦ let e : p x ≡ true = sym (ap p here) ∙ h in rw e refl
            | Memᴰ.tail m' ↦ let e = rest.1 (y, m', h) in ground (arith, e)
          ],
    )

pub find_name_iff :
    (name : CString) (names : List CString) (i : ℕ)
    → (is_some (find_name name names i) ≡ true) ↔ Memᴰ name names
unfolding find_name
find_name_iff name [] i = (λ e. absurd (false≢true e), λ m. elim m [ ])
find_name_iff name (x ∷ names) i = elim (Bool-cases (str_eq x name)) [
  | inl same ↦ rw same (λ e. Memᴰ.head (sym ((str_eq_iff x name).0 same)), λ m. refl)
  | inr other ↦ rw other (
    λ e. Memᴰ.tail ((find_name_iff name names _).0 e),
    λ m. elim m [
      | Memᴰ.head here ↦ absurd (ground (arith, other, (str_eq_iff x name).1 (sym here)))
      | Memᴰ.tail m' ↦ (find_name_iff name names _).1 m'
    ],
  )
]

-- One of the drivers gives an address for the name.
abbrev pub DriverHas : Instance → CString → Type 0
DriverHas inst name =
    (icd : IcdTerm) × Memᴰ icd inst.icd_terms
    × ((address : ℕ) × (icd.get_instance_proc_addr name ≡ some address))

-- The manifest of one of the layers lists the name among its entry points.
abbrev pub ManifestHas : List ActivatedLayer → CString → Type 0
ManifestHas layers name =
    (layer : ActivatedLayer) × Memᴰ layer layers
    × ((entries : List CString) × Memᴰ entries layer.entrypoints × Memᴰ name entries)

-- The first layer has a lookup, which gives an address for the name.
abbrev pub ChainHas : List ActivatedLayer → CString → Type 0
ChainHas [] name = ⊥
ChainHas (layer ∷ layers) name =
    (lookup : CString → Option ℕ) × (layer.get_instance_proc_addr ≡ some lookup)
    × ((address : ℕ) × (lookup name ≡ some address))

abbrev pub IsSupported : Instance → CString → Bool → Type 0
IsSupported inst name is_tramp =
    DriverHas inst name
    ⊎ ((is_tramp ≡ true)
        × (ManifestHas inst.expanded_activated_layer_list name
            ⊎ ChainHas inst.expanded_activated_layer_list name))

drivers_iff :
    (inst : Instance) (name : CString)
    → (loader_check_icds_for_dev_ext_address inst name ≡ true) ↔ DriverHas inst name
unfolding loader_check_icds_for_dev_ext_address
drivers_iff inst name =
    let all =
      any_iff (λ (icd : IcdTerm). is_some (icd.get_instance_proc_addr name)) inst.icd_terms in
    (
      λ e.
          let (icd, m, h) = all.0 e in
          (icd, m, (is_some_iff (icd.get_instance_proc_addr name)).0 h),
      λ h.
          let (icd, m, found) = h in
          all.1 (icd, m, (is_some_iff (icd.get_instance_proc_addr name)).1 found),
    )

chain_iff :
    (layers : List ActivatedLayer) (name : CString)
    → (chain_supports layers name ≡ true) ↔ ChainHas layers name
chain_iff [] name = (λ e. absurd (false≢true e), λ h. absurd h)
chain_iff (layer ∷ layers) name = elim (Option-cases layer.get_instance_proc_addr) [
  | inl missing ↦
      rw (missing, chain_supports) (λ e. absurd (false≢true e), λ h. let (lookup, e, a) = h in cc)
  | inr (lookup, there) ↦
      rw (there, chain_supports)
        (
          λ e. (lookup, refl, (is_some_iff (lookup name)).0 e),
          λ h.
              let (lookup', e, (a, g)) = h in
              let same : lookup ≡ lookup' = cc in
              (is_some_iff (lookup name)).1 (a, ap (λ l. l name) same ∙ g),
        )
]

manifest_iff :
    (layers : List ActivatedLayer) (name : CString)
    → (any
          (λ (layer : ActivatedLayer). any (any (λ entry. str_eq entry name)) layer.entrypoints)
          layers
        ≡ true)
      ↔ ManifestHas layers name
manifest_iff layers name =
    let is_name : CString → Bool = λ entry. str_eq entry name in
    let all = any_iff (λ (layer : ActivatedLayer). any (any is_name) layer.entrypoints) layers in
    (
      λ e.
          let (layer, m, h) = all.0 e in
          let (entries, m', h') = (any_iff (any is_name) layer.entrypoints).0 h in
          let (entry, m'', h'') = (any_iff is_name entries).0 h' in
          (
            layer,
            m,
            (entries, m', subst (λ n. Memᴰ n entries) ((str_eq_iff entry name).0 h'') m''),
          ),
      λ found.
          let (layer, m, (entries, m', m'')) = found in
          all.1 (
            layer,
            m,
            (any_iff (any is_name) layer.entrypoints).1
                (entries, m', (any_iff is_name entries).1 (name, m'', str_eq_refl name)),
          ),
    )

layers_iff :
    (m c : Bool) {M C : Type 0}
    → (m ≡ true) ↔ M
    → (c ≡ true) ↔ C
    → ((if m then true else c) ≡ true) ↔ (M ⊎ C)
layers_iff true c m_iff c_iff = (λ e. inl (m_iff.0 refl), λ h. refl)
layers_iff false c m_iff c_iff = (
  λ e. inr (c_iff.0 e),
  λ h. elim h [ inl m ↦ absurd (false≢true (m_iff.1 m)) | inr x ↦ c_iff.1 x ],
)

pub either_iff :
    (d t l : Bool) {D L : Type 0}
    → (d ≡ true) ↔ D
    → (l ≡ true) ↔ L
    → ((d || (t && l)) ≡ true) ↔ (D ⊎ ((t ≡ true) × L))
either_iff true t l d_iff l_iff = (λ e. inl (d_iff.0 refl), λ h. refl)
either_iff false true l d_iff l_iff = (
  λ e. inr (refl, l_iff.0 e),
  λ h. elim h [ inl d ↦ absurd (false≢true (d_iff.1 d)) | inr x ↦ l_iff.1 x.1 ],
)
either_iff false false l d_iff l_iff =
    (λ e. absurd (false≢true e), λ h. elim h [ inl d ↦ d_iff.1 d | inr x ↦ x.0 ])

pub supported_iff :
    (inst : Instance) (name : CString) (is_tramp : Bool)
    → (supported inst name is_tramp ≡ true) ↔ IsSupported inst name is_tramp
unfolding loader_check_layer_list_for_dev_ext_address
supported_iff inst name is_tramp =
    either_iff (loader_check_icds_for_dev_ext_address inst name) is_tramp
      (loader_check_layer_list_for_dev_ext_address inst name) (drivers_iff inst name)
      (layers_iff _ _ (manifest_iff inst.expanded_activated_layer_list name)
        (chain_iff inst.expanded_activated_layer_list name))
