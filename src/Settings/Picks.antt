-- ===== src/Settings/Picks.antt =====
-- loader/settings.c: which layers the loops of the combination take, one after the other.
use vulkan_sc_loader.Base.{
  ◌↔◌, ◌⊎◌, inl, inr, ◌≡◌, ◌≢◌, refl, sym, ap, ◌∙◌, Bool, true, false, false≢true, ◌||◌, Option,
  none, some, List, [], ◌∷◌, ◌++◌, CString, str_eq, str_eq_iff, if◌then◌else◌, Bool-cases, arith,
}
use vulkan_sc_loader.Layers.{LayerProperties}
use vulkan_sc_loader.Settings.{check_if_layer_is_in_list, is_off, same_library}
use vulkan_sc_loader.Settings.Names.{
  added, left, added_regular, has_layer, has_layer-append, has_layer-left, check-name,
}

-- Two layers of one name are the same one: the first is switched off, the second is a meta-layer, or
-- both have the same library.
abbrev pub IsSame : LayerProperties → LayerProperties → Type 0
IsSame o l =
    (is_off o.settings_control_value ≡ true)
    ⊎ ((l.is_meta ≡ true)
        ⊎ ((library : CString) × (o.lib_name ≡ some library) × (l.lib_name ≡ some library)))

-- The libraries cannot tell whether they are the same.
abbrev pub IsOpen : LayerProperties → LayerProperties → Type 0
IsOpen o l =
    (is_off o.settings_control_value ≡ false)
    × (l.is_meta ≡ false)
    × ((o.lib_name ≡ none) ⊎ (l.lib_name ≡ none))

-- The first layer of the list that has the name of `l`, those that leave it open aside, is the same.
abbrev pub IsListed : List LayerProperties → LayerProperties → Type 0
IsListed [] l = ⊥
IsListed (o ∷ out) l =
    ((o.layer_name ≡ l.layer_name) × IsSame o l)
    ⊎ (((o.layer_name ≢ l.layer_name) ⊎ IsOpen o l) × IsListed out l)

-- The tests behind that of the name.
Same : Bool → Bool → Option CString → Option CString → Type 0
Same off meta a b =
    (off ≡ true) ⊎ ((meta ≡ true) ⊎ ((library : CString) × (a ≡ some library) × (b ≡ some library)))

Open : Bool → Bool → Option CString → Option CString → Type 0
Open off meta a b = (off ≡ false) × (meta ≡ false) × ((a ≡ none) ⊎ (b ≡ none))

same_library_iff :
    (a b : Option CString) (next : Bool) (N : Type 0)
    → (next ≡ true) ↔ N
    → (same_library a b next ≡ true) ↔ (Same false false a b ⊎ (Open false false a b × N))
unfolding Same Open
same_library_iff (some a) (some b) next N next_iff = (
  λ e. inl (inr (inr (a, refl, ap some (sym ((str_eq_iff a b).0 e))))),
  λ h. elim h [
    | inl (inl off) ↦ absurd (false≢true off)
    | inl (inr (inl meta)) ↦ absurd (false≢true meta)
    | inl (inr (inr (library, e, e'))) ↦ let same : a ≡ b = cc in (str_eq_iff a b).1 same
    | inr ((on, plain, inl e), x) ↦ cc
    | inr ((on, plain, inr e), x) ↦ cc
  ],
)
same_library_iff (some a) none next N next_iff = (
  λ e. inr ((refl, refl, inr refl), next_iff.0 e),
  λ h. elim h [
    | inl (inl off) ↦ absurd (false≢true off)
    | inl (inr (inl meta)) ↦ absurd (false≢true meta)
    | inl (inr (inr (library, e, e'))) ↦ cc
    | inr (o, x) ↦ next_iff.1 x
  ],
)
same_library_iff none b next N next_iff = (
  λ e. inr ((refl, refl, inl refl), next_iff.0 e),
  λ h. elim h [
    | inl (inl off) ↦ absurd (false≢true off)
    | inl (inr (inl meta)) ↦ absurd (false≢true meta)
    | inl (inr (inr (library, e, e'))) ↦ cc
    | inr (o, x) ↦ next_iff.1 x
  ],
)

tests_iff :
    (off meta : Bool) (a b : Option CString) (next : Bool) (N : Type 0)
    → (next ≡ true) ↔ N
    → ((if off then true else if meta then true else same_library a b next) ≡ true)
      ↔ (Same off meta a b ⊎ (Open off meta a b × N))
unfolding Same Open
tests_iff true meta a b next N next_iff = (λ e. inl (inl refl), λ h. refl)
tests_iff false true a b next N next_iff = (λ e. inl (inr (inl refl)), λ h. refl)
tests_iff false false a b next N next_iff = same_library_iff a b next N next_iff

pub check_if_layer_is_in_list_iff :
    (out : List LayerProperties) (l : LayerProperties)
    → (check_if_layer_is_in_list out l true ≡ true) ↔ IsListed out l
unfolding check_if_layer_is_in_list Same Open
check_if_layer_is_in_list_iff [] l = (λ e. absurd (false≢true e), λ h. absurd h)
check_if_layer_is_in_list_iff (o ∷ out) l =
    let rest = check_if_layer_is_in_list_iff out l in
    let name_iff = str_eq_iff o.layer_name l.layer_name in
    elim (Bool-cases (str_eq o.layer_name l.layer_name)) [
      | inr other ↦
          let differs : o.layer_name ≢ l.layer_name =
            λ same. false≢true (sym other ∙ name_iff.1 same) in
          rw (other, check_if_layer_is_in_list)
            (
              λ e. inr (inl differs, rest.0 e),
              λ h. elim h [ inl (same, x) ↦ absurd (differs same) | inr (x, later) ↦ rest.1 later ],
            )
      | inl same ↦
          let tests =
            tests_iff (is_off o.settings_control_value) l.is_meta o.lib_name l.lib_name _ _ rest in
          rw (same, check_if_layer_is_in_list)
            (
              λ e. elim (tests.0 e) [
                | inl t ↦ inl (name_iff.0 same, t)
                | inr (t, later) ↦ inr (inr t, later)
              ],
              λ h. tests.1 (elim h [
                | inl (e, t) ↦ inl t
                | inr (inl differs, later) ↦ absurd (differs (name_iff.0 same))
                | inr (inr t, later) ↦ inr (t, later)
              ]),
            )
    ]

-- A walk through layers, with an output that has `out` at first: each layer may be passed over or is
-- taken to the end of the output.
pub data Picks (MayPass MayTake : List LayerProperties → LayerProperties → Type 0)
    : List LayerProperties → List LayerProperties → List LayerProperties → Type 0 where
  at_end : {out : List LayerProperties} → Picks MayPass MayTake out [] []
  passed :
      {out layers result : List LayerProperties} {l : LayerProperties}
      → MayPass out l
      → Picks MayPass MayTake out layers result
      → Picks MayPass MayTake out (l ∷ layers) result
  taken :
      {out layers result : List LayerProperties} {l : LayerProperties}
      → MayTake out l
      → Picks MayPass MayTake (out ++ l ∷ []) layers result
      → Picks MayPass MayTake out (l ∷ layers) (l ∷ result)

-- Of the settings' layers those are taken that the output has not listed.
abbrev pub PicksUnlisted :
    List LayerProperties → List LayerProperties → List LayerProperties → Type 0
PicksUnlisted = Picks IsListed (λ out l. IsListed out l → ⊥)

pub added-PicksUnlisted :
    (out settings : List LayerProperties) → PicksUnlisted out settings (added out settings)
added-PicksUnlisted out [] = at_end
added-PicksUnlisted out (s ∷ settings) =
    let listed_iff = check_if_layer_is_in_list_iff out s in
    elim (Bool-cases (check_if_layer_is_in_list out s true)) [
      | inl listed ↦ rw listed (passed (listed_iff.0 listed) (added-PicksUnlisted out settings))
      | inr missing ↦ rw missing (
          taken (λ h. false≢true (sym missing ∙ listed_iff.1 h))
            (added-PicksUnlisted (out ++ s ∷ []) settings))
    ]

abbrev pub IsKnown : List LayerProperties → List LayerProperties → LayerProperties → Type 0
IsKnown settings out r =
    (has_layer r.layer_name out ≡ true)
    ⊎ ((has_layer r.layer_name settings ≡ true) ⊎ (r.layer_name ≡ []))

abbrev pub IsUnknown : List LayerProperties → List LayerProperties → LayerProperties → Type 0
IsUnknown settings out r =
    (has_layer r.layer_name out ≡ false) × (has_layer r.layer_name settings ≡ false)

-- Of the regular layers those are taken whose name neither the output nor the settings have. One
-- without a name may be passed over, since the settings' layers that were taken leave such entries.
abbrev pub PicksUnknown :
    List LayerProperties
    → List LayerProperties
    → List LayerProperties
    → List LayerProperties
    → Type 0
PicksUnknown settings = Picks (IsKnown settings) (IsUnknown settings)

check_if_layer_is_in_list-IsKnown :
    (before rest out : List LayerProperties) (r : LayerProperties)
    → (check_if_layer_is_in_list out r false
        || check_if_layer_is_in_list (left [] before ++ rest) r false)
      ≡ true
    → IsKnown (before ++ rest) out r
check_if_layer_is_in_list-IsKnown before rest out r known =
    let n = r.layer_name in
    elim (Bool-cases (str_eq n [])) [
      | inl empty ↦ inr (inr ((str_eq_iff n []).0 empty))
      | inr some_name ↦
          let named : n ≢ [] = λ e. false≢true (sym some_name ∙ (str_eq_iff n []).1 e) in
          let kept = has_layer-left n [] before named in
          elim (Bool-cases (has_layer n out)) [
            | inl there ↦ inl there
            | inr new ↦ inr (
                inl (
                  ground (
                    arith,
                    known,
                    check-name out r,
                    check-name (left [] before ++ rest) r,
                    has_layer-append n (left [] before) rest,
                    has_layer-append n before rest,
                    kept,
                    new,
                  )))
          ]
    ]

pub added_regular-PicksUnknown :
    (before rest out regular : List LayerProperties)
    → ((n : CString) → has_layer n before ≡ true → has_layer n out ≡ true)
    → PicksUnknown (before ++ rest) out regular (added_regular (left [] before ++ rest) out regular)
added_regular-PicksUnknown before rest out [] has = at_end
added_regular-PicksUnknown before rest out (r ∷ regular) has =
    let n = r.layer_name in
    let in_out = check-name out r in
    let in_left = check-name (left [] before ++ rest) r in
    let parts = has_layer-append n (left [] before) rest in
    let whole = has_layer-append n before rest in
    elim (Bool-cases (
      check_if_layer_is_in_list out r false
      || check_if_layer_is_in_list (left [] before ++ rest) r false)) [
        | inl known ↦ rw known (
            passed (check_if_layer_is_in_list-IsKnown before rest out r known)
              (added_regular-PicksUnknown before rest out regular has))
        | inr unknown ↦ rw unknown (
            taken
              (
                ground (arith, unknown, in_out),
                ground (arith, unknown, in_out, in_left, parts, whole, has n),
              )
              (added_regular-PicksUnknown before rest (out ++ r ∷ []) regular
                (λ m h. ground (arith, has m h, has_layer-append m out (r ∷ [])))))
      ]
