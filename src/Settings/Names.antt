-- ===== src/Settings/Names.antt =====
-- loader/settings.c: the names in the lists that the loops of the combination make.
use vulkan_sc_loader.Base.{
  ◌≤◌, length, str_eq_iff, append_assoc, ◌≡◌, refl, sym, ap, ◌≢◌, Bool, true, false, not, ◌&&◌,
  ◌||◌, List, [], ◌∷◌, ◌++◌, CString, str_eq_comm, if◌then◌else◌, Bool-cases, arith, inl, inr,
  or_assoc,
}
use vulkan_sc_loader.Layers.{LayerProperties, zero_layer, has_name}
use vulkan_sc_loader.Settings.{check_if_layer_is_in_list}

-- Whether a list has a layer of a name.
abbrev pub has_layer : CString → List LayerProperties → Bool
has_layer name [] = false
has_layer name (l ∷ ls) = has_name name l || has_layer name ls

-- What a loop over the settings' layers adds to an output, and what it leaves in their list.
abbrev pub added : List LayerProperties → List LayerProperties → List LayerProperties
added out [] = []
added out (s ∷ settings) =
    if check_if_layer_is_in_list out s true
    then added out settings
    else s ∷ added (out ++ s ∷ []) settings

abbrev pub left : List LayerProperties → List LayerProperties → List LayerProperties
left out [] = []
left out (s ∷ settings) =
    if check_if_layer_is_in_list out s true
    then s ∷ left out settings
    else zero_layer ∷ left (out ++ s ∷ []) settings

-- What the loop over the regular layers adds.
abbrev pub added_regular :
    List LayerProperties → List LayerProperties → List LayerProperties → List LayerProperties
added_regular settings out [] = []
added_regular settings out (r ∷ regular) =
    if check_if_layer_is_in_list out r false || check_if_layer_is_in_list settings r false
    then added_regular settings out regular
    else r ∷ added_regular settings (out ++ r ∷ []) regular

pub has_layer-append :
    (name : CString) (xs ys : List LayerProperties)
    → has_layer name (xs ++ ys) ≡ (has_layer name xs || has_layer name ys)
has_layer-append name [] ys = refl
has_layer-append name (x ∷ xs) ys =
    rw (has_layer-append name xs ys)
      (sym (or_assoc (has_name name x) (has_layer name xs) (has_layer name ys)))

-- Without the library path the check is a search for the name.
pub check-name :
    (out : List LayerProperties) (l : LayerProperties)
    → check_if_layer_is_in_list out l false ≡ has_layer l.layer_name out
unfolding check_if_layer_is_in_list
check-name [] l = refl
check-name (o ∷ out) l = ground (arith, check-name out l, str_eq_comm o.layer_name l.layer_name)

-- With the library path it never finds a layer whose name is not there.
check-library :
    (out : List LayerProperties) (l : LayerProperties)
    → check_if_layer_is_in_list out l true ≡ true
    → has_layer l.layer_name out ≡ true
unfolding check_if_layer_is_in_list
check-library [] l h = h
check-library (o ∷ out) l h =
    ground (arith, check-library out l, str_eq_comm o.layer_name l.layer_name)

-- A layer of the name stands for the name.
has_layer-same :
    (name : CString) (l : LayerProperties) (ls : List LayerProperties)
    → has_name name l ≡ true
    → has_layer name ls ≡ has_layer l.layer_name ls
has_layer-same name l ls e = ap (λ n. has_layer n ls) ((str_eq_iff name l.layer_name).0 e)

-- The loop over the settings' layers leaves no name out and invents none.
pub has_layer-added :
    (name : CString) (out settings : List LayerProperties)
    → has_layer name (out ++ added out settings) ≡ (has_layer name out || has_layer name settings)
has_layer-added name out [] = has_layer-append name out []
has_layer-added name out (s ∷ settings) = elim (Bool-cases (check_if_layer_is_in_list out s true)) [
  | inl listed ↦
      let there = check-library out s listed in
      rw listed (ground (arith, has_layer-added name out settings, has_layer-same name s out))
  | inr missing ↦
      rw (missing, sym (append_assoc out (s ∷ []) (added (out ++ s ∷ []) settings)))
        (ground (
          arith,
          has_layer-added name (out ++ s ∷ []) settings,
          has_layer-append name out (s ∷ []),
        ))
]

pub has_layer-of_added :
    (name : CString) (out settings : List LayerProperties)
    → has_layer name (added out settings) ≡ true
    → has_layer name settings ≡ true
has_layer-of_added name out [] h = h
has_layer-of_added name out (s ∷ settings) h =
    ground (
      arith,
      has_layer-of_added name out settings,
      has_layer-of_added name (out ++ s ∷ []) settings,
    )

pub has_layer-left :
    (name : CString) (out settings : List LayerProperties)
    → name ≢ []
    → has_layer name (left out settings) ≡ true
    → has_layer name settings ≡ true
has_layer-left name out [] n h = h
has_layer-left [] out (s ∷ settings) n h = absurd (n refl)
has_layer-left (c ∷ cs) out (s ∷ settings) n h = ground (
  arith,
  has_layer-left (c ∷ cs) out settings n,
  has_layer-left (c ∷ cs) (out ++ s ∷ []) settings n,
)

-- The loop over the regular layers adds the names that are in neither list.
pub has_layer-added_regular :
    (name : CString) (settings out regular : List LayerProperties)
    → has_layer name (added_regular settings out regular)
      ≡ (has_layer name regular && not (has_layer name out || has_layer name settings))
has_layer-added_regular name settings out [] = refl
has_layer-added_regular name settings out (r ∷ regular) =
    rw (check-name out r, check-name settings r)
      (ground (
        arith,
        has_layer-added_regular name settings out regular,
        has_layer-added_regular name settings (out ++ r ∷ []) regular,
        has_layer-append name out (r ∷ []),
        has_layer-same name r out,
        has_layer-same name r settings,
      ))

-- The lists that the loops make are no longer than those that they walk.
pub length-added :
    (out settings : List LayerProperties) → length (added out settings) ≤ length settings
length-added out [] = omega arith
length-added out (s ∷ settings) =
    ground (arith, length-added out settings, length-added (out ++ s ∷ []) settings)

pub length-added_regular :
    (settings out regular : List LayerProperties)
    → length (added_regular settings out regular) ≤ length regular
length-added_regular settings out [] = omega arith
length-added_regular settings out (r ∷ regular) = ground (
  arith,
  length-added_regular settings out regular,
  length-added_regular settings (out ++ r ∷ []) regular,
)
