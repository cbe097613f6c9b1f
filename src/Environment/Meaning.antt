-- ===== src/Environment/Meaning.antt =====
-- loader/loader_environment.c: what it means that a name matches a filter, stated without the
-- loops of the code.
mod Segments
use vulkan_sc_loader.Base.{
  ℕ, zero, suc, ◌+◌, ◌-◌, ◌≤◌, ◌<◌, ◌≡◌, refl, sym, ap, ◌∙◌, ◌↔◌, ◌⊎◌, inl, inr, Bool, true, false,
  ◌&&◌, List, [], ◌∷◌, ◌++◌, CString, lower, tolower, length, get_or, drop, take, leb, ◌==◌, ==_iff,
  le→leb, false≢true, All, append-nil, if◌then◌else◌, arith, Bool-cases, length-append, length-map,
}
use vulkan_sc_loader.Environment.Filter.{
  FilterType, fullname, substring, prefix, suffix, special, FilterValue, EnvvarFilter,
  names_all_layers,
}
use vulkan_sc_loader.Environment.Match.{
  switch_type, filter_matches, check_filters, check_name_matches_filter_environment_var,
}
use Segments.{
  segment_sound, segment_complete, suffix_sound, suffix_complete, slide_sound, slide_complete,
  exact_sound,
}

-- The meaning of a filter of each type with the given text, for a name in lower case.
abbrev pub Meets : FilterType → CString → CString → Type 0
Meets fullname name v = name ≡ v
Meets substring name v = (a : CString) × (b : CString) × (name ≡ a ++ v ++ b)
Meets prefix name v = (b : CString) × (name ≡ v ++ b)
Meets suffix name v = (a : CString) × (name ≡ a ++ v)
Meets special name v = (names_all_layers v ≡ true) × (length v ≤ length name)

abbrev pub MeetsOne : CString → List FilterValue → Type 0
MeetsOne name [] = ⊥
MeetsOne name (f ∷ fs) = Meets f.type (lower name) f.value ⊎ MeetsOne name fs

-- The stored length is that of the stored text.
abbrev pub IsMeasured : FilterValue → Type 0
IsMeasured f = f.length ≡ length f.value

both_true : (a b : Bool) → (a && b) ≡ true → (a ≡ true) × (b ≡ true)
both_true true b h = (refl, h)
both_true false b h = cc

switch_type_sound :
    (t : FilterType) (name : CString) (f : FilterValue)
    → IsMeasured f
    → f.length ≤ length name
    → switch_type t name f ≡ true
    → Meets t (lower name) f.value
unfolding switch_type
switch_type_sound fullname name f m h e =
    let (same, here) = both_true (length name == f.length) _ e in
    exact_sound name f.value (ground arith) (rw m at here)
switch_type_sound substring name f m h e = slide_sound _ name f.value (omega arith) (rw m at e)
switch_type_sound prefix name f m h e =
    (lower (drop (length f.value) name), segment_sound name f.value (omega arith) (rw m at e))
switch_type_sound suffix name f m h e = suffix_sound name f.value (omega arith) (rw m at e)
switch_type_sound special name f m h e = (e, omega (arith, length-map tolower name))

split_lengths : (a b : CString) (n : ℕ) → length (a ++ b) ≡ n → length a + length b ≡ n
split_lengths a b n e = omega (arith, length-append a b)

-- What is met is no longer than the name.
length-le_of_Meets :
    (t : FilterType) (name v : CString) → Meets t (lower name) v → length v ≤ length name
length-le_of_Meets fullname name v e = omega (arith, ap length e, length-map tolower name)
length-le_of_Meets substring name v (a, b, e) =
    omega (arith, ap length e, length-map tolower name, length-append (a ++ v) b, length-append a v)
length-le_of_Meets prefix name v (b, e) =
    omega (arith, ap length e, length-map tolower name, length-append v b)
length-le_of_Meets suffix name v (a, e) =
    omega (arith, ap length e, length-map tolower name, length-append a v)
length-le_of_Meets special name v (e, h) = omega (arith, length-map tolower name)

switch_type_complete :
    (t : FilterType) (name : CString) (f : FilterValue)
    → IsMeasured f
    → Meets t (lower name) f.value
    → switch_type t name f ≡ true
unfolding switch_type
switch_type_complete fullname name f m e =
    let same : (length name == length f.value) ≡ true =
      (==_iff _ _).1 (omega (arith, ap length e, length-map tolower name)) in
    rw (m, same) (segment_complete name f.value [] (e ∙ sym (append-nil f.value)))
switch_type_complete substring name f m (a, b, e) = rw m (
    slide_complete _ name f.value a b
      (omega (
        arith,
        ap length e,
        length-map tolower name,
        length-append (a ++ f.value) b,
        length-append a f.value,
      ))
      e)
switch_type_complete prefix name f m (b, e) = rw m (segment_complete name f.value b e)
switch_type_complete suffix name f m (a, e) = rw m (suffix_complete name f.value a e)
switch_type_complete special name f m (e, h) = e

-- One filter with its wildcards stripped: the code's answer is the meaning.
pub filter_matches_iff :
    (name : CString) (f : FilterValue)
    → IsMeasured f
    → (filter_matches name f ≡ true) ↔ Meets f.type (lower name) f.value
unfolding filter_matches
filter_matches_iff name f m = (
  λ h.
      let (short, here) = both_true (leb f.length (length name)) _ h in
      switch_type_sound f.type name f m (ground arith) here,
  λ p.
      let short : leb f.length (length name) ≡ true =
        le→leb _ _ (omega (arith, length-le_of_Meets f.type name f.value p)) in
      rw short (switch_type_complete f.type name f m p),
)

check_filters_iff :
    (name : CString) (fs : List FilterValue)
    → All IsMeasured fs
    → (check_filters name fs ≡ true) ↔ MeetsOne name fs
unfolding check_filters
check_filters_iff name [] h = (λ e. cc, λ e. elim e [ ])
check_filters_iff name (f ∷ fs) h = elim (Bool-cases (filter_matches name f)) [
  | inl hit ↦ (λ e. inl ((filter_matches_iff name f h.0).0 hit), λ e. rw hit)
  | inr miss ↦ (
    λ e. inr ((check_filters_iff name fs h.1).0 (rw miss at e)),
    elim [
      | inl p ↦ absurd (false≢true (sym miss ∙ (filter_matches_iff name f h.0).1 p))
      | inr p ↦ rw miss ((check_filters_iff name fs h.1).1 p)
    ],
  )
]

-- A name passes the check exactly when, in lower case, it meets one of the filters as text: equal to
-- a full name, holding a substring, beginning with a prefix, ending in a suffix. (A special filter is
-- met if it stands for all layers and is no longer than the name.)
pub check_name_matches_filter_environment_var_iff :
    (name : CString) (filter_struct : EnvvarFilter)
    → All IsMeasured filter_struct.filters
    → (check_name_matches_filter_environment_var name filter_struct ≡ true)
      ↔ MeetsOne name filter_struct.filters
unfolding check_name_matches_filter_environment_var
check_name_matches_filter_environment_var_iff name filter_struct h =
    check_filters_iff name filter_struct.filters h
