-- ===== src/Environment/Match.antt =====
-- loader/loader_environment.c: the test of a layer's name against a list of filters.
use vulkan_sc_loader.Base.{
  ℕ, zero, suc, ◌+◌, ◌-◌, Bool, true, false, ◌&&◌, List, [], ◌∷◌, CString, tolower, length, get_or,
  drop, leb, ◌==◌, if◌then◌else◌,
}
use vulkan_sc_loader.Environment.Filter.{
  FilterType, fullname, substring, prefix, suffix, special, FilterValue, EnvvarFilter,
  names_all_layers,
}

-- A read at the end of a string gives its terminator.
unfoldable pub name_segment_matches_filter_value : CString → CString → ℕ → Bool
name_segment_matches_filter_value name value zero = true
name_segment_matches_filter_value name value (suc n) =
    tolower (get_or name 0 0) == get_or value 0 0
    && name_segment_matches_filter_value (drop 1 name) (drop 1 value) n

-- The loop that slides a filter along the name, with the number of places that are left to try.
unfoldable pub slide : ℕ → CString → CString → ℕ → Bool
slide zero name value n = false
slide (suc rounds) name value n =
    let rest = slide rounds (drop 1 name) value n in
    if name_segment_matches_filter_value name value n then true else rest

-- The switch on the type of a filter that is no longer than the name.
unfoldable pub switch_type : FilterType → CString → FilterValue → Bool
switch_type special name f = names_all_layers f.value
switch_type substring name f = slide (length name + 1 - f.length) name f.value f.length
switch_type suffix name f =
    name_segment_matches_filter_value (drop (length name - f.length) name) f.value f.length
switch_type prefix name f = name_segment_matches_filter_value name f.value f.length
switch_type fullname name f =
    length name == f.length && name_segment_matches_filter_value name f.value f.length

unfoldable pub filter_matches : CString → FilterValue → Bool
filter_matches name f = leb f.length (length name) && switch_type f.type name f

-- The loop over the filters ends at the first that matches.
unfoldable pub check_filters : CString → List FilterValue → Bool
check_filters name [] = false
check_filters name (f ∷ fs) = if filter_matches name f then true else check_filters name fs

unfoldable pub check_name_matches_filter_environment_var : CString → EnvvarFilter → Bool
unfolding check_filters
check_name_matches_filter_environment_var name filter_struct =
    check_filters name filter_struct.filters
