-- ===== src/Environment/Tests.antt =====
-- Tests and examples for loader/loader_environment.c.
use vulkan_sc_loader.Base.{
  ◌≢◌, ◌≡◌, refl, ◌↔◌, true, some, [], ◌∷◌, List, CString, codes, arith, success, All, map,
}
use vulkan_sc_loader.Environment.Filter.{
  FilterType, substring, prefix, special, EnvvarFilter, no_disable_filter, Environ,
  parse_generic_filter_environment_var, parse_layers_disable_filter_environment_var,
}
use vulkan_sc_loader.Environment.Shapes.{IsStem}
use vulkan_sc_loader.Environment.Match.{
  name_segment_matches_filter_value, slide, switch_type, filter_matches,
  check_name_matches_filter_environment_var,
}
use vulkan_sc_loader.Environment.Meaning.{MeetsOne, check_name_matches_filter_environment_var_iff}
use vulkan_sc_loader.Environment.Parsing.{IsValid, parse_generic_filter_environment_var-IsValid}
use vulkan_sc_loader.Environment.RoundTrip.{IsPlain, stored, check-parsed_iff}
use vulkan_sc_loader.Environment.Disable.{
  disabled_by, parse_layers_disable_filter_environment_var-disabled_by,
}

abbrev khronos : CString
khronos = codes "khronos"

khronos-IsStem : IsStem khronos
khronos-IsStem = record {
  at_least_two = omega arith;
  fits = omega arith;
  first_no_star = refl;
  first_no_tilde = refl;
  last_no_star = refl;
}

abbrev one_filter : EnvvarFilter
one_filter = record {
  count = 1;
  filters = record { value = khronos; length = 7; type = substring } ∷ [];
}

check_name_matches_filter_environment_var_iff_example :
    (check_name_matches_filter_environment_var (codes "VK_LAYER_KHRONOS_x") one_filter ≡ true)
    ↔ MeetsOne (codes "VK_LAYER_KHRONOS_x") one_filter.filters
check_name_matches_filter_environment_var_iff_example =
    check_name_matches_filter_environment_var_iff (codes "VK_LAYER_KHRONOS_x") one_filter (refl, tt)

abbrev environment : Environ
environment name = some (codes "*khronos*,~implicit~,khronos*")

parse_generic_filter_environment_var-IsValid_example :
    IsValid
      (parse_generic_filter_environment_var environment true (codes "VK_LOADER_LAYERS_ENABLE")).1
parse_generic_filter_environment_var-IsValid_example =
    parse_generic_filter_environment_var-IsValid environment true (codes "VK_LOADER_LAYERS_ENABLE")

abbrev two_specs : List (FilterType × CString)
two_specs = (substring, khronos) ∷ (prefix, khronos) ∷ []

abbrev written : Environ
written name = some (codes "*khronos*,khronos*")

khronos-IsPlain : (t : FilterType) → t ≢ special → IsPlain (t, khronos)
khronos-IsPlain t n = record {
  not_special = n;
  stem = khronos-IsStem;
  lower_case = refl;
  no_comma = (refl, (refl, (refl, (refl, (refl, (refl, (refl, tt)))))));
}

two_specs-IsPlain : All IsPlain two_specs
two_specs-IsPlain = (khronos-IsPlain substring (λ e. cc), (khronos-IsPlain prefix (λ e. cc), tt))

check-parsed_iff_example :
    (check_name_matches_filter_environment_var
        (codes "VK_LAYER_KHRONOS_x")
        (parse_generic_filter_environment_var written true (codes "VK_LOADER_LAYERS_ALLOW")).1
      ≡ true)
    ↔ MeetsOne (codes "VK_LAYER_KHRONOS_x") (map stored two_specs)
check-parsed_iff_example =
    check-parsed_iff written (codes "VK_LOADER_LAYERS_ALLOW") two_specs (codes "VK_LAYER_KHRONOS_x")
      two_specs-IsPlain (omega arith) refl

parse_layers_disable_filter_environment_var-disabled_by_example :
    parse_layers_disable_filter_environment_var environment true ≡ (
      success,
      disabled_by no_disable_filter
          (codes "*khronos*" ∷ codes "~implicit~" ∷ codes "khronos*" ∷ []),
    )
parse_layers_disable_filter_environment_var-disabled_by_example =
    parse_layers_disable_filter_environment_var-disabled_by environment
      (codes "*khronos*,~implicit~,khronos*") refl (omega arith)

-- A substring is found whatever the case of the name.
matches_by_substring :
    check_name_matches_filter_environment_var (codes "VK_LAYER_KHRONOS_x") one_filter ≡ true
unfolding check_name_matches_filter_environment_var filter_matches switch_type slide
    name_segment_matches_filter_value
matches_by_substring = refl
