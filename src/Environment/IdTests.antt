-- ===== src/Environment/IdTests.antt =====
-- loader/loader_environment.c: the filters of ids at concrete inputs.
use vulkan_sc_loader.Base.{
  ◌≢◌, ◌<◌, ◌^◌, subst, ◌≡◌, ◌↔◌, refl, true, false, none, some, [], ◌∷◌, map, CString, codes,
  length, lower, strtok, arith,
}
use vulkan_sc_loader.Environment.Filter.{Environ, is_comma}
use vulkan_sc_loader.Environment.Ids.{
  IdFilter, id_range, parse_id_filter_environment_var, check_id_matches_filter_environment_var,
}
use vulkan_sc_loader.Environment.IdRanges.{
  InOne, check-parse_id_filter, parse_id_filter_environment_var-none_iff,
}

abbrev vendor_ids : CString
vendor_ids = codes "0x10-32,7"

abbrev environment : Environ
environment name = some vendor_ids

parse_run :
    parse_id_filter_environment_var environment true (codes "VK_VENDOR")
    ≡ some (record {
      count = 2;
      filters = record { begin = 16; end = 32 } ∷ record { begin = 7; end = 7 } ∷ [];
    })
unfolding parse_id_filter_environment_var
parse_run = refl

check-parse_id_filter_example :
    (f : IdFilter) × (parse_id_filter_environment_var environment true (codes "VK_VENDOR") ≡ some f)
    × (f.count ≡ length f.filters)
    × ((check_id_matches_filter_environment_var 20 f ≡ true)
        ↔ InOne 20 (map id_range (strtok is_comma (lower vendor_ids))))
check-parse_id_filter_example =
    check-parse_id_filter environment (codes "VK_VENDOR") vendor_ids 20 refl (omega arith)

parse_id_filter_environment_var-none_iff_example :
    (parse_id_filter_environment_var environment false (codes "VK_VENDOR") ≡ none) ↔ (
      (false ≡ false)
      × ((v : CString) × (environment (codes "VK_VENDOR") ≡ some v)
          × (strtok is_comma (lower v) ≢ [])))
parse_id_filter_environment_var-none_iff_example =
    parse_id_filter_environment_var-none_iff environment false (codes "VK_VENDOR")
      (λ v set. let same : vendor_ids ≡ v = cc in subst (λ w. length w < 2 ^ 31) same (omega arith))
