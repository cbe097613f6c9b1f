-- ===== src/Environment/RoundTrip.antt =====
-- loader/loader_environment.c: a variable that is written from a list of filters is parsed back into
-- that list.
use vulkan_sc_loader.Base.{
  ◌↔◌, suc-eq-zero, tolower, ◌==◌, ap₂, ◌≤◌, ◌≡◌, refl, ap, ◌∙◌, ◌≢◌, true, false, List, [], ◌∷◌,
  ◌++◌, map, CString, arith, length, All, lower, joined, separated, some, map-append, IsToken,
  success, length-append, length-map, take-all, strtok-joined, All-append,
}
use vulkan_sc_loader.Environment.Filter.{
  FilterType, fullname, substring, prefix, suffix, special, star, FilterValue, no_filter,
  filter_value, filter_tokens, Environ, is_comma, max_additional_filters,
  parse_generic_filter_environment_var,
}
use vulkan_sc_loader.Environment.Shapes.{spell, IsStem, filter_value-spell}
use vulkan_sc_loader.Environment.Match.{check_name_matches_filter_environment_var}
use vulkan_sc_loader.Environment.Meaning.{
  IsMeasured, MeetsOne, check_name_matches_filter_environment_var_iff,
}
use vulkan_sc_loader.Environment.Parsing.{filter_tokens-no_filter}

-- A filter as a user means it: a kind, and the text that it is about. The text is in lower case, as
-- the values are stored, and has no comma.
pub record IsPlain (spec : FilterType × CString) : Type 0 where
  pub not_special : spec.0 ≢ special
  pub stem : IsStem spec.1
  pub lower_case : lower spec.1 ≡ spec.1
  pub no_comma : All (λ c. is_comma c ≡ false) spec.1

abbrev pub spell_each : List (FilterType × CString) → List CString
spell_each = map λ spec. spell spec.0 spec.1

abbrev pub stored : FilterType × CString → FilterValue
stored (t, w) = record { value = w; length = length w; type = t }

lower-spell :
    (spec : FilterType × CString) → IsPlain spec → lower (spell spec.0 spec.1) ≡ spell spec.0 spec.1
lower-spell (fullname, w) p = p.lower_case
lower-spell (substring, w) p =
    ap (λ v. star ∷ v) (map-append tolower w (star ∷ []) ∙ ap (λ v. v ++ star ∷ []) p.lower_case)
lower-spell (prefix, w) p = map-append tolower w (star ∷ []) ∙ ap (λ v. v ++ star ∷ []) p.lower_case
lower-spell (suffix, w) p = ap (λ v. star ∷ v) p.lower_case
lower-spell (special, w) p = absurd (p.not_special refl)

spell-IsToken :
    (spec : FilterType × CString) → IsPlain spec → IsToken is_comma (spell spec.0 spec.1)
spell-IsToken (fullname, []) p = absurd (omega (arith, p.stem.at_least_two))
spell-IsToken (fullname, c ∷ w) p = (λ e. cc, p.no_comma)
spell-IsToken (substring, w) p = (λ e. cc, (refl, All-append _ w (star ∷ []) p.no_comma (refl, tt)))
spell-IsToken (prefix, w) p = (
  λ e. absurd (omega (arith, ap length e, length-append w (star ∷ []))),
  All-append _ w (star ∷ []) p.no_comma (refl, tt),
)
spell-IsToken (suffix, w) p = (λ e. cc, (refl, p.no_comma))
spell-IsToken (special, w) p = absurd (p.not_special refl)

lower-separated :
    (xs : List CString) → All (λ x. lower x ≡ x) xs → lower (separated b',' xs) ≡ separated b',' xs
lower-separated [] h = refl
lower-separated (x ∷ xs) h =
    ap (λ s. b',' ∷ s)
      (map-append tolower x (separated b',' xs)
        ∙ ap₂ (λ (v : CString) s. v ++ s) h.0 (lower-separated xs h.1))

lower-joined :
    (xs : List CString) → All (λ x. lower x ≡ x) xs → lower (joined b',' xs) ≡ joined b',' xs
lower-joined [] h = refl
lower-joined (x ∷ xs) h =
    map-append tolower x (separated b',' xs)
    ∙ ap₂ (λ (v : CString) s. v ++ s) h.0 (lower-separated xs h.1)

spell_each-lower :
    (specs : List (FilterType × CString))
    → All IsPlain specs
    → All (λ x. lower x ≡ x) (spell_each specs)
spell_each-lower [] p = tt
spell_each-lower (spec ∷ specs) p = (lower-spell spec p.0, spell_each-lower specs p.1)

spell_each-IsToken :
    (specs : List (FilterType × CString))
    → All IsPlain specs
    → All (IsToken is_comma) (spell_each specs)
spell_each-IsToken [] p = tt
spell_each-IsToken (spec ∷ specs) p = (spell-IsToken spec p.0, spell_each-IsToken specs p.1)

map-filter_value-spell_each :
    (specs : List (FilterType × CString))
    → All IsPlain specs
    → map filter_value (spell_each specs) ≡ map stored specs
map-filter_value-spell_each [] p = refl
map-filter_value-spell_each ((t, w) ∷ specs) p =
    ap₂ (λ (v : FilterValue) vs. v ∷ vs) (filter_value-spell t w p.0.not_special p.0.stem)
      (map-filter_value-spell_each specs p.1)

-- The loop over the tokens of such a list.
filter_tokens-spell_each :
    (specs : List (FilterType × CString))
    → All IsPlain specs
    → length specs ≤ max_additional_filters
    → filter_tokens (spell_each specs) no_filter
      ≡ record { count = length specs; filters = map stored specs }
filter_tokens-spell_each specs p fits =
    let n : length (spell_each specs) ≡ length specs = length-map _ specs in
    filter_tokens-no_filter (spell_each specs)
    ∙ rw (
      take-all max_additional_filters (spell_each specs) (omega arith),
      n,
      map-filter_value-spell_each specs p,
    )

joined_not_empty : (x s : CString) → x ≢ [] → (length (x ++ s) == 0) ≡ false
joined_not_empty [] s n = absurd (n refl)
joined_not_empty (c ∷ x) s n = suc-eq-zero (length (x ++ s))

-- A variable that holds up to sixteen filters, each spelled with the stars of its kind and with
-- commas between them, is parsed into these filters, in their order, if the allocation succeeds.
pub parse_generic_filter_environment_var-joined :
    (env : Environ) (name : CString) (specs : List (FilterType × CString))
    → All IsPlain specs
    → length specs ≤ max_additional_filters
    → env name ≡ some (joined b',' (spell_each specs))
    → parse_generic_filter_environment_var env true name
      ≡ (success, record { count = length specs; filters = map stored specs })
unfolding parse_generic_filter_environment_var
parse_generic_filter_environment_var-joined env name [] p fits set =
    rw (set, parse_generic_filter_environment_var)
parse_generic_filter_environment_var-joined env name (spec ∷ specs) p fits set =
    rw (set, parse_generic_filter_environment_var)
      (rw (
        joined_not_empty (spell spec.0 spec.1) (separated b',' (spell_each specs))
            (spell-IsToken spec p.0).0,
        lower-joined (spell_each (spec ∷ specs)) (spell_each-lower (spec ∷ specs) p),
        strtok-joined is_comma b',' (spell_each (spec ∷ specs)) refl
            (spell_each-IsToken (spec ∷ specs) p),
        filter_tokens-spell_each (spec ∷ specs) p fits,
      ))

stored-IsMeasured : (specs : List (FilterType × CString)) → All IsMeasured (map stored specs)
stored-IsMeasured [] = tt
stored-IsMeasured (spec ∷ specs) = (refl, stored-IsMeasured specs)

-- The variable holds up to sixteen filters with commas between them, and the allocation succeeds. Each
-- filter is a full name, substring, prefix or suffix, spelled with the stars of its kind. Its text has
-- at least two bytes and fewer than 256, no star at an end, no tilde in front, no comma and no upper
-- case. Then a layer's name passes the check of the parsed filters exactly when it meets one of these
-- filters as text, whatever the case of the name. A text of one byte is excluded since the code takes
-- "a*" for a full name.
pub check-parsed_iff :
    (env : Environ) (variable : CString) (specs : List (FilterType × CString)) (name : CString)
    → All IsPlain specs
    → length specs ≤ max_additional_filters
    → env variable ≡ some (joined b',' (spell_each specs))
    → (check_name_matches_filter_environment_var name
          (parse_generic_filter_environment_var env true variable).1
        ≡ true)
      ↔ MeetsOne name (map stored specs)
check-parsed_iff env variable specs name p fits set =
    rw (parse_generic_filter_environment_var-joined env variable specs p fits set) (
      check_name_matches_filter_environment_var_iff name
        (record { count = length specs; filters = map stored specs }) (stored-IsMeasured specs))
