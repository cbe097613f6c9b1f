-- ===== src/Environment/Parsing.antt =====
-- loader/loader_environment.c: what the parsing of a variable with a list of filters gives.
use vulkan_sc_loader.Base.{
  suc-eq-zero, inr, inl, Option-cases, length-drop, drop, length-take, ltb, if◌then◌else◌,
  length-map, append_assoc, append-nil, ℕ, zero, suc, ◌+◌, ◌-◌, ◌≤◌, ◌<◌, ◌≡◌, refl, sym, ap, ◌∙◌,
  Bool, true, false, List, [], ◌∷◌, ◌++◌, map, CString, arith, length, take, All, lower, strtok,
}
use vulkan_sc_loader.Environment.Filter.{
  parse_generic_value, determine_filter_type, FilterValue, EnvvarFilter, no_filter, filter_value,
  push_filter, filter_tokens, Environ, is_comma, max_additional_filters, max_extension_name_size,
  parse_generic_filter_environment_var,
}
use vulkan_sc_loader.Environment.Meaning.{IsMeasured}

-- The closed form of the loop: the entries of the first sixteen tokens, in their order.
filter_tokens_lem :
    (tokens : List CString) (k : ℕ) (f : EnvvarFilter)
    → f.count + suc k ≡ max_additional_filters
    → filter_tokens tokens f ≡ record {
      count = f.count + length (take (suc k) tokens);
      filters = f.filters ++ map filter_value (take (suc k) tokens);
    }
unfolding filter_tokens push_filter
filter_tokens_lem [] k f h = ground (arith, append-nil f.filters)
filter_tokens_lem (token ∷ tokens) zero f h = ground arith
filter_tokens_lem (token ∷ tokens) (suc k) f h = ground (
  arith,
  filter_tokens_lem tokens k (push_filter f token),
  append_assoc f.filters (filter_value token ∷ []) (map filter_value (take (suc k) tokens)),
)

pub filter_tokens-no_filter :
    (tokens : List CString)
    → filter_tokens tokens no_filter ≡ record {
      count = length (take max_additional_filters tokens);
      filters = map filter_value (take max_additional_filters tokens);
    }
filter_tokens-no_filter tokens =
    filter_tokens_lem tokens 15 no_filter refl
    ∙ ap
        (λ n. record { count = n; filters = map filter_value (take max_additional_filters tokens) })
        (omega arith)

-- A parsed filter: its count, its capacity, and the bounds of each entry's buffer.
pub record IsValid (f : EnvvarFilter) : Type 0 where
  pub counted : f.count ≡ length f.filters
  pub bounded : f.count ≤ max_additional_filters
  pub measured : All IsMeasured f.filters
  pub fitting : All (λ (v : FilterValue). v.length < max_extension_name_size) f.filters

-- The kept part lies within the string.
shape_inside :
    (s : CString)
    → (determine_filter_type s).new_start + (determine_filter_type s).new_length ≤ length s
unfolding determine_filter_type
shape_inside [] = omega arith
shape_inside (c ∷ s) = ground arith

filter_value-IsMeasured : (token : CString) → IsMeasured (filter_value token)
unfolding filter_value
filter_value-IsMeasured token =
    let shape = determine_filter_type token in
    let n =
      (if ltb shape.new_length (max_extension_name_size - 1)
        then shape.new_length
        else max_extension_name_size - 1) in
    let small : n ≤ shape.new_length = ground arith in
    omega (
      arith,
      small,
      shape_inside token,
      length-take n (drop shape.new_start token),
      length-drop shape.new_start token,
    )

filter_value-fits : (token : CString) → (filter_value token).length < max_extension_name_size
unfolding filter_value
filter_value-fits token = ground arith

All-map-filter_value :
    (tokens : List CString)
    → All IsMeasured (map filter_value tokens)
      × All (λ (v : FilterValue). v.length < max_extension_name_size) (map filter_value tokens)
All-map-filter_value [] = (tt, tt)
All-map-filter_value (t ∷ tokens) =
    let (m, f) = All-map-filter_value tokens in
    ((filter_value-IsMeasured t, m), (filter_value-fits t, f))

no_filter-IsValid : IsValid no_filter
no_filter-IsValid = record { counted = refl; bounded = omega arith; measured = tt; fitting = tt }

filter_tokens-IsValid : (tokens : List CString) → IsValid (filter_tokens tokens no_filter)
filter_tokens-IsValid tokens =
    let kept = take max_additional_filters tokens in
    let (m, f) = All-map-filter_value kept in
    rw (filter_tokens-no_filter tokens) (record {
      counted = sym (length-map filter_value kept);
      bounded = omega (arith, length-take max_additional_filters tokens);
      measured = m;
      fitting = f;
    })

value-IsValid : (allocated : Bool) (v : CString) → IsValid (parse_generic_value allocated v).1
value-IsValid a [] = no_filter-IsValid
value-IsValid false (c ∷ v) = rw (suc-eq-zero (length v)) no_filter-IsValid
value-IsValid true (c ∷ v) =
    rw (suc-eq-zero (length v)) (filter_tokens-IsValid (strtok is_comma (lower (c ∷ v))))

-- Whatever the variable holds, and whether or not the allocation succeeds, the filter that results
-- has at most sixteen entries, as many as its count, each with the length of its text, which fits the
-- buffer with its terminator.
pub parse_generic_filter_environment_var-IsValid :
    (env : Environ) (allocated : Bool) (name : CString)
    → IsValid (parse_generic_filter_environment_var env allocated name).1
unfolding parse_generic_filter_environment_var
parse_generic_filter_environment_var-IsValid env allocated name = elim (Option-cases (env name)) [
  | inl missing ↦ rw (missing, parse_generic_filter_environment_var) no_filter-IsValid
  | inr (v, set) ↦ rw (set, parse_generic_filter_environment_var) (value-IsValid allocated v)
]
