-- ===== src/Environment/IdRanges.antt =====
-- loader/loader_environment.c: the ids that a variable lets through.
use vulkan_sc_loader.Base.{
  false≢true, sym, ◌∙◌, ap, subst, ◌≢◌, Option-cases, length-map, ℕ, suc, ◌+◌, ◌%◌, ◌^◌, ◌≤◌, ◌<◌,
  ◌≡◌, ◌⊎◌, ◌↔◌, inl, inr, refl, Bool, true, false, none, some, List, [], ◌∷◌, ◌++◌, map, CString,
  arith, length, append_assoc, append-nil, lower, strtok, strtok_from, lt→ltb, Bool-cases,
  suc-eq-zero,
}
use vulkan_sc_loader.Environment.Filter.{Environ, is_comma}
use vulkan_sc_loader.Environment.Ids.{
  count_bytes, IdRange, IdFilter, id_range, id_tokens, num_commas, no_ids, parse_id_value,
  parse_id_filter_environment_var, id_in_ranges, check_id_matches_filter_environment_var,
}

-- There is no more than one token more than separators.
length-strtok_from :
    (sep : ℕ → Bool) (s token : CString) → length (strtok_from sep s token) ≤ count_bytes sep s + 1
length-strtok_from sep [] [] = omega arith
length-strtok_from sep [] (t ∷ token) = omega arith
length-strtok_from sep (c ∷ s) [] = elim (Bool-cases (sep c)) [
  | inr other ↦ rw (other, strtok_from) (omega (arith, length-strtok_from sep s (c ∷ [])))
  | inl here ↦ rw (here, strtok_from) (omega (arith, length-strtok_from sep s []))
]
length-strtok_from sep (c ∷ s) (t ∷ token) = elim (Bool-cases (sep c)) [
  | inr other ↦
      rw (other, strtok_from) (omega (arith, length-strtok_from sep s (t ∷ (token ++ c ∷ []))))
  | inl here ↦ rw (here, strtok_from) (omega (arith, length-strtok_from sep s []))
]

count_bytes-length : (p : ℕ → Bool) (s : CString) → count_bytes p s ≤ length s
count_bytes-length p [] = omega arith
count_bytes-length p (c ∷ s) = ground (arith, count_bytes-length p s)

num_commas-lower : (s : CString) → num_commas (lower s) ≡ num_commas s
num_commas-lower [] = refl
num_commas-lower (c ∷ s) = ground (arith, num_commas-lower s)

abbrev with_tokens : IdFilter → List CString → IdFilter
with_tokens f tokens = record {
  count = f.count + length tokens;
  filters = f.filters ++ map id_range tokens;
}

id_tokens_lem :
    (capacity : ℕ) (tokens : List CString) (f : IdFilter)
    → f.count + length tokens ≤ capacity
    → id_tokens capacity tokens f ≡ some (with_tokens f tokens)
unfolding id_tokens
id_tokens_lem capacity [] f enough =
    let e : f.count + 0 ≡ f.count = omega arith in rw (append-nil, e) refl
id_tokens_lem capacity (token ∷ tokens) f enough =
    let e : f.count + 1 + length tokens ≡ f.count + suc (length tokens) = omega arith in
    rw
      (
        lt→ltb f.count capacity (omega arith),
        id_tokens_lem capacity tokens
            (record { count = f.count + 1; filters = f.filters ++ id_range token ∷ [] })
            (omega arith),
      )
      (rw (append_assoc f.filters (id_range token ∷ []) (map id_range tokens), e) refl)

-- An id is in one of the ranges.
abbrev pub InOne : ℕ → List IdRange → Type 0
InOne id [] = ⊥
InOne id (r ∷ rs) = ((r.begin ≤ id) × (id ≤ r.end)) ⊎ InOne id rs

id_in_ranges_iff : (id : ℕ) (rs : List IdRange) → (id_in_ranges id rs ≡ true) ↔ InOne id rs
id_in_ranges_iff id [] = (λ h. cc, λ h. absurd h)
id_in_ranges_iff id (r ∷ rs) = ground (arith, id_in_ranges_iff id rs)

parse_id_value_lem :
    (v : CString)
    → length v < 2 ^ 31
    → parse_id_value true v ≡ some (with_tokens no_ids (strtok is_comma (lower v)))
unfolding id_tokens
parse_id_value_lem [] short = refl
parse_id_value_lem (c ∷ v) short =
    let tokens = length-strtok_from is_comma (lower (c ∷ v)) [] in
    let same = num_commas-lower (c ∷ v) in
    let few = count_bytes-length is_comma (c ∷ v) in
    let no_wrap : (num_commas (c ∷ v) + 1) % 2 ^ 32 ≡ num_commas (c ∷ v) + 1 =
      omega (arith, few, short) in
    rw (suc-eq-zero (length v), no_wrap)
      (id_tokens_lem (num_commas (c ∷ v) + 1) (strtok is_comma (lower (c ∷ v))) no_ids
        (omega (arith, tokens, same)))

-- For a variable that holds fewer than 2 ^ 31 bytes, and if the allocation succeeds: the ranges of all
-- tokens fit the array, which has an entry more than there are commas; and an id passes exactly if it
-- is in one of them.
pub check-parse_id_filter :
    (env : Environ) (name v : CString) (id : ℕ)
    → env name ≡ some v
    → length v < 2 ^ 31
    → (f : IdFilter) × (parse_id_filter_environment_var env true name ≡ some f)
      × (f.count ≡ length f.filters)
      × ((check_id_matches_filter_environment_var id f ≡ true)
          ↔ InOne id (map id_range (strtok is_comma (lower v))))
unfolding parse_id_filter_environment_var check_id_matches_filter_environment_var
check-parse_id_filter env name v id set short = (
  with_tokens no_ids (strtok is_comma (lower v)),
  rw (set, parse_id_filter_environment_var) (parse_id_value_lem v short),
  omega (arith, length-map id_range (strtok is_comma (lower v))),
  id_in_ranges_iff id (map id_range (strtok is_comma (lower v))),
)

parse_without_memory :
    (v : CString) → (parse_id_value false v ≡ none) ↔ (strtok is_comma (lower v) ≢ [])
unfolding id_tokens
parse_without_memory [] = (λ e. cc, λ has_token. absurd (has_token refl))
parse_without_memory (c ∷ v) =
    rw (suc-eq-zero (length v), parse_id_value) (first_write (strtok is_comma (lower (c ∷ v))))
  where
    first_write : (tokens : List CString) → (id_tokens 0 tokens no_ids ≡ none) ↔ (tokens ≢ [])
    first_write [] = (λ e. cc, λ has_token. absurd (has_token refl))
    first_write (token ∷ tokens) = (λ e same. cc, λ has_token. refl)

-- For a variable that holds fewer than 2 ^ 31 bytes, if it is there: the parsing writes beyond its
-- array, or through a null pointer, exactly if the allocation fails and the variable holds a token.
pub parse_id_filter_environment_var-none_iff :
    (env : Environ) (allocated : Bool) (name : CString)
    → ((v : CString) → env name ≡ some v → length v < 2 ^ 31)
    → (parse_id_filter_environment_var env allocated name ≡ none) ↔ (
        (allocated ≡ false)
        × ((v : CString) × (env name ≡ some v) × (strtok is_comma (lower v) ≢ [])))
unfolding parse_id_filter_environment_var
parse_id_filter_environment_var-none_iff env allocated name short = elim (Option-cases (env name)) [
  | inl missing ↦
      rw (missing, parse_id_filter_environment_var)
        (λ e. cc, λ h. let (out, (v, set, has_token)) = h in cc)
  | inr (v, set) ↦ elim (Bool-cases allocated) [
    | inl ok ↦
        let parsed : parse_id_filter_environment_var env allocated name
            ≡ some (with_tokens no_ids (strtok is_comma (lower v))) =
          rw (set, parse_id_filter_environment_var)
            (subst (λ b. parse_id_value b v ≡ some (with_tokens no_ids (strtok is_comma (lower v))))
              (sym ok) (parse_id_value_lem v (short v set))) in
        (λ e. cc, λ h. absurd (false≢true (sym h.0 ∙ ok)))
    | inr out ↦
        let parsed : parse_id_filter_environment_var env allocated name ≡ parse_id_value false v =
          rw (set, parse_id_filter_environment_var) (ap (λ b. parse_id_value b v) out) in
        (
          λ e. (out, (v, set, (parse_without_memory v).0 (sym parsed ∙ e))),
          λ h.
              let (o, (v', set', has_token)) = h in
              let same : v' ≡ v = cc in
              parsed
              ∙ (parse_without_memory v).1
                  (subst (λ w. strtok is_comma (lower w) ≢ []) same has_token),
        )
  ]
]
