-- ===== src/Environment/Disable.antt =====
-- loader/loader_environment.c: the variable that disables layers.
use vulkan_sc_loader.Base.{
  suc-eq-zero, success, lower, strtok, some, leb, append-nil, append_assoc, str_eq_iff,
  if◌then◌else◌, suc, ◌+◌, ◌≤◌, ◌≡◌, refl, sym, ◌∙◌, Bool, true, false, ◌||◌, List, [], ◌∷◌, ◌++◌,
  CString, codes, str_eq, arith, length, get_or, or_assoc, if_both, Bool-cases, inl, inr,
}
use vulkan_sc_loader.Environment.Filter.{
  no_disable_filter, is_comma, layers_disable_env_var, Environ,
  parse_layers_disable_filter_environment_var, tilde, DisableLayersFilter, FilterValue,
  determine_filter_type, filter_value, push_filter, is_special, disable_special, disable_tokens,
  all_layers_1, implicit_layers, explicit_layers, max_additional_filters,
}

abbrev pub mem_token : CString → List CString → Bool
mem_token t [] = false
mem_token t (x ∷ xs) = str_eq t x || mem_token t xs

-- The entries of the tokens that are not special, in their order.
abbrev pub plain_values : List CString → List FilterValue
plain_values [] = []
plain_values (t ∷ ts) =
    let rest = plain_values ts in
    if is_special (determine_filter_type t).type then rest else filter_value t ∷ rest

-- Flags and entries after the tokens, told token by token.
abbrev pub disabled_by : DisableLayersFilter → List CString → DisableLayersFilter
disabled_by d tokens = record {
  additional_filters = record {
    count = d.additional_filters.count + length (plain_values tokens);
    filters = d.additional_filters.filters ++ plain_values tokens;
  };
  disable_all = d.disable_all || mem_token all_layers_1 tokens;
  disable_all_implicit = d.disable_all_implicit || mem_token implicit_layers tokens;
  disable_all_explicit = d.disable_all_explicit || mem_token explicit_layers tokens;
}

abbrev with_flags : DisableLayersFilter → CString → DisableLayersFilter
with_flags d t = record d {
  disable_all = d.disable_all || str_eq all_layers_1 t;
  disable_all_implicit = d.disable_all_implicit || str_eq implicit_layers t;
  disable_all_explicit = d.disable_all_explicit || str_eq explicit_layers t;
}

flags_of_tail :
    (d : DisableLayersFilter) (t : CString)
    → disable_special d (tilde ∷ t) ≡ with_flags d (tilde ∷ t)
flags_of_tail d t = elim (Bool-cases (str_eq (codes "all~") t)) [
  | inl a ↦ rw (sym ((str_eq_iff (codes "all~") t).0 a)) (ground arith)
  | inr a ↦ elim (Bool-cases (str_eq (codes "implicit~") t)) [
    | inl b ↦ rw (sym ((str_eq_iff (codes "implicit~") t).0 b)) (ground arith)
    | inr b ↦ rw (a, b) (ground arith)
  ]
]

-- A token with a tilde in front is neither "*" nor "**", so it sets a flag by its whole text only.
special_flags :
    (d : DisableLayersFilter) (t : CString)
    → get_or t 0 0 ≡ tilde
    → disable_special d t ≡ with_flags d t
special_flags d [] h = absurd (omega arith)
special_flags d (c ∷ t) h = rw h (flags_of_tail d t)

-- Without a tilde it is none of the three.
plain_flags :
    (t : CString)
    → is_special (determine_filter_type t).type ≡ false
    → (str_eq all_layers_1 t ≡ false)
      × (str_eq implicit_layers t ≡ false)
      × (str_eq explicit_layers t ≡ false)
unfolding determine_filter_type
plain_flags [] h = (refl, refl, refl)
plain_flags (c ∷ t) h = ground arith

is_special-tilde :
    (t : CString) → is_special (determine_filter_type t).type ≡ true → get_or t 0 0 ≡ tilde
unfolding determine_filter_type
is_special-tilde t h = ground arith

abbrev pushed : DisableLayersFilter → CString → DisableLayersFilter
pushed d t = record d { additional_filters = push_filter d.additional_filters t }

disable_tokens-nil : (d : DisableLayersFilter) → disable_tokens [] d ≡ d
unfolding disable_tokens
disable_tokens-nil d = refl

-- One round of the loop.
disable_tokens-cons :
    (t : CString) (tokens : List CString) (d : DisableLayersFilter)
    → disable_tokens (t ∷ tokens) d ≡ (
        if is_special (determine_filter_type t).type
        then disable_tokens tokens (disable_special d t)
        else if leb max_additional_filters (pushed d t).additional_filters.count
        then pushed d t
        else disable_tokens tokens (pushed d t))
unfolding disable_tokens
disable_tokens-cons t tokens d = refl

plain_cons :
    (t : CString) (tokens : List CString) (d : DisableLayersFilter)
    → is_special (determine_filter_type t).type ≡ false
    → disable_tokens (t ∷ tokens) d ≡ (
        if leb max_additional_filters (pushed d t).additional_filters.count
        then pushed d t
        else disable_tokens tokens (pushed d t))
plain_cons t tokens d p = disable_tokens-cons t tokens d ∙ rw p

disabled_by-plain :
    (t : CString) (tokens : List CString) (d : DisableLayersFilter)
    → is_special (determine_filter_type t).type ≡ false
    → disabled_by (pushed d t) tokens ≡ disabled_by d (t ∷ tokens)
unfolding push_filter
disabled_by-plain t tokens d p =
    let (a, b, c) = plain_flags t p in
    let counts : d.additional_filters.count + 1 + length (plain_values tokens)
        ≡ d.additional_filters.count + suc (length (plain_values tokens)) =
      omega arith in
    simp (p, a, b, c, append_assoc, counts)

-- A plain token takes an entry; the array is full only if no token is left.
plain_step :
    (t : CString) (tokens : List CString) (d : DisableLayersFilter)
    → is_special (determine_filter_type t).type ≡ false
    → d.additional_filters.count + suc (length tokens) ≤ max_additional_filters
    → ((pushed d t).additional_filters.count + length tokens ≤ max_additional_filters
        → disable_tokens tokens (pushed d t) ≡ disabled_by (pushed d t) tokens)
    → disable_tokens (t ∷ tokens) d ≡ disabled_by d (t ∷ tokens)
unfolding push_filter
plain_step t [] d p h later =
    let here = later (omega arith) ∙ disabled_by-plain t [] d p in
    plain_cons t [] d p ∙ if_both _ (sym (disable_tokens-nil (pushed d t)) ∙ here) here
plain_step t (u ∷ tokens) d p h later =
    let room : leb max_additional_filters (d.additional_filters.count + 1) ≡ false = ground arith in
    plain_cons t (u ∷ tokens) d p
    ∙ rw room (later (omega arith) ∙ disabled_by-plain t (u ∷ tokens) d p)

disable_tokens_lem :
    (tokens : List CString) (d : DisableLayersFilter)
    → d.additional_filters.count + length tokens ≤ max_additional_filters
    → disable_tokens tokens d ≡ disabled_by d tokens
unfolding disable_tokens
disable_tokens_lem [] d h = ground (arith, append-nil d.additional_filters.filters)
disable_tokens_lem (t ∷ tokens) d h =
    elim (Bool-cases (is_special (determine_filter_type t).type)) [
      | inl s ↦
          let later : disable_tokens tokens (with_flags d t) ≡ disabled_by (with_flags d t) tokens =
            disable_tokens_lem tokens (with_flags d t) (omega arith) in
          rw (disable_tokens-cons, s, special_flags d t (is_special-tilde t s), later)
            (simp or_assoc)
      | inr p ↦ plain_step t tokens d p h (disable_tokens_lem tokens (pushed d t))
    ]

-- With room for its tokens, the variable gives: a filter for each token that has no tilde in front,
-- in their order; and the flag for all, all implicit or all explicit layers exactly if the token
-- "~all~", "~implicit~" or "~explicit~" is among them. So "*" and "**" never set the first flag.
pub parse_layers_disable_filter_environment_var-disabled_by :
    (env : Environ) (v : CString)
    → env layers_disable_env_var ≡ some v
    → length (strtok is_comma (lower v)) ≤ max_additional_filters
    → parse_layers_disable_filter_environment_var env true
      ≡ (success, disabled_by no_disable_filter (strtok is_comma (lower v)))
unfolding parse_layers_disable_filter_environment_var
parse_layers_disable_filter_environment_var-disabled_by env [] set fits =
    rw (set, parse_layers_disable_filter_environment_var)
parse_layers_disable_filter_environment_var-disabled_by env (c ∷ v) set fits =
    rw (set, parse_layers_disable_filter_environment_var)
      (rw (
        suc-eq-zero (length v),
        disable_tokens_lem (strtok is_comma (lower (c ∷ v))) no_disable_filter (omega arith),
      ))
