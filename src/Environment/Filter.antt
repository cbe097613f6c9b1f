-- ===== src/Environment/Filter.antt =====
-- loader/loader_environment.c: the kinds of filter strings, and the parsing of the variables that
-- hold lists of them. The types are those of loader/loader_common.h.
use vulkan_sc_loader.Base.{
  ℕ, ◌+◌, ◌-◌, Bool, true, false, not, ◌&&◌, ◌||◌, Option, none, some, List, [], ◌∷◌, ◌++◌, CString,
  codes, str_eq, lower, strtok, length, get_or, take, drop, ltb, leb, ◌==◌, if◌then◌else◌, VkResult,
  success, error_out_of_host_memory, is_success,
}

-- VK_MAX_EXTENSION_NAME_SIZE of the Vulkan headers, and MAX_ADDITIONAL_FILTERS.
abbrev pub max_extension_name_size : ℕ
max_extension_name_size = 256

abbrev pub max_additional_filters : ℕ
max_additional_filters = 16

pub data FilterType : Type 0 where
  fullname substring prefix suffix special : FilterType

pub record FilterValue : Type 0 where
  pub value : CString
  pub length : ℕ
  pub type : FilterType

-- The entries of the array that are in use.
pub record EnvvarFilter : Type 0 where
  pub count : ℕ
  pub filters : List FilterValue

pub record DisableLayersFilter : Type 0 where
  pub additional_filters : EnvvarFilter
  pub disable_all : Bool
  pub disable_all_implicit : Bool
  pub disable_all_explicit : Bool

pub record AllFilters : Type 0 where
  pub enable_filter : EnvvarFilter
  pub disable_filter : DisableLayersFilter
  pub allow_filter : EnvvarFilter

-- What `memset(…, 0, …)` leaves.
abbrev pub no_filter : EnvvarFilter
no_filter = record { count = 0; filters = [] }

abbrev pub no_disable_filter : DisableLayersFilter
no_disable_filter = record {
  additional_filters = no_filter;
  disable_all = false;
  disable_all_implicit = false;
  disable_all_explicit = false;
}

-- The results of `determine_filter_type`: `new_start` is an offset into the string.
pub record Shape : Type 0 where
  pub type : FilterType
  pub new_start : ℕ
  pub new_length : ℕ

abbrev pub tilde : ℕ
tilde = b'~'

abbrev pub star : ℕ
star = b'*'

-- The last if ladder. It writes all three results in each of its branches, so that what the tests
-- before it wrote for "*" and "**" does not last.
abbrev pub shape_of_stars : Bool → Bool → ℕ → Shape
shape_of_stars true true n = record { type = substring; new_start = 1; new_length = n - 2 }
shape_of_stars true false n = record { type = suffix; new_start = 1; new_length = n - 1 }
shape_of_stars false true n = record { type = prefix; new_start = 0; new_length = n - 1 }
shape_of_stars false false n = record { type = fullname; new_start = 0; new_length = n }

unfoldable pub determine_filter_type : CString → Shape
determine_filter_type s =
    let n = length s in
    if get_or s 0 0 == tilde
    then record { type = special; new_start = 0; new_length = n }
    else (let star_begin = get_or s 0 0 == star && not (n == 1) in
        let star_end = get_or s (n - 1) 0 == star && not (n == 2) in
        shape_of_stars star_begin star_end n)

-- The entry that a token is stored as: at most 255 bytes of it.
unfoldable pub filter_value : CString → FilterValue
unfolding determine_filter_type
filter_value token =
    let shape = determine_filter_type token in
    let stored_len =
      (if ltb shape.new_length (max_extension_name_size - 1)
        then shape.new_length
        else max_extension_name_size - 1) in
    record {
      value = take stored_len (drop shape.new_start token);
      length = stored_len;
      type = shape.type;
    }

unfoldable pub push_filter : EnvvarFilter → CString → EnvvarFilter
push_filter f token = record { count = f.count + 1; filters = f.filters ++ filter_value token ∷ [] }

-- The loop over the tokens, which stops when the array is full.
unfoldable pub filter_tokens : List CString → EnvvarFilter → EnvvarFilter
filter_tokens [] f = f
filter_tokens (token ∷ tokens) f =
    let f' = push_filter f token in
    let rest = filter_tokens tokens f' in if leb max_additional_filters f'.count then f' else rest

abbrev pub is_comma : ℕ → Bool
is_comma c = c == b','

abbrev pub layers_enable_env_var : CString
layers_enable_env_var = codes "VK_LOADER_LAYERS_ENABLE"

abbrev pub layers_disable_env_var : CString
layers_disable_env_var = codes "VK_LOADER_LAYERS_DISABLE"

abbrev pub layers_allow_env_var : CString
layers_allow_env_var = codes "VK_LOADER_LAYERS_ALLOW"

abbrev pub Environ : Type 0
Environ = CString → Option CString

-- The variable's value once it is known to be set; `allocated` tells whether the allocation of the
-- parsing string succeeds.
abbrev pub parse_generic_value : Bool → CString → VkResult × EnvvarFilter
parse_generic_value allocated env_var_value =
    if length env_var_value == 0
    then (success, no_filter)
    else if not allocated
    then (error_out_of_host_memory, no_filter)
    else (success, filter_tokens (strtok is_comma (lower env_var_value)) no_filter)

-- `secure_getenv` stands for `loader_secure_getenv`.
unfoldable pub parse_generic_filter_environment_var :
    Environ → Bool → CString → VkResult × EnvvarFilter
parse_generic_filter_environment_var secure_getenv allocated env_var_name =
    elim (secure_getenv env_var_name) [
      | none ↦ (success, no_filter)
      | some env_var_value ↦ parse_generic_value allocated env_var_value
    ]

abbrev pub all_layers_1 : CString
all_layers_1 = codes "~all~"

abbrev pub all_layers_2 : CString
all_layers_2 = codes "*"

abbrev pub all_layers_3 : CString
all_layers_3 = codes "**"

abbrev pub names_all_layers : CString → Bool
names_all_layers s = str_eq all_layers_1 s || str_eq all_layers_2 s || str_eq all_layers_3 s

abbrev pub implicit_layers : CString
implicit_layers = codes "~implicit~"

abbrev pub explicit_layers : CString
explicit_layers = codes "~explicit~"

-- One round of the disable loop. A special token sets a flag, and any other takes an entry.
abbrev pub disable_special : DisableLayersFilter → CString → DisableLayersFilter
disable_special d token =
    if names_all_layers token
    then record d { disable_all = true }
    else if str_eq implicit_layers token
    then record d { disable_all_implicit = true }
    else if str_eq explicit_layers token
    then record d { disable_all_explicit = true }
    else d

abbrev pub is_special : FilterType → Bool
is_special special = true
is_special _ = false

unfoldable pub disable_tokens : List CString → DisableLayersFilter → DisableLayersFilter
disable_tokens [] d = d
disable_tokens (token ∷ tokens) d =
    let pushed = record d { additional_filters = push_filter d.additional_filters token } in
    let after_special = disable_tokens tokens (disable_special d token) in
    let after_pushed = disable_tokens tokens pushed in
    if is_special (determine_filter_type token).type
    then after_special
    else if leb max_additional_filters pushed.additional_filters.count
    then pushed
    else after_pushed

abbrev pub parse_disable_value : Bool → CString → VkResult × DisableLayersFilter
parse_disable_value allocated env_var_value =
    if length env_var_value == 0
    then (success, no_disable_filter)
    else if not allocated
    then (error_out_of_host_memory, no_disable_filter)
    else (success, disable_tokens (strtok is_comma (lower env_var_value)) no_disable_filter)

unfoldable pub parse_layers_disable_filter_environment_var :
    Environ → Bool → VkResult × DisableLayersFilter
parse_layers_disable_filter_environment_var secure_getenv allocated =
    elim (secure_getenv layers_disable_env_var) [
      | none ↦ (success, no_disable_filter)
      | some env_var_value ↦ parse_disable_value allocated env_var_value
    ]

-- The three variables in turn; the first failure ends it, with the later filters as they came in.
-- `allocated` answers the allocation of each of the three parsings.
unfoldable pub parse_layer_environment_var_filters :
    Environ → (ℕ → Bool) → AllFilters → VkResult × AllFilters
parse_layer_environment_var_filters env allocated layer_filters =
    let (res_enable, enable) =
      parse_generic_filter_environment_var env (allocated 0) layers_enable_env_var in
    let layer_filters_1 = record layer_filters { enable_filter = enable } in
    let (res_disable, disable) = parse_layers_disable_filter_environment_var env (allocated 1) in
    let layer_filters_2 = record layer_filters_1 { disable_filter = disable } in
    let (res_allow, allow) =
      parse_generic_filter_environment_var env (allocated 2) layers_allow_env_var in
    if not (is_success res_enable)
    then (res_enable, layer_filters_1)
    else if not (is_success res_disable)
    then (res_disable, layer_filters_2)
    else (res_allow, record layer_filters_2 { allow_filter = allow })
