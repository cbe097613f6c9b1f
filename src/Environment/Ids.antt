-- ===== src/Environment/Ids.antt =====
-- loader/loader_environment.c: the filters of ids, which are ranges of 32-bit numbers.
use vulkan_sc_loader.Base.{
  ℕ, ◌+◌, ◌-◌, ◌*◌, ◌%◌, ◌^◌, Bool, true, false, not, ◌&&◌, ◌||◌, Option, none, some, List, [], ◌∷◌,
  ◌++◌, CString, length, drop, get_or, lower, strtok, leb, ltb, ◌==◌, if◌then◌else◌,
}
use vulkan_sc_loader.Environment.Filter.{Environ, is_comma}

pub record IdRange : Type 0 where
  pub begin : ℕ
  pub end : ℕ

-- The entries that are in use.
pub record IdFilter : Type 0 where
  pub count : ℕ
  pub filters : List IdRange

-- `strtoul(s, &rest, 0)` of the C library, for a 64-bit `unsigned long`: spaces, a sign, a base that
-- the prefix "0x" or "0" gives, and digits. Without a digit the value is 0 and the rest is all.
abbrev pub is_space : ℕ → Bool
is_space c = c == 32 || (leb 9 c && leb c 13)

abbrev pub skip_spaces : CString → CString
skip_spaces [] = []
skip_spaces (c ∷ s) = if is_space c then skip_spaces s else c ∷ s

abbrev pub digit_value : ℕ → ℕ
digit_value c =
    if leb 48 c && leb c 57
    then c - 48
    else if leb 97 c && leb c 122
    then c - 87
    else if leb 65 c && leb c 90
    then c - 55
    else 99

abbrev pub read_digits : ℕ → CString → ℕ → ℕ × CString
read_digits base [] value = (value, [])
read_digits base (c ∷ s) value =
    let more = read_digits base s (value * base + digit_value c) in
    if ltb (digit_value c) base then more else (value, c ∷ s)

abbrev pub starts_hex : CString → Bool
starts_hex s =
    get_or s 0 0 == 48
    && (get_or s 1 0 == 120 || get_or s 1 0 == 88)
    && ltb (digit_value (get_or s 2 0)) 16

abbrev pub base_and_digits : CString → ℕ × CString
base_and_digits s =
    if starts_hex s then (16, drop 2 s) else if get_or s 0 0 == 48 then (8, s) else (10, s)

abbrev pub max_ulong : ℕ
max_ulong = 2 ^ 64 - 1

abbrev pub strtoul : CString → ℕ × CString
strtoul s =
    let signed = skip_spaces s in
    let first = get_or signed 0 0 in
    let negative = first == 45 in
    let (base, digits) =
      base_and_digits (if negative || first == 43 then drop 1 signed else signed) in
    let (value, rest) = read_digits base digits 0 in
    if not (ltb (digit_value (get_or digits 0 0)) base)
    then (0, s)
    else if ltb max_ulong value
    then (max_ulong, rest)
    else ((if negative then (2 ^ 64 - value) % 2 ^ 64 else value), rest)

-- The range of a token: one number, or two with any byte between them.
unfoldable pub id_range : CString → IdRange
id_range token =
    let (first, rest) = strtoul token in
    let begin = first % 2 ^ 32 in
    record {
      begin = begin;
      end = (if length rest == 0 then begin else (strtoul (drop 1 rest)).0 % 2 ^ 32);
    }

-- The loop over the tokens, with an array of `capacity` entries; a write beyond it is `none`.
unfoldable pub id_tokens : ℕ → List CString → IdFilter → Option IdFilter
unfolding id_range
id_tokens capacity [] f = some f
id_tokens capacity (token ∷ tokens) f =
    let next =
      id_tokens capacity tokens
        (record { count = f.count + 1; filters = f.filters ++ id_range token ∷ [] }) in
    if ltb f.count capacity then next else none

abbrev pub count_bytes : (ℕ → Bool) → CString → ℕ
count_bytes p [] = 0
count_bytes p (c ∷ s) = (if p c then 1 else 0) + count_bytes p s

abbrev pub num_commas : CString → ℕ
num_commas s = count_bytes is_comma s

abbrev pub no_ids : IdFilter
no_ids = record { count = 0; filters = [] }

-- The result of the allocation is not tested: without memory there is no entry to write to.
abbrev pub parse_id_value : Bool → CString → Option IdFilter
parse_id_value allocated env_var_value =
    if length env_var_value == 0
    then some no_ids
    else id_tokens (if allocated then (num_commas env_var_value + 1) % 2 ^ 32 else 0)
        (strtok is_comma (lower env_var_value)) no_ids

unfoldable pub parse_id_filter_environment_var : Environ → Bool → CString → Option IdFilter
unfolding id_tokens
parse_id_filter_environment_var secure_getenv allocated env_var_name =
    elim (secure_getenv env_var_name) [
      | none ↦ some no_ids
      | some env_var_value ↦ parse_id_value allocated env_var_value
    ]

abbrev pub id_in_ranges : ℕ → List IdRange → Bool
id_in_ranges id [] = false
id_in_ranges id (r ∷ rs) = if leb r.begin id && leb id r.end then true else id_in_ranges id rs

unfoldable pub check_id_matches_filter_environment_var : ℕ → IdFilter → Bool
check_id_matches_filter_environment_var id f = id_in_ranges id f.filters
