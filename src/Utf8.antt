-- ===== src/Utf8.antt =====
-- loader/loader.c: the check of a string that comes from the application.
pub mod Text
mod Tests
use vulkan_sc_loader.Base.{
  ◌||◌, ℕ, zero, suc, Bool, true, false, not, ◌&&◌, Option, none, some, List, [], ◌∷◌, CString, leb,
  ltb, if◌then◌else◌,
}

-- VkStringErrorFlags, as the flags that can be set.
pub record StringErrors : Type 0 where
  pub null_ptr : Bool
  pub length : Bool
  pub bad_data : Bool

abbrev pub no_errors : StringErrors
no_errors = record { null_ptr = false; length = false; bad_data = false }

-- The masks and codes, as ranges of bytes: 110xxxxx, 1110xxxx, 11110xxx and 10xxxxxx.
abbrev pub in_range : ℕ → ℕ → ℕ → Bool
in_range low high c = leb low c && ltb c high

abbrev pub is_printable : ℕ → Bool
is_printable c = in_range 32 127 c

abbrev pub is_data_byte : ℕ → Bool
is_data_byte c = in_range 128 192 c

-- The number of bytes that follow a first byte: if it is none, the number is left as it was.
abbrev pub num_char_bytes : ℕ → ℕ → ℕ
num_char_bytes c before =
    if is_printable c
    then 0
    else if in_range 192 224 c
    then 1
    else if in_range 224 240 c
    then 2
    else if in_range 240 248 c
    then 3
    else before

-- A byte that is no first byte sets the result to bad data alone.
abbrev pub check_first : ℕ → StringErrors → StringErrors
check_first c result =
    if is_printable c || in_range 192 248 c
    then result
    else record { null_ptr = false; length = false; bad_data = true }

abbrev pub check_data : ℕ → StringErrors → StringErrors
check_data c result = if is_data_byte c then result else record result { bad_data = true }

-- Both loops: `n` is the number of bytes that are left up to `max_length`, `s` the rest of the string,
-- `j` the number of data bytes that are still to come and `k` the variable that they come from.
unfoldable pub scan : ℕ → CString → ℕ → ℕ → StringErrors → StringErrors
scan n [] zero k result = result
scan zero (c ∷ s) zero k result = record result { length = true }
scan (suc n) (c ∷ s) zero k result =
    scan n s (num_char_bytes c k) (num_char_bytes c k) (check_first c result)
scan zero s (suc j) k result = record result { length = true }
scan (suc n) [] (suc j) k result = record result { bad_data = true }
scan (suc n) (c ∷ s) (suc j) k result = scan n s j k (check_data c result)

unfoldable pub vk_string_validate : ℕ → Option CString → StringErrors
unfolding scan
vk_string_validate max_length none = record no_errors { null_ptr = true }
vk_string_validate max_length (some utf8) = scan max_length utf8 0 0 no_errors
