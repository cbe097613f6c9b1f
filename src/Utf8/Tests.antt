-- ===== src/Utf8/Tests.antt =====
-- loader/loader.c: the check of a string at concrete inputs.
use vulkan_sc_loader.Base.{
  ℕ, ◌≡◌, ◌≤◌, ◌↔◌, refl, true, false, some, List, [], ◌∷◌, CString, length, All,
}
use vulkan_sc_loader.Utf8.{vk_string_validate, no_errors}
use vulkan_sc_loader.Utf8.Text.{has_error, IsChar, flatten, vk_string_validate_iff}

-- The letter a, and the two bytes of é.
abbrev a_e_acute : CString
a_e_acute = 97 ∷ 195 ∷ 169 ∷ []

passes_run : vk_string_validate 3 (some a_e_acute) ≡ no_errors
unfolding vk_string_validate
passes_run = refl

too_long_run : vk_string_validate 2 (some a_e_acute) ≡ record no_errors { length = true }
unfolding vk_string_validate
too_long_run = refl

cut_run : vk_string_validate 9 (some (97 ∷ 195 ∷ [])) ≡ record no_errors { bad_data = true }
unfolding vk_string_validate
cut_run = refl

vk_string_validate_iff_example : (has_error (vk_string_validate 3 (some a_e_acute)) ≡ false) ↔ (
    (chars : List (ℕ × CString)) × All IsChar chars
    × (a_e_acute ≡ flatten chars)
    × (length a_e_acute ≤ 3))
vk_string_validate_iff_example = vk_string_validate_iff 3 a_e_acute
