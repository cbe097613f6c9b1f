-- ===== src/Utf8/Text.antt =====
-- loader/loader.c: which strings the check accepts.
use vulkan_sc_loader.Base.{
  sym, subst, ◌∙◌, ℕ, zero, suc, ◌≤◌, ◌≡◌, refl, ap, ◌↔◌, Bool, true, false, ◌||◌, some, List, [],
  ◌∷◌, ◌++◌, CString, length, All, arith,
}
use vulkan_sc_loader.Utf8.{
  StringErrors, no_errors, in_range, is_printable, is_data_byte, num_char_bytes, check_first,
  check_data, scan, vk_string_validate,
}

abbrev pub has_error : StringErrors → Bool
has_error r = r.null_ptr || r.length || r.bad_data

-- A byte that continues a character.
abbrev pub IsData : ℕ → Type 0
IsData c = is_data_byte c ≡ true

-- A character: a first byte, and behind it as many bytes as it announces.
abbrev pub IsChar : ℕ × CString → Type 0
IsChar (first, tail) =
    ((is_printable first || in_range 192 248 first) ≡ true)
    × (length tail ≡ num_char_bytes first 0)
    × All IsData tail

-- The bytes of some characters.
abbrev pub flatten : List (ℕ × CString) → CString
flatten [] = []
flatten ((first, tail) ∷ chars) = first ∷ (tail ++ flatten chars)

-- The rest of a string in which `j` bytes of a character are still to come, within `n` bytes.
abbrev IsRest : ℕ → ℕ → CString → Type 0
IsRest n j s =
    (tail : CString) × (chars : List (ℕ × CString)) × (length tail ≡ j)
    × All IsData tail
    × All IsChar chars
    × (s ≡ tail ++ flatten chars)
    × (length s ≤ n)

first_lem :
    (c k : ℕ) (r : StringErrors)
    → has_error (check_first c r) ≡ false
    → ((is_printable c || in_range 192 248 c) ≡ true)
      × (has_error r ≡ false)
      × (num_char_bytes c k ≡ num_char_bytes c 0)
first_lem c k r h = ground arith

data_lem :
    (c : ℕ) (r : StringErrors)
    → has_error (check_data c r) ≡ false
    → IsData c × (has_error r ≡ false)
data_lem c r h = ground arith

scan_sound :
    (n : ℕ) (s : CString) (j k : ℕ) (r : StringErrors)
    → has_error (scan n s j k r) ≡ false
    → IsRest n j s × (has_error r ≡ false)
unfolding scan
scan_sound n [] zero k r h = (([], [], refl, tt, tt, refl, omega arith), h)
scan_sound zero (c ∷ s) zero k r h = absurd (ground arith)
scan_sound (suc n) (c ∷ s) zero k r h =
    let (rest, clean) =
      scan_sound n s (num_char_bytes c k) (num_char_bytes c k) (check_first c r) h in
    let (tail, chars, len, tail_ok, chars_ok, e, short) = rest in
    let (first_ok, clean', same) = first_lem c k r clean in
    (
      (
        [],
        (c, tail) ∷ chars,
        refl,
        tt,
        ((first_ok, len ∙ same, tail_ok), chars_ok),
        ap (λ t. c ∷ t) e,
        omega (arith, short),
      ),
      clean',
    )
scan_sound zero [] (suc j) k r h = absurd (ground arith)
scan_sound zero (c ∷ s) (suc j) k r h = absurd (ground arith)
scan_sound (suc n) [] (suc j) k r h = absurd (ground arith)
scan_sound (suc n) (c ∷ s) (suc j) k r h =
    let (rest, clean) = scan_sound n s j k (check_data c r) h in
    let (tail, chars, len, tail_ok, chars_ok, e, short) = rest in
    let (c_ok, clean') = data_lem c r clean in
    (
      (
        c ∷ tail,
        chars,
        ap suc len,
        (c_ok, tail_ok),
        chars_ok,
        ap (λ t. c ∷ t) e,
        omega (arith, short),
      ),
      clean',
    )

first_back :
    (c k : ℕ) (r : StringErrors)
    → (is_printable c || in_range 192 248 c) ≡ true
    → has_error r ≡ false
    → (has_error (check_first c r) ≡ false) × (num_char_bytes c k ≡ num_char_bytes c 0)
first_back c k r ok clean = ground arith

whole :
    (n : ℕ) (s : CString)
    → IsRest n 0 s
    → (chars : List (ℕ × CString)) × All IsChar chars × (s ≡ flatten chars) × (length s ≤ n)
whole n s ([], chars, len, tail_ok, chars_ok, e, short) = (chars, chars_ok, e, short)
whole n s (c ∷ tail, chars, len, tail_ok, chars_ok, e, short) = absurd (omega arith)

scan_complete :
    (n : ℕ) (tail : CString) (chars : List (ℕ × CString)) (k : ℕ) (r : StringErrors)
    → All IsData tail
    → All IsChar chars
    → length (tail ++ flatten chars) ≤ n
    → has_error r ≡ false
    → has_error (scan n (tail ++ flatten chars) (length tail) k r) ≡ false
unfolding scan
scan_complete n [] [] k r tail_ok chars_ok short clean = clean
scan_complete zero [] ((c, tail) ∷ chars) k r tail_ok chars_ok short clean = absurd (omega arith)
scan_complete (suc n) [] ((c, tail) ∷ chars) k r tail_ok (char_ok, chars_ok) short clean =
    let (ok, tail_len, more_ok) = char_ok in
    let (still_clean, same) = first_back c k r ok clean in
    subst
      (λ j.
        has_error (scan n (tail ++ flatten chars) j (num_char_bytes c k) (check_first c r)) ≡ false)
      (tail_len ∙ sym same)
      (scan_complete n tail chars (num_char_bytes c k) (check_first c r) more_ok chars_ok
        (omega (arith, short)) still_clean)
scan_complete zero (c ∷ tail) chars k r tail_ok chars_ok short clean = absurd (omega arith)
scan_complete (suc n) (c ∷ tail) chars k r (c_ok, tail_ok) chars_ok short clean =
    scan_complete n tail chars k (check_data c r) tail_ok chars_ok (omega (arith, short))
      (ground arith)

-- A string passes without an error exactly if it is made of whole characters, each a printable ASCII byte
-- or a first byte with as many data bytes as it announces, and has at most the given number of bytes.
pub vk_string_validate_iff :
    (max_length : ℕ) (utf8 : CString)
    → (has_error (vk_string_validate max_length (some utf8)) ≡ false) ↔ (
        (chars : List (ℕ × CString)) × All IsChar chars
        × (utf8 ≡ flatten chars)
        × (length utf8 ≤ max_length))
unfolding vk_string_validate
vk_string_validate_iff max_length utf8 = (sound, complete)
  where
    sound :
        has_error (scan max_length utf8 0 0 no_errors) ≡ false
        → (chars : List (ℕ × CString)) × All IsChar chars
          × (utf8 ≡ flatten chars)
          × (length utf8 ≤ max_length)
    sound h = whole max_length utf8 (scan_sound max_length utf8 0 0 no_errors h).0

    complete :
        (chars : List (ℕ × CString)) × All IsChar chars
          × (utf8 ≡ flatten chars)
          × (length utf8 ≤ max_length)
        → has_error (scan max_length utf8 0 0 no_errors) ≡ false
    complete (chars, chars_ok, e, short) =
        subst (λ s. has_error (scan max_length s 0 0 no_errors) ≡ false) (sym e)
          (scan_complete max_length [] chars 0 no_errors tt chars_ok
            (subst (λ s. length s ≤ max_length) e short) refl)
