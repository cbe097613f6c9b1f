-- ===== src/Environment/Shapes.antt =====
-- loader/loader_environment.c: what `determine_filter_type` makes of a filter string, and what a
-- token is stored as.
use vulkan_sc_loader.Base.{
  ℕ, suc, ◌-◌, ◌≤◌, ◌<◌, ◌≡◌, refl, ap, ◌∙◌, ◌≢◌, ◌↔◌, Bool, true, false, not, ◌&&◌, [], ◌∷◌, ◌++◌,
  CString, length, length-append, take-append, get_or, drop, ltb, ◌==◌, if◌then◌else◌, arith,
  append-nil, codes,
}
use vulkan_sc_loader.Environment.Filter.{
  FilterType, fullname, substring, prefix, suffix, special, Shape, tilde, star, shape_of_stars,
  determine_filter_type, filter_value, max_extension_name_size,
}

get_or-append_last : (w : CString) (c : ℕ) → get_or (w ++ c ∷ []) (length w) 0 ≡ c
get_or-append_last [] c = refl
get_or-append_last (x ∷ w) c = get_or-append_last w c

last-append : (w : CString) (c : ℕ) → get_or (w ++ c ∷ []) (length (w ++ c ∷ []) - 1) 0 ≡ c
last-append w c =
    let e : length (w ++ c ∷ []) - 1 ≡ length w = omega (arith, length-append w (c ∷ [])) in
    rw e (get_or-append_last w c)

-- A string with a wildcard at the places that the kind calls for.
abbrev pub spell : FilterType → CString → CString
spell fullname w = w
spell substring w = star ∷ w ++ star ∷ []
spell prefix w = w ++ star ∷ []
spell suffix w = star ∷ w
spell special w = tilde ∷ w

-- Text that a filter can be about: two bytes or more, which fit, with no star at an end and no tilde
-- in front.
pub record IsStem (w : CString) : Type 0 where
  pub at_least_two : 2 ≤ length w
  pub fits : length w < max_extension_name_size
  pub first_no_star : (get_or w 0 0 == star) ≡ false
  pub first_no_tilde : (get_or w 0 0 == tilde) ≡ false
  pub last_no_star : (get_or w (length w - 1) 0 == star) ≡ false

abbrev pub shape_for : FilterType → ℕ → Shape
shape_for fullname n = record { type = fullname; new_start = 0; new_length = n }
shape_for substring n = record { type = substring; new_start = 1; new_length = n }
shape_for prefix n = record { type = prefix; new_start = 0; new_length = n }
shape_for suffix n = record { type = suffix; new_start = 1; new_length = n }
shape_for special n = record { type = special; new_start = 0; new_length = suc n }

-- The three tests decide, for a string of one byte or more.
shape_of_tests :
    (s : CString) (first last : ℕ) (begins ends : Bool)
    → get_or s 0 0 ≡ first
    → get_or s (length s - 1) 0 ≡ last
    → (first == tilde) ≡ false
    → (first == star && not (length s == 1)) ≡ begins
    → (last == star && not (length s == 2)) ≡ ends
    → determine_filter_type s ≡ shape_of_stars begins ends (length s)
unfolding determine_filter_type
shape_of_tests s first last begins ends p q t b e = rw (p, q, t, b, e)

pub determine_filter_type-fullname :
    (w : CString) → IsStem w → determine_filter_type w ≡ shape_for fullname (length w)
determine_filter_type-fullname w s =
    shape_of_tests w _ _ false false refl refl s.first_no_tilde (rw s.first_no_star)
      (rw s.last_no_star)

suc-sub_one : (n : ℕ) → suc n - 1 ≡ n
suc-sub_one n = omega arith

long_test : (n k : ℕ) → k < n → not (n == k) ≡ true
long_test n k h = ground arith

pub determine_filter_type-suffix :
    (w : CString) → IsStem w → determine_filter_type (spell suffix w) ≡ shape_for suffix (length w)
determine_filter_type-suffix [] s = absurd (omega (arith, s.at_least_two))
determine_filter_type-suffix (c ∷ w) s =
    shape_of_tests (star ∷ c ∷ w) star (get_or (c ∷ w) (length w) 0) true false refl
      (rw suc-sub_one) refl (long_test _ 1 (omega (arith, s.at_least_two)))
      (rw (← suc-sub_one (length w), s.last_no_star))
    ∙ ap (λ n. record { type = suffix; new_start = 1; new_length = n }) (suc-sub_one _)

pub determine_filter_type-prefix :
    (w : CString) → IsStem w → determine_filter_type (spell prefix w) ≡ shape_for prefix (length w)
determine_filter_type-prefix [] s = absurd (omega (arith, s.at_least_two))
determine_filter_type-prefix (c ∷ w) s =
    shape_of_tests (c ∷ w ++ star ∷ []) c star false true refl (last-append (c ∷ w) star)
      s.first_no_tilde (rw s.first_no_star)
      (long_test _ 2 (omega (arith, s.at_least_two, length-append w (star ∷ []))))
    ∙ ap (λ n. record { type = prefix; new_start = 0; new_length = n })
        (omega (arith, length-append w (star ∷ [])))

pub determine_filter_type-substring :
    (w : CString)
    → IsStem w
    → determine_filter_type (spell substring w) ≡ shape_for substring (length w)
determine_filter_type-substring w s =
    shape_of_tests (star ∷ w ++ star ∷ []) star star true true refl (last-append (star ∷ w) star)
      refl (long_test _ 1 (omega (arith, s.at_least_two, length-append w (star ∷ []))))
      (long_test _ 2 (omega (arith, s.at_least_two, length-append w (star ∷ []))))
    ∙ ap (λ n. record { type = substring; new_start = 1; new_length = n })
        (omega (arith, length-append w (star ∷ [])))

-- What is stored for a token whose kept part is `w` and fits.
filter_value_of_shape :
    (token w rest : CString) (t : FilterType) (start : ℕ)
    → determine_filter_type token ≡ record { type = t; new_start = start; new_length = length w }
    → length w < max_extension_name_size
    → drop start token ≡ w ++ rest
    → filter_value token ≡ record { value = w; length = length w; type = t }
unfolding filter_value
filter_value_of_shape token w rest t start shape fits d =
    rw (shape, d, stored)
      (ap (λ v. record { value = v; length = length w; type = t }) (take-append w rest))
  where
    stored :
        (if ltb (length w) (max_extension_name_size - 1)
          then length w
          else max_extension_name_size - 1)
        ≡ length w
    stored = ground arith

-- A filter string that is spelled for one of the four kinds is stored as its text, with the length of
-- the text and that kind.
pub filter_value-spell :
    (t : FilterType) (w : CString)
    → t ≢ special
    → IsStem w
    → filter_value (spell t w) ≡ record { value = w; length = length w; type = t }
filter_value-spell fullname w n s =
    filter_value_of_shape w w [] fullname 0 (determine_filter_type-fullname w s) s.fits
      (rw append-nil)
filter_value-spell substring w n s =
    filter_value_of_shape _ w (star ∷ []) substring 1 (determine_filter_type-substring w s) s.fits
      refl
filter_value-spell prefix w n s =
    filter_value_of_shape _ w (star ∷ []) prefix 0 (determine_filter_type-prefix w s) s.fits refl
filter_value-spell suffix w n s =
    filter_value_of_shape _ w [] suffix 1 (determine_filter_type-suffix w s) s.fits (rw append-nil)
filter_value-spell special w n s = absurd (n refl)

-- A string is special exactly when it begins with a tilde; so "*" and "**" are not.
determine_filter_type-special_iff :
    (s : CString) → ((determine_filter_type s).type ≡ special) ↔ (get_or s 0 0 ≡ tilde)
unfolding determine_filter_type
determine_filter_type-special_iff s = ground arith

-- One byte and a star are not read as a prefix: the star stays in the text, which has to be met whole.
pub filter_value_short_prefix :
    (c : ℕ)
    → c ≢ star
    → c ≢ tilde
    → filter_value (c ∷ star ∷ []) ≡ record { value = c ∷ star ∷ []; length = 2; type = fullname }
unfolding filter_value
filter_value_short_prefix c n m = ground arith

filter_value_stars :
    filter_value (codes "**") ≡ record { value = codes "*"; length = 1; type = suffix }
unfolding filter_value
filter_value_stars = refl
