-- ===== src/Base/Bytes.antt =====
-- C strings as lists of bytes without the terminator, and the libc functions on them that the
-- loader calls: `strcmp` against zero, `tolower` in the C locale, and repeated `strtok`.
use Prim.Native.Nat.{ℕ, ◌+◌}
use Prim.Native.Char.{code}
use Prim.Native.String.{String}
use mathlib.Core.Path.{ap, ◌∙◌, ◌≡◌, refl}
use mathlib.Core.Logic.{◌↔◌, ◌≢◌}
use mathlib.Core.Bool.{Bool, true, false, ◌&&◌}
use mathlib.Core.List.{append_assoc, append-nil, List, [], ◌∷◌, ◌++◌, map}
use native.Mathlib.Omega.{arith}
use vulkan_sc_loader.Base.Lists.{All}
use vulkan_sc_loader.Base.Tests.{◌==◌, leb, ==_iff, if◌then◌else◌}

abbrev pub CString : Type 0
CString = List ℕ

-- The bytes of a literal of ASCII characters.
abbrev pub codes : String → CString
codes String.[] = []
codes (String.◌∷◌ c s) = code c ∷ codes s

-- `strcmp(a, b) == 0`
abbrev pub str_eq : CString → CString → Bool
str_eq [] [] = true
str_eq [] (y ∷ ys) = false
str_eq (x ∷ xs) [] = false
str_eq (x ∷ xs) (y ∷ ys) = x == y && str_eq xs ys

pub str_eq_iff : (a b : CString) → (str_eq a b ≡ true) ↔ (a ≡ b)
str_eq_iff [] [] = (λ h. refl, λ h. refl)
str_eq_iff [] (y ∷ ys) = (λ h. cc, λ h. cc)
str_eq_iff (x ∷ xs) [] = (λ h. cc, λ h. cc)
str_eq_iff (x ∷ xs) (y ∷ ys) = ground (arith, ==_iff x y, str_eq_iff xs ys)

pub str_eq_comm : (a b : CString) → str_eq a b ≡ str_eq b a
str_eq_comm [] [] = refl
str_eq_comm [] (y ∷ b) = refl
str_eq_comm (x ∷ a) [] = refl
str_eq_comm (x ∷ a) (y ∷ b) = ground (arith, str_eq_comm a b)

pub str_eq_refl : (a : CString) → str_eq a a ≡ true
str_eq_refl a = (str_eq_iff a a).1 refl

abbrev pub tolower : ℕ → ℕ
tolower c = if leb 65 c && leb c 90 then c + 32 else c

pub tolower_idem : (c : ℕ) → tolower (tolower c) ≡ tolower c
tolower_idem c = ground arith

abbrev pub lower : CString → CString
lower = map tolower

pub lower_idem : (s : CString) → lower (lower s) ≡ lower s
lower_idem [] = refl
lower_idem (c ∷ s) = cc (tolower_idem c, lower_idem s)

-- All the tokens that repeated calls of `strtok` on `s` return, for the separators that `sep`
-- accepts: the maximal non-empty runs of other bytes. `token` holds the bytes read of the token.
abbrev pub strtok_from : (ℕ → Bool) → CString → CString → List CString
strtok_from sep [] [] = []
strtok_from sep [] (t ∷ token) = (t ∷ token) ∷ []
strtok_from sep (c ∷ s) token = elim (sep c) [
  | false ↦ strtok_from sep s (token ++ c ∷ [])
  | true ↦ elim token [ [] ↦ strtok_from sep s [] | t ∷ ts ↦ (t ∷ ts) ∷ strtok_from sep s [] ]
]

abbrev pub strtok : (ℕ → Bool) → CString → List CString
strtok sep s = strtok_from sep s []

-- Text with no separator in it only makes the token longer.
pub strtok_from-append :
    (sep : ℕ → Bool) (x s token : CString)
    → All (λ c. sep c ≡ false) x
    → strtok_from sep (x ++ s) token ≡ strtok_from sep s (token ++ x)
strtok_from-append sep [] s token h = rw append-nil
strtok_from-append sep (c ∷ x) s token h = rw h.0 (
    strtok_from-append sep x s (token ++ c ∷ []) h.1
    ∙ ap (strtok_from sep s) (append_assoc token (c ∷ []) x))

-- Each token behind a separator.
abbrev pub separated : ℕ → List CString → CString
separated c [] = []
separated c (x ∷ xs) = c ∷ (x ++ separated c xs)

-- A token: not empty, and free of separators.
abbrev pub IsToken : (ℕ → Bool) → CString → Type 0
IsToken sep x = (x ≢ []) × All (λ c. sep c ≡ false) x

abbrev finish : CString → List CString → List CString
finish [] ts = ts
finish (b ∷ bs) ts = (b ∷ bs) ∷ ts

finish_token : (y : CString) (ys : List CString) → y ≢ [] → finish y ys ≡ y ∷ ys
finish_token [] ys n = absurd (n refl)
finish_token (b ∷ bs) ys n = refl

strtok_from-separated :
    (sep : ℕ → Bool) (c : ℕ) (xs : List CString) (token : CString)
    → sep c ≡ true
    → All (IsToken sep) xs
    → strtok_from sep (separated c xs) token ≡ finish token xs
strtok_from-separated sep c [] [] h a = refl
strtok_from-separated sep c [] (t ∷ token) h a = refl
strtok_from-separated sep c (x ∷ xs) [] h a = rw h (
    strtok_from-append sep x (separated c xs) [] a.0.1
    ∙ strtok_from-separated sep c xs x h a.1
    ∙ finish_token x xs a.0.0)
strtok_from-separated sep c (x ∷ xs) (t ∷ token) h a = rw h (
    ap (◌∷◌ (t ∷ token)) (
      strtok_from-append sep x (separated c xs) [] a.0.1
      ∙ strtok_from-separated sep c xs x h a.1
      ∙ finish_token x xs a.0.0))

-- `strtok` gives back the tokens of a list that is written with separators.
pub strtok-separated :
    (sep : ℕ → Bool) (c : ℕ) (xs : List CString)
    → sep c ≡ true
    → All (IsToken sep) xs
    → strtok sep (separated c xs) ≡ xs
strtok-separated sep c xs h a = strtok_from-separated sep c xs [] h a

-- The tokens with a separator between each and the next.
abbrev pub joined : ℕ → List CString → CString
joined c [] = []
joined c (x ∷ xs) = x ++ separated c xs

pub strtok-joined :
    (sep : ℕ → Bool) (c : ℕ) (xs : List CString)
    → sep c ≡ true
    → All (IsToken sep) xs
    → strtok sep (joined c xs) ≡ xs
strtok-joined sep c [] h a = refl
strtok-joined sep c (x ∷ xs) h a =
    strtok_from-append sep x (separated c xs) [] a.0.1
    ∙ strtok_from-separated sep c xs x h a.1
    ∙ finish_token x xs a.0.0
