-- ===== src/Activation/ExtensionChecks/Lookup.antt =====
-- loader/loader.c: the lookup of an extension by its name, and strings without errors.
use mathlib.Core.List.{Memᴰ}
use vulkan_sc_loader.Base.{
  ◌≡◌, ◌↔◌, refl, ap, ◌∙◌, Bool, true, false, false≢true, ◌&&◌, some, List, [], ◌∷◌, CString,
  str_eq, str_eq_iff, if◌then◌else◌, VkResult, success, is_success, Bool-cases, inl, inr, arith,
}
use vulkan_sc_loader.Extensions.{ExtensionProperties}
use vulkan_sc_loader.Utf8.{vk_string_validate}
use vulkan_sc_loader.Activation.Validation.{max_loader_string_length, is_error}
use vulkan_sc_loader.Activation.ExtensionChecks.{get_extension_property, is_found}

-- An extension with the name is in the list.
abbrev pub HasExtension : CString → List ExtensionProperties → Type 0
HasExtension name es = (e : ExtensionProperties) × Memᴰ e es × (name ≡ e.extension_name)

pub get_extension_property-HasExtension :
    (name : CString) (es : List ExtensionProperties)
    → is_found (get_extension_property name es) ≡ true
    → HasExtension name es
unfolding get_extension_property
get_extension_property-HasExtension name [] f = absurd (false≢true f)
get_extension_property-HasExtension name (e ∷ es) f =
    split (str_eq name e.extension_name) refl f (get_extension_property-HasExtension name es)
  where
    split :
        (x : Bool)
        → str_eq name e.extension_name ≡ x
        → is_found (if x then some e else get_extension_property name es) ≡ true
        → (is_found (get_extension_property name es) ≡ true → HasExtension name es)
        → HasExtension name (e ∷ es)
    split true same f' again = (e, Memᴰ.head refl, (str_eq_iff name e.extension_name).0 same)
    split false other f' again = let (e', m, n) = again f' in (e', Memᴰ.tail m, n)

pub HasExtension-get_extension_property :
    (name : CString) (es : List ExtensionProperties) (e : ExtensionProperties)
    → Memᴰ e es
    → name ≡ e.extension_name
    → is_found (get_extension_property name es) ≡ true
unfolding get_extension_property
HasExtension-get_extension_property name [] e m n = elim m [ ]
HasExtension-get_extension_property name (x ∷ es) e m n =
    elim (Bool-cases (str_eq name x.extension_name)) [
      | inl same ↦ rw same refl
      | inr other ↦ rw other (elim m [
        | Memᴰ.head here ↦ absurd (differs other (n ∙ ap (λ y. y.extension_name) here))
        | Memᴰ.tail m' ↦ HasExtension-get_extension_property name es e m' n
      ])
    ]
  where
    differs : str_eq name x.extension_name ≡ false → name ≡ x.extension_name → ⊥
    differs other same = ground (arith, (str_eq_iff name x.extension_name).1 same)

pub get_extension_property_iff :
    (name : CString) (es : List ExtensionProperties)
    → (is_found (get_extension_property name es) ≡ true) ↔ HasExtension name es
get_extension_property_iff name es = (
  get_extension_property-HasExtension name es,
  λ h. HasExtension-get_extension_property name es h.0 h.1 h.2,
)

-- A string without an error.
abbrev pub IsWellFormed : CString → Type 0
IsWellFormed name = is_error (vk_string_validate max_loader_string_length (some name)) ≡ false

pub and_iff : (a b : Bool) → ((a && b) ≡ true) ↔ ((a ≡ true) × (b ≡ true))
and_iff a b = ground arith

pub success_only : (r : VkResult) → is_success r ≡ true → r ≡ success
success_only success good = refl
success_only _ good = absurd (false≢true good)
