-- ===== src/Extensions/Names.antt =====
-- loader/loader.c: an extension list seen as the set of its extensions' names.
use vulkan_sc_loader.Base.{
  error_out_of_host_memory, inr, take, inl, ◌+◌, ◌<◌, ◌^◌, ◌≡◌, refl, true, false, ◌||◌, none, some,
  List, [], ◌∷◌, ◌++◌, str_eq_iff, length, arith, success, Heap, Bool-cases,
}
use vulkan_sc_loader.Extensions.{
  ExtensionProperties, ExtensionList, Outcome, compare_vk_extension_properties, has_extension,
  has_vk_extension_property, loader_add_to_ext_list,
}
use vulkan_sc_loader.Extensions.Adding.{IsReady, AddsAll, added, loader_add_to_ext_list-AddsAll}

-- Two extensions of one name are found in the same lists.
has_extension-cong :
    (p q : ExtensionProperties) (xs : List ExtensionProperties)
    → compare_vk_extension_properties p q ≡ true
    → has_extension p xs ≡ has_extension q xs
unfolding compare_vk_extension_properties
has_extension-cong p q [] e = refl
has_extension-cong p q (x ∷ xs) e =
    let same : p.extension_name ≡ q.extension_name =
      (str_eq_iff p.extension_name q.extension_name).0 e in
    cc (same, has_extension-cong p q xs e)

has_extension-append :
    (q p : ExtensionProperties) (xs : List ExtensionProperties)
    → has_extension q (xs ++ p ∷ []) ≡ (has_extension q xs || compare_vk_extension_properties p q)
has_extension-append q p [] = ground arith
has_extension-append q p (x ∷ xs) = ground (arith, has_extension-append q p xs)

has_extension-added :
    (q : ExtensionProperties) (xs ps : List ExtensionProperties)
    → has_extension q (added xs ps) ≡ (has_extension q xs || has_extension q ps)
has_extension-added q xs [] = ground arith
has_extension-added q xs (p ∷ ps) = elim (Bool-cases (has_extension p xs)) [
  | inl old ↦ rw (old, has_extension-added q xs ps) (ground (arith, has_extension-cong p q xs))
  | inr new ↦
      rw (new, has_extension-added q (xs ++ p ∷ []) ps, has_extension-append q p xs) (ground arith)
]

-- No two extensions have the same name.
abbrev pub DistinctNames : List ExtensionProperties → Type 0
DistinctNames [] = Unit
DistinctNames (x ∷ xs) = (has_extension x xs ≡ false) × DistinctNames xs

compare_comm :
    (p q : ExtensionProperties)
    → compare_vk_extension_properties p q ≡ false
    → compare_vk_extension_properties q p ≡ false
unfolding compare_vk_extension_properties
compare_comm p q h = ground (
  arith,
  str_eq_iff p.extension_name q.extension_name,
  str_eq_iff q.extension_name p.extension_name,
)

DistinctNames-append :
    (xs : List ExtensionProperties) (p : ExtensionProperties)
    → DistinctNames xs
    → has_extension p xs ≡ false
    → DistinctNames (xs ++ p ∷ [])
DistinctNames-append [] p d n = (refl, tt)
DistinctNames-append (x ∷ xs) p d n =
    ground (arith, DistinctNames-append xs p, has_extension-append x p xs, compare_comm x p)

DistinctNames-added :
    (xs ps : List ExtensionProperties) → DistinctNames xs → DistinctNames (added xs ps)
DistinctNames-added xs [] d = d
DistinctNames-added xs (p ∷ ps) d = elim (Bool-cases (has_extension p xs)) [
  | inl old ↦ rw old (DistinctNames-added xs ps d)
  | inr new ↦ rw new (DistinctNames-added (xs ++ p ∷ []) ps (DistinctNames-append xs p d new))
]

abbrev pub Joins : List ExtensionProperties → List ExtensionProperties → Outcome → Type 0
Joins xs props none = ⊥
Joins xs props (some (result, h, l)) =
    DistinctNames l.list
    × (result ≡ success
        → (q : ExtensionProperties)
        → has_vk_extension_property q l ≡ (has_extension q xs || has_extension q props))

joins :
    (xs props : List ExtensionProperties) (o : Outcome)
    → DistinctNames xs
    → AddsAll xs props o
    → Joins xs props o
unfolding has_vk_extension_property
joins xs props none d a = a
joins xs props (some (success, h, l)) d a =
    (rw a.1 (DistinctNames-added xs props d), λ e q. rw a.1 (has_extension-added q xs props))
joins xs props (some (error_out_of_host_memory, h, l)) d a =
    (rw a.1 (DistinctNames-added xs (take a.0 props) d), λ e. cc)
joins xs props (some (_, h, l)) d a = absurd a

-- As sets of names, on a list that is ready and has distinct names: after a call that succeeds the
-- list has an extension's name exactly if it had it or it was given; and on every outcome the names
-- stay distinct.
pub loader_add_to_ext_list-Joins :
    (h : Heap) (l : ExtensionList) (props : List ExtensionProperties)
    → IsReady l
    → length l.list + length props < 2 ^ 31
    → DistinctNames l.list
    → Joins l.list props (loader_add_to_ext_list h l props)
loader_add_to_ext_list-Joins h l props r n d =
    joins l.list props (loader_add_to_ext_list h l props) d
      (loader_add_to_ext_list-AddsAll h l props r n)
