-- ===== src/Extensions/Adding.antt =====
-- loader/loader.c: adding extension properties to a list.
use vulkan_sc_loader.Base.{
  next_answer, ◌==◌, not, inr, inl, ℕ, suc, ◌+◌, ◌*◌, ◌%◌, ◌^◌, ◌≤◌, ◌<◌, ◌≡◌, refl, sym, ap, subst,
  ◌∙◌, Bool, true, false, ◌||◌, none, some, List, [], ◌∷◌, ◌++◌, length, take, arith, length-append,
  if◌then◌else◌, success, error_out_of_host_memory, Heap, Bool-cases,
}
use vulkan_sc_loader.Extensions.{
  ensure_list_and_add, init_extension_list, ExtensionProperties, ExtensionList, Outcome,
  extension_size, has_extension, append_extension, add_extensions, loader_add_to_ext_list, and_then,
}

-- The buffer holds whole entries, room for all that are counted, and at most twice what is needed
-- beyond the first 32; the count leaves `uint32_t` far.
pub record IsValid (l : ExtensionList) : Type 0 where
  pub counted : l.count ≡ length l.list
  pub whole : l.capacity % extension_size ≡ 0
  pub fitting : l.count * extension_size ≤ l.capacity
  pub tight : l.capacity ≤ (32 + 2 * l.count) * extension_size
  pub started : extension_size ≤ l.capacity

-- One extension more, or no memory and no change.
abbrev pub Appended : ExtensionList → ExtensionProperties → Outcome → Type 0
Appended l ext none = ⊥
Appended l ext (some (success, h, l')) =
    IsValid l' × (l'.list ≡ l.list ++ ext ∷ []) × (l'.allocated ≡ l.allocated)
Appended l ext (some (error_out_of_host_memory, h, l')) = l' ≡ l
Appended l ext (some (_, h, l')) = ⊥

append_extension-Appended :
    (h : Heap) (l : ExtensionList) (ext : ExtensionProperties)
    → IsValid l
    → l.count < 2 ^ 31
    → Appended l ext (append_extension h l ext)
unfolding append_extension
append_extension-Appended h l ext v small = ground (arith, length-append l.list (ext ∷ []))

-- The properties whose name is not yet there, one after the other.
abbrev pub added : List ExtensionProperties → List ExtensionProperties → List ExtensionProperties
added xs [] = xs
added xs (p ∷ ps) = added (if has_extension p xs then xs else xs ++ p ∷ []) ps

-- All the new ones are added; or memory runs out, and the first `k` properties have been dealt with.
abbrev pub AddsAll : List ExtensionProperties → List ExtensionProperties → Outcome → Type 0
AddsAll xs props none = ⊥
AddsAll xs props (some (success, h, l)) =
    IsValid l × (l.list ≡ added xs props) × (l.allocated ≡ true)
AddsAll xs props (some (error_out_of_host_memory, h, l)) =
    (k : ℕ) × (l.list ≡ added xs (take k props))
AddsAll xs props (some (_, h, l)) = ⊥

AddsAll-cons :
    (xs : List ExtensionProperties) (p : ExtensionProperties) (ps : List ExtensionProperties)
    (o : Outcome)
    → AddsAll (if has_extension p xs then xs else xs ++ p ∷ []) ps o
    → AddsAll xs (p ∷ ps) o
AddsAll-cons xs p ps none h = h
AddsAll-cons xs p ps (some (success, m, l)) h = h
AddsAll-cons xs p ps (some (error_out_of_host_memory, m, l)) h = (suc h.0, h.1)
AddsAll-cons xs p ps (some (_, m, l)) h = h

-- A round that adds an extension, and those after it.
round-AddsAll :
    (p : ExtensionProperties) (props : List ExtensionProperties) (l : ExtensionList) (o : Outcome)
    → has_extension p l.list ≡ false
    → l.allocated ≡ true
    → ((h' : Heap) (l' : ExtensionList)
        → IsValid l'
        → l'.list ≡ l.list ++ p ∷ []
        → l'.allocated ≡ true
        → AddsAll l'.list props (add_extensions props h' l'))
    → Appended l p o
    → AddsAll l.list (p ∷ props) (and_then o (add_extensions props))
round-AddsAll p props l none new a next h = h
round-AddsAll p props l (some (success, h', l')) new a next (v, e, same) =
    AddsAll-cons l.list p props (add_extensions props h' l') (
      rw new
        (subst (λ xs. AddsAll xs props (add_extensions props h' l')) e (next h' l' v e (same ∙ a))))
round-AddsAll p props l (some (error_out_of_host_memory, h', l')) new a next e =
    (0, ap (λ (x : ExtensionList). x.list) e)
round-AddsAll p props l (some (_, h', l')) new a next e = absurd e

add_extensions-AddsAll :
    (props : List ExtensionProperties) (h : Heap) (l : ExtensionList)
    → IsValid l
    → l.allocated ≡ true
    → l.count + length props < 2 ^ 31
    → AddsAll l.list props (add_extensions props h l)
unfolding add_extensions
add_extensions-AddsAll [] h l v a n = (v, refl, a)
add_extensions-AddsAll (p ∷ props) h l v a n = elim (Bool-cases (has_extension p l.list)) [
  | inl old ↦
      rw old (
        AddsAll-cons l.list p props _ (rw old (add_extensions-AddsAll props h l v a (omega arith))))
  | inr new ↦ rw new (
      round-AddsAll p props l (append_extension h l p) new a
        (λ h' l' v' e a'.
          add_extensions-AddsAll props h' l' v' a'
            (omega (arith, v.counted, v'.counted, ap length e, length-append l.list (p ∷ []))))
        (append_extension-Appended h l p v (omega arith)))
]

-- A list in use is valid, and one that has no array yet is empty.
pub record IsReady (l : ExtensionList) : Type 0 where
  pub in_use : l.allocated ≡ true → IsValid l
  pub not_yet : l.allocated ≡ false → l.list ≡ []

fresh_list : ExtensionList
fresh_list = record { capacity = 32 * extension_size; count = 0; allocated = true; list = [] }

fresh_list-IsValid : IsValid fresh_list
unfolding fresh_list
fresh_list-IsValid = record {
  counted = refl;
  whole = refl;
  fitting = omega arith;
  tight = omega arith;
  started = omega arith;
}

ensure_list_and_add-AddsAll :
    (b : Bool) (h : Heap) (l : ExtensionList) (props : List ExtensionProperties)
    → IsReady l
    → length l.list + length props < 2 ^ 31
    → (not l.allocated || l.capacity == 0) ≡ b
    → AddsAll l.list props (ensure_list_and_add b h l props)
unfolding init_extension_list fresh_list
ensure_list_and_add-AddsAll false h l props r n e =
    let there : l.allocated ≡ true = ground arith in
    let v = r.in_use there in add_extensions-AddsAll props h l v there (omega (arith, v.counted))
ensure_list_and_add-AddsAll true h l props r n e =
    subst (λ xs. AddsAll xs props (ensure_list_and_add true h l props)) (sym empty)
      (elim (Bool-cases (next_answer h.answers)) [
        | inl ok ↦
            rw ok (add_extensions-AddsAll props _ fresh_list fresh_list-IsValid refl (omega arith))
        | inr out ↦ rw out (0, refl)
      ])
  where
    empty_if : (b : Bool) → l.allocated ≡ b → l.list ≡ []
    empty_if false a = r.not_yet a
    empty_if true a = absurd (ground (arith, (r.in_use a).started))

    empty : l.list ≡ []
    empty = empty_if l.allocated refl

-- Adding to a list that is ready never writes beyond its buffer. It adds, in their order, the
-- properties whose names are not yet there, and leaves the list valid; or it reports that memory ran
-- out, when the list is what the first of the properties make it.
pub loader_add_to_ext_list-AddsAll :
    (h : Heap) (l : ExtensionList) (props : List ExtensionProperties)
    → IsReady l
    → length l.list + length props < 2 ^ 31
    → AddsAll l.list props (loader_add_to_ext_list h l props)
unfolding loader_add_to_ext_list
loader_add_to_ext_list-AddsAll h l props r n =
    ensure_list_and_add-AddsAll (not l.allocated || l.capacity == 0) h l props r n refl
