-- ===== src/Layers/Capacity.antt =====
-- loader/loader.c: how large the array of a list of pointers to layers gets, by a test that is made with
-- the size of the struct.
use vulkan_sc_loader.Base.{
  ◌++◌, ◌∷◌, refl, ◌⊎◌, success, incomplete, error_out_of_host_memory, error_initialization_failed,
  error_layer_not_present, error_extension_not_present, error_incompatible_driver, ℕ, ◌+◌, ◌*◌, ◌%◌,
  ◌^◌, ◌≤◌, ◌<◌, ◌≡◌, true, not, ◌||◌, none, some, [], leb, ◌==◌, Heap, next_answer, later_answers,
  arith, Bool-cases, inl, inr,
}
use native.Mathlib.Nat.{mul-le-mul}
use vulkan_sc_loader.Layers.Lists.{
  struct_bytes, struct_bytes_le, PointerLayerList, PointerOutcome, loader_init_pointer_layer_list,
  write_pointer, ensure_pointer_room, loader_add_layer_properties_to_list, pointer_size,
}
use vulkan_sc_loader.Layers.Pointers.{IsValid, Added, loader_add_layer_properties_to_list-Added}

module _ {A : Type 0} (size : ℕ) where
  abbrev pub IsSmall : PointerLayerList A → Type 0
  IsSmall l = l.capacity ≤ 256 + (l.count * size) * 2

  abbrev pub EndsSmall : PointerOutcome A → Type 0
  EndsSmall none = Unit
  EndsSmall (some (result, h, l)) = IsSmall l

  -- Far from the capacity that wraps.
  pub IsSmall-bounds :
      (l : PointerLayerList A) → IsSmall l → l.count < 2 ^ 31 → size < 2 ^ 30 → l.capacity < 2 ^ 63
  IsSmall-bounds l s few limit =
      let m : l.count * size ≤ 2 ^ 31 * 2 ^ 30 =
        mul-le-mul {n₂ = 2 ^ 31} {m₂ = 2 ^ 30} (omega arith) (omega arith) in
      omega arith

  write_pointer-EndsSmall :
      (h : Heap) (l : PointerLayerList A) (p : A)
      → l.count < 2 ^ 31
      → l.capacity ≤ 256 + ((l.count + 1) * size) * 2
      → EndsSmall (write_pointer h l p)
  write_pointer-EndsSmall h l p few s =
      let next : (l.count + 1) % 2 ^ 32 ≡ l.count + 1 = omega arith in
      elim (Bool-cases (leb ((l.count + 1) * pointer_size) l.capacity)) [
        | inl room ↦ rw (room, next) s
        | inr full ↦ rw full tt
      ]

  ensure_pointer_room-EndsSmall :
      (h : Heap) (l : PointerLayerList A) (p : A)
      → IsSmall l
      → l.count < 2 ^ 31
      → size < 2 ^ 30
      → EndsSmall (ensure_pointer_room size h l p)
  unfolding ensure_pointer_room
  ensure_pointer_room-EndsSmall h l p s few limit =
      let step : (l.count + 1) * size ≡ l.count * size + size = omega arith in
      let bound = IsSmall-bounds l s few limit in
      elim (Bool-cases (leb l.capacity (struct_bytes (l.count + 1) size))) [
        | inr room ↦ rw room (write_pointer-EndsSmall h l p few (omega arith))
        | inl full ↦ elim (Bool-cases (next_answer h.answers)) [
          | inr out ↦ rw (full, out) s
          | inl ok ↦
              let c : l.capacity ≤ struct_bytes (l.count + 1) size = ground arith in
              let le = struct_bytes_le (l.count + 1) size in
              rw (full, ok) (write_pointer-EndsSmall _ _ p few (omega arith))
        ]
      ]

  pub loader_add_layer_properties_to_list-EndsSmall :
      (h : Heap) (l : PointerLayerList A) (p : A)
      → IsSmall l
      → l.count < 2 ^ 31
      → size < 2 ^ 30
      → EndsSmall (loader_add_layer_properties_to_list size h l p)
  unfolding loader_add_layer_properties_to_list loader_init_pointer_layer_list
  loader_add_layer_properties_to_list-EndsSmall h l p s few limit =
      elim (Bool-cases (not l.allocated || l.capacity == 0)) [
        | inr there ↦ rw there (ensure_pointer_room-EndsSmall h l p s few limit)
        | inl missing ↦ elim (Bool-cases (next_answer h.answers)) [
          | inr out ↦ rw (missing, out) (omega arith)
          | inl ok ↦
              rw (missing, ok)
                (ensure_pointer_room-EndsSmall
                  (record { answers = later_answers h.answers; live = h.live + 1 })
                  (record { capacity = 32 * pointer_size; count = 0; allocated = true; list = [] })
                  p (omega arith) (omega arith) limit)
        ]
      ]

  -- A list whose array is neither too short nor out of proportion.
  pub record Fits (l : PointerLayerList A) : Type 0 where
    pub valid : IsValid l
    pub small : IsSmall l

  -- The outcome of an addition: the pointer is at the end, or memory ran out.
  abbrev pub AddCases : PointerLayerList A → A → PointerOutcome A → Type 0
  AddCases l p o =
      (h : Heap) × (l' : PointerLayerList A) × (((o ≡ some (success, h, l'))
          × (l'.list ≡ l.list ++ p ∷ [])
          × Fits l')
        ⊎ ((o ≡ some (error_out_of_host_memory, h, l')) × (l'.list ≡ l.list) × Fits l'))

  add_cases :
      (l : PointerLayerList A) (p : A) (o : PointerOutcome A)
      → Added l p o
      → EndsSmall o
      → AddCases l p o
  add_cases l p none a s = absurd a
  add_cases l p (some (success, h, l')) a s =
      (h, l', inl (refl, a.0, record { valid = a.1; small = s }))
  add_cases l p (some (error_out_of_host_memory, h, l')) a s =
      (h, l', inr (refl, a.0, record { valid = a.1; small = s }))
  add_cases l p (some (incomplete, h, l')) a s = absurd a
  add_cases l p (some (error_initialization_failed, h, l')) a s = absurd a
  add_cases l p (some (error_layer_not_present, h, l')) a s = absurd a
  add_cases l p (some (error_extension_not_present, h, l')) a s = absurd a
  add_cases l p (some (error_incompatible_driver, h, l')) a s = absurd a

  pub loader_add_layer_properties_to_list-cases :
      (h : Heap) (l : PointerLayerList A) (p : A)
      → Fits l
      → l.count < 2 ^ 31
      → pointer_size ≤ size
      → size < 2 ^ 30
      → AddCases l p (loader_add_layer_properties_to_list size h l p)
  loader_add_layer_properties_to_list-cases h l p fits few wide limit =
      add_cases l p _
        (loader_add_layer_properties_to_list-Added size h l p fits.valid few
          (IsSmall-bounds l fits.small few limit) wide (omega arith))
        (loader_add_layer_properties_to_list-EndsSmall h l p fits.small few limit)
