-- ===== src/Layers/Pointers.antt =====
-- loader/loader.c: adding to a list of pointers to layers, and the bounds of its array.
use vulkan_sc_loader.Base.{
  ap, subst, ◌∙◌, false≢true, ℕ, ◌+◌, ◌*◌, ◌%◌, ◌^◌, ◌≤◌, ◌<◌, ◌≡◌, refl, sym, Bool, true, false,
  not, ◌||◌, none, some, [], ◌∷◌, ◌++◌, leb, ◌==◌, success, error_out_of_host_memory, Heap,
  next_answer, arith, length, length-append, Bool-cases, inl, inr, le→leb,
}
use native.Mathlib.Nat.{mul-le-mul_left}
use vulkan_sc_loader.Layers.Lists.{
  struct_bytes, struct_bytes_lem, PointerLayerList, PointerOutcome, loader_init_pointer_layer_list,
  write_pointer, ensure_pointer_room, init_and_add, loader_add_layer_properties_to_list,
  pointer_size,
}

module _ {A : Type 0} where
  -- An array has room for its entries and for one at least.
  pub record IsValid (l : PointerLayerList A) : Type 0 where
    pub counted : l.count ≡ length l.list
    pub fits : l.count * pointer_size ≤ l.capacity
    pub one_fits : (l.allocated ≡ true) → pointer_size ≤ l.capacity
    pub absent : (l.allocated ≡ false) → l.list ≡ []

  -- The pointer is at the end, or memory ran out and the entries are as before.
  abbrev pub Added : PointerLayerList A → A → PointerOutcome A → Type 0
  Added l p none = ⊥
  Added l p (some (success, h, l')) = (l'.list ≡ l.list ++ p ∷ []) × IsValid l'
  Added l p (some (error_out_of_host_memory, h, l')) = (l'.list ≡ l.list) × IsValid l'
  Added l p (some (_, h, l')) = ⊥

  write_pointer-Added :
      (h : Heap) (l : PointerLayerList A) (p : A)
      → IsValid l
      → l.count < 2 ^ 31
      → l.allocated ≡ true
      → (l.count + 1) * pointer_size ≤ l.capacity
      → Added l p (write_pointer h l p)
  write_pointer-Added h l p v small there room =
      let next : (l.count + 1) % 2 ^ 32 ≡ l.count + 1 = omega arith in
      rw (le→leb ((l.count + 1) * pointer_size) l.capacity room, next)
        (
          refl,
          record {
            counted = omega (arith, v.counted, length-append l.list (p ∷ []));
            fits = room;
            one_fits = v.one_fits;
            absent = λ e. absurd (false≢true (sym e ∙ there));
          },
        )

  ensure_pointer_room-Added :
      (size : ℕ) (h : Heap) (l : PointerLayerList A) (p : A)
      → IsValid l
      → l.count < 2 ^ 31
      → l.capacity < 2 ^ 63
      → pointer_size ≤ size
      → size < 2 ^ 32
      → l.allocated ≡ true
      → Added l p (ensure_pointer_room size h l p)
  unfolding ensure_pointer_room
  ensure_pointer_room-Added size h l p v small bounded wide limit there =
      elim (Bool-cases (leb l.capacity (struct_bytes (l.count + 1) size))) [
        | inl full ↦ elim (Bool-cases (next_answer h.answers)) [
          | inl ok ↦ rw (full, ok) (doubled _ (omega arith))
          | inr out ↦ rw (full, out) (refl, v)
        ]
        | inr room ↦
            let bytes = struct_bytes_lem (l.count + 1) size (omega arith) limit in
            let below : struct_bytes (l.count + 1) size < l.capacity = ground arith in
            rw room (
              write_pointer-Added h l p v small there
                (omega (arith, below, bytes, mul-le-mul_left (l.count + 1) wide)))
      ]
    where
      doubled :
          (h' : Heap)
          → l.capacity * 2 % 2 ^ 64 ≡ l.capacity * 2
          → Added l p (write_pointer h' (record l { capacity = l.capacity * 2 % 2 ^ 64 }) p)
      doubled h' e =
          write_pointer-Added h' (record l { capacity = l.capacity * 2 % 2 ^ 64 }) p
            (record {
              counted = v.counted;
              fits = omega (arith, v.fits, e);
              one_fits = λ t. omega (arith, v.one_fits there, e);
              absent = v.absent;
            })
            small there (omega (arith, v.fits, v.one_fits there, e))

  init_and_add-Added :
      (b : Bool) (size : ℕ) (h : Heap) (l : PointerLayerList A) (p : A)
      → IsValid l
      → l.count < 2 ^ 31
      → l.capacity < 2 ^ 63
      → pointer_size ≤ size
      → size < 2 ^ 32
      → (not l.allocated || l.capacity == 0) ≡ b
      → Added l p (init_and_add b size h l p)
  unfolding loader_init_pointer_layer_list
  init_and_add-Added false size h l p v small bounded wide limit e =
      ensure_pointer_room-Added size h l p v small bounded wide limit (ground arith)
  init_and_add-Added true size h l p v small bounded wide limit e =
      elim (Bool-cases (next_answer h.answers)) [
        | inl ok ↦
            subst (λ list. Added (record l { list = list }) p (init_and_add true size h l p))
              (sym none_yet)
              (rw ok (
                ensure_pointer_room-Added size _ _ p fresh (omega arith) (omega arith) wide limit
                  refl))
        | inr out ↦ rw out (
          refl,
          record {
            counted = v.counted;
            fits = omega (arith, v.counted, ap length none_yet);
            one_fits = λ t. omega arith;
            absent = λ t. none_yet;
          },
        )
      ]
    where
      none_yet : l.list ≡ []
      none_yet = elim (Bool-cases l.allocated) [
        | inl there ↦ absurd (ground (arith, v.one_fits there))
        | inr missing ↦ v.absent missing
      ]

      fresh :
          IsValid (record { capacity = 32 * pointer_size; count = 0; allocated = true; list = [] })
      fresh = record {
        counted = refl;
        fits = omega arith;
        one_fits = λ t. omega arith;
        absent = λ t. refl;
      }

  -- Adding a pointer to a valid list never writes beyond its array, for any size of the struct from that
  -- of a pointer up to 2 ^ 32, although the test is made with that size. The pointer is put at the end, or memory runs out and the entries are
  -- as they were; either way the list stays valid.
  pub loader_add_layer_properties_to_list-Added :
      (size : ℕ) (h : Heap) (l : PointerLayerList A) (p : A)
      → IsValid l
      → l.count < 2 ^ 31
      → l.capacity < 2 ^ 63
      → pointer_size ≤ size
      → size < 2 ^ 32
      → Added l p (loader_add_layer_properties_to_list size h l p)
  unfolding loader_add_layer_properties_to_list
  loader_add_layer_properties_to_list-Added size h l p v small bounded wide limit =
      init_and_add-Added (not l.allocated || l.capacity == 0) size h l p v small bounded wide limit
        refl
