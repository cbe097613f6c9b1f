-- ===== src/Layers/Room.antt =====
-- loader/loader.c: adding to a list of layers, and the bounds of its array.
use Prim.Native.Nat.{zero}
use vulkan_sc_loader.Base.{
  sym, subst, suc, ==_iff, inl, Bool-cases, inr, le→leb, ◌⊎◌, ℕ, ◌+◌, ◌*◌, ◌%◌, ◌^◌, ◌≤◌, ◌<◌, ◌≡◌,
  refl, Bool, true, false, none, some, List, [], ◌∷◌, ◌++◌, ltb, ◌==◌, success,
  error_out_of_host_memory, Heap, next_answer, arith, length, length-append,
}
use vulkan_sc_loader.Layers.{LayerProperties, zero_layer}
use vulkan_sc_loader.Layers.Lists.{
  struct_bytes, struct_bytes_lem, LayerList, AppendOutcome, init_layer_list, write_layer,
  ensure_room, init_and_append, loader_append_layer_property,
}

-- The entries fit the array, which has room for at least one if there is one; without an array there
-- are no entries. A capacity that wraps is far away.
pub record IsValid (size : ℕ) (l : LayerList) : Type 0 where
  pub counted : l.count ≡ length l.list
  pub fits : l.count * size ≤ l.capacity
  pub one_fits : (l.capacity ≡ 0) ⊎ (size ≤ l.capacity)

-- The layer is at the end, or memory ran out and the entries are as before; the struct is zeroed.
abbrev pub Appended : ℕ → LayerList → LayerProperties → AppendOutcome → Type 0
Appended size l p none = ⊥
Appended size l p (some (success, h, l', left)) =
    (l'.list ≡ l.list ++ p ∷ []) × IsValid size l' × (left ≡ zero_layer)
Appended size l p (some (error_out_of_host_memory, h, l', left)) =
    (l'.list ≡ l.list) × IsValid size l' × (left ≡ zero_layer)
Appended size l p (some (_, h, l', left)) = ⊥

write_layer-Appended :
    (size : ℕ) (h : Heap) (l : LayerList) (p : LayerProperties)
    → IsValid size l
    → l.count < 2 ^ 31
    → (l.count + 1) * size ≤ l.capacity
    → Appended size l p (write_layer size h l p)
write_layer-Appended size h l p v small room =
    let next : (l.count + 1) % 2 ^ 32 ≡ l.count + 1 = omega arith in
    rw (le→leb ((l.count + 1) * size) l.capacity room, next)
      (
        refl,
        record {
          counted = omega (arith, v.counted, length-append l.list (p ∷ []));
          fits = room;
          one_fits = inr (omega (arith, room));
        },
        refl,
      )

ensure_room-Appended :
    (size : ℕ) (h : Heap) (l : LayerList) (p : LayerProperties)
    → IsValid size l
    → l.count < 2 ^ 31
    → l.capacity < 2 ^ 63
    → size ≤ l.capacity
    → size < 2 ^ 32
    → Appended size l p (ensure_room size h l p)
unfolding ensure_room
ensure_room-Appended size h l p v small bounded one limit =
    elim (Bool-cases (ltb l.capacity (struct_bytes (l.count + 1) size))) [
      | inl full ↦ elim (Bool-cases (next_answer h.answers)) [
        | inl ok ↦ rw (full, ok) (doubled _ (omega arith))
        | inr out ↦ rw (full, out) (refl, v, refl)
      ]
      | inr room ↦
          let bytes = struct_bytes_lem (l.count + 1) size (omega arith) limit in
          let fits : struct_bytes (l.count + 1) size ≤ l.capacity = ground arith in
          rw room (write_layer-Appended size h l p v small (omega (arith, bytes, fits)))
    ]
  where
    step : (l.count + 1) * size ≡ l.count * size + size
    step = omega arith

    doubled :
        (h' : Heap)
        → l.capacity * 2 % 2 ^ 64 ≡ l.capacity * 2
        → Appended size l p
            (write_layer size h' (record l { capacity = l.capacity * 2 % 2 ^ 64 }) p)
    doubled h' e =
        write_layer-Appended size h' (record l { capacity = l.capacity * 2 % 2 ^ 64 }) p
          (record {
            counted = v.counted;
            fits = omega (arith, v.fits, e);
            one_fits = inr (omega (arith, one, e));
          })
          small (omega (arith, step, v.fits, one, e))

no_entries :
    (list : List LayerProperties) (count size : ℕ) {capacity : ℕ}
    → count ≡ length list
    → count * size ≤ capacity
    → 0 < size
    → capacity ≡ 0
    → list ≡ []
no_entries [] count size counted fits pos e = refl
no_entries (p ∷ list) zero size counted fits pos e = absurd (omega arith)
no_entries (p ∷ list) (suc n) size counted fits pos e =
    let more : suc n * size ≡ n * size + size = omega arith in absurd (omega arith)

init_and_append-Appended :
    (b : Bool) (size : ℕ) (h : Heap) (l : LayerList) (p : LayerProperties)
    → IsValid size l
    → l.count < 2 ^ 31
    → l.capacity < 2 ^ 63
    → 0 < size
    → size < 2 ^ 32
    → (l.capacity == 0) ≡ b
    → Appended size l p (init_and_append b size h l p)
unfolding init_layer_list
init_and_append-Appended false size h l p v small bounded pos limit e =
    ensure_room-Appended size h l p v small bounded (ground (arith, v.one_fits)) limit
init_and_append-Appended true size h l p v small bounded pos limit e =
    let none_yet : l.list ≡ [] =
      no_entries l.list l.count size v.counted v.fits pos ((==_iff l.capacity 0).0 e) in
    elim (Bool-cases (next_answer h.answers)) [
      | inl ok ↦
          subst
            (λ list. Appended size (record l { list = list }) p (init_and_append true size h l p))
            (sym none_yet)
            (rw ok (
              ensure_room-Appended size _ _ p fresh (omega arith) (omega arith) (omega arith)
                limit))
      | inr out ↦
          rw out
            (sym none_yet, record { counted = refl; fits = omega arith; one_fits = inl refl }, refl)
    ]
  where
    wraps : 32 * size % 2 ^ 64 ≡ 32 * size
    wraps = omega arith

    fresh : IsValid size (record { capacity = 32 * size % 2 ^ 64; count = 0; list = [] })
    fresh = record { counted = refl; fits = omega arith; one_fits = inr (omega (arith, wraps)) }

-- Adding a layer to a valid list never writes beyond its array. It puts the layer at the end, or
-- reports that memory ran out and leaves the entries as they were; either way the list stays valid
-- and the struct that was passed is zeroed.
pub loader_append_layer_property-Appended :
    (size : ℕ) (h : Heap) (l : LayerList) (p : LayerProperties)
    → IsValid size l
    → l.count < 2 ^ 31
    → l.capacity < 2 ^ 63
    → 0 < size
    → size < 2 ^ 32
    → Appended size l p (loader_append_layer_property size h l p)
unfolding loader_append_layer_property
loader_append_layer_property-Appended size h l p v small bounded pos limit =
    init_and_append-Appended (l.capacity == 0) size h l p v small bounded pos limit refl
