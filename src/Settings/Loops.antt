-- ===== src/Settings/Loops.antt =====
-- loader/settings.c: with the room that is made for them the loops of the combination do not fail.
use vulkan_sc_loader.Base.{
  suc, ℕ, ◌+◌, ◌*◌, ◌%◌, ◌^◌, ◌≤◌, ◌<◌, ◌≡◌, refl, true, false, ◌||◌, some, List, [], ◌∷◌, ◌++◌,
  if◌then◌else◌, Bool-cases, arith, inl, inr, length, length-append, append_assoc, append-nil, ltb,
  Heap, success, ◌==◌, le→leb,
}
use native.Mathlib.Nat.{mul-le-mul_right}
use vulkan_sc_loader.Layers.{LayerProperties, zero_layer}
use vulkan_sc_loader.Layers.Lists.{
  struct_bytes, struct_bytes_le, LayerList, loader_append_layer_property, ensure_room,
}
use vulkan_sc_loader.Settings.{check_if_layer_is_in_list, settings_loop, regular_loop, and_then}
use vulkan_sc_loader.Settings.Names.{added, left, added_regular}

-- An array of some capacity that holds these layers.
abbrev pub holding : ℕ → List LayerProperties → LayerList
holding capacity list = record { capacity = capacity; count = length list; list = list }

-- There is room for `n` layers more.
pub record HasRoom (size capacity n : ℕ) (list : List LayerProperties) : Type 0 where
  pub room : (length list + n) * size ≤ capacity
  pub some_room : 0 < capacity
  pub few : length list + n < 2 ^ 32

HasRoom-append :
    (size capacity n : ℕ) (list : List LayerProperties) (p : LayerProperties)
    → HasRoom size capacity (suc n) list
    → HasRoom size capacity n (list ++ p ∷ [])
HasRoom-append size capacity n list p r =
    let e : length (list ++ p ∷ []) + n ≡ length list + suc n =
      omega (arith, length-append list (p ∷ [])) in
    record { room = rw e r.room; some_room = r.some_room; few = omega (arith, e, r.few) }

-- Room for some layers is room for fewer.
pub HasRoom-less :
    (size capacity : ℕ) {n m : ℕ} (list list' : List LayerProperties)
    → HasRoom size capacity n list
    → length list' + m ≤ length list + n
    → HasRoom size capacity m list'
HasRoom-less size capacity list list' r fewer = record {
  room = omega (arith, r.room, mul-le-mul_right size fewer);
  some_room = r.some_room;
  few = omega (arith, r.few);
}

append_in_room :
    (size capacity n : ℕ) (h : Heap) (list : List LayerProperties) (p : LayerProperties)
    → HasRoom size capacity (suc n) list
    → loader_append_layer_property size h (holding capacity list) p
      ≡ some (success, h, holding capacity (list ++ p ∷ []), zero_layer)
unfolding loader_append_layer_property ensure_room
append_in_room size capacity n h list p r =
    let enough : (length list + 1) * size ≤ capacity = omega (arith, one_more, r.room) in
    let not_zero : (capacity == 0) ≡ false = ground (arith, r.some_room) in
    let bytes = struct_bytes_le (length list + 1) size in
    let roomy : ltb capacity (struct_bytes (length list + 1) size) ≡ false = ground arith in
    let next : (length list + 1) % 2 ^ 32 ≡ length (list ++ p ∷ []) =
      omega (arith, r.few, length-append list (p ∷ [])) in
    rw (not_zero, roomy, ensure_room, le→leb ((length list + 1) * size) capacity enough, next) refl
  where
    one_more : (length list + suc n) * size ≡ (length list + 1) * size + n * size
    one_more = omega arith

settings_loop-cons :
    (size capacity : ℕ) (seen settings list : List LayerProperties) (s : LayerProperties) (h : Heap)
    → settings_loop size seen (s ∷ settings) h (holding capacity list) ≡ (
        if check_if_layer_is_in_list list s true
        then settings_loop size (seen ++ s ∷ []) settings h (holding capacity list)
        else and_then
            (loader_append_layer_property size h (holding capacity list) s)
            (λ h' out' left. settings_loop size (seen ++ left ∷ []) settings h' out')
            (λ res h' out'. some (res, h', out', [])))
unfolding settings_loop
settings_loop-cons size capacity seen settings list s h = refl

loop_end :
    (size : ℕ) (seen : List LayerProperties) (h : Heap) (out : LayerList)
    → settings_loop size seen [] h out ≡ some (success, h, out, seen)
unfolding settings_loop
loop_end size seen h out = refl

pub settings_loop_lem :
    (size capacity : ℕ) (seen settings list : List LayerProperties) (h : Heap)
    → HasRoom size capacity (length settings) list
    → settings_loop size seen settings h (holding capacity list)
      ≡ some
          (success, h, holding capacity (list ++ added list settings), seen ++ left list settings)
settings_loop_lem size capacity seen [] list h r =
    simp append-nil (loop_end size seen h (holding capacity list))
settings_loop_lem size capacity seen (s ∷ settings) list h r =
    elim (Bool-cases (check_if_layer_is_in_list list s true)) [
      | inl listed ↦
          let rest =
            settings_loop_lem size capacity (seen ++ s ∷ []) settings list h
              (HasRoom-less size capacity list list r (omega arith)) in
          rw (settings_loop-cons size capacity seen settings list s h, listed, rest)
            (rw (append_assoc seen (s ∷ []) (left list settings)) refl)
      | inr missing ↦
          let rest =
            settings_loop_lem size capacity (seen ++ zero_layer ∷ []) settings (list ++ s ∷ []) h
              (HasRoom-append size capacity (length settings) list s r) in
          rw
            (
              settings_loop-cons size capacity seen settings list s h,
              missing,
              append_in_room size capacity (length settings) h list s r,
              rest,
            )
            (rw
              (
                append_assoc seen (zero_layer ∷ []) (left (list ++ s ∷ []) settings),
                append_assoc list (s ∷ []) (added (list ++ s ∷ []) settings),
              )
              refl)
    ]

regular_loop-cons :
    (size capacity : ℕ) (settings regular list : List LayerProperties) (r : LayerProperties)
    (h : Heap)
    → regular_loop size settings (r ∷ regular) h (holding capacity list) ≡ (
        if check_if_layer_is_in_list list r false || check_if_layer_is_in_list settings r false
        then regular_loop size settings regular h (holding capacity list)
        else and_then
            (loader_append_layer_property size h (holding capacity list) r)
            (λ h' out' left. regular_loop size settings regular h' out')
            (λ res h' out'. some (res, h', out', tt)))
unfolding regular_loop
regular_loop-cons size capacity settings regular list r h = refl

regular_end :
    (size : ℕ) (settings : List LayerProperties) (h : Heap) (out : LayerList)
    → regular_loop size settings [] h out ≡ some (success, h, out, tt)
unfolding regular_loop
regular_end size settings h out = refl

pub regular_loop_lem :
    (size capacity : ℕ) (settings regular list : List LayerProperties) (h : Heap)
    → HasRoom size capacity (length regular) list
    → regular_loop size settings regular h (holding capacity list)
      ≡ some (success, h, holding capacity (list ++ added_regular settings list regular), tt)
regular_loop_lem size capacity settings [] list h r = rw append-nil (regular_end size settings h _)
regular_loop_lem size capacity settings (p ∷ regular) list h r =
    elim (Bool-cases
      (check_if_layer_is_in_list list p false || check_if_layer_is_in_list settings p false)) [
        | inl ordered ↦
            rw (regular_loop-cons size capacity settings regular list p h, ordered)
              (regular_loop_lem size capacity settings regular list h
                (HasRoom-less size capacity list list r (omega arith)))
        | inr unknown ↦
            let rest =
              regular_loop_lem size capacity settings regular (list ++ p ∷ []) h
                (HasRoom-append size capacity (length regular) list p r) in
            rw
              (
                regular_loop-cons size capacity settings regular list p h,
                unknown,
                append_in_room size capacity (length regular) h list p r,
                rest,
              )
              (rw (append_assoc list (p ∷ []) (added_regular settings (list ++ p ∷ []) regular))
                refl)
      ]
