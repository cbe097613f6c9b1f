-- ===== src/Layers/Lists.antt =====
-- loader/loader.c: adding to a list of layers, and to a list of pointers to layers. The size of the
-- struct for a layer depends on the platform and is a parameter.
use vulkan_sc_loader.Base.{
  arith, ◌≡◌, ◌<◌, ◌≤◌, ℕ, ◌+◌, ◌*◌, ◌%◌, ◌^◌, Bool, true, false, not, ◌||◌, Option, none, some,
  List, [], ◌∷◌, ◌++◌, leb, ltb, ◌==◌, if◌then◌else◌, VkResult, success, error_out_of_host_memory,
  is_success, Heap, allocate, reallocate,
}
use native.Mathlib.Nat.{mul-le-mul, mul-le-mul_right}
use vulkan_sc_loader.Layers.{LayerProperties, zero_layer}

-- The array has room for `capacity` bytes.
pub record LayerList : Type 0 where
  pub capacity : ℕ
  pub count : ℕ
  pub list : List LayerProperties

-- The size of a number of structs, as the code computes it: the number in 32 bits, the product in 64.
abbrev pub struct_bytes : ℕ → ℕ → ℕ
struct_bytes n size = n % 2 ^ 32 * size % 2 ^ 64

abbrev pub no_layers : LayerList
no_layers = record { capacity = 0; count = 0; list = [] }

-- The outcome has the struct that was passed: zeroed, since its strings belong to the list or are
-- freed. A write beyond the array is `none`.
abbrev pub AppendOutcome : Type 0
AppendOutcome = Option (VkResult × Heap × LayerList × LayerProperties)

-- `loader_init_generic_list`, with the size of an element that it is given.
unfoldable pub init_layer_list : ℕ → Heap → VkResult × Heap × LayerList
init_layer_list element_size h =
    let (ok, h') = allocate h in
    if ok
    then (success, h', record { capacity = 32 * element_size % 2 ^ 64; count = 0; list = [] })
    else (error_out_of_host_memory, h', no_layers)

abbrev pub write_layer : ℕ → Heap → LayerList → LayerProperties → AppendOutcome
write_layer size h l p =
    if leb ((l.count + 1) * size) l.capacity
    then some (
      success,
      h,
      record l { list = l.list ++ p ∷ []; count = (l.count + 1) % 2 ^ 32 },
      zero_layer,
    )
    else none

-- From the test of the capacity on.
unfoldable pub ensure_room : ℕ → Heap → LayerList → LayerProperties → AppendOutcome
ensure_room size h l p =
    let (ok, h') = reallocate h in
    if ltb l.capacity (struct_bytes (l.count + 1) size)
    then (if ok
        then write_layer size h' (record l { capacity = l.capacity * 2 % 2 ^ 64 }) p
        else some (error_out_of_host_memory, h', l, zero_layer))
    else write_layer size h l p

abbrev pub init_and_append : Bool → ℕ → Heap → LayerList → LayerProperties → AppendOutcome
init_and_append true size h l p =
    let (res, h', l') = init_layer_list size h in
    if is_success res then ensure_room size h' l' p else some (res, h', l', zero_layer)
init_and_append false size h l p = ensure_room size h l p

unfoldable pub loader_append_layer_property : ℕ → Heap → LayerList → LayerProperties → AppendOutcome
unfolding init_layer_list ensure_room
loader_append_layer_property size h layer_list layer_property =
    init_and_append (layer_list.capacity == 0) size h layer_list layer_property

-- A list of pointers, which are values of any type here.
pub record PointerLayerList (A : Type 0) : Type 0 where
  pub capacity : ℕ
  pub count : ℕ
  pub allocated : Bool
  pub list : List A

abbrev pub no_pointers : {A : Type 0} → PointerLayerList A
no_pointers = record { capacity = 0; count = 0; allocated = false; list = [] }

abbrev pub pointer_size : ℕ
pointer_size = 8

unfoldable pub loader_init_pointer_layer_list :
    {A : Type 0} → Heap → PointerLayerList A → Bool × Heap × PointerLayerList A
loader_init_pointer_layer_list h l =
    let (ok, h') = allocate h in
    if ok
    then (true, h', record { capacity = 32 * pointer_size; count = 0; allocated = true; list = [] })
    else (false, h', record l { capacity = 32 * pointer_size; allocated = false })

abbrev pub PointerOutcome : Type 0 → Type 0
PointerOutcome A = Option (VkResult × Heap × PointerLayerList A)

abbrev pub write_pointer : {A : Type 0} → Heap → PointerLayerList A → A → PointerOutcome A
write_pointer h l p =
    if leb ((l.count + 1) * pointer_size) l.capacity
    then some (success, h, record l { list = l.list ++ p ∷ []; count = (l.count + 1) % 2 ^ 32 })
    else none

-- From the test of the capacity on, which is made with the size of the struct, not of a pointer.
unfoldable pub ensure_pointer_room :
    {A : Type 0} → ℕ → Heap → PointerLayerList A → A → PointerOutcome A
ensure_pointer_room size h l p =
    let (ok, h') = reallocate h in
    if leb l.capacity (struct_bytes (l.count + 1) size)
    then (if ok
        then write_pointer h' (record l { capacity = l.capacity * 2 % 2 ^ 64 }) p
        else some (error_out_of_host_memory, h', l))
    else write_pointer h l p

abbrev pub init_and_add : {A : Type 0} → Bool → ℕ → Heap → PointerLayerList A → A → PointerOutcome A
init_and_add true size h l p =
    let (ok, h', l') = loader_init_pointer_layer_list h l in
    if ok then ensure_pointer_room size h' l' p else some (error_out_of_host_memory, h', l')
init_and_add false size h l p = ensure_pointer_room size h l p

unfoldable pub loader_add_layer_properties_to_list :
    {A : Type 0} → ℕ → Heap → PointerLayerList A → A → PointerOutcome A
unfolding loader_init_pointer_layer_list ensure_pointer_room
loader_add_layer_properties_to_list size h list props =
    init_and_add (not list.allocated || list.capacity == 0) size h list props

pub struct_bytes_le : (n size : ℕ) → struct_bytes n size ≤ n * size
struct_bytes_le n size =
    let small : n % 2 ^ 32 ≤ n = omega arith in
    let m : n % 2 ^ 32 * size ≤ n * size = mul-le-mul_right size small in omega (arith, m)

-- Below the bounds neither of them wraps.
pub struct_bytes_lem : (n size : ℕ) → n ≤ 2 ^ 31 → size < 2 ^ 32 → struct_bytes n size ≡ n * size
struct_bytes_lem n size few limit =
    let m : n * size ≤ 2 ^ 31 * 2 ^ 32 = mul-le-mul {n₂ = 2 ^ 31} {m₂ = 2 ^ 32} few (omega arith) in
    let e : n % 2 ^ 32 ≡ n = omega arith in rw e (omega (arith, m))
