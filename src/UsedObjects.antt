-- ===== src/UsedObjects.antt =====
-- loader/loader.c: `struct loader_used_object_list` of loader/loader_common.h, which hands out the
-- indices by which the loader names its own objects (surfaces, messengers, report callbacks).
pub mod Entries
pub mod Requests
pub mod Validity
mod Tests
use vulkan_sc_loader.Base.{
  ℕ, zero, suc, ◌+◌, ◌*◌, ◌/◌, ◌%◌, ◌^◌, Bool, true, false, ◌&&◌, Option, none, some, List, [], ◌∷◌,
  ◌++◌, set, replicate, ltb, if◌then◌else◌, VkResult, is_success, success, error_out_of_host_memory,
  Heap, allocate, reallocate,
}

-- `A` is the type of a caller's allocation callbacks; `none` stands for the zeroed structure.
pub record UsedObjectStatus (A : Type 0) : Type 0 where
  pub status : Bool
  pub allocation_callbacks : Option A

-- The size of the structure on a 64-bit platform: a `VkBool32`, its padding, and six pointers.
abbrev pub status_size : ℕ
status_size = 56

-- `list` holds what fits the capacity, which is in bytes.
pub record UsedObjectList (A : Type 0) : Type 0 where
  pub capacity : ℕ
  pub allocated : Bool
  pub list : List (UsedObjectStatus A)

abbrev pub zero_status : {A : Type 0} → UsedObjectStatus A
zero_status = record { status = false; allocation_callbacks = none }

abbrev pub taken : {A : Type 0} → Option A → UsedObjectStatus A
taken callbacks = record { status = true; allocation_callbacks = callbacks }

-- `loader_init_generic_list` at this element type.
unfoldable pub init_used_object_list :
    {A : Type 0} → Heap → UsedObjectList A → VkResult × Heap × UsedObjectList A
init_used_object_list h l =
    let (ok, h') = allocate h in
    if ok
    then (
      success,
      h',
      record { capacity = 32 * status_size; allocated = true; list = replicate 32 zero_status },
    )
    else (error_out_of_host_memory, h', record { capacity = 0; allocated = false; list = [] })

-- The loop over the entries, from the index `i` on.
unfoldable pub find_free : {A : Type 0} → List (UsedObjectStatus A) → ℕ → Option ℕ
find_free [] i = none
find_free (x ∷ xs) i = if x.status then find_free xs (i + 1) else some i

-- `loader_resize_generic_list`, and the zeroing of the new half.
unfoldable pub grow :
    {A : Type 0} → Heap → UsedObjectList A → Option A → VkResult × Heap × UsedObjectList A × ℕ
grow h l callbacks =
    let (ok, h') = reallocate h in
    let slots = l.capacity / status_size in
    let new_index = slots % 2 ^ 32 in
    if ok
    then (
      success,
      h',
      record l {
        capacity = l.capacity * 2 % 2 ^ 64;
        list = set (l.list ++ replicate slots zero_status) new_index (taken callbacks);
      },
      new_index,
    )
    else (error_out_of_host_memory, h', l, 0)

unfoldable pub take_entry :
    {A : Type 0} → Heap → UsedObjectList A → Option A → VkResult × Heap × UsedObjectList A × ℕ
unfolding grow find_free
take_entry h l callbacks = elim (find_free l.list 0) [
  | none ↦ grow h l callbacks
  | some i ↦ (success, h, record l { list = set l.list i (taken callbacks) }, i)
]

-- `allocated` is the test of the list's pointer: without an array, one is made first.
abbrev pub ensure_list_and_take :
    {A : Type 0}
    → Bool
    → Heap
    → UsedObjectList A
    → Option A
    → VkResult × Heap × UsedObjectList A × ℕ
ensure_list_and_take true h l callbacks = take_entry h l callbacks
ensure_list_and_take false h l callbacks =
    let (res, h', l') = init_used_object_list h l in
    if is_success res then take_entry h' l' callbacks else (res, h', l', 0)

-- The index comes with the result; it is 0 where the code does not write it.
unfoldable pub loader_get_next_available_entry :
    {A : Type 0} → Heap → UsedObjectList A → Option A → VkResult × Heap × UsedObjectList A × ℕ
unfolding init_used_object_list take_entry
loader_get_next_available_entry h l callbacks = ensure_list_and_take l.allocated h l callbacks

unfoldable pub loader_release_object_from_list :
    {A : Type 0} → UsedObjectList A → ℕ → UsedObjectList A
loader_release_object_from_list l index_to_free =
    if l.allocated && ltb (index_to_free * status_size) l.capacity
    then record l { list = set l.list index_to_free zero_status }
    else l
