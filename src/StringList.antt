-- ===== src/StringList.antt =====
-- loader/loader.c: `struct loader_string_list`, a growing array of owned strings. The functions take
-- the heap and return it; the result `none` is a write through a null pointer.
pub mod Append
pub mod Ownership
mod Tests
use vulkan_sc_loader.Base.{
  ℕ, ◌+◌, ◌*◌, ◌%◌, ◌^◌, Bool, true, false, ◌||◌, Option, none, some, List, [], ◌∷◌, ◌++◌, CString,
  str_eq, take, ltb, ◌==◌, if◌then◌else◌, VkResult, success, error_out_of_host_memory,
  is_out_of_host_memory, Heap, allocate, reallocate, free, free_many,
}

-- `allocated` tells that the array's pointer is not NULL, and `entries` are the strings in use.
pub record StringList : Type 0 where
  pub allocated_count : ℕ
  pub count : ℕ
  pub allocated : Bool
  pub entries : List CString

abbrev pub zeroed : StringList
zeroed = record { allocated_count = 0; count = 0; allocated = false; entries = [] }

abbrev pub u32 : ℕ → ℕ
u32 n = n % 2 ^ 32

abbrev pub contains : List CString → CString → Bool
contains [] str = false
contains (x ∷ xs) str = str_eq x str || contains xs str

unfoldable pub is_string_in_string_list : StringList → CString → Bool
is_string_in_string_list string_list str = contains string_list.entries str

unfoldable pub create_string_list : Heap → ℕ → StringList → VkResult × Heap × StringList
create_string_list h allocated_count s =
    let (ok, h') = allocate h in
    if ok
    then (
      success,
      h',
      record s { allocated = true; allocated_count = allocated_count; count = 0; entries = [] },
    )
    else (error_out_of_host_memory, h', record s { allocated = false })

-- A first allocation that fails leaves the new count beside the null pointer.
unfoldable pub increase_str_capacity_by_at_least_one :
    Heap → StringList → VkResult × Heap × StringList
increase_str_capacity_by_at_least_one h s =
    let (new_ok, new_heap) = allocate h in
    let (re_ok, re_heap) = reallocate h in
    if s.allocated_count == 0
    then (if new_ok
        then (success, new_heap, record s { allocated_count = 32; allocated = true })
        else (
          error_out_of_host_memory,
          new_heap,
          record s { allocated_count = 32; allocated = false },
        ))
    else if ltb s.allocated_count (u32 (s.count + 1))
    then (if re_ok
        then (success, re_heap, record s { allocated_count = u32 (s.allocated_count * 2) })
        else (error_out_of_host_memory, re_heap, s))
    else (success, h, s)

abbrev pub Outcome : Type 0
Outcome = Option (VkResult × Heap × StringList)

-- `string_list->list[string_list->count++] = str`
abbrev write_last : Heap → StringList → CString → Outcome
write_last h s str =
    if s.allocated
    then some (success, h, record s { entries = s.entries ++ str ∷ []; count = u32 (s.count + 1) })
    else none

abbrev write_first : Heap → StringList → CString → Outcome
write_first h s str =
    if s.allocated
    then some (success, h, record s { entries = str ∷ s.entries; count = u32 (s.count + 1) })
    else none

-- The string is owned by the list, or freed if there is no room for it.
unfoldable pub append_str_to_string_list : Heap → StringList → CString → Outcome
unfolding increase_str_capacity_by_at_least_one
append_str_to_string_list h s str =
    let (res, h', s') = increase_str_capacity_by_at_least_one h s in
    if is_out_of_host_memory res then some (res, free h', s') else write_last h' s' str

unfoldable pub append_str_to_string_list_if_unique : Heap → StringList → CString → Outcome
unfolding append_str_to_string_list is_string_in_string_list
append_str_to_string_list_if_unique h s str =
    if is_string_in_string_list s str
    then some (success, free h, s)
    else append_str_to_string_list h s str

unfoldable pub prepend_str_to_string_list : Heap → StringList → CString → Outcome
unfolding increase_str_capacity_by_at_least_one
prepend_str_to_string_list h s str =
    let (res, h', s') = increase_str_capacity_by_at_least_one h s in
    if is_out_of_host_memory res then some (res, free h', s') else write_first h' s' str

unfoldable pub copy_str_to_string_list : Heap → StringList → CString → ℕ → Outcome
unfolding append_str_to_string_list
copy_str_to_string_list h s str str_len =
    let (ok, h') = allocate h in
    if ok
    then append_str_to_string_list h' s (take str_len str)
    else some (error_out_of_host_memory, h', s)

unfoldable pub copy_str_to_string_list_if_unique : Heap → StringList → CString → ℕ → Outcome
unfolding copy_str_to_string_list is_string_in_string_list
copy_str_to_string_list_if_unique h s str str_len =
    if is_string_in_string_list s str
    then some (success, h, s)
    else copy_str_to_string_list h s str str_len

unfoldable pub copy_str_to_start_of_string_list : Heap → StringList → CString → ℕ → Outcome
unfolding prepend_str_to_string_list
copy_str_to_start_of_string_list h s str str_len =
    let (ok, h') = allocate h in
    if ok
    then prepend_str_to_string_list h' s (take str_len str)
    else some (error_out_of_host_memory, h', s)

unfoldable pub free_string_list : Heap → StringList → Heap × StringList
free_string_list h s = (if s.allocated then free_many (s.count + 1) h else h, zeroed)
