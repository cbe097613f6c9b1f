-- ===== src/StringList/Ownership.antt =====
-- loader/loader.c: what a string list owns, and who frees what it is given.
use vulkan_sc_loader.Base.{
  error_out_of_host_memory, success, true, ◌++◌, take, length-append, ℕ, ◌+◌, ◌≤◌, ◌≡◌, none, some,
  CString, length, arith, Heap, [], ◌∷◌, if◌then◌else◌,
}
use vulkan_sc_loader.StringList.{
  StringList, Outcome, zeroed, append_str_to_string_list, prepend_str_to_string_list,
  append_str_to_string_list_if_unique, copy_str_to_string_list, free_string_list,
}
use vulkan_sc_loader.StringList.Append.{IsValid}

-- The blocks that a list owns: its array, and a block for each string.
abbrev pub blocks : StringList → ℕ
blocks s = (if s.allocated then 1 else 0) + length s.entries

-- Of the blocks in use before, all but `given` and those of the list belong to others; they are still
-- all that is in use beside the list.
abbrev pub Accounts : Heap → StringList → ℕ → Outcome → Type 0
Accounts h s given none = ⊥
Accounts h s given (some (result, h', l)) = h'.live + blocks s + given ≡ h.live + blocks l

append_str_to_string_list-Accounts :
    (h : Heap) (s : StringList) (str : CString)
    → IsValid s
    → blocks s + 1 ≤ h.live
    → Accounts h s 1 (append_str_to_string_list h s str)
unfolding append_str_to_string_list
append_str_to_string_list-Accounts h s str v owned =
    ground (arith, length-append s.entries (str ∷ []))

-- What becomes of a string that is handed over: it is at the end of the list, which owns its block; or
-- memory ran out, the list has what it had, and one block fewer is in use.
abbrev pub TakesOver : Heap → StringList → CString → Outcome → Type 0
TakesOver h s str none = ⊥
TakesOver h s str (some (success, h', l)) =
    (l.entries ≡ s.entries ++ str ∷ [])
    × (l.allocated ≡ true)
    × (h'.live ≡ h.live + (if s.allocated then 0 else 1))
TakesOver h s str (some (error_out_of_host_memory, h', l)) =
    (l.entries ≡ s.entries) × (l.allocated ≡ s.allocated) × (h'.live + 1 ≡ h.live)
TakesOver h s str (some (_, h', l)) = ⊥

-- Appending to a valid list takes over the string, and never writes through a null pointer. Either it
-- succeeds: the string is at the end, what was there before stays, and the only block that is newly
-- in use is the array of a list that had none. Or memory ran out: the list has the strings and the
-- array that it had, and one block fewer is in use.
pub append_str_to_string_list-TakesOver :
    (h : Heap) (s : StringList) (str : CString)
    → IsValid s
    → blocks s + 1 ≤ h.live
    → TakesOver h s str (append_str_to_string_list h s str)
unfolding append_str_to_string_list
append_str_to_string_list-TakesOver h s str v owned = ground arith

-- The unique append, on a valid list, takes over the string that it is given: it ends up in the list,
-- or is freed if it is there already or memory runs out, and nothing else is freed or left behind.
pub append_str_to_string_list_if_unique-Accounts :
    (h : Heap) (s : StringList) (str : CString)
    → IsValid s
    → blocks s + 1 ≤ h.live
    → Accounts h s 1 (append_str_to_string_list_if_unique h s str)
unfolding append_str_to_string_list_if_unique
append_str_to_string_list_if_unique-Accounts h s str v owned =
    ground (arith, length-append s.entries (str ∷ []))

pub prepend_str_to_string_list-Accounts :
    (h : Heap) (s : StringList) (str : CString)
    → IsValid s
    → blocks s + 1 ≤ h.live
    → Accounts h s 1 (prepend_str_to_string_list h s str)
unfolding prepend_str_to_string_list
prepend_str_to_string_list-Accounts h s str v owned = ground arith

-- Copying a string to the end of a valid list leaves nothing behind: what is newly in use is owned by
-- the list, also if the copy or the growth of the list fails.
pub copy_str_to_string_list-Accounts :
    (h : Heap) (s : StringList) (str : CString) (n : ℕ)
    → IsValid s
    → blocks s ≤ h.live
    → Accounts h s 0 (copy_str_to_string_list h s str n)
unfolding copy_str_to_string_list
copy_str_to_string_list-Accounts h s str n v owned =
    ground (arith, length-append s.entries (take n str ∷ []))

-- Freeing a list gives back all that it owns, and leaves it zeroed.
pub free_string_list-Accounts :
    (h : Heap) (s : StringList)
    → IsValid s
    → blocks s ≤ h.live
    → ((free_string_list h s).0.live + blocks s ≡ h.live) × ((free_string_list h s).1 ≡ zeroed)
unfolding free_string_list
free_string_list-Accounts h s v owned = ground arith
