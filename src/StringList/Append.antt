-- ===== src/StringList/Append.antt =====
-- loader/loader.c: what adding to a string list does to its contents, and when it faults.
use vulkan_sc_loader.Base.{
  ◌-◌, str_eq_refl, later_answers, str_eq_iff, next_answer, str_eq, length-append, ◌^◌, ◌≤◌, ◌<◌,
  ◌≡◌, refl, ◌≢◌, true, false, none, some, List, [], ◌∷◌, ◌++◌, CString, length, arith, Heap,
  VkResult, success, error_out_of_host_memory,
}
use vulkan_sc_loader.StringList.{
  append_str_to_string_list_if_unique, contains, StringList, Outcome, zeroed,
  append_str_to_string_list, prepend_str_to_string_list,
}

-- The array is there exactly if it has a size, and holds as many strings as are counted. The last bound keeps
-- the doubling of the size, a `uint32_t`, from wrapping.
pub record IsValid (s : StringList) : Type 0 where
  pub counted : s.count ≡ length s.entries
  pub fitting : s.count ≤ s.allocated_count
  pub present : s.allocated_count ≢ 0 → s.allocated ≡ true
  pub absent : s.allocated_count ≡ 0 → s.allocated ≡ false
  pub bounded : s.allocated_count < 2 ^ 31

-- What comes of adding to `s` if its contents should become `entries`: they do, or memory ran out and
-- they are as before.
abbrev pub Added : StringList → List CString → VkResult → StringList → Type 0
Added s entries success l =
    (l.entries ≡ entries)
    × (l.count ≡ length entries)
    × (l.count ≤ l.allocated_count)
    × (l.allocated ≡ true)
Added s entries error_out_of_host_memory l = (l.entries ≡ s.entries) × (l.count ≡ s.count)
Added s entries _ l = ⊥

abbrev pub Adds : StringList → List CString → Outcome → Type 0
Adds s entries none = ⊥
Adds s entries (some (result, h, l)) = Added s entries result l

-- Appending to a valid list never writes through a null pointer. It adds the string at the end, or
-- reports that memory ran out and leaves the contents as they were.
pub append_str_to_string_list-Adds :
    (h : Heap) (s : StringList) (str : CString)
    → IsValid s
    → Adds s (s.entries ++ str ∷ []) (append_str_to_string_list h s str)
unfolding append_str_to_string_list
append_str_to_string_list-Adds h s str v = ground (arith, length-append s.entries (str ∷ []))

-- Prepending to a valid list never writes through a null pointer. It puts the string in front, or
-- reports that memory ran out and leaves the contents as they were.
prepend_str_to_string_list-Adds :
    (h : Heap) (s : StringList) (str : CString)
    → IsValid s
    → Adds s (str ∷ s.entries) (prepend_str_to_string_list h s str)
unfolding prepend_str_to_string_list
prepend_str_to_string_list-Adds h s str v = ground arith

-- No two entries are the same string.
abbrev pub Distinct : List CString → Type 0
Distinct [] = Unit
Distinct (x ∷ xs) = (contains xs x ≡ false) × Distinct xs

contains-append :
    (xs : List CString) (x y : CString)
    → contains xs x ≡ false
    → str_eq y x ≡ false
    → contains (xs ++ y ∷ []) x ≡ false
contains-append [] x y h e = rw e
contains-append (z ∷ xs) x y h e = ground (arith, contains-append xs x y)

not_str_eq_comm : (x y : CString) → str_eq x y ≡ false → str_eq y x ≡ false
not_str_eq_comm x y h = ground (arith, str_eq_iff x y, str_eq_iff y x)

Distinct-append :
    (xs : List CString) (y : CString)
    → Distinct xs
    → contains xs y ≡ false
    → Distinct (xs ++ y ∷ [])
Distinct-append [] y d h = (refl, tt)
Distinct-append (x ∷ xs) y d h =
    ground (arith, Distinct-append xs y, contains-append xs x y, not_str_eq_comm x y)

abbrev pub KeepsDistinct : CString → Outcome → Type 0
KeepsDistinct str none = ⊥
KeepsDistinct str (some (result, h, l)) =
    Distinct l.entries × (result ≡ success → contains l.entries str ≡ true)

contains-last : (xs : List CString) (y : CString) → contains (xs ++ y ∷ []) y ≡ true
contains-last [] y = rw (str_eq_refl y)
contains-last (x ∷ xs) y = rw (contains-last xs y) (ground arith)

-- On a valid list of distinct entries the unique append keeps the entries distinct on every outcome;
-- and if it succeeds the string is among them, whether it was there before or not.
append_str_to_string_list_if_unique-KeepsDistinct :
    (h : Heap) (s : StringList) (str : CString)
    → IsValid s
    → Distinct s.entries
    → KeepsDistinct str (append_str_to_string_list_if_unique h s str)
unfolding append_str_to_string_list_if_unique
append_str_to_string_list_if_unique-KeepsDistinct h s str v d =
    ground (arith, Distinct-append s.entries str, contains-last s.entries str)

-- The first allocation of a list fails: the call reports it, but the list that it leaves has a size
-- and no array, so that a second call writes through the null pointer.
pub append_after_failure :
    (h : Heap) (str second : CString) (h' : Heap)
    → next_answer h.answers ≡ false
    → (h1 : Heap) × (l : StringList) × (append_str_to_string_list h zeroed str
        ≡ some (error_out_of_host_memory, h1, l))
      × (append_str_to_string_list h' l second ≡ none)
unfolding append_str_to_string_list
append_after_failure h str second h' e = (
  record { answers = later_answers h.answers; live = h.live - 1 },
  record zeroed { allocated_count = 32 },
  rw e,
  refl,
)
