-- ===== src/StringList/Tests.antt =====
-- Tests and examples for the string lists of loader/loader.c.
use vulkan_sc_loader.Base.{
  ◌≡◌, refl, true, false, some, none, [], ◌∷◌, codes, arith, error_out_of_host_memory, Heap,
}
use vulkan_sc_loader.StringList.{StringList, zeroed, append_str_to_string_list}
use vulkan_sc_loader.StringList.Append.{IsValid, append_after_failure}
use vulkan_sc_loader.StringList.Ownership.{TakesOver, append_str_to_string_list-TakesOver}

abbrev two_strings : StringList
two_strings = record {
  allocated_count = 2;
  count = 2;
  allocated = true;
  entries = codes "a" ∷ codes "b" ∷ [];
}

two_strings-IsValid : IsValid two_strings
two_strings-IsValid = record {
  counted = refl;
  fitting = omega arith;
  present = λ e. refl;
  absent = λ e. absurd (omega arith);
  bounded = omega arith;
}

-- Beside the list, the string that is handed over and two other blocks are in use.
abbrev memory : Heap
memory = record { answers = false ∷ true ∷ []; live = 6 }

append_after_failure_example :
    (h1 : Heap) × (l : StringList) × (append_str_to_string_list memory zeroed (codes "a")
      ≡ some (error_out_of_host_memory, h1, l))
    × (append_str_to_string_list memory l (codes "b") ≡ none)
append_after_failure_example = append_after_failure memory (codes "a") (codes "b") memory refl

append_str_to_string_list-TakesOver_example :
    TakesOver memory two_strings
      (codes "c")
      (append_str_to_string_list memory two_strings (codes "c"))
append_str_to_string_list-TakesOver_example =
    append_str_to_string_list-TakesOver memory two_strings (codes "c") two_strings-IsValid
      (omega arith)
