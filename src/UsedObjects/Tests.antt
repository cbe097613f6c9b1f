-- ===== src/UsedObjects/Tests.antt =====
-- Tests and examples for the lists of used objects of loader/loader.c.
use vulkan_sc_loader.Base.{◌*◌, ℕ, refl, true, some, none, [], ◌∷◌, arith, Heap}
use vulkan_sc_loader.UsedObjects.{
  UsedObjectList, taken, status_size, loader_get_next_available_entry,
}
use vulkan_sc_loader.UsedObjects.Entries.{IsValid}
use vulkan_sc_loader.UsedObjects.Requests.{Gives, loader_get_next_available_entry-Gives}
use vulkan_sc_loader.UsedObjects.Validity.{Restores, release-get}

-- A full list of two entries.
abbrev full : UsedObjectList ℕ
full = record {
  capacity = 2 * status_size;
  allocated = true;
  list = taken (some 7) ∷ taken none ∷ [];
}

full-IsValid : IsValid full
full-IsValid = record {
  sized = refl;
  absent = λ e. cc;
  present = λ e. omega arith;
  bounded = omega arith;
}

abbrev memory : Heap
memory = record { answers = []; live = 1 }

loader_get_next_available_entry-Gives_example :
    Gives full.list (some 9) (loader_get_next_available_entry memory full (some 9))
loader_get_next_available_entry-Gives_example =
    loader_get_next_available_entry-Gives memory full (some 9) full-IsValid

release-get_example : Restores full (loader_get_next_available_entry memory full (some 9))
release-get_example = release-get memory full (some 9) full-IsValid (omega arith)
