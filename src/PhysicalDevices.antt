-- ===== src/PhysicalDevices.antt =====
-- loader/loader.c, with loader/loader_common.h: the physical devices of an instance, as its terminator
-- enumerates them. A handle of a driver and the address of an object of the loader are numbers. The
-- sorting of devices, which depends on the platform, is not enabled. The stack, from which
-- temporary arrays come, is a function `stack` that says whether it has room for a number of entries.

use Prim.Native.Nat.{zero}
pub mod Freeing
pub mod Adding
pub mod Filling
pub mod Enumeration
pub mod Configurations
pub mod Configured
pub mod TwoCalls
mod Tests
use vulkan_sc_loader.Base.{
  not, suc, ◌&&◌, ℕ, ◌+◌, Bool, true, false, ◌||◌, Option, none, some, List, [], ◌∷◌, ◌++◌, map,
  length, ◌==◌, min, if◌then◌else◌, VkResult, success, error_out_of_host_memory,
  error_initialization_failed, is_success, is_out_of_host_memory, Heap, allocate,
}

-- `loader_physical_device_term`, with its address.
pub record DeviceTerm : Type 0 where
  pub address : ℕ
  pub phys_dev : ℕ
  pub icd_term : ℕ

-- The parts of the instance that are used. `is_live` says which addresses are those of objects that
-- were allocated and not freed, `next_address` is the next that the allocator gives. The array is
-- empty if it is NULL.
pub record Instance : Type 0 where
  pub heap : Heap
  pub next_address : ℕ
  pub is_live : ℕ → Bool
  pub phys_devs_term : List DeviceTerm
  pub total_gpu_count : ℕ

-- The answers of a driver to `vkEnumeratePhysicalDevices`: the result and the number of devices, and
-- for an array of the size that was allocated the result, the number and what is at each index.
pub record Driver : Type 0 where
  pub icd_term : ℕ
  pub count_answer : VkResult × ℕ
  pub fill_answer : ℕ → VkResult × ℕ × (ℕ → ℕ)

unfoldable pub find_phys_dev : ℕ → List DeviceTerm → Option DeviceTerm
find_phys_dev physical_device [] = none
find_phys_dev physical_device (t ∷ ts) =
    if physical_device == t.phys_dev then some t else find_phys_dev physical_device ts

abbrev pub has_address : ℕ → List DeviceTerm → Bool
has_address address [] = false
has_address address (t ∷ ts) = address == t.address || has_address address ts

-- The result, the devices that are in the new array so far, and the instance.
abbrev pub Added : Type 0
Added = VkResult × List DeviceTerm × Instance

-- A new object, if there is memory for it. The entry of the array that it goes to is NULL, since the
-- array is zeroed and filled in order.
unfoldable pub add_new_phys_dev : ℕ → ℕ → List DeviceTerm → Instance → Added
add_new_phys_dev physical_device icd_term new_phys_devs inst =
    let (ok, h) = allocate inst.heap in
    if ok
    then (
      success,
      new_phys_devs
          ++ record { address = inst.next_address; phys_dev = physical_device; icd_term = icd_term }
            ∷ [],
      record inst {
        heap = h;
        next_address = inst.next_address + 1;
        is_live = λ a. if a == inst.next_address then true else inst.is_live a;
      },
    )
    else (error_out_of_host_memory, new_phys_devs, record inst { heap = h })

unfoldable pub check_and_add_to_new_phys_devs : ℕ → ℕ → List DeviceTerm → Instance → Added
unfolding find_phys_dev add_new_phys_dev
check_and_add_to_new_phys_devs physical_device icd_term new_phys_devs inst =
    elim (find_phys_dev physical_device new_phys_devs) [
      | some t ↦ (success, new_phys_devs, inst)
      | none ↦ elim (find_phys_dev physical_device inst.phys_devs_term) [
        | some t ↦ (success, new_phys_devs ++ t ∷ [], inst)
        | none ↦ add_new_phys_dev physical_device icd_term new_phys_devs inst
      ]
    ]

-- The loops over the drivers and their devices: a device with its driver.
unfoldable pub add_phys_devs : List (ℕ × ℕ) → List DeviceTerm → Instance → Added
unfolding check_and_add_to_new_phys_devs
add_phys_devs [] new_phys_devs inst = (success, new_phys_devs, inst)
add_phys_devs ((physical_device, icd_term) ∷ devices) new_phys_devs inst =
    let (res, new', inst') =
      check_and_add_to_new_phys_devs physical_device icd_term new_phys_devs inst in
    if is_out_of_host_memory res then (res, new', inst') else add_phys_devs devices new' inst'

-- The entries of an array from the index `i` on.
abbrev pub entries_from : ℕ → ℕ → ℕ → (ℕ → ℕ) → List (ℕ × ℕ)
entries_from icd_term zero i array = []
entries_from icd_term (suc n) i array = (array i, icd_term) ∷ entries_from icd_term n (i + 1) array

-- Both calls of a driver; `none` is that it ran out of memory. A driver with another error has no
-- devices, and one that reports more devices than were asked for has those that were asked for.
unfoldable pub read_driver : (ℕ → Bool) → Driver → Option (List (ℕ × ℕ))
read_driver stack d =
    let (res, allocated_count) = d.count_answer in
    let (res', device_count, physical_devices) = d.fill_answer allocated_count in
    if is_out_of_host_memory res
    then none
    else if is_success res
    then (if not (stack allocated_count)
        then none
        else if is_out_of_host_memory res'
        then none
        else if is_success res'
        then some (entries_from d.icd_term (min device_count allocated_count) 0 physical_devices)
        else some [])
    else some []

unfoldable pub read_drivers : (ℕ → Bool) → List Driver → Option (List (ℕ × ℕ))
unfolding read_driver
read_drivers stack [] = some []
read_drivers stack (d ∷ ds) =
    let rest = read_drivers stack ds in
    elim (read_driver stack d) [
      | none ↦ none
      | some devices ↦ elim rest [ none ↦ none | some others ↦ some (devices ++ others) ]
    ]

-- The array of what is read of the drivers, and the loop that fills it.
unfoldable pub read_all_drivers : (ℕ → Bool) → List Driver → Option (List (ℕ × ℕ))
unfolding read_drivers
read_all_drivers stack drivers = if stack (length drivers) then read_drivers stack drivers else none

-- The loop that frees what is in one array and not in the other.
unfoldable pub free_missing : List DeviceTerm → List DeviceTerm → (ℕ → Bool) → ℕ → Bool
free_missing [] others is_live = is_live
free_missing (t ∷ ts) others is_live =
    free_missing ts others
      (λ a. if a == t.address && not (has_address t.address others) then false else is_live a)

-- What follows the label `out`, with the new array.
abbrev pub swap_phys_devs : VkResult → List DeviceTerm → Instance → VkResult × Instance
swap_phys_devs res new_phys_devs inst =
    if is_success res
    then (
      res,
      record inst {
        is_live = free_missing inst.phys_devs_term new_phys_devs inst.is_live;
        phys_devs_term = new_phys_devs;
        total_gpu_count = length new_phys_devs;
      },
    )
    else (
      res,
      record inst {
        is_live = free_missing new_phys_devs inst.phys_devs_term inst.is_live;
        total_gpu_count = 0;
      },
    )

-- What follows the reading of the drivers.
unfoldable pub enumerate_read : List (ℕ × ℕ) → Instance → VkResult × Instance
unfolding add_phys_devs free_missing
enumerate_read devices inst =
    let (ok, h) = allocate inst.heap in
    let (res, new_phys_devs, inst') = add_phys_devs devices [] (record inst { heap = h }) in
    if length devices == 0
    then (error_initialization_failed, record inst { total_gpu_count = 0 })
    else if ok
    then swap_phys_devs res new_phys_devs inst'
    else (error_out_of_host_memory, record inst { heap = h; total_gpu_count = 0 })

unfoldable pub setup_loader_term_phys_devs :
    (ℕ → Bool) → List Driver → Instance → VkResult × Instance
unfolding read_all_drivers enumerate_read
setup_loader_term_phys_devs stack drivers inst = elim (read_all_drivers stack drivers) [
  | none ↦ (error_out_of_host_memory, record inst { total_gpu_count = 0 })
  | some devices ↦ enumerate_read devices inst
]
