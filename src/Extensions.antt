-- ===== src/Extensions.antt =====
-- loader/loader.c: lists of extension properties, and of device extensions with their entry points.
-- The result `none` is a write beyond the end of the list's buffer.
pub mod Adding
pub mod Names
pub mod DeviceAdding
mod Tests
use vulkan_sc_loader.Base.{
  ℕ, ◌+◌, ◌*◌, ◌%◌, ◌^◌, Bool, true, false, ◌||◌, Option, none, some, List, [], ◌∷◌, ◌++◌, CString,
  str_eq, leb, ◌==◌, not, if◌then◌else◌, VkResult, success, error_out_of_host_memory, is_success,
  Heap, allocate, reallocate,
}
use vulkan_sc_loader.StringList.{StringList, free_string_list, zeroed}

pub record ExtensionProperties : Type 0 where
  pub extension_name : CString
  pub spec_version : ℕ

-- The size of `VkExtensionProperties`: a name of 256 bytes and a `uint32_t`.
abbrev pub extension_size : ℕ
extension_size = 260

-- `capacity` is in bytes; `list` holds the entries in use; `allocated` tells that its pointer is set.
pub record ExtensionList : Type 0 where
  pub capacity : ℕ
  pub count : ℕ
  pub allocated : Bool
  pub list : List ExtensionProperties

unfoldable pub compare_vk_extension_properties : ExtensionProperties → ExtensionProperties → Bool
compare_vk_extension_properties op1 op2 = str_eq op1.extension_name op2.extension_name

abbrev pub has_extension : ExtensionProperties → List ExtensionProperties → Bool
has_extension ext [] = false
has_extension ext (x ∷ xs) = compare_vk_extension_properties x ext || has_extension ext xs

unfoldable pub has_vk_extension_property : ExtensionProperties → ExtensionList → Bool
unfolding compare_vk_extension_properties
has_vk_extension_property vk_ext_prop ext_list = has_extension vk_ext_prop ext_list.list

abbrev pub Outcome : Type 0
Outcome = Option (VkResult × Heap × ExtensionList)

-- `loader_init_generic_list` at this element type.
unfoldable pub init_extension_list : Heap → ExtensionList → VkResult × Heap × ExtensionList
init_extension_list h l =
    let (ok, h') = allocate h in
    if ok
    then (
      success,
      h',
      record { capacity = 32 * extension_size; count = 0; allocated = true; list = [] },
    )
    else (
      error_out_of_host_memory,
      h',
      record { capacity = 0; count = 0; allocated = false; list = [] },
    )

-- `memcpy(&ext_list->list[ext_list->count], cur_ext, …); ext_list->count++`
abbrev pub write_extension : Heap → ExtensionList → ExtensionProperties → Outcome
write_extension h l ext =
    if leb ((l.count + 1) * extension_size) l.capacity
    then some (success, h, record l { list = l.list ++ ext ∷ []; count = (l.count + 1) % 2 ^ 32 })
    else none

-- The body of the loop for an extension that is not yet in the list.
unfoldable pub append_extension : Heap → ExtensionList → ExtensionProperties → Outcome
append_extension h l ext =
    let (ok, h') = reallocate h in
    if leb l.capacity (l.count * extension_size)
    then (if ok
        then write_extension h' (record l { capacity = l.capacity * 2 % 2 ^ 64 }) ext
        else some (error_out_of_host_memory, h', l))
    else write_extension h l ext

-- What follows a round: the next one if it succeeded, and the function's return otherwise.
abbrev pub and_then : Outcome → (Heap → ExtensionList → Outcome) → Outcome
and_then none next = none
and_then (some (success, h, l)) next = next h l
and_then (some (res, h, l)) next = some (res, h, l)

-- The loop over the properties.
unfoldable pub add_extensions : List ExtensionProperties → Heap → ExtensionList → Outcome
unfolding append_extension has_vk_extension_property
add_extensions [] h l = some (success, h, l)
add_extensions (ext ∷ props) h l =
    let skipped = add_extensions props h l in
    let added = and_then (append_extension h l ext) (add_extensions props) in
    if has_vk_extension_property ext l then skipped else added

-- `missing` is the test of the list's pointer and capacity: without an array, one is made first.
abbrev pub ensure_list_and_add : Bool → Heap → ExtensionList → List ExtensionProperties → Outcome
ensure_list_and_add true h l props =
    let (res, h', l') = init_extension_list h l in
    if is_success res then add_extensions props h' l' else some (res, h', l')
ensure_list_and_add false h l props = add_extensions props h l

unfoldable pub loader_add_to_ext_list : Heap → ExtensionList → List ExtensionProperties → Outcome
unfolding init_extension_list add_extensions
loader_add_to_ext_list h ext_list props =
    ensure_list_and_add (not ext_list.allocated || ext_list.capacity == 0) h ext_list props

-- The entry points are `none` if they were not written: then the field has what the memory held.
pub record DevExtProps : Type 0 where
  pub props : ExtensionProperties
  pub entrypoints : Option StringList

-- The size of `struct loader_dev_ext_props` on a 64-bit platform: the properties, padding to eight
-- bytes, and a string list.
abbrev pub dev_ext_size : ℕ
dev_ext_size = 280

pub record DeviceExtensionList : Type 0 where
  pub capacity : ℕ
  pub count : ℕ
  pub allocated : Bool
  pub list : List DevExtProps

abbrev pub has_dev_extension : ExtensionProperties → List DevExtProps → Bool
has_dev_extension ext [] = false
has_dev_extension ext (x ∷ xs) =
    compare_vk_extension_properties x.props ext || has_dev_extension ext xs

unfoldable pub has_vk_dev_ext_property : ExtensionProperties → DeviceExtensionList → Bool
unfolding compare_vk_extension_properties
has_vk_dev_ext_property ext_prop ext_list = has_dev_extension ext_prop ext_list.list

unfoldable pub init_device_extension_list :
    Heap → DeviceExtensionList → VkResult × Heap × DeviceExtensionList
init_device_extension_list h l =
    let (ok, h') = allocate h in
    if ok
    then (
      success,
      h',
      record { capacity = 32 * dev_ext_size; count = 0; allocated = true; list = [] },
    )
    else (
      error_out_of_host_memory,
      h',
      record { capacity = 0; count = 0; allocated = false; list = [] },
    )

-- The entries come with the result: NULL, or what is left of the caller's list.
abbrev pub DevOutcome : Type 0
DevOutcome = Option (VkResult × Heap × DeviceExtensionList × Option StringList)

-- `out:` with `should_free_entrys` still set.
abbrev pub free_entrys : VkResult → Heap → DeviceExtensionList → Option StringList → DevOutcome
free_entrys res h l none = some (res, h, l, none)
free_entrys res h l (some entrys) =
    some (res, (free_string_list h entrys).0, l, some (free_string_list h entrys).1)

abbrev pub write_dev_ext :
    Heap → DeviceExtensionList → ExtensionProperties → Option StringList → DevOutcome
write_dev_ext h l props entrys =
    if leb ((l.count + 1) * dev_ext_size) l.capacity
    then some (
      success,
      h,
      record l {
        list = l.list ++ record { props = props; entrypoints = entrys } ∷ [];
        count = (l.count + 1) % 2 ^ 32;
      },
      entrys,
    )
    else none

-- From the search for duplicates on.
unfoldable pub add_dev_extension :
    Heap → DeviceExtensionList → ExtensionProperties → Option StringList → DevOutcome
unfolding has_vk_dev_ext_property
add_dev_extension h l props entrys =
    let (ok, h') = reallocate h in
    if has_vk_dev_ext_property props l
    then free_entrys success h l entrys
    else if leb l.capacity (l.count * dev_ext_size)
    then (if ok
        then write_dev_ext h' (record l { capacity = l.capacity * 2 % 2 ^ 64 }) props entrys
        else free_entrys error_out_of_host_memory h' l entrys)
    else write_dev_ext h l props entrys

abbrev pub ensure_dev_list_and_add :
    Bool → Heap → DeviceExtensionList → ExtensionProperties → Option StringList → DevOutcome
ensure_dev_list_and_add true h l props entrys =
    let (res, h', l') = init_device_extension_list h l in
    if is_success res then add_dev_extension h' l' props entrys else free_entrys res h' l' entrys
ensure_dev_list_and_add false h l props entrys = add_dev_extension h l props entrys

unfoldable pub loader_add_to_dev_ext_list :
    Heap → DeviceExtensionList → ExtensionProperties → Option StringList → DevOutcome
unfolding init_device_extension_list add_dev_extension
loader_add_to_dev_ext_list h ext_list props entrys =
    ensure_dev_list_and_add (not ext_list.allocated || ext_list.capacity == 0) h ext_list props
      entrys
