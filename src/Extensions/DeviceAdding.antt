-- ===== src/Extensions/DeviceAdding.antt =====
-- loader/loader.c: adding a device extension, and who owns its entry points afterwards.
use vulkan_sc_loader.Base.{
  reallocate, ◌⊎◌, ℕ, ◌+◌, ◌*◌, ◌%◌, ◌^◌, ◌≤◌, ◌<◌, ◌≡◌, true, false, Option, none, some, [], ◌∷◌,
  ◌++◌, length, arith, length-append, success, error_out_of_host_memory, Heap,
}
use vulkan_sc_loader.StringList.{StringList, zeroed}
use vulkan_sc_loader.StringList.Append
use vulkan_sc_loader.StringList.Ownership.{blocks, free_string_list-Accounts}
use vulkan_sc_loader.Extensions.{
  ExtensionProperties, DeviceExtensionList, DevOutcome, dev_ext_size, has_dev_extension,
  add_dev_extension,
}

pub record IsValid (l : DeviceExtensionList) : Type 0 where
  pub counted : l.count ≡ length l.list
  pub whole : l.capacity % dev_ext_size ≡ 0
  pub fitting : l.count * dev_ext_size ≤ l.capacity
  pub tight : l.capacity ≤ (32 + 2 * l.count) * dev_ext_size
  pub started : dev_ext_size ≤ l.capacity

-- The caller's list of entry points, if there is one, is valid and its blocks are in use.
abbrev pub IsOwned : Heap → Option StringList → Type 0
IsOwned h none = Unit
IsOwned h (some entrys) = Append.IsValid entrys × (blocks entrys ≤ h.live)

abbrev pub owned_blocks : Option StringList → ℕ
owned_blocks none = 0
owned_blocks (some entrys) = blocks entrys

-- The entry points were freed, and the caller's list zeroed.
abbrev pub Freed : Heap → Heap → Option StringList → Option StringList → Type 0
Freed h h' none left = (left ≡ none) × (h'.live ≡ h.live)
Freed h h' (some entrys) left = (left ≡ some zeroed) × (h'.live + blocks entrys ≡ h.live)

abbrev pub DevAdded :
    Heap → DeviceExtensionList → ExtensionProperties → Option StringList → DevOutcome → Type 0
DevAdded h l props entrys none = ⊥
DevAdded h l props entrys (some (success, h', l', left)) =
    (has_dev_extension props l.list ≡ true) × (l' ≡ l) × Freed h h' entrys left
    ⊎ (has_dev_extension props l.list ≡ false)
      × IsValid l'
      × (l'.list ≡ l.list ++ record { props = props; entrypoints = entrys } ∷ [])
      × (h'.live ≡ h.live)
DevAdded h l props entrys (some (error_out_of_host_memory, h', l', left)) =
    (l' ≡ l) × Freed h h' entrys left
DevAdded h l props entrys (some (_, h', l', left)) = ⊥

-- On a valid list: a duplicate changes nothing and its entry points are freed; a new extension is
-- added at the end with the entry points that it was given, which nobody frees, or with that field not
-- written if it was given none; and if memory runs out nothing changes and the entry points are freed.
-- No write goes beyond the buffer.
pub add_dev_extension-DevAdded :
    (h : Heap) (l : DeviceExtensionList) (props : ExtensionProperties) (entrys : Option StringList)
    → IsValid l
    → l.count < 2 ^ 31
    → IsOwned h entrys
    → DevAdded h l props entrys (add_dev_extension h l props entrys)
unfolding add_dev_extension
add_dev_extension-DevAdded h l props none v small o =
    ground (arith, length-append l.list (record { props = props; entrypoints = none } ∷ []))
add_dev_extension-DevAdded h l props (some entrys) v small o = ground (
  arith,
  length-append l.list (record { props = props; entrypoints = some entrys } ∷ []),
  free_string_list-Accounts h entrys o.0 o.1,
  free_string_list-Accounts (reallocate h).1 entrys o.0 o.1,
)
