-- ===== src/Extensions/Tests.antt =====
-- Tests and examples for the extension lists of loader/loader.c.
use vulkan_sc_loader.Base.{◌*◌, refl, true, some, [], ◌∷◌, codes, arith, Heap}
use vulkan_sc_loader.StringList.{StringList}
use vulkan_sc_loader.StringList.Append
use vulkan_sc_loader.Extensions.{
  ExtensionProperties, ExtensionList, DeviceExtensionList, loader_add_to_ext_list,
  add_dev_extension, extension_size, dev_ext_size,
}
use vulkan_sc_loader.Extensions.Adding.{IsReady, AddsAll, loader_add_to_ext_list-AddsAll}
use vulkan_sc_loader.Extensions.Names.{Joins, loader_add_to_ext_list-Joins}
use vulkan_sc_loader.Extensions.DeviceAdding.{IsValid, DevAdded, add_dev_extension-DevAdded}

abbrev surface : ExtensionProperties
surface = record { extension_name = codes "VK_KHR_surface"; spec_version = 25 }

abbrev display : ExtensionProperties
display = record { extension_name = codes "VK_KHR_display"; spec_version = 23 }

abbrev one_extension : ExtensionList
one_extension = record {
  capacity = 32 * extension_size;
  count = 1;
  allocated = true;
  list = surface ∷ [];
}

one_extension-IsReady : IsReady one_extension
one_extension-IsReady = record {
  in_use = λ e. record {
    counted = refl;
    whole = refl;
    fitting = omega arith;
    tight = omega arith;
    started = omega arith;
  };
  not_yet = λ e. cc;
}

abbrev memory : Heap
memory = record { answers = []; live = 4 }

loader_add_to_ext_list-AddsAll_example :
    AddsAll
      (surface ∷ [])
      (display ∷ surface ∷ [])
      (loader_add_to_ext_list memory one_extension (display ∷ surface ∷ []))
loader_add_to_ext_list-AddsAll_example =
    loader_add_to_ext_list-AddsAll memory one_extension (display ∷ surface ∷ [])
      one_extension-IsReady (omega arith)

loader_add_to_ext_list-Joins_example :
    Joins
      (surface ∷ [])
      (display ∷ surface ∷ [])
      (loader_add_to_ext_list memory one_extension (display ∷ surface ∷ []))
loader_add_to_ext_list-Joins_example =
    loader_add_to_ext_list-Joins memory one_extension (display ∷ surface ∷ []) one_extension-IsReady
      (omega arith) (refl, tt)

abbrev entry_points : StringList
entry_points = record {
  allocated_count = 1;
  count = 1;
  allocated = true;
  entries = codes "vkFoo" ∷ [];
}

entry_points-IsValid : Append.IsValid entry_points
entry_points-IsValid = record {
  counted = refl;
  fitting = omega arith;
  present = λ e. refl;
  absent = λ e. absurd (omega arith);
  bounded = omega arith;
}

abbrev one_device_extension : DeviceExtensionList
one_device_extension = record {
  capacity = 32 * dev_ext_size;
  count = 1;
  allocated = true;
  list = record { props = surface; entrypoints = some entry_points } ∷ [];
}

one_device_extension-IsValid : IsValid one_device_extension
one_device_extension-IsValid = record {
  counted = refl;
  whole = refl;
  fitting = omega arith;
  tight = omega arith;
  started = omega arith;
}

add_dev_extension-DevAdded_example :
    DevAdded memory one_device_extension display
      (some entry_points)
      (add_dev_extension memory one_device_extension display (some entry_points))
add_dev_extension-DevAdded_example =
    add_dev_extension-DevAdded memory one_device_extension display (some entry_points)
      one_device_extension-IsValid (omega arith) (entry_points-IsValid, omega arith)
