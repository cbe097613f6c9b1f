-- ===== src/Activation/ExtensionChecks/Tests.antt =====
-- loader/loader.c: the checks of extensions at concrete inputs.
use vulkan_sc_loader.Base.{
  ◌≡◌, ◌↔◌, refl, true, false, none, some, List, [], ◌∷◌, codes, success, All, if◌then◌else◌,
  error_extension_not_present,
}
use vulkan_sc_loader.Extensions.{ExtensionProperties, DevExtProps}
use vulkan_sc_loader.Activation.{LayerPointer}
use vulkan_sc_loader.Activation.Correct.{idle}
use vulkan_sc_loader.Activation.Enabling.{loader_enable_instance_layers}
use vulkan_sc_loader.Activation.TestLayers.{four, four_layers, no_settings, plenty, no_marks}
use vulkan_sc_loader.Activation.ExtensionChecks.{
  disables_filter, instance_extensions_loop, loader_validate_instance_extensions,
  loader_validate_device_extensions,
}
use vulkan_sc_loader.Activation.ExtensionChecks.Offers.{
  IsOffered, HasActivated, loader_validate_instance_extensions_iff,
}
use vulkan_sc_loader.Activation.ExtensionChecks.DeviceOffers.{
  IsDeviceOffered, loader_validate_device_extensions_iff,
}

abbrev surface : ExtensionProperties
surface = record { extension_name = codes "surface"; spec_version = 1 }

abbrev surface_of_layers : LayerPointer → List ExtensionProperties
surface_of_layers p = surface ∷ []

abbrev device_surface_of_layers : LayerPointer → List DevExtProps
device_surface_of_layers p = record { props = surface; entrypoints = none } ∷ []

-- Known, but that is asked only if the variable does not say otherwise.
unknown_run :
    instance_extensions_loop [] surface_of_layers none true [] four_layers
      (some (codes "surface") ∷ [])
    ≡ error_extension_not_present
unfolding instance_extensions_loop
unknown_run = refl

switched_off_run :
    instance_extensions_loop [] surface_of_layers
      (some (codes " +01"))
      true
      []
      four_layers
      (some (codes "surface") ∷ [])
    ≡ success
unfolding instance_extensions_loop
switched_off_run = refl

loader_validate_instance_extensions_iff_example :
    (loader_validate_instance_extensions
        (codes "surface" ∷ [])
        surface_of_layers
        four
        4
        no_settings
        none
        (codes "suite" ∷ [])
        none
        []
        1
        (some (some (codes "surface") ∷ []))
        plenty
        no_marks
      ≡ some success)
    ↔ HasActivated
        (codes "surface" ∷ [])
        surface_of_layers
        (loader_enable_instance_layers four 4 no_settings none
          (codes "suite" ∷ [])
          (idle plenty no_marks))
        (λ layers.
          All
            (IsOffered
              (codes "surface" ∷ [])
              surface_of_layers
              (if disables_filter none then false else true)
              []
              layers)
            (some (codes "surface") ∷ []))
loader_validate_instance_extensions_iff_example =
    loader_validate_instance_extensions_iff (codes "surface" ∷ []) surface_of_layers four 4
      no_settings none (codes "suite" ∷ []) none [] 1 (some (codes "surface") ∷ []) plenty no_marks

loader_validate_device_extensions_iff_example :
    (loader_validate_device_extensions device_surface_of_layers four_layers []
        (some (some (codes "surface") ∷ none ∷ []))
      ≡ success)
    ↔ All
        (IsDeviceOffered device_surface_of_layers [] four_layers)
        (some (codes "surface") ∷ none ∷ [])
loader_validate_device_extensions_iff_example =
    loader_validate_device_extensions_iff device_surface_of_layers four_layers []
      (some (codes "surface") ∷ none ∷ [])
