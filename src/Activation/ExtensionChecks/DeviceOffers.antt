-- ===== src/Activation/ExtensionChecks/DeviceOffers.antt =====
-- loader/loader.c: the checks of device extensions against who offers them.
use vulkan_sc_loader.Base.{
  ◌≡◌, ◌↔◌, refl, sym, ap₂, ◌∙◌, true, false, false≢true, ◌||◌, Option, none, some, List, [], ◌∷◌,
  map, CString, str_eq, success, error_extension_not_present, All, Bool-cases, inl, inr, arith,
}
use vulkan_sc_loader.Extensions.{ExtensionProperties, DevExtProps}
use vulkan_sc_loader.Activation.{LayerPointer}
use vulkan_sc_loader.Activation.ExtensionChecks.{
  get_extension_property, get_dev_extension_property, is_found, in_expanded_layers,
  accepts_instance_extension, in_activated_layers, accepts_device_extension, device_extensions_loop,
  loader_validate_device_extensions,
}
use vulkan_sc_loader.Activation.ExtensionChecks.Offers.{
  IsOffered, accepts_instance_extension-IsOffered, IsOffered-accepts_instance_extension,
}

abbrev pub properties_of : List DevExtProps → List ExtensionProperties
properties_of = map (λ e. e.props)

get_dev_extension_property_lem :
    (name : CString) (es : List DevExtProps)
    → get_dev_extension_property name es ≡ get_extension_property name (properties_of es)
unfolding get_extension_property get_dev_extension_property
get_dev_extension_property_lem name [] = refl
get_dev_extension_property_lem name (e ∷ es) =
    elim (Bool-cases (str_eq name e.props.extension_name)) [
      | inl same ↦ rw same refl
      | inr other ↦ rw other (get_dev_extension_property_lem name es)
    ]

module _ (device_extension_list : LayerPointer → List DevExtProps) where
  in_activated_layers_lem :
      (name : CString) (ps : List LayerPointer)
      → in_activated_layers device_extension_list name ps
        ≡ in_expanded_layers [] (λ p. properties_of (device_extension_list p)) name ps
  unfolding in_activated_layers in_expanded_layers
  in_activated_layers_lem name [] = refl
  in_activated_layers_lem name (p ∷ ps) =
      ap₂ (λ a b. is_found a || b) (get_dev_extension_property_lem name (device_extension_list p))
        (in_activated_layers_lem name ps)

  -- A name that is given is a string without an error, and a driver or one of the layers has the
  -- extension.
  abbrev pub IsDeviceOffered :
      List ExtensionProperties → List LayerPointer → Option CString → Type 0
  IsDeviceOffered icd_exts layers none = Unit
  IsDeviceOffered icd_exts layers (some name) =
      IsOffered [] (λ p. properties_of (device_extension_list p)) false icd_exts layers (some name)

  accepts_alike :
      (icd_exts : List ExtensionProperties) (layers : List LayerPointer) (name : CString)
      → accepts_device_extension device_extension_list icd_exts layers (some name)
        ≡ accepts_instance_extension []
            (λ p. properties_of (device_extension_list p))
            false
            icd_exts
            layers
            (some name)
  accepts_alike icd_exts layers name = rw (in_activated_layers_lem name layers) (ground arith)

  accepts_device_extension_iff :
      (icd_exts : List ExtensionProperties) (layers : List LayerPointer) (name : Option CString)
      → (accepts_device_extension device_extension_list icd_exts layers name ≡ true)
        ↔ IsDeviceOffered icd_exts layers name
  accepts_device_extension_iff icd_exts layers none = (λ e. tt, λ o. refl)
  accepts_device_extension_iff icd_exts layers (some name) =
      let extensions = (λ (p : LayerPointer). properties_of (device_extension_list p)) in
      (
        λ e.
            accepts_instance_extension-IsOffered [] extensions false icd_exts layers (some name)
              (sym (accepts_alike icd_exts layers name) ∙ e),
        λ o.
            accepts_alike icd_exts layers name
            ∙ IsOffered-accepts_instance_extension [] extensions false icd_exts layers (some name)
                o,
      )

  -- The device extensions that an application asks for pass exactly if each name that is not NULL is
  -- a string without an error, and the driver has the extension or one of the activated layers.
  pub loader_validate_device_extensions_iff :
      (layers : List LayerPointer) (icd_exts : List ExtensionProperties)
      (names : List (Option CString))
      → (loader_validate_device_extensions device_extension_list layers icd_exts (some names)
          ≡ success)
        ↔ All (IsDeviceOffered icd_exts layers) names
  unfolding loader_validate_device_extensions device_extensions_loop
  loader_validate_device_extensions_iff layers icd_exts [] = (λ e. tt, λ a. refl)
  loader_validate_device_extensions_iff layers icd_exts (name ∷ names) =
      let again = loader_validate_device_extensions_iff layers icd_exts names in
      let one = accepts_device_extension_iff icd_exts layers name in
      elim (Bool-cases (accepts_device_extension device_extension_list icd_exts layers name)) [
        | inl good ↦
            rw (good, device_extensions_loop) (λ e. (one.0 good, again.0 e), λ a. again.1 a.1)
        | inr bad ↦
            rw (bad, device_extensions_loop)
              (λ e. absurd (failed e), λ a. absurd (false≢true (sym bad ∙ one.1 a.0)))
      ]
    where
      failed : error_extension_not_present ≡ success → ⊥
      failed e = cc
