-- ===== src/Settings/EqualityLaws.antt =====
-- loader/settings.c: when two settings files count as equal.
use vulkan_sc_loader.Base.{
  ap, ◌≡◌, ◌↔◌, refl, Bool, true, false, not, ◌&&◌, Option, none, some, List, [], ◌∷◌, CString,
  str_eq_iff, ==_iff, if◌then◌else◌, arith, All,
}
use vulkan_sc_loader.Layers.{LayerControl}
use vulkan_sc_loader.Settings.Equality.{
  LayerConfiguration, DeviceConfiguration, LoaderSettings, same_bool, same_control, same_string,
  all_pairs, same_count, check_if_layer_configurations_are_equal,
  check_if_driver_configurations_are_equal, check_if_device_configurations_are_equal,
  check_if_settings_are_equal,
}

abbrev pub is_set : Option CString → Bool
is_set none = false
is_set (some s) = true

-- No pointer in a configuration of a layer or driver is null.
abbrev pub HasStrings : LayerConfiguration → Type 0
HasStrings l = (is_set l.name ≡ true) × (is_set l.path ≡ true)

pub record IsComplete (s : LoaderSettings) : Type 0 where
  pub layers : All HasStrings s.layer_configurations
  pub drivers : All (λ path. is_set path ≡ true) s.additional_drivers

same_string_iff : (a b : Option CString) → (same_string a b ≡ true) ↔ ((a ≡ b) × (is_set a ≡ true))
same_string_iff none b = (λ h. cc, λ (e, h). cc)
same_string_iff (some a) none = (λ h. cc, λ (e, h). cc)
same_string_iff (some a) (some b) = ground (arith, str_eq_iff a b)

same_bool_iff : (a b : Bool) → (same_bool a b ≡ true) ↔ (a ≡ b)
same_bool_iff a b = ground arith

same_control_iff : (a b : LayerControl) → (same_control a b ≡ true) ↔ (a ≡ b)
same_control_iff a b = ground arith

layers_iff :
    (a b : LayerConfiguration)
    → (check_if_layer_configurations_are_equal a b ≡ true) ↔ ((a ≡ b) × HasStrings a)
unfolding check_if_layer_configurations_are_equal
layers_iff a b = ground (
  arith,
  same_string_iff a.name b.name,
  same_string_iff a.path b.path,
  same_control_iff a.control b.control,
  same_bool_iff a.treat_as_implicit_manifest b.treat_as_implicit_manifest,
)

devices_iff :
    (a b : DeviceConfiguration) → (check_if_device_configurations_are_equal a b ≡ true) ↔ (a ≡ b)
unfolding check_if_device_configurations_are_equal
devices_iff a b = ground (
  arith,
  str_eq_iff a.device_uuid b.device_uuid,
  str_eq_iff a.driver_uuid b.driver_uuid,
  ==_iff a.driver_version b.driver_version,
  str_eq_iff a.device_name b.device_name,
  str_eq_iff a.driver_name b.driver_name,
)

-- The tests of two lists succeed exactly if the lists are equal and their entries have a property.
abbrev Agree : {A : Type 0} → (A → A → Bool) → (A → Type 0) → List A → List A → Type 0
Agree eq P xs ys =
    ((same_count xs ys ≡ true) × (all_pairs eq xs ys ≡ true)) ↔ ((xs ≡ ys) × All P xs)

-- Two lists of the same length whose pairs are all equal are equal.
all_pairs_iff :
    {A : Type 0} (eq : A → A → Bool) (P : A → Type 0)
    → ((x y : A) → (eq x y ≡ true) ↔ ((x ≡ y) × P x))
    → (xs ys : List A) → Agree eq P xs ys
all_pairs_iff eq P h [] [] = (λ e. (refl, tt), λ e. (refl, refl))
all_pairs_iff eq P h [] (y ∷ ys) = (λ e. absurd (ground (arith, e.0)), λ e. cc)
all_pairs_iff eq P h (x ∷ xs) [] = (λ e. absurd (ground (arith, e.0)), λ e. cc)
all_pairs_iff eq P h (x ∷ xs) (y ∷ ys) = ground (arith, h x y, all_pairs_iff eq P h xs ys)

drivers_iff :
    (a b : Option CString)
    → (check_if_driver_configurations_are_equal a b ≡ true) ↔ ((a ≡ b) × (is_set a ≡ true))
unfolding check_if_driver_configurations_are_equal
drivers_iff a b = same_string_iff a b

abbrev IsAny : DeviceConfiguration → Type 0
IsAny d = Unit

device_pairs_iff :
    (a b : DeviceConfiguration)
    → (check_if_device_configurations_are_equal a b ≡ true) ↔ ((a ≡ b) × IsAny a)
device_pairs_iff a b = ground (arith, devices_iff a b)

IsAny-devices : (ds : List DeviceConfiguration) → All IsAny ds
IsAny-devices [] = tt
IsAny-devices (d ∷ ds) = (tt, IsAny-devices ds)

-- The tests of the code, one by one.
splits :
    (b1 b2 b3 b4 b5 b6 b7 b8 b9 p q r : Bool)
    → ((if not (b1 && b2 && b3 && b4 && b5 && b6 && b7 && b8 && b9) then false else p && q && r)
        ≡ true)
      ↔ ((b1 ≡ true)
          × (b2 ≡ true)
          × (b3 ≡ true)
          × (b4 ≡ true)
          × ((b5 ≡ true) × (p ≡ true))
          × (b6 ≡ true)
          × ((b7 ≡ true) × (q ≡ true))
          × (b8 ≡ true)
          × ((b9 ≡ true) × (r ≡ true)))
splits b1 b2 b3 b4 b5 b6 b7 b8 b9 p q r = ground arith

-- Two settings count as equal exactly if they have the same contents, the path of their file aside,
-- and no configuration of a layer or driver has a null pointer: one with a null name or path is not even equal to itself.
pub check_if_settings_are_equal_iff :
    (a b : LoaderSettings) → (check_if_settings_are_equal a b ≡ true) ↔ ((a ≡ b) × IsComplete a)
unfolding check_if_settings_are_equal
check_if_settings_are_equal_iff a b = (
  λ h.
      let (t1, t2, t3, t4, t5, t6, t7, t8, t9) = (splits _ _ _ _ _ _ _ _ _ _ _ _).0 h in
      let (layers_same, layers_set) = layers.0 t5 in
      let (drivers_same, drivers_set) = drivers.0 t7 in
      let (devices_same, any) = devices.0 t9 in
      let e1 = (same_bool_iff a.settings_active b.settings_active).0 t1 in
      let e2 = (same_bool_iff a.has_unordered_layer_location b.has_unordered_layer_location).0 t2 in
      let e3 = (==_iff a.debug_level b.debug_level).0 t3 in
      let e4 = (same_bool_iff a.layer_configurations_active b.layer_configurations_active).0 t4 in
      let e6 =
        (same_bool_iff a.additional_drivers_use_exclusively b.additional_drivers_use_exclusively).0
          t6 in
      let e8 = (same_bool_iff a.device_configurations_active b.device_configurations_active).0 t8 in
      (ground arith, record { layers = layers_set; drivers = drivers_set }),
  λ (e, c). (splits _ _ _ _ _ _ _ _ _ _ _ _).1 (
    (same_bool_iff _ _).1 (ap (λ (s : LoaderSettings). s.settings_active) e),
    (same_bool_iff _ _).1 (ap (λ (s : LoaderSettings). s.has_unordered_layer_location) e),
    (==_iff _ _).1 (ap (λ (s : LoaderSettings). s.debug_level) e),
    (same_bool_iff _ _).1 (ap (λ (s : LoaderSettings). s.layer_configurations_active) e),
    layers.1 (ap (λ (s : LoaderSettings). s.layer_configurations) e, c.layers),
    (same_bool_iff _ _).1 (ap (λ (s : LoaderSettings). s.additional_drivers_use_exclusively) e),
    drivers.1 (ap (λ (s : LoaderSettings). s.additional_drivers) e, c.drivers),
    (same_bool_iff _ _).1 (ap (λ (s : LoaderSettings). s.device_configurations_active) e),
    devices.1 (
      ap (λ (s : LoaderSettings). s.device_configurations) e,
      IsAny-devices a.device_configurations,
    ),
  ),
)
  where
    layers :
        Agree check_if_layer_configurations_are_equal HasStrings a.layer_configurations
          b.layer_configurations
    layers = all_pairs_iff check_if_layer_configurations_are_equal HasStrings layers_iff _ _

    drivers :
        Agree check_if_driver_configurations_are_equal
          (λ path. is_set path ≡ true)
          a.additional_drivers
          b.additional_drivers
    drivers =
        all_pairs_iff check_if_driver_configurations_are_equal (λ path. is_set path ≡ true)
          drivers_iff _ _

    devices :
        Agree check_if_device_configurations_are_equal IsAny a.device_configurations
          b.device_configurations
    devices = all_pairs_iff check_if_device_configurations_are_equal IsAny device_pairs_iff _ _
