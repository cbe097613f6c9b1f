-- ===== src/PhysicalDevices/Configured.antt =====
-- loader/loader.c: which devices the device configurations of the settings file select, and that the
-- two calls of vkEnumeratePhysicalDevices fit each other.
use vulkan_sc_loader.Base.{
  ap, ◌||◌, suc, ◌&&◌, ◌≤◌, ◌≡◌, refl, Bool, true, false, not, Option, none, some, List, [], ◌∷◌,
  length, ◌==◌, str_eq, str_eq_iff, Bool-cases, Option-cases, inl, inr, arith,
}
use vulkan_sc_loader.PhysicalDevices.{DeviceTerm}
use vulkan_sc_loader.Settings.Equality.{DeviceConfiguration}
use vulkan_sc_loader.PhysicalDevices.Configurations.{Details, is_configured_by, find_configured}

abbrev pub with_found : Option DeviceTerm → List DeviceTerm → List DeviceTerm
with_found none ts = ts
with_found (some t) ts = t ∷ ts

-- The device of each configuration that has one, in the order of the configurations.
abbrev pub configured : List DeviceConfiguration → List Details → List DeviceTerm
configured [] ds = []
configured (c ∷ cs) ds = with_found (find_configured c ds) (configured cs ds)

abbrev pub is_same : DeviceConfiguration → DeviceConfiguration → Bool
is_same c c' =
    str_eq c.device_uuid c'.device_uuid
    && (str_eq c.driver_uuid c'.driver_uuid && c.driver_version == c'.driver_version)

abbrev pub has_same : DeviceConfiguration → List DeviceConfiguration → Bool
has_same c [] = false
has_same c (c' ∷ cs) = is_same c c' || has_same c cs

-- No two configurations have the same ids and version.
abbrev pub differ : List DeviceConfiguration → Bool
differ [] = true
differ (c ∷ cs) = not (has_same c cs) && differ cs

is_configured_by-is_same :
    (c c' : DeviceConfiguration) (d : Details)
    → is_configured_by c d ≡ true
    → is_configured_by c' d ≡ true
    → is_same c c' ≡ true
unfolding is_configured_by
is_configured_by-is_same c c' d e e' = ground (
  arith,
  e,
  e',
  str_eq_iff c.device_uuid d.device_uuid,
  str_eq_iff c'.device_uuid d.device_uuid,
  str_eq_iff c.driver_uuid d.driver_uuid,
  str_eq_iff c'.driver_uuid d.driver_uuid,
  str_eq_iff c.device_uuid c'.device_uuid,
  str_eq_iff c.driver_uuid c'.driver_uuid,
)

-- A device that a configuration selects is no use to others that differ from it.
configured-others :
    (c : DeviceConfiguration) (cs : List DeviceConfiguration) (d : Details) (ds : List Details)
    → is_configured_by c d ≡ true
    → has_same c cs ≡ false
    → configured cs (d ∷ ds) ≡ configured cs ds
unfolding find_configured
configured-others c [] d ds e other = refl
configured-others c (c' ∷ cs) d ds e other =
    let not_this : is_configured_by c' d ≡ false =
      ground (arith, is_configured_by-is_same c c' d e, other) in
    let rest = configured-others c cs d ds e (ground (arith, other)) in
    rw (not_this, configured) (ap (with_found (find_configured c' ds)) rest)

configured-fewer :
    (c : DeviceConfiguration) (cs : List DeviceConfiguration) (ds : List Details)
    → length (configured cs ds) ≤ length (configured (c ∷ cs) ds)
configured-fewer c cs ds = elim (Option-cases (find_configured c ds)) [
  | inl missing ↦ rw (missing, configured) (omega arith)
  | inr (t, found) ↦ rw (found, configured) (omega arith)
]

length-configured-cons :
    (cs : List DeviceConfiguration) (d : Details) (ds : List Details)
    → differ cs ≡ true
    → length (configured cs (d ∷ ds)) ≤ suc (length (configured cs ds))
unfolding find_configured
length-configured-cons [] d ds apart = omega arith
length-configured-cons (c ∷ cs) d ds apart =
    let rest = length-configured-cons cs d ds (ground (arith, apart)) in
    elim (Bool-cases (is_configured_by c d)) [
      | inl here ↦
          rw (here, configured, configured-others c cs d ds here (ground (arith, apart)))
            (omega (arith, configured-fewer c cs ds))
      | inr other ↦
          rw (other, configured)
            (elim (Option-cases (find_configured c ds)) [
              | inl missing ↦ rw (missing, configured) rest
              | inr (t, found) ↦ rw (found, configured) (omega (arith, rest))
            ])
    ]

configured-nil : (cs : List DeviceConfiguration) → configured cs [] ≡ []
unfolding find_configured
configured-nil [] = refl
configured-nil (c ∷ cs) = configured-nil cs

-- If the configurations differ, no more devices are selected than there are.
pub length-configured :
    (cs : List DeviceConfiguration) (ds : List Details)
    → differ cs ≡ true
    → length (configured cs ds) ≤ length ds
length-configured cs [] apart = rw (configured-nil cs) (omega arith)
length-configured cs (d ∷ ds) apart =
    omega (arith, length-configured-cons cs d ds apart, length-configured cs ds apart)

pub length-configured-configurations :
    (cs : List DeviceConfiguration) (ds : List Details) → length (configured cs ds) ≤ length cs
length-configured-configurations [] ds = omega arith
length-configured-configurations (c ∷ cs) ds =
    let rest = length-configured-configurations cs ds in
    elim (Option-cases (find_configured c ds)) [
      | inl missing ↦ rw (missing, configured) (omega (arith, rest))
      | inr (t, found) ↦ rw (found, configured) (omega (arith, rest))
    ]
