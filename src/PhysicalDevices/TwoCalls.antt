-- ===== src/PhysicalDevices/TwoCalls.antt =====
-- loader/loader.c: what the loop over the device configurations gives, and that the two calls of
-- vkEnumeratePhysicalDevices fit each other.
use vulkan_sc_loader.Base.{
  suc, ◌&&◌, ℕ, ◌≤◌, min, ◌≡◌, refl, sym, ap, ◌∙◌, subst, Bool, true, false, none, some, List, [],
  ◌∷◌, ◌++◌, length, ◌==◌, leb, ltb, take, if◌then◌else◌, VkResult, success, incomplete,
  append_assoc, append-nil, error_initialization_failed, is_success, Bool-cases, Option-cases, inl,
  inr, arith, take-append, length-append, length-map, false≢true, suc-eq-zero,
}
use vulkan_sc_loader.PhysicalDevices.{
  DeviceTerm, Instance, Driver, setup_loader_term_phys_devs, read_all_drivers,
}
use vulkan_sc_loader.PhysicalDevices.Adding.{first_occurrences}
use vulkan_sc_loader.PhysicalDevices.Enumeration.{
  IsConsistent, setup_loader_term_phys_devs-IsEnumerated,
}
use vulkan_sc_loader.Settings.Equality.{DeviceConfiguration, LoaderSettings}
use vulkan_sc_loader.PhysicalDevices.Configurations.{
  DeviceAnswers, Details, find_configured, Given, configurations_loop,
  loader_apply_settings_device_configurations, give_physical_devices,
  terminator_EnumeratePhysicalDevices, read_all_details, read_details,
}
use vulkan_sc_loader.PhysicalDevices.Configured.{
  configured, differ, length-configured, length-configured-configurations,
}

-- What a caller with room for `count` devices gets of those that are selected.
abbrev pub given_from : ℕ → List DeviceTerm → Given
given_from count ts =
    if ltb count (length ts)
    then (incomplete, count, take count ts)
    else if length ts == 0
    then (error_initialization_failed, count, [])
    else (success, length ts, ts)

given_from-full :
    (written rest : List DeviceTerm) (t : DeviceTerm) (count : ℕ)
    → length written ≡ count
    → given_from count (written ++ t ∷ rest) ≡ (incomplete, length written, written)
given_from-full written rest t count full =
    let over : ltb count (length (written ++ t ∷ rest)) ≡ true =
      ground (arith, length-append written (t ∷ rest), full) in
    rw (over, given_from)
      (subst
        (λ n.
          ◌≡◌ {A = Given} (incomplete, n, take n (written ++ t ∷ rest))
            (incomplete, length written, written))
        full (ap (λ ts. (incomplete, length written, ts)) (take-append written (t ∷ rest))))

given_from-room :
    (written : List DeviceTerm) (count : ℕ)
    → length written ≤ count
    → (if length written == 0
        then (error_initialization_failed, count, written)
        else (success, length written, written))
      ≡ given_from count written
given_from-room [] count room =
    let fits : ltb count 0 ≡ false = ground arith in rw (fits, given_from) refl
given_from-room (t ∷ ts) count room =
    let fits : ltb count (length (t ∷ ts)) ≡ false = ground (arith, room) in
    rw (fits, suc-eq-zero (length ts), given_from) refl

configurations_loop_lem :
    (cs : List DeviceConfiguration) (ds : List Details) (count : ℕ) (written : List DeviceTerm)
    → length written ≤ count
    → configurations_loop cs ds count written ≡ given_from count (written ++ configured cs ds)
unfolding configurations_loop
configurations_loop_lem [] ds count written room =
    rw (append-nil written) (given_from-room written count room)
configurations_loop_lem (c ∷ cs) ds count written room =
    elim (Option-cases (find_configured c ds)) [
      | inl missing ↦
          rw (missing, configurations_loop, configured)
            (configurations_loop_lem cs ds count written room)
      | inr (t, found) ↦
          let all : configured (c ∷ cs) ds ≡ t ∷ configured cs ds = rw (found, configured) refl in
          rw all (elim (Bool-cases (leb count (length written))) [
            | inl full ↦
                rw (found, full, configurations_loop)
                  (sym (
                    given_from-full written (configured cs ds) t count
                      (ground (arith, full, room))))
            | inr more ↦
                rw (found, more, configurations_loop)
                  (configurations_loop_lem cs ds count (written ++ t ∷ [])
                      (ground (arith, more, length-append written (t ∷ [])))
                    ∙ ap (given_from count) (append_assoc written (t ∷ []) (configured cs ds)))
          ])
    ]

read_all_details_lem :
    (stack : ℕ → Bool) (answers : DeviceTerm → DeviceAnswers) (ts : List DeviceTerm)
    (ds : List Details)
    → read_all_details stack answers ts ≡ some ds
    → length ds ≡ length ts
unfolding read_all_details
read_all_details_lem stack answers [] ds e = let same : [] ≡ ds = cc in ap length (sym same)
read_all_details_lem stack answers (t ∷ ts) ds e =
    elim (Option-cases (read_details stack t (answers t))) [
      | inl out ↦ absurd (nothing (sym (rw (out, read_all_details) refl) ∙ e))
      | inr (d, one) ↦ elim (Option-cases (read_all_details stack answers ts)) [
        | inl out ↦ absurd (nothing (sym (rw (one, out, read_all_details) refl) ∙ e))
        | inr (ds', rest) ↦
            let whole : read_all_details stack answers (t ∷ ts) ≡ some (d ∷ ds') =
              rw (one, rest, read_all_details) refl in
            let same : d ∷ ds' ≡ ds = cc in
            sym (ap length same) ∙ ap suc (read_all_details_lem stack answers ts ds' rest)
      ]
    ]
  where
    nothing : none ≡ some ds → ⊥
    nothing e' = cc

-- With room for `count` devices, the details of all devices and memory on the stack: the caller's array
-- gets the first devices that configurations select, in the order of the configurations; the result
-- says that the room was too small if there are more, and that the initialization failed if there are
-- none.
pub loader_apply_settings_device_configurations-given_from :
    (stack : ℕ → Bool) (answers : DeviceTerm → DeviceAnswers) (cs : List DeviceConfiguration)
    (devices : List DeviceTerm) (count : ℕ) (ds : List Details)
    → stack (length devices) ≡ true
    → read_all_details stack answers devices ≡ some ds
    → loader_apply_settings_device_configurations stack answers cs devices count
      ≡ given_from count (configured cs ds)
unfolding loader_apply_settings_device_configurations
loader_apply_settings_device_configurations-given_from stack answers cs devices count ds room read =
    rw (room, read) (configurations_loop_lem cs ds count [] (omega arith))

abbrev pub is_incomplete : VkResult → Bool
is_incomplete incomplete = true
is_incomplete _ = false

given_from-fits :
    (count : ℕ) (ts : List DeviceTerm)
    → length ts ≤ count
    → is_incomplete (given_from count ts).0 ≡ false
given_from-fits count [] fits =
    let roomy : ltb count 0 ≡ false = ground arith in rw (roomy, given_from) refl
given_from-fits count (t ∷ ts) fits =
    let roomy : ltb count (length (t ∷ ts)) ≡ false = ground (arith, fits) in
    rw (roomy, suc-eq-zero (length ts), given_from) refl

apply_fits :
    (stack : ℕ → Bool) (answers : DeviceTerm → DeviceAnswers) (cs : List DeviceConfiguration)
    (devices : List DeviceTerm) (count : ℕ)
    → differ cs ≡ true
    → min (length cs) (length devices) ≤ count
    → is_incomplete (loader_apply_settings_device_configurations stack answers cs devices count).0
      ≡ false
unfolding loader_apply_settings_device_configurations
apply_fits stack answers cs devices count apart roomy = elim (Bool-cases (stack (length devices))) [
  | inr full ↦ rw full refl
  | inl room ↦ elim (Option-cases (read_all_details stack answers devices)) [
    | inl out ↦ rw (room, out) refl
    | inr (ds, read) ↦
        subst (λ g. is_incomplete g.0 ≡ false)
          (sym (
            loader_apply_settings_device_configurations-given_from stack answers cs devices count ds
              room read))
          (given_from-fits count (configured cs ds) (
            omega (
              arith,
              roomy,
              read_all_details_lem stack answers devices ds read,
              length-configured cs ds apart,
              length-configured-configurations cs ds,
            )))
  ]
]

give_fits :
    (stack : ℕ → Bool) (answers : DeviceTerm → DeviceAnswers) (settings : LoaderSettings)
    (devices later : List DeviceTerm) (count : ℕ)
    → differ settings.device_configurations ≡ true
    → length later ≡ length devices
    → is_incomplete
        (give_physical_devices stack answers settings later true
          (give_physical_devices stack answers settings devices false count).1).0
      ≡ false
unfolding give_physical_devices
give_fits stack answers settings devices later count apart same =
    elim (Bool-cases (settings.settings_active && settings.device_configurations_active)) [
      | inl on ↦
          let told : (give_physical_devices stack answers settings devices false count).1
              ≡ min (length settings.device_configurations) (length devices) =
            rw (on, give_physical_devices) refl in
          subst fits_with (sym told) (
            rw (on, give_physical_devices)
              (apply_fits stack answers settings.device_configurations later _ apart
                (omega (arith, same))))
      | inr off ↦
          let told : (give_physical_devices stack answers settings devices false count).1
              ≡ length devices =
            rw (off, give_physical_devices) refl in
          let fits : ltb (length devices) (length later) ≡ false = ground (arith, same) in
          subst fits_with (sym told) (rw (off, fits, give_physical_devices) refl)
    ]
  where
    fits_with : ℕ → Type 0
    fits_with n =
        is_incomplete (give_physical_devices stack answers settings later true n).0 ≡ false

-- Two enumerations that succeed find the same number of devices, with the same answers of drivers.
same_count :
    (stack : ℕ → Bool) (drivers : List Driver) (inst : Instance)
    → IsConsistent inst
    → is_success (setup_loader_term_phys_devs stack drivers inst).0 ≡ true
    → is_success
        (setup_loader_term_phys_devs stack drivers
          (setup_loader_term_phys_devs stack drivers inst).1).0
      ≡ true
    → length
        (setup_loader_term_phys_devs stack drivers
          (setup_loader_term_phys_devs stack drivers inst).1).1.phys_devs_term
      ≡ length (setup_loader_term_phys_devs stack drivers inst).1.phys_devs_term
same_count stack drivers inst consistent good again =
    let first = setup_loader_term_phys_devs-IsEnumerated stack drivers inst consistent in
    let second =
      setup_loader_term_phys_devs-IsEnumerated stack drivers
        (setup_loader_term_phys_devs stack drivers inst).1 first.consistent in
    let (ds, e, found, n) = first.enumerated good in
    let (ds', e', found', n') = second.enumerated again in
    sym (
      length-map (λ t. t.phys_dev)
        (setup_loader_term_phys_devs stack drivers
          (setup_loader_term_phys_devs stack drivers inst).1).1.phys_devs_term)
    ∙ ap length (found' ∙ ap (first_occurrences []) (same_devices ds ds' e e') ∙ sym found)
    ∙ length-map (λ t. t.phys_dev) (setup_loader_term_phys_devs stack drivers inst).1.phys_devs_term
  where
    same_devices :
        (ds ds' : List (ℕ × ℕ))
        → read_all_drivers stack drivers ≡ some ds
        → read_all_drivers stack drivers ≡ some ds'
        → ds' ≡ ds
    same_devices ds ds' e e' = cc

-- The live objects are those of the instance's array, and no two device configurations have the same
-- ids and version. A call for the number of devices succeeds. Then a call with room for that number,
-- whose enumeration succeeds with the same answers of the drivers and of the stack, never returns that
-- the room was too small.
pub terminator_EnumeratePhysicalDevices_lem :
    (stack : ℕ → Bool) (answers : DeviceTerm → DeviceAnswers) (settings : LoaderSettings)
    (drivers : List Driver) (count : ℕ) (inst : Instance)
    → IsConsistent inst
    → differ settings.device_configurations ≡ true
    → is_success
        (terminator_EnumeratePhysicalDevices stack answers settings drivers false count inst).0.0
      ≡ true
    → is_success
        (setup_loader_term_phys_devs stack drivers
          (terminator_EnumeratePhysicalDevices stack answers settings drivers false count inst).1).0
      ≡ true
    → is_incomplete
        (terminator_EnumeratePhysicalDevices stack answers settings drivers true
          (terminator_EnumeratePhysicalDevices stack answers settings drivers false count inst).0.1
          (terminator_EnumeratePhysicalDevices stack answers settings drivers false count
            inst).1).0.0
      ≡ false
unfolding terminator_EnumeratePhysicalDevices
terminator_EnumeratePhysicalDevices_lem stack answers settings drivers count inst consistent apart
      first second =
    let inst' = (setup_loader_term_phys_devs stack drivers inst).1 in
    elim (Bool-cases (is_success (setup_loader_term_phys_devs stack drivers inst).0)) [
      | inl good ↦
          let told : terminator_EnumeratePhysicalDevices stack answers settings drivers false count
                inst
              ≡ (
                give_physical_devices stack answers settings inst'.phys_devs_term false count,
                inst',
              ) =
            rw (good, terminator_EnumeratePhysicalDevices) refl in
          let again : is_success (setup_loader_term_phys_devs stack drivers inst').0 ≡ true =
            subst (λ r. is_success (setup_loader_term_phys_devs stack drivers r.1).0 ≡ true) told
              second in
          subst
            (λ r.
              is_incomplete
                (terminator_EnumeratePhysicalDevices stack answers settings drivers true r.0.1
                  r.1).0.0
              ≡ false)
            (sym told)
            (rw (again, terminator_EnumeratePhysicalDevices)
              (give_fits stack answers settings inst'.phys_devs_term _ count apart
                (same_count stack drivers inst consistent good again)))
      | inr bad ↦
          let told : terminator_EnumeratePhysicalDevices stack answers settings drivers false count
                inst
              ≡ (((setup_loader_term_phys_devs stack drivers inst).0, count, []), inst') =
            rw (bad, terminator_EnumeratePhysicalDevices) refl in
          absurd (false≢true (sym bad ∙ ap (λ r. is_success r.0.0) (sym told) ∙ first))
    ]
