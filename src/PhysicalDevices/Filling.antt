-- ===== src/PhysicalDevices/Filling.antt =====
-- loader/loader.c: the loop that fills the new array of physical devices.
use vulkan_sc_loader.Base.{
  ℕ, ◌≡◌, refl, ap, ◌∙◌, true, false≢true, ◌||◌, List, [], ◌∷◌, ◌++◌, if◌then◌else◌, VkResult,
  success, is_success, is_out_of_host_memory, Bool-cases, inl, inr, arith,
}
use vulkan_sc_loader.PhysicalDevices.{
  DeviceTerm, Instance, Added, check_and_add_to_new_phys_devs, add_phys_devs,
}
use vulkan_sc_loader.PhysicalDevices.Adding.{
  IsKept, check_and_add_to_new_phys_devs-IsStep, devices_of, first_occurrences, listed,
}

not_both : (res : VkResult) → is_success res ≡ true → is_out_of_host_memory res ≡ true → ⊥
not_both success good out = false≢true out
not_both _ good out = false≢true good

-- One round of the description.
next :
    (d icd : ℕ) (devices : List (ℕ × ℕ)) (seen : List ℕ)
    → first_occurrences (if listed d seen then seen else seen ++ d ∷ []) devices
      ≡ first_occurrences seen ((d, icd) ∷ devices)
next d icd devices seen = elim (Bool-cases (listed d seen)) [
  | inl before ↦ rw before refl
  | inr first ↦ rw first refl
]

-- What the loops lead to.
pub record IsFilled (old new : List DeviceTerm) (devices : List (ℕ × ℕ)) (added : Added)
    : Type 0 where
  pub kept : IsKept old added.1 added.2
  pub usual : (is_success added.0 || is_out_of_host_memory added.0) ≡ true
  pub filled :
      is_success added.0 ≡ true → devices_of added.1 ≡ first_occurrences (devices_of new) devices

pub add_phys_devs-IsFilled :
    (old new : List DeviceTerm) (devices : List (ℕ × ℕ)) (inst : Instance)
    → IsKept old new inst
    → IsFilled old new devices (add_phys_devs devices new inst)
unfolding add_phys_devs
add_phys_devs-IsFilled old new [] inst k = record { kept = k; usual = refl; filled = λ s. refl }
add_phys_devs-IsFilled old new ((d, icd) ∷ devices) inst k =
    let (res, new', inst') = check_and_add_to_new_phys_devs d icd new inst in
    let s = check_and_add_to_new_phys_devs-IsStep old new d icd inst k in
    elim (Bool-cases (is_out_of_host_memory res)) [
      | inl out ↦ rw out (record {
        kept = s.kept;
        usual = s.usual;
        filled = λ good. absurd (not_both res good out);
      })
      | inr more ↦
          let good : is_success res ≡ true = ground (arith, s.usual, more) in
          let rest = add_phys_devs-IsFilled old new' devices inst' s.kept in
          rw more (record {
            kept = rest.kept;
            usual = rest.usual;
            filled = λ end.
                rest.filled end
                ∙ ap (λ seen. first_occurrences seen devices) (s.devices good)
                ∙ next d icd devices (devices_of new);
          })
    ]
