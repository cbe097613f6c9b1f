-- ===== src/PhysicalDevices/Enumeration.antt =====
-- loader/loader.c: what an enumeration of the physical devices does to those of the instance.
use vulkan_sc_loader.Base.{
  ℕ, ◌≡◌, refl, sym, ap, ◌∙◌, subst, Bool, true, false, false≢true, or_comm, not, ◌&&◌, ◌||◌,
  Option, none, some, List, [], length, ◌==◌, if◌then◌else◌, VkResult, error_out_of_host_memory,
  error_initialization_failed, is_success, next_answer, later_answers, ◌+◌, Bool-cases,
  Option-cases, inl, inr, arith,
}
use vulkan_sc_loader.PhysicalDevices.{
  DeviceTerm, Instance, Driver, find_phys_dev, has_address, Added, add_phys_devs, read_all_drivers,
  free_missing, swap_phys_devs, enumerate_read, setup_loader_term_phys_devs,
}
use vulkan_sc_loader.PhysicalDevices.Freeing.{free_missing_lem}
use vulkan_sc_loader.PhysicalDevices.Adding.{devices_of, first_occurrences}
use vulkan_sc_loader.PhysicalDevices.Filling.{IsFilled, add_phys_devs-IsFilled}

-- The objects that are live are those of the instance's array.
abbrev pub IsConsistent : Instance → Type 0
IsConsistent inst = (a : ℕ) → inst.is_live a ≡ has_address a inst.phys_devs_term

-- What an enumeration leaves: after a success the devices that the drivers reported, each once and in
-- the order in which they come first.
pub record IsEnumerated (found : Option (List (ℕ × ℕ))) (inst : Instance)
    (result : VkResult × Instance) : Type 0 where
  pub consistent : IsConsistent result.1
  pub failed :
      is_success result.0 ≡ false
      → (result.1.phys_devs_term ≡ inst.phys_devs_term) × (result.1.total_gpu_count ≡ 0)
  pub enumerated :
      is_success result.0 ≡ true
      → (devices : List (ℕ × ℕ)) × (found ≡ some devices)
        × (devices_of result.1.phys_devs_term ≡ first_occurrences [] devices)
        × (result.1.total_gpu_count ≡ length result.1.phys_devs_term)
  pub same_object :
      (d : ℕ) (t u : DeviceTerm)
      → find_phys_dev d inst.phys_devs_term ≡ some t
      → find_phys_dev d result.1.phys_devs_term ≡ some u
      → u ≡ t

same_answer : {t u : DeviceTerm} {o : Option DeviceTerm} → o ≡ some t → o ≡ some u → u ≡ t
same_answer e e' = cc

-- The instance is as it was but for the heap and the number of devices.
unchanged :
    (found : Option (List (ℕ × ℕ))) (inst inst' : Instance) (result : VkResult)
    → is_success result ≡ false
    → IsConsistent inst
    → (inst'.phys_devs_term ≡ inst.phys_devs_term)
    → ((a : ℕ) → inst'.is_live a ≡ inst.is_live a)
    → inst'.total_gpu_count ≡ 0
    → IsEnumerated found inst (result, inst')
unchanged found inst inst' result bad v same live none_left = record {
  consistent = λ a. live a ∙ v a ∙ ap (has_address a) (sym same);
  failed = λ e. (same, none_left);
  enumerated = λ good. absurd (false≢true (sym bad ∙ good));
  same_object = λ d t u e e'. same_answer e (subst (λ ts. find_phys_dev d ts ≡ some u) same e');
}

swap_phys_devs-IsEnumerated :
    (devices : List (ℕ × ℕ)) (inst : Instance) (added : Added)
    → IsConsistent inst
    → IsFilled inst.phys_devs_term [] devices added
    → IsEnumerated (some devices) inst (swap_phys_devs added.0 added.1 added.2)
swap_phys_devs-IsEnumerated devices inst (res, new, inst') v f =
    elim (Bool-cases (is_success res)) [
      | inr bad ↦ rw bad (
          unchanged (some devices) inst
            (record inst' {
              is_live = free_missing new inst'.phys_devs_term inst'.is_live;
              total_gpu_count = 0;
            })
            res bad v f.kept.old_same left_live refl)
      | inl good ↦ rw good (record {
        consistent = now_live;
        failed = λ e. absurd (false≢true (sym e ∙ good));
        enumerated = λ e. (devices, refl, f.filled good, refl);
        same_object = f.kept.same_object;
      })
    ]
  where
    -- Of what is live, that which stands in `xs` and not in `ys` is freed.
    both_ways : (x y l : Bool) → l ≡ (x || y) → (if x && not y then false else l) ≡ y
    both_ways x y l e = ground (arith, e)

    left_live : (a : ℕ) → free_missing new inst'.phys_devs_term inst'.is_live a ≡ inst.is_live a
    left_live a =
        let swapped : inst'.is_live a ≡ (has_address a new || has_address a inst.phys_devs_term) =
          f.kept.live a ∙ or_comm (has_address a inst.phys_devs_term) (has_address a new) in
        free_missing_lem new inst'.phys_devs_term inst'.is_live a
        ∙ ap (λ ts. if has_address a new && not (has_address a ts) then false else inst'.is_live a)
            f.kept.old_same
        ∙ both_ways (has_address a new) (has_address a inst.phys_devs_term) (inst'.is_live a)
            swapped
        ∙ sym (v a)

    now_live : (a : ℕ) → free_missing inst'.phys_devs_term new inst'.is_live a ≡ has_address a new
    now_live a =
        free_missing_lem inst'.phys_devs_term new inst'.is_live a
        ∙ ap (λ ts. if has_address a ts && not (has_address a new) then false else inst'.is_live a)
            f.kept.old_same
        ∙ both_ways (has_address a inst.phys_devs_term) (has_address a new) (inst'.is_live a)
            (f.kept.live a)

enumerate_read-IsEnumerated :
    (devices : List (ℕ × ℕ)) (inst : Instance)
    → IsConsistent inst
    → IsEnumerated (some devices) inst (enumerate_read devices inst)
unfolding enumerate_read
enumerate_read-IsEnumerated devices inst v = elim (Bool-cases (length devices == 0)) [
  | inl empty ↦ rw empty (
      unchanged (some devices) inst (record inst { total_gpu_count = 0 })
        error_initialization_failed refl v refl (λ a. refl) refl)
  | inr some_devices ↦ elim (Bool-cases (next_answer inst.heap.answers)) [
    | inr out ↦
        rw (some_devices, out)
          (unchanged (some devices) inst _ error_out_of_host_memory refl v refl (λ a. refl) refl)
    | inl ok ↦
        rw (some_devices, ok)
          (swap_phys_devs-IsEnumerated devices inst
            (add_phys_devs devices [] (record inst {
              heap = record {
                answers = later_answers inst.heap.answers;
                live = inst.heap.live + 1;
              };
            }))
            v
            (add_phys_devs-IsFilled inst.phys_devs_term [] devices
              (record inst {
                heap = record {
                  answers = later_answers inst.heap.answers;
                  live = inst.heap.live + 1;
                };
              })
              (record {
                old_same = refl;
                live = λ a. v a ∙ nothing_new (has_address a inst.phys_devs_term);
                same_object = λ d t u e e'. absurd (nothing d u e');
              })))
  ]
]
  where
    nothing_new : (x : Bool) → x ≡ (x || false)
    nothing_new x = ground arith

    nothing : (d : ℕ) (u : DeviceTerm) → find_phys_dev d [] ≡ some u → ⊥
    nothing d u e = cc

-- After an enumeration of the physical devices, if the live objects were those of the instance's
-- array, they are again: nothing is lost and nothing that is in use is freed. If it fails the array
-- is as before. If it succeeds the array has the devices that the drivers reported, each once and in
-- the order in which they come first; and a device that was there before has the object it had.
pub setup_loader_term_phys_devs-IsEnumerated :
    (stack : ℕ → Bool) (drivers : List Driver) (inst : Instance)
    → IsConsistent inst
    → IsEnumerated
        (read_all_drivers stack drivers)
        inst
        (setup_loader_term_phys_devs stack drivers inst)
unfolding setup_loader_term_phys_devs
setup_loader_term_phys_devs-IsEnumerated stack drivers inst v =
    elim (Option-cases (read_all_drivers stack drivers)) [
      | inl out ↦
          rw (out, setup_loader_term_phys_devs)
            (unchanged none inst (record inst { total_gpu_count = 0 }) error_out_of_host_memory refl
              v refl (λ a. refl) refl)
      | inr (devices, read) ↦
          rw (read, setup_loader_term_phys_devs) (enumerate_read-IsEnumerated devices inst v)
    ]
