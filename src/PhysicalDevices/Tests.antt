-- ===== src/PhysicalDevices/Tests.antt =====
-- loader/loader.c: physical devices at concrete inputs.
use vulkan_sc_loader.Base.{
  ℕ, zero, suc, ◌≡◌, refl, false, [], ◌∷◌, success, error_initialization_failed, ◌||◌, ◌==◌,
  incomplete, some, true,
}
use vulkan_sc_loader.PhysicalDevices.{
  DeviceTerm, Instance, Driver, read_all_drivers, setup_loader_term_phys_devs,
}
use vulkan_sc_loader.PhysicalDevices.Enumeration.{
  IsConsistent, IsEnumerated, setup_loader_term_phys_devs-IsEnumerated,
}
use vulkan_sc_loader.Settings.Equality.{DeviceConfiguration, LoaderSettings}
use vulkan_sc_loader.PhysicalDevices.Configurations.{
  DeviceAnswers, vk_api_version_1_2, details_of, read_all_details,
  loader_apply_settings_device_configurations, terminator_EnumeratePhysicalDevices,
}
use vulkan_sc_loader.PhysicalDevices.Configured.{configured}
use vulkan_sc_loader.PhysicalDevices.TwoCalls.{
  given_from, is_incomplete, loader_apply_settings_device_configurations-given_from,
  terminator_EnumeratePhysicalDevices_lem,
}

abbrev old_device : DeviceTerm
old_device = record { address = 1; phys_dev = 20; icd_term = 0 }

abbrev lost_device : DeviceTerm
lost_device = record { address = 2; phys_dev = 30; icd_term = 0 }

abbrev instance_before : Instance
instance_before = record {
  heap = record { answers = []; live = 0 };
  next_address = 3;
  is_live = λ a. a == 1 || (a == 2 || false);
  phys_devs_term = old_device ∷ lost_device ∷ [];
  total_gpu_count = 2;
}

abbrev handle_at : ℕ → ℕ
handle_at zero = 10
handle_at (suc i) = 20

-- The driver reports the devices 10 and 20, and one more than it was asked for.
abbrev driver : Driver
driver = record {
  icd_term = 7;
  count_answer = (success, 2);
  fill_answer = λ n. (success, 3, handle_at);
}

enumeration_run :
    (setup_loader_term_phys_devs
      (λ n. true)
      (driver ∷ driver ∷ [])
      instance_before).1.phys_devs_term
    ≡ record { address = 3; phys_dev = 10; icd_term = 7 } ∷ old_device ∷ []
unfolding setup_loader_term_phys_devs
enumeration_run = refl

no_driver_run :
    (setup_loader_term_phys_devs (λ n. true) [] instance_before).0 ≡ error_initialization_failed
unfolding setup_loader_term_phys_devs
no_driver_run = refl

instance_before-IsConsistent : IsConsistent instance_before
instance_before-IsConsistent a = refl

setup_loader_term_phys_devs-IsEnumerated_example :
    IsEnumerated
      (read_all_drivers (λ n. true) (driver ∷ driver ∷ []))
      instance_before
      (setup_loader_term_phys_devs (λ n. true) (driver ∷ driver ∷ []) instance_before)
setup_loader_term_phys_devs-IsEnumerated_example =
    setup_loader_term_phys_devs-IsEnumerated (λ n. true) (driver ∷ driver ∷ []) instance_before
      instance_before-IsConsistent

-- What a device of version 1.2 with the ids `id` and 1 answers, and what selects it.
abbrev answers_with_id : DeviceTerm → DeviceAnswers
answers_with_id t = record {
  api_version = vk_api_version_1_2;
  driver_version = 5;
  extension_count = (success, 0);
  extension_data = λ n. (success, 0, λ i. []);
  properties2 = some (λ driver_properties. (t.phys_dev ∷ [], 1 ∷ []));
}

abbrev for_device : ℕ → DeviceConfiguration
for_device id = record {
  device_uuid = id ∷ [];
  driver_uuid = 1 ∷ [];
  driver_version = 5;
  device_name = [];
  driver_name = [];
}

abbrev ordered_settings : LoaderSettings
ordered_settings = record {
  settings_active = true;
  has_unordered_layer_location = false;
  debug_level = 0;
  layer_configurations_active = false;
  layer_configurations = [];
  additional_drivers_use_exclusively = false;
  additional_drivers = [];
  device_configurations_active = true;
  device_configurations = for_device 20 ∷ for_device 99 ∷ for_device 10 ∷ [];
}

abbrev repeated_settings : LoaderSettings
repeated_settings = record ordered_settings {
  device_configurations = for_device 20 ∷ for_device 20 ∷ for_device 10 ∷ [];
}

-- The devices are given in the order of the configurations.
ordered_run :
    (terminator_EnumeratePhysicalDevices
      (λ n. true)
      answers_with_id
      ordered_settings
      (driver ∷ [])
      true
      2
      instance_before).0
    ≡ (success, 2, old_device ∷ record { address = 3; phys_dev = 10; icd_term = 7 } ∷ [])
unfolding terminator_EnumeratePhysicalDevices
ordered_run = refl

-- A repeated configuration gives its device twice, and then there is no room for the other.
repeated_run :
    (terminator_EnumeratePhysicalDevices
      (λ n. true)
      answers_with_id
      repeated_settings
      (driver ∷ [])
      true
      2
      instance_before).0
    ≡ (incomplete, 2, old_device ∷ old_device ∷ [])
unfolding terminator_EnumeratePhysicalDevices
repeated_run = refl

loader_apply_settings_device_configurations-given_from_example :
    loader_apply_settings_device_configurations
      (λ n. true)
      answers_with_id
      (for_device 20 ∷ for_device 99 ∷ [])
      (lost_device ∷ old_device ∷ [])
      2
    ≡ given_from 2 (
        configured (for_device 20 ∷ for_device 99 ∷ []) (
          details_of lost_device (answers_with_id lost_device) true
          ∷ details_of old_device (answers_with_id old_device) true
          ∷ []))
unfolding read_all_details
loader_apply_settings_device_configurations-given_from_example =
    loader_apply_settings_device_configurations-given_from (λ n. true) answers_with_id
      (for_device 20 ∷ for_device 99 ∷ []) (lost_device ∷ old_device ∷ []) 2
      (details_of lost_device (answers_with_id lost_device) true
        ∷ details_of old_device (answers_with_id old_device) true
        ∷ [])
      refl refl

terminator_EnumeratePhysicalDevices_lem_example :
    is_incomplete
      (terminator_EnumeratePhysicalDevices
        (λ n. true)
        answers_with_id
        ordered_settings
        (driver ∷ [])
        true
        (terminator_EnumeratePhysicalDevices
          (λ n. true)
          answers_with_id
          ordered_settings
          (driver ∷ [])
          false
          0
          instance_before).0.1
        (terminator_EnumeratePhysicalDevices
          (λ n. true)
          answers_with_id
          ordered_settings
          (driver ∷ [])
          false
          0
          instance_before).1).0.0
    ≡ false
unfolding terminator_EnumeratePhysicalDevices
terminator_EnumeratePhysicalDevices_lem_example =
    terminator_EnumeratePhysicalDevices_lem (λ n. true) answers_with_id ordered_settings
      (driver ∷ []) 0 instance_before instance_before-IsConsistent refl refl refl
