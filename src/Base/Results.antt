-- ===== src/Base/Results.antt =====
-- The `VkResult` codes that the modelled functions return.
use mathlib.Core.Bool.{Bool, true, false}

pub data VkResult : Type 0 where
  success incomplete error_out_of_host_memory error_initialization_failed : VkResult
  error_layer_not_present error_extension_not_present error_incompatible_driver : VkResult

abbrev pub is_success : VkResult → Bool
is_success success = true
is_success _ = false

abbrev pub is_out_of_host_memory : VkResult → Bool
is_out_of_host_memory error_out_of_host_memory = true
is_out_of_host_memory _ = false
