-- ===== src/Versions.antt =====
-- loader/loader.c: versions of the API and their comparison. The macros of the Vulkan headers that take
-- a packed version apart are parameters.
pub mod Order
mod Tests
use vulkan_sc_loader.Base.{ℕ, ◌%◌, ◌^◌, Bool, ◌&&◌, ◌||◌, leb, ltb, ◌==◌}

pub record ApiVersion : Type 0 where
  pub major : ℕ
  pub minor : ℕ
  pub patch : ℕ

-- VK_API_VERSION_MAJOR, VK_API_VERSION_MINOR and VK_API_VERSION_PATCH.
module _ (version_major version_minor version_patch : ℕ → ℕ) where
  unfoldable pub loader_make_version : ℕ → ApiVersion
  loader_make_version version = record {
    major = version_major version % 2 ^ 16;
    minor = version_minor version % 2 ^ 16;
    patch = 0;
  }

  unfoldable pub loader_make_full_version : ℕ → ApiVersion
  loader_make_full_version version = record {
    major = version_major version % 2 ^ 16;
    minor = version_minor version % 2 ^ 16;
    patch = version_patch version % 2 ^ 16;
  }

unfoldable pub loader_combine_version : ℕ → ℕ → ℕ → ApiVersion
loader_combine_version major minor patch = record {
  major = major % 2 ^ 16;
  minor = minor % 2 ^ 16;
  patch = patch % 2 ^ 16;
}

unfoldable pub loader_check_version_meets_required : ApiVersion → ApiVersion → Bool
loader_check_version_meets_required required version =
    ltb required.major version.major
    || version.major == required.major && ltb required.minor version.minor
    || version.major == required.major
      && version.minor == required.minor
      && leb required.patch version.patch
