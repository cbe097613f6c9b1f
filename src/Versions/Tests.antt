-- ===== src/Versions/Tests.antt =====
-- loader/loader.c: versions at concrete inputs.
use vulkan_sc_loader.Base.{◌≡◌, refl, true, false}
use vulkan_sc_loader.Versions.{loader_combine_version, loader_check_version_meets_required}

newer_minor_run :
    loader_check_version_meets_required
      (loader_combine_version 1 2 190)
      (loader_combine_version 1 3 0)
    ≡ true
unfolding loader_check_version_meets_required loader_combine_version
newer_minor_run = refl

older_patch_run :
    loader_check_version_meets_required
      (loader_combine_version 1 3 1)
      (loader_combine_version 1 3 0)
    ≡ false
unfolding loader_check_version_meets_required loader_combine_version
older_patch_run = refl
