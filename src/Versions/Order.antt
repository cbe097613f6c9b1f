-- ===== src/Versions/Order.antt =====
-- loader/loader.c: the comparison of versions is the order of the numbers that they are packed into.
use vulkan_sc_loader.Base.{ℕ, ◌+◌, ◌*◌, ◌%◌, ◌^◌, ◌≤◌, ◌<◌, ◌≡◌, ◌↔◌, true, arith}
use vulkan_sc_loader.Versions.{loader_combine_version, loader_check_version_meets_required}

-- For parts of 16 bits each, the version that is combined from them meets a requirement exactly if,
-- as a number with the major version in front, it is at least the required one.
loader_check_version_meets_required-combine_iff :
    (a b c d e f : ℕ)
    → a < 2 ^ 16
    → b < 2 ^ 16
    → c < 2 ^ 16
    → d < 2 ^ 16
    → e < 2 ^ 16
    → f < 2 ^ 16
    → (loader_check_version_meets_required
          (loader_combine_version a b c)
          (loader_combine_version d e f)
        ≡ true)
      ↔ (a * 2 ^ 32 + b * 2 ^ 16 + c ≤ d * 2 ^ 32 + e * 2 ^ 16 + f)
unfolding loader_check_version_meets_required loader_combine_version
loader_check_version_meets_required-combine_iff a b c d e f a_fits b_fits c_fits d_fits e_fits
      f_fits =
    let a' : a % 2 ^ 16 ≡ a = omega arith in
    let b' : b % 2 ^ 16 ≡ b = omega arith in
    let c' : c % 2 ^ 16 ≡ c = omega arith in
    let d' : d % 2 ^ 16 ≡ d = omega arith in
    let e' : e % 2 ^ 16 ≡ e = omega arith in
    let f' : f % 2 ^ 16 ≡ f = omega arith in rw (a', b', c', d', e', f') (ground arith)
