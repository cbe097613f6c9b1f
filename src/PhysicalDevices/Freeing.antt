-- ===== src/PhysicalDevices/Freeing.antt =====
-- loader/loader.c: which objects for physical devices are freed.
use vulkan_sc_loader.Base.{
  ℕ, ◌≡◌, refl, sym, ap, ◌∙◌, Bool, false, not, ◌&&◌, ◌||◌, List, [], ◌∷◌, ◌++◌, ◌==◌, ==_iff,
  if◌then◌else◌, Bool-cases, inl, inr, arith,
}
use vulkan_sc_loader.PhysicalDevices.{DeviceTerm, has_address, free_missing}

pub has_address-append :
    (a : ℕ) (ts : List DeviceTerm) (t : DeviceTerm)
    → has_address a (ts ++ t ∷ []) ≡ (has_address a ts || (a == t.address))
has_address-append a [] t = ground arith
has_address-append a (u ∷ ts) t = ground (arith, has_address-append a ts t)

-- What is freed is what stands in the first array and not in the second.
pub free_missing_lem :
    (ts others : List DeviceTerm) (is_live : ℕ → Bool) (a : ℕ)
    → free_missing ts others is_live a
      ≡ (if has_address a ts && not (has_address a others) then false else is_live a)
unfolding free_missing
free_missing_lem [] others is_live a = refl
free_missing_lem (t ∷ ts) others is_live a =
    free_missing_lem ts others
      (λ b. if b == t.address && not (has_address t.address others) then false else is_live b) a
    ∙ (elim (Bool-cases (a == t.address)) [
      | inl same ↦
          let here : a ≡ t.address = (==_iff a t.address).0 same in
          let alike : has_address t.address others ≡ has_address a others =
            ap (λ x. has_address x others) (sym here) in
          rw (same, alike) (ground arith)
      | inr other ↦ rw other refl
    ])
