-- ===== src/Activation/Verification/Unchecked.antt =====
-- loader/loader.c: how many layers the verification of meta-layers has not checked yet.
use vulkan_sc_loader.Base.{
  ℕ, zero, suc, ◌<◌, ◌≡◌, refl, ap, sym, Bool, true, false, List, [], ◌∷◌, false≢true, arith,
  length, set, get_or, replicate,
}

abbrev pub unchecked : List Bool → ℕ
unchecked [] = 0
unchecked (true ∷ bs) = unchecked bs
unchecked (false ∷ bs) = suc (unchecked bs)

pub unchecked-set :
    (bs : List Bool) (i : ℕ)
    → i < length bs
    → get_or bs i false ≡ false
    → suc (unchecked (set bs i true)) ≡ unchecked bs
unchecked-set [] i inside e = absurd (omega arith)
unchecked-set (true ∷ bs) zero inside e = absurd (false≢true (sym e))
unchecked-set (false ∷ bs) zero inside e = refl
unchecked-set (true ∷ bs) (suc i) inside e = unchecked-set bs i (omega arith) e
unchecked-set (false ∷ bs) (suc i) inside e = ap suc (unchecked-set bs i (omega arith) e)

pub unchecked-replicate : (n : ℕ) → unchecked (replicate n false) ≡ n
unchecked-replicate zero = refl
unchecked-replicate (suc n) = ap suc (unchecked-replicate n)

pub get_or-replicate : (n i : ℕ) → get_or (replicate n false) i false ≡ false
get_or-replicate zero i = refl
get_or-replicate (suc n) zero = refl
get_or-replicate (suc n) (suc i) = get_or-replicate n i
