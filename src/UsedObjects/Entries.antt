-- ===== src/UsedObjects/Entries.antt =====
-- loader/loader.c: the entries of a list of used objects, and the scan for a free one.
use vulkan_sc_loader.Base.{
  sym, subst, ◌-◌, ℕ, zero, suc, ◌+◌, ◌*◌, ◌^◌, ◌≤◌, ◌<◌, ◌≡◌, refl, ◌≢◌, Bool, true, false, Option,
  none, some, List, [], ◌∷◌, ◌++◌, set, replicate, get_or, length, arith, if◌then◌else◌,
}
use vulkan_sc_loader.UsedObjects.{
  UsedObjectStatus, UsedObjectList, status_size, zero_status, find_free,
}

-- Beyond the end there are no objects.
abbrev pub entry_at : {A : Type 0} → List (UsedObjectStatus A) → ℕ → UsedObjectStatus A
entry_at list i = get_or list i zero_status

-- The capacity is that of the entries, and far from the ends of `uint32_t` and `size_t`.
pub record IsValid {A : Type 0} (l : UsedObjectList A) : Type 0 where
  pub sized : l.capacity ≡ length l.list * status_size
  pub absent : l.allocated ≡ false → l.list ≡ []
  pub present : l.allocated ≡ true → 0 < length l.list
  pub bounded : length l.list < 2 ^ 32

module _ {A : Type 0} where
  pub get_or-set_self :
      (xs : List (UsedObjectStatus A)) (i : ℕ) (v : UsedObjectStatus A)
      → i < length xs
      → entry_at (set xs i v) i ≡ v
  get_or-set_self [] i v h = elim h [ ]
  get_or-set_self (x ∷ xs) zero v h = refl
  get_or-set_self (x ∷ xs) (suc i) v h = get_or-set_self xs i v (omega arith)

  pub get_or-set_ne :
      (xs : List (UsedObjectStatus A)) (i j : ℕ) (v : UsedObjectStatus A)
      → j ≢ i
      → entry_at (set xs i v) j ≡ entry_at xs j
  get_or-set_ne [] i j v h = refl
  get_or-set_ne (x ∷ xs) zero zero v h = absurd (h refl)
  get_or-set_ne (x ∷ xs) zero (suc j) v h = refl
  get_or-set_ne (x ∷ xs) (suc i) zero v h = refl
  get_or-set_ne (x ∷ xs) (suc i) (suc j) v h = get_or-set_ne xs i j v (omega arith)

  pub get_or-replicate : (n j : ℕ) → entry_at {A = A} (replicate n zero_status) j ≡ zero_status
  get_or-replicate zero j = refl
  get_or-replicate (suc n) zero = refl
  get_or-replicate (suc n) (suc j) = get_or-replicate n j

  pub get_or-append_zero :
      (xs : List (UsedObjectStatus A)) (n j : ℕ)
      → entry_at (xs ++ replicate n zero_status) j ≡ entry_at xs j
  get_or-append_zero [] n j = get_or-replicate n j
  get_or-append_zero (x ∷ xs) n zero = refl
  get_or-append_zero (x ∷ xs) n (suc j) = get_or-append_zero xs n j

  pub get_or-beyond :
      (xs : List (UsedObjectStatus A)) (i : ℕ) → length xs ≤ i → entry_at xs i ≡ zero_status
  get_or-beyond [] i h = refl
  get_or-beyond (x ∷ xs) zero h = absurd (omega arith)
  get_or-beyond (x ∷ xs) (suc i) h = get_or-beyond xs i (omega arith)

  -- What the scan finds is the first free entry.
  abbrev pub Found : List (UsedObjectStatus A) → ℕ → Option ℕ → Type 0
  Found xs i none = Unit
  Found xs i (some k) = (i ≤ k) × (k - i < length xs) × ((entry_at xs (k - i)).status ≡ false)

  Found-cons :
      (x : UsedObjectStatus A) (xs : List (UsedObjectStatus A)) (i : ℕ) (o : Option ℕ)
      → Found xs (i + 1) o
      → Found (x ∷ xs) i o
  Found-cons x xs i none h = tt
  Found-cons x xs i (some k) h =
      let e : k - i ≡ suc (k - (i + 1)) = omega arith in (omega arith, omega arith, rw e h.2)

  Found-step :
      (x : UsedObjectStatus A) (xs : List (UsedObjectStatus A)) (i : ℕ) (b : Bool)
      → x.status ≡ b
      → Found xs (i + 1) (find_free xs (i + 1))
      → Found (x ∷ xs) i (if b then find_free xs (i + 1) else some i)
  Found-step x xs i true used rest = Found-cons x xs i (find_free xs (i + 1)) rest
  Found-step x xs i false unused rest =
      let e : i - i ≡ 0 = omega arith in
      (omega arith, omega arith, subst (λ k. (entry_at (x ∷ xs) k).status ≡ false) (sym e) unused)

  pub find_free-Found : (xs : List (UsedObjectStatus A)) (i : ℕ) → Found xs i (find_free xs i)
  unfolding find_free
  find_free-Found [] i = tt
  find_free-Found (x ∷ xs) i = Found-step x xs i x.status refl (find_free-Found xs (i + 1))
