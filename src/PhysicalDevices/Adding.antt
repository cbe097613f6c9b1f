-- ===== src/PhysicalDevices/Adding.antt =====
-- loader/loader.c: the new array of physical devices while it is filled.
use vulkan_sc_loader.Base.{
  ℕ, ◌≡◌, refl, sym, ap, ◌∙◌, subst, Bool, true, false, false≢true, or_assoc, ◌||◌, Option, none,
  some, List, [], ◌∷◌, ◌++◌, map, ◌==◌, ==_iff, if◌then◌else◌, map-append, success, is_success,
  is_out_of_host_memory, next_answer, Bool-cases, Option-cases, inl, inr, arith,
}
use vulkan_sc_loader.PhysicalDevices.{
  DeviceTerm, Instance, find_phys_dev, has_address, Added, add_new_phys_dev,
  check_and_add_to_new_phys_devs,
}
use vulkan_sc_loader.PhysicalDevices.Freeing.{has_address-append}

abbrev pub listed : ℕ → List ℕ → Bool
listed d [] = false
listed d (x ∷ xs) = d == x || listed d xs

abbrev pub devices_of : List DeviceTerm → List ℕ
devices_of = map (λ t. t.phys_dev)

-- The devices in the order in which they come first, behind those that were seen before.
abbrev pub first_occurrences : List ℕ → List (ℕ × ℕ) → List ℕ
first_occurrences seen [] = seen
first_occurrences seen ((d, icd) ∷ devices) =
    if listed d seen
    then first_occurrences seen devices
    else first_occurrences (seen ++ d ∷ []) devices

pub find_phys_dev-append :
    (d : ℕ) (ts : List DeviceTerm) (t : DeviceTerm)
    → find_phys_dev d (ts ++ t ∷ []) ≡ elim (find_phys_dev d ts) as (λ x. Option DeviceTerm) [
      | none ↦ if d == t.phys_dev then some t else none
      | some u ↦ some u
    ]
unfolding find_phys_dev
find_phys_dev-append d [] t = refl
find_phys_dev-append d (u ∷ ts) t = elim (Bool-cases (d == u.phys_dev)) [
  | inl same ↦ rw same refl
  | inr other ↦ rw other (find_phys_dev-append d ts t)
]

pub find_phys_dev-listed-none :
    (d : ℕ) (ts : List DeviceTerm) → find_phys_dev d ts ≡ none → listed d (devices_of ts) ≡ false
unfolding find_phys_dev
find_phys_dev-listed-none d [] e = refl
find_phys_dev-listed-none d (t ∷ ts) e = ground (arith, find_phys_dev-listed-none d ts)

pub find_phys_dev-listed-some :
    (d : ℕ) (ts : List DeviceTerm) (t : DeviceTerm)
    → find_phys_dev d ts ≡ some t
    → (listed d (devices_of ts) ≡ true) × (d ≡ t.phys_dev)
unfolding find_phys_dev
find_phys_dev-listed-some d [] t e = cc
find_phys_dev-listed-some d (u ∷ ts) t e =
    split (d == u.phys_dev) refl e (find_phys_dev-listed-some d ts t)
  where
    split :
        (x : Bool)
        → (d == u.phys_dev) ≡ x
        → (if x then some u else find_phys_dev d ts) ≡ some t
        → (find_phys_dev d ts ≡ some t → (listed d (devices_of ts) ≡ true) × (d ≡ t.phys_dev))
        → ((x || listed d (devices_of ts)) ≡ true) × (d ≡ t.phys_dev)
    split true same e' again =
        let this : u ≡ t = cc in (refl, (==_iff d u.phys_dev).0 same ∙ ap (λ y. y.phys_dev) this)
    split false other e' again = again e'

-- With the devices that were there before in `old`: these are as they were, what is live is in one of
-- the arrays, and a device that was known has the object that it had.
pub record IsKept (old new : List DeviceTerm) (inst : Instance) : Type 0 where
  pub old_same : inst.phys_devs_term ≡ old
  pub live : (a : ℕ) → inst.is_live a ≡ (has_address a old || has_address a new)
  pub same_object :
      (d : ℕ) (t u : DeviceTerm)
      → find_phys_dev d old ≡ some t
      → find_phys_dev d new ≡ some u
      → u ≡ t

-- A device was appended that was not in the new array.
IsKept-append :
    (old new : List DeviceTerm) (t : DeviceTerm) (inst inst' : Instance)
    → find_phys_dev t.phys_dev new ≡ none
    → ((v : DeviceTerm) → find_phys_dev t.phys_dev old ≡ some v → t ≡ v)
    → inst'.phys_devs_term ≡ inst.phys_devs_term
    → ((a : ℕ) → inst'.is_live a ≡ (inst.is_live a || (a == t.address)))
    → IsKept old new inst
    → IsKept old (new ++ t ∷ []) inst'
IsKept-append old new t inst inst' unknown known same live k = record {
  old_same = same ∙ k.old_same;
  live = λ a.
      let l = live a in
      let m = k.live a in
      let n = has_address-append a new t in
      rw (l, m, n) (or_assoc (has_address a old) (has_address a new) (a == t.address));
  same_object = λ d v u in_old in_new.
      by_search d v u in_old (find_phys_dev d new) refl
        (sym (find_phys_dev-append d new t) ∙ in_new);
}
  where
    by_device :
        (d : ℕ) (v u : DeviceTerm) (x : Bool)
        → find_phys_dev d old ≡ some v
        → (d == t.phys_dev) ≡ x
        → if◌then◌else◌ {A = Option DeviceTerm} x (some t) none ≡ some u
        → u ≡ v
    by_device d v u false in_old differs e = cc
    by_device d v u true in_old same_device e =
        let this : u ≡ t = cc in
        let here : d ≡ t.phys_dev = (==_iff d t.phys_dev).0 same_device in
        this ∙ known v (subst (λ y. find_phys_dev y old ≡ some v) here in_old)

    by_search :
        (d : ℕ) (v u : DeviceTerm)
        → find_phys_dev d old ≡ some v
        → (o : Option DeviceTerm) → find_phys_dev d new ≡ o
        → elim o as (λ x. Option DeviceTerm) [
          | none ↦ if d == t.phys_dev then some t else none
          | some w ↦ some w
        ]
          ≡ some u
        → u ≡ v
    by_search d v u in_old none found e = by_device d v u (d == t.phys_dev) in_old refl e
    by_search d v u in_old (some w) found e =
        let this : u ≡ w = cc in this ∙ k.same_object d v w in_old found

-- What adding a device leads to.
pub record IsStep (old new : List DeviceTerm) (d : ℕ) (added : Added) : Type 0 where
  pub kept : IsKept old added.1 added.2
  pub usual : (is_success added.0 || is_out_of_host_memory added.0) ≡ true
  pub devices :
      is_success added.0 ≡ true
      → devices_of added.1
        ≡ (if listed d (devices_of new) then devices_of new else devices_of new ++ d ∷ [])

find_phys_dev-has_address :
    (d : ℕ) (ts : List DeviceTerm) (t : DeviceTerm)
    → find_phys_dev d ts ≡ some t
    → has_address t.address ts ≡ true
unfolding find_phys_dev
find_phys_dev-has_address d [] t e = cc
find_phys_dev-has_address d (u ∷ ts) t e =
    split (d == u.phys_dev) e (find_phys_dev-has_address d ts t)
  where
    split :
        (x : Bool)
        → (if x then some u else find_phys_dev d ts) ≡ some t
        → (find_phys_dev d ts ≡ some t → has_address t.address ts ≡ true)
        → has_address t.address (u ∷ ts) ≡ true
    split true e' again =
        let this : u ≡ t = cc in
        let here : u.address ≡ t.address = ap (λ y. y.address) this in ground (arith, here)
    split false e' again = ground (arith, again e')

-- What was known is live.
known_is_live :
    (old new : List DeviceTerm) (t : DeviceTerm) (inst : Instance)
    → IsKept old new inst
    → has_address t.address old ≡ true
    → (a : ℕ) → inst.is_live a ≡ (inst.is_live a || (a == t.address))
known_is_live old new t inst k known a = elim (Bool-cases (a == t.address)) [
  | inr other ↦ ground (arith, other)
  | inl same ↦
      let here : has_address a old ≡ true =
        subst (λ y. has_address y old ≡ true) (sym ((==_iff a t.address).0 same)) known in
      let live = k.live a in ground (arith, here, live)
]

appended :
    (old new : List DeviceTerm) (d : ℕ) (t : DeviceTerm) (inst : Instance)
    → listed d (devices_of new) ≡ false
    → d ≡ t.phys_dev
    → IsKept old (new ++ t ∷ []) inst
    → IsStep old new d (success, new ++ t ∷ [], inst)
appended old new d t inst fresh same k = record {
  kept = k;
  usual = refl;
  devices = λ s.
      rw fresh
        (map-append (λ u. u.phys_dev) new (t ∷ []) ∙ ap (λ y. devices_of new ++ y ∷ []) (sym same));
}

pub check_and_add_to_new_phys_devs-IsStep :
    (old new : List DeviceTerm) (d icd : ℕ) (inst : Instance)
    → IsKept old new inst
    → IsStep old new d (check_and_add_to_new_phys_devs d icd new inst)
unfolding check_and_add_to_new_phys_devs add_new_phys_dev
check_and_add_to_new_phys_devs-IsStep old new d icd inst k =
    elim (Option-cases (find_phys_dev d new)) [
      | inr (t, found) ↦
          rw (found, check_and_add_to_new_phys_devs)
            (record {
              kept = k;
              usual = refl;
              devices = λ s. rw (find_phys_dev-listed-some d new t found).0 refl;
            })
      | inl missing ↦
          let fresh : listed d (devices_of new) ≡ false = find_phys_dev-listed-none d new missing in
          elim (Option-cases (find_phys_dev d inst.phys_devs_term)) [
            | inr (t, known) ↦
                let in_old : find_phys_dev d old ≡ some t =
                  subst (λ ts. find_phys_dev d ts ≡ some t) k.old_same known in
                let same : d ≡ t.phys_dev = (find_phys_dev-listed-some d old t in_old).1 in
                rw (missing, known, check_and_add_to_new_phys_devs)
                  (appended old new d t inst fresh same (
                    IsKept-append old new t inst inst
                      (subst (λ y. find_phys_dev y new ≡ none) same missing)
                      (λ v e.
                        same_answer
                          (sym (subst (λ y. find_phys_dev y old ≡ some t) same in_old) ∙ e))
                      refl
                      (known_is_live old new t inst k (find_phys_dev-has_address d old t in_old))
                      k))
            | inl unknown ↦ elim (Bool-cases (next_answer inst.heap.answers)) [
              | inr out ↦
                  rw (missing, unknown, out, check_and_add_to_new_phys_devs, add_new_phys_dev)
                    (record {
                      kept = record {
                        old_same = k.old_same;
                        live = k.live;
                        same_object = k.same_object;
                      };
                      usual = refl;
                      devices = λ s. absurd (false≢true s);
                    })
              | inl ok ↦
                  rw (missing, unknown, ok, check_and_add_to_new_phys_devs, add_new_phys_dev)
                    (appended old new d
                      (record { address = inst.next_address; phys_dev = d; icd_term = icd }) _ fresh
                      refl
                      (IsKept-append old new
                        (record { address = inst.next_address; phys_dev = d; icd_term = icd }) inst
                        _ missing
                        (λ v e. absurd (
                          not_known v (subst (λ ts. find_phys_dev d ts ≡ none) k.old_same unknown)
                            e))
                        refl (λ a. newly_live a) k))
            ]
          ]
    ]
  where
    same_answer : {t v : DeviceTerm} → some t ≡ some v → t ≡ v
    same_answer e = cc

    not_known : (v : DeviceTerm) → find_phys_dev d old ≡ none → find_phys_dev d old ≡ some v → ⊥
    not_known v e e' = cc

    newly_live :
        (a : ℕ)
        → (if a == inst.next_address then true else inst.is_live a)
          ≡ (inst.is_live a || (a == inst.next_address))
    newly_live a = ground arith
