-- ===== src/Activation/Verification/Depth.antt =====
-- loader/loader.c: how deep the verification of a meta-layer goes.
use mathlib.Core.List.{Memᴰ}
use vulkan_sc_loader.Base.{
  ℕ, zero, suc, ◌≤◌, ◌<◌, ◌≡◌, refl, sym, ◌∙◌, Bool, true, false, some, List, [], ◌∷◌, CString,
  str_eq, str_eq_iff, false≢true, Bool-cases, Option-cases, inl, inr, arith, length, length-set,
  length-replicate, set, get_or, replicate, subst,
}
use vulkan_sc_loader.Layers.{any_equal}
use vulkan_sc_loader.Activation.{LayerPointer, find_layer_pointer}
use vulkan_sc_loader.Activation.Verification.{
  Verdict, verdict, fault, out_of_fuel, last_index, Verify, if_valid, meets_version,
  verify_component_meta, verify_components, verify_from, verify_meta_layer_component_layers,
}
use vulkan_sc_loader.Activation.Verification.Searches.{
  find_layer_pointer-Memᴰ, last_index-IsFound, last_index-some,
}
use vulkan_sc_loader.Activation.Verification.Unchecked.{
  get_or-replicate, unchecked, unchecked-replicate, unchecked-set,
}

-- From a meta-layer at most `depth` meta-layers follow each other, when a component that is a
-- meta-layer is taken to be the last layer of its name.
abbrev pub Reaches : List LayerPointer → ℕ → LayerPointer → Type 0
Reaches layers zero p = ⊥
Reaches layers (suc depth) p =
    (name : CString) (q : LayerPointer)
    → any_equal p.props.component_layer_names name ≡ true
    → find_layer_pointer name layers ≡ some q
    → q.props.is_meta ≡ true
    → (j : ℕ) × ((r : LayerPointer) × (last_index q.props.layer_name layers 0 ≡ some (j, r))
        × Reaches layers depth r)

module _ (layers : List LayerPointer) where
  -- A verdict that leaves no more than `n` layers unchecked, and says `Good` if it is good.
  abbrev pub Settled : ℕ → Type 0 → Verdict → Type 0
  Settled n Good (verdict b checked) =
      (unchecked checked ≤ n) × (length checked ≡ length layers) × (b ≡ true → Good)
  Settled n Good fault = ⊥
  Settled n Good out_of_fuel = ⊥

  Settled-false :
      (n : ℕ) (Good : Type 0) (checked : List Bool)
      → unchecked checked ≤ n
      → length checked ≡ length layers
      → Settled n Good (verdict false checked)
  Settled-false n Good checked few e = (few, e, λ t. absurd (false≢true t))

  if_valid-Settled :
      (n : ℕ) (Good Better : Type 0) (v : Verdict) (next : List Bool → Verdict)
      → Settled n Good v
      → ((checked : List Bool)
          → unchecked checked ≤ n
          → length checked ≡ length layers
          → Good
          → Settled n Better (next checked))
      → Settled n Better (if_valid v next)
  if_valid-Settled n Good Better (verdict true checked) next s h = h checked s.0 s.1 (s.2 refl)
  if_valid-Settled n Good Better (verdict false checked) next s h =
      Settled-false n Better checked s.0 s.1
  if_valid-Settled n Good Better fault next s h = s
  if_valid-Settled n Good Better out_of_fuel next s h = s

  -- What the recursive call does, with fuel for `depth` layers.
  Verifies : ℕ → Verify → Type 0
  Verifies depth verify =
      (p : LayerPointer) (i : ℕ) (checked : List Bool)
      → i < length layers
      → length checked ≡ length layers
      → get_or checked i false ≡ false
      → unchecked checked ≤ depth
      → Settled (unchecked checked) (Reaches layers depth p) (verify p i checked)

  Settled-weaken :
      (n m : ℕ) (Good Better : Type 0) (v : Verdict)
      → n ≤ m
      → (Good → Better)
      → Settled n Good v
      → Settled m Better v
  Settled-weaken n m Good Better (verdict b checked) le f s =
      (omega (arith, s.0), s.1, λ t. f (s.2 t))
  Settled-weaken n m Good Better fault le f s = s
  Settled-weaken n m Good Better out_of_fuel le f s = s

  FollowedBy : ℕ → LayerPointer → Type 0
  FollowedBy depth q =
      (j : ℕ) × ((r : LayerPointer) × (last_index q.props.layer_name layers 0 ≡ some (j, r))
        × Reaches layers depth r)

  FollowedBy-Reaches :
      (depth : ℕ) (q : LayerPointer) (j : ℕ) (r : LayerPointer)
      → last_index q.props.layer_name layers 0 ≡ some (j, r)
      → Reaches layers depth r
      → FollowedBy depth q
  unfolding FollowedBy
  FollowedBy-Reaches depth q j r found reaches = (j, (r, found, reaches))

  module _ (version_major version_minor version_patch : ℕ → ℕ) where
    verify_component_meta-Settled :
        (depth : ℕ) (verify : Verify) (q : LayerPointer) (checked : List Bool)
        → Verifies depth verify
        → Memᴰ q layers
        → length checked ≡ length layers
        → unchecked checked ≤ depth
        → Settled (unchecked checked) (FollowedBy depth q) (
            verify_component_meta version_major version_minor version_patch layers verify q checked)
    unfolding verify_component_meta Verifies
    verify_component_meta-Settled depth verify q checked verifies m same few =
        let (j, (r, found)) = last_index-some layers 0 q m in
        let f = last_index-IsFound q.props.layer_name layers 0 j r found in
        elim (Bool-cases (get_or checked j false)) [
          | inl already ↦
              rw (found, already, verify_component_meta)
                (Settled-false (unchecked checked) (FollowedBy depth q) checked (omega arith) same)
          | inr new ↦
              rw (found, new, verify_component_meta)
                (Settled-weaken (unchecked checked) (unchecked checked) (Reaches layers depth r)
                  (FollowedBy depth q) _ (omega arith) (FollowedBy-Reaches depth q j r found)
                  (verifies r j checked (omega (arith, f.in_range)) same new few))
        ]

    -- The meta-layers that the names find, each followed by fewer.
    Components : ℕ → List CString → Type 0
    Components depth names =
        (name : CString) (q : LayerPointer)
        → any_equal names name ≡ true
        → find_layer_pointer name layers ≡ some q
        → q.props.is_meta ≡ true
        → FollowedBy depth q

    Components-nil : (depth : ℕ) → Components depth []
    unfolding Components
    Components-nil depth name q none_of_them = absurd (false≢true none_of_them)

    Components-cons :
        (depth : ℕ) (name : CString) (q : LayerPointer) (names : List CString)
        → find_layer_pointer name layers ≡ some q
        → (q.props.is_meta ≡ true → FollowedBy depth q)
        → Components depth names
        → Components depth (name ∷ names)
    unfolding Components
    Components-cons depth name q names found here later other q' listed found' meta =
        elim (Bool-cases (str_eq name other)) [
          | inl same ↦
              let other_is : name ≡ other = (str_eq_iff name other).0 same in
              let q_is : q ≡ q' = cc in subst (FollowedBy depth) q_is (here (cc))
          | inr differs ↦ later other q' (ground (arith, differs)) found' meta
        ]

    verify_components-Settled :
        (depth : ℕ) (verify : Verify) (prop : LayerPointer) (names : List CString)
        (checked : List Bool)
        → Verifies depth verify
        → length checked ≡ length layers
        → unchecked checked ≤ depth
        → Settled (unchecked checked) (Components depth names) (
            verify_components version_major version_minor version_patch layers verify prop names
              checked)
    unfolding verify_components
    verify_components-Settled depth verify prop [] checked verifies same few =
        (omega arith, same, λ t. Components-nil depth)
    verify_components-Settled depth verify prop (name ∷ names) checked verifies same few =
        elim (Option-cases (find_layer_pointer name layers)) [
          | inl missing ↦ rw (missing, verify_components) no
          | inr (q, found) ↦
              elim (Bool-cases
                (meets_version version_major version_minor version_patch layers prop q)) [
                  | inr old ↦ rw (found, old, verify_components) no
                  | inl new ↦ elim (Bool-cases (str_eq prop.props.layer_name name)) [
                    | inl itself ↦ rw (found, new, itself, verify_components) no
                    | inr other ↦ elim (Bool-cases q.props.is_meta) [
                      | inr plain ↦
                          rw (found, new, other, plain, verify_components)
                            (Settled-weaken _ _ (Components depth names)
                              (Components depth (name ∷ names)) _ (omega arith)
                              (Components-cons depth name q names found
                                (λ meta. absurd (false≢true (sym plain ∙ meta))))
                              (verify_components-Settled depth verify prop names checked verifies
                                same few))
                      | inl meta ↦
                          rw (found, new, other, meta, verify_components)
                            (if_valid-Settled (unchecked checked) (FollowedBy depth q)
                              (Components depth (name ∷ names)) _ _
                              (verify_component_meta-Settled depth verify q checked verifies
                                (find_layer_pointer-Memᴰ name layers q found) same few)
                              (λ checked' few' same' follows.
                                Settled-weaken (unchecked checked') (unchecked checked)
                                  (Components depth names) (Components depth (name ∷ names)) _ few'
                                  (Components-cons depth name q names found (λ meta'. follows))
                                  (verify_components-Settled depth verify prop names checked'
                                    verifies same' (omega (arith, few', few)))))
                    ]
                  ]
                ]
        ]
      where
        no : Settled (unchecked checked) (Components depth (name ∷ names)) (verdict false checked)
        no =
            Settled-false (unchecked checked) (Components depth (name ∷ names)) checked
              (omega arith) same

    verify_from-Settled :
        (depth : ℕ)
        → Verifies depth (verify_from version_major version_minor version_patch layers depth)
    unfolding verify_from Verifies Components FollowedBy
    verify_from-Settled zero p i checked inside same new few =
        absurd (omega (arith, unchecked-set checked i (omega (arith, inside, same)) new, few))
    verify_from-Settled (suc depth) p i checked inside same new few =
        let fewer = unchecked-set checked i (omega (arith, inside, same)) new in
        Settled-weaken (unchecked (set checked i true)) (unchecked checked)
          (Components depth p.props.component_layer_names) (Reaches layers (suc depth) p) _
          (omega (arith, fewer)) (λ components. components)
          (verify_components-Settled depth
            (verify_from version_major version_minor version_patch layers depth) p
            p.props.component_layer_names (set checked i true) (verify_from-Settled depth)
            (length-set checked i true ∙ same) (omega (arith, fewer, few)))

-- The verification of a meta-layer of the list ends, with fuel for as many layers as there are, and
-- reads no index beyond the list, whatever cycles there are among the meta-layers. If it says that
-- the meta-layer is valid, then from it no more meta-layers follow each other than there are layers,
-- where a component counts as the last layer of its name.
pub verify_meta_layer_component_layers-Settled :
    (version_major version_minor version_patch : ℕ → ℕ) (layers : List LayerPointer)
    (p : LayerPointer) (i : ℕ)
    → i < length layers
    → Settled layers
        (length layers)
        (Reaches layers (length layers) p)
        (verify_meta_layer_component_layers version_major version_minor version_patch layers p i)
unfolding verify_meta_layer_component_layers Verifies
verify_meta_layer_component_layers-Settled version_major version_minor version_patch layers p i
      inside =
    let all = unchecked-replicate (length layers) in
    Settled-weaken layers _ (length layers) (Reaches layers (length layers) p) _ _
      (omega (arith, all)) (λ r. r)
      (verify_from-Settled layers version_major version_minor version_patch (length layers) p i
        (replicate (length layers) false) inside (length-replicate (length layers) false)
        (get_or-replicate (length layers) i) (omega (arith, all)))
