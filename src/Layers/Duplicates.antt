-- ===== src/Layers/Duplicates.antt =====
-- loader/loader.c: what the removal of duplicate layers does, and what it leaves.
use vulkan_sc_loader.Base.{
  false≢true, str_eq_iff, ◌≢◌, ◌<◌, ◌/◌, ap, subst, ℕ, zero, suc, ◌+◌, ◌-◌, ◌≤◌, ◌≡◌, refl, sym,
  ◌∙◌, false, Option, none, some, List, [], ◌∷◌, str_eq, if◌then◌else◌, Bool-cases, Option-cases,
  arith, inl, inr, CString, length, remove_at,
}
use vulkan_sc_loader.Layers.{
  LayerProperties, duplicate_index, without_duplicate, duplicates_loop,
  loader_remove_duplicate_layers, loader_remove_layer_in_list,
}

-- How many layers have a name.
abbrev pub count_name : CString → List LayerProperties → ℕ
count_name name [] = 0
count_name name (l ∷ ls) = (if str_eq name l.layer_name then 1 else 0) + count_name name ls

-- The first layer that has the name, taken out.
abbrev pub without_first : CString → List LayerProperties → List LayerProperties
without_first name [] = []
without_first name (l ∷ ls) = if str_eq name l.layer_name then ls else l ∷ without_first name ls

-- The index that the search from `j` on gives is that of the first layer of the name.
abbrev IsFirst : CString → List LayerProperties → ℕ → Option ℕ → Type 0
IsFirst name ls j none = without_first name ls ≡ ls
IsFirst name ls j (some i) =
    (j ≤ i) × (i - j < length ls) × (remove_at ls (i - j) ≡ without_first name ls)

later_IsFirst :
    (name : CString) (l : LayerProperties) (ls : List LayerProperties) (j : ℕ) (o : Option ℕ)
    → str_eq name l.layer_name ≡ false
    → IsFirst name ls (j + 1) o
    → IsFirst name (l ∷ ls) j o
later_IsFirst name l ls j none other h = rw (other, h) refl
later_IsFirst name l ls j (some i) other (from, inside, h) =
    let e : i - j ≡ suc (i - (j + 1)) = omega arith in
    rw (other, e) (omega arith, omega arith, ap (λ xs. l ∷ xs) h)

duplicate_index-IsFirst :
    (name : CString) (ls : List LayerProperties) (j : ℕ)
    → IsFirst name ls j (duplicate_index name ls j)
unfolding duplicate_index
duplicate_index-IsFirst name [] j = refl
duplicate_index-IsFirst name (l ∷ ls) j = elim (Bool-cases (str_eq name l.layer_name)) [
  | inl same ↦
      let e : j - j ≡ 0 = omega arith in rw (same, e) (omega arith, omega arith, rw same refl)
  | inr other ↦
      rw (other, duplicate_index)
        (later_IsFirst name l ls j (duplicate_index name ls (j + 1)) other
          (duplicate_index-IsFirst name ls (j + 1)))
]

removed_at :
    (ls : List LayerProperties) (i : ℕ)
    → i < length ls
    → loader_remove_layer_in_list ls i ≡ remove_at ls i
unfolding loader_remove_layer_in_list
removed_at ls i inside = ground arith

-- A round takes out the first layer that has the name of the layer at the index.
without_duplicate_lem :
    (l : LayerProperties) (after : List LayerProperties)
    → without_duplicate l after ≡ without_first l.layer_name after
unfolding without_duplicate
without_duplicate_lem l after = elim (Option-cases (duplicate_index l.layer_name after 0)) [
  | inl missing ↦
      rw (missing, without_duplicate)
        (sym (
          subst (IsFirst l.layer_name after 0) missing
            (duplicate_index-IsFirst l.layer_name after 0)))
  | inr (i, found) ↦
      rw (found, without_duplicate)
        (at_index i (
          subst (IsFirst l.layer_name after 0) found
            (duplicate_index-IsFirst l.layer_name after 0)))
]
  where
    at_index :
        (i : ℕ)
        → IsFirst l.layer_name after 0 (some i)
        → loader_remove_layer_in_list after i ≡ without_first l.layer_name after
    at_index i (from, inside, h) =
        let e : i - 0 ≡ i = omega arith in
        removed_at after i (omega arith)
        ∙ subst (λ k. remove_at after k ≡ without_first l.layer_name after) e h

length-without_first :
    (name : CString) (ls : List LayerProperties) → length (without_first name ls) ≤ length ls
length-without_first name [] = omega arith
length-without_first name (l ∷ ls) = ground (arith, length-without_first name ls)

count_name-without_first :
    (name : CString) (ls : List LayerProperties)
    → count_name name (without_first name ls) ≡ count_name name ls - 1
count_name-without_first name [] = refl
count_name-without_first name (l ∷ ls) = ground (arith, count_name-without_first name ls)

str_eq-ne : (a b : CString) → a ≢ b → str_eq a b ≡ false
str_eq-ne a b d = elim (Bool-cases (str_eq a b)) [
  | inl same ↦ absurd (d ((str_eq_iff a b).0 same))
  | inr differs ↦ differs
]

count_name-without_other :
    (name other : CString) (ls : List LayerProperties)
    → name ≢ other
    → count_name name (without_first other ls) ≡ count_name name ls
count_name-without_other name other [] d = refl
count_name-without_other name other (l ∷ ls) d = elim (Bool-cases (str_eq other l.layer_name)) [
  | inl same ↦
      rw
        (
          same,
          str_eq-ne name l.layer_name (λ e. d (e ∙ sym ((str_eq_iff other l.layer_name).0 same))),
        )
        (omega arith)
  | inr differs ↦ rw (differs, count_name-without_other name other ls d) refl
]

duplicates_loop-nil : (rounds : ℕ) → duplicates_loop rounds [] ≡ []
unfolding duplicates_loop
duplicates_loop-nil zero = refl
duplicates_loop-nil (suc rounds) = refl

duplicates_loop-cons :
    (rounds : ℕ) (l : LayerProperties) (after : List LayerProperties)
    → duplicates_loop (suc rounds) (l ∷ after)
      ≡ l ∷ duplicates_loop rounds (without_first l.layer_name after)
unfolding duplicates_loop
duplicates_loop-cons rounds l after =
    ap (λ xs. l ∷ duplicates_loop rounds xs) (without_duplicate_lem l after)

duplicates_loop_lem :
    (rounds : ℕ) (name : CString) (layers : List LayerProperties)
    → length layers ≤ rounds
    → count_name name (duplicates_loop rounds layers) ≡ (count_name name layers + 1) / 2
duplicates_loop_lem zero name [] enough = rw (duplicates_loop-nil zero) (omega arith)
duplicates_loop_lem zero name (l ∷ ls) enough = absurd (omega arith)
duplicates_loop_lem (suc rounds) name [] enough =
    rw (duplicates_loop-nil (suc rounds)) (omega arith)
duplicates_loop_lem (suc rounds) name (l ∷ after) enough =
    let shorter : length (without_first l.layer_name after) ≤ rounds =
      omega (arith, length-without_first l.layer_name after, enough) in
    let rest = duplicates_loop_lem rounds name (without_first l.layer_name after) shorter in
    elim (Bool-cases (str_eq name l.layer_name)) [
      | inl same ↦
          let e = (str_eq_iff name l.layer_name).0 same in
          let left : count_name name (without_first l.layer_name after)
              ≡ count_name name after - 1 =
            subst (λ n. count_name name (without_first n after) ≡ count_name name after - 1) e
              (count_name-without_first name after) in
          rw (duplicates_loop-cons rounds l after, same) (omega (arith, rest, left))
      | inr differs ↦
          let kept =
            count_name-without_other name l.layer_name after
              (λ e. false≢true (sym differs ∙ (str_eq_iff name l.layer_name).1 e)) in
          rw (duplicates_loop-cons rounds l after, differs) (omega (arith, rest, kept))
    ]

-- Of the layers that share a name one pass leaves half, rounded up: one of two, but two of three. So
-- a single layer always stays, and duplicates remain if there are more than two.
pub count_name-loader_remove_duplicate_layers :
    (name : CString) (layers : List LayerProperties)
    → count_name name (loader_remove_duplicate_layers layers) ≡ (count_name name layers + 1) / 2
unfolding loader_remove_duplicate_layers
count_name-loader_remove_duplicate_layers name layers =
    duplicates_loop_lem (length layers) name layers (omega arith)
