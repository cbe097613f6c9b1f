-- ===== src/Activation/Verification/Searches.antt =====
-- loader/loader.c: what the two searches for a name find.
use mathlib.Core.List.{Memᴰ}
use vulkan_sc_loader.Base.{
  ℕ, ◌+◌, ◌<◌, ◌≡◌, refl, ap, ◌∙◌, Bool, true, false, Option, none, some, List, [], ◌∷◌, CString,
  str_eq, Option-cases, inl, inr, arith, length, if◌then◌else◌, str_eq_refl,
}
use vulkan_sc_loader.Activation.{LayerPointer, find_layer_pointer}
use vulkan_sc_loader.Activation.Verification.{last_index}

pub find_layer_pointer-Memᴰ :
    (name : CString) (ps : List LayerPointer) (p : LayerPointer)
    → find_layer_pointer name ps ≡ some p
    → Memᴰ p ps
unfolding find_layer_pointer
find_layer_pointer-Memᴰ name [] p e = cc
find_layer_pointer-Memᴰ name (q ∷ ps) p e =
    split (str_eq name q.props.layer_name) e (find_layer_pointer-Memᴰ name ps p)
  where
    split :
        (x : Bool)
        → (if x then some q else find_layer_pointer name ps) ≡ some p
        → (find_layer_pointer name ps ≡ some p → Memᴰ p ps)
        → Memᴰ p (q ∷ ps)
    split true e' again = Memᴰ.head cc
    split false e' again = Memᴰ.tail (again e')

-- What the search for the last index finds.
pub record IsFound (name : CString) (ps : List LayerPointer) (i j : ℕ) (p : LayerPointer)
    : Type 0 where
  pub in_range : j < i + length ps
  pub named : str_eq name p.props.layer_name ≡ true
  pub member : Memᴰ p ps

pub last_index-IsFound :
    (name : CString) (ps : List LayerPointer) (i j : ℕ) (p : LayerPointer)
    → last_index name ps i ≡ some (j, p)
    → IsFound name ps i j p
unfolding last_index
last_index-IsFound name [] i j p e = cc
last_index-IsFound name (q ∷ ps) i j p e =
    split (last_index name ps (i + 1)) refl e (last_index-IsFound name ps (i + 1) j p)
  where
    IsFound-later : IsFound name ps (i + 1) j p → IsFound name (q ∷ ps) i j p
    IsFound-later f = record {
      in_range = omega (arith, f.in_range);
      named = f.named;
      member = Memᴰ.tail f.member;
    }

    here :
        (x : Bool)
        → str_eq name q.props.layer_name ≡ x
        → if◌then◌else◌ {A = Option (ℕ × LayerPointer)} x (some (i, q)) none ≡ some (j, p)
        → IsFound name (q ∷ ps) i j p
    here false n e' = cc
    here true n e' =
        let at : i ≡ j = cc in
        let this : p ≡ q = cc in
        record { in_range = omega (arith, at); named = rw this n; member = Memᴰ.head this }

    split :
        (later : Option (ℕ × LayerPointer))
        → last_index name ps (i + 1) ≡ later
        → elim later as (λ x. Option (ℕ × LayerPointer)) [
          | none ↦ if str_eq name q.props.layer_name then some (i, q) else none
          | some found ↦ some found
        ]
          ≡ some (j, p)
        → (last_index name ps (i + 1) ≡ some (j, p) → IsFound name ps (i + 1) j p)
        → IsFound name (q ∷ ps) i j p
    split none l e' again = here (str_eq name q.props.layer_name) refl e'
    split (some found) l e' again = IsFound-later (again (l ∙ e'))

pub last_index-some :
    (ps : List LayerPointer) (i : ℕ) (p : LayerPointer)
    → Memᴰ p ps
    → (j : ℕ) × ((q : LayerPointer) × (last_index p.props.layer_name ps i ≡ some (j, q)))
unfolding last_index
last_index-some [] i p m = elim m [ ]
last_index-some (q ∷ ps) i p m = elim (Option-cases (last_index p.props.layer_name ps (i + 1))) [
  | inr ((j, r), found) ↦ (j, (r, rw found refl))
  | inl missing ↦ elim m [
    | Memᴰ.head same ↦ (
      i,
      (q, rw (missing, ap (λ x. x.props.layer_name) same, str_eq_refl q.props.layer_name) refl),
    )
    | Memᴰ.tail m' ↦ let (j, (r, found)) = last_index-some ps (i + 1) p m' in absurd cc
  ]
]
