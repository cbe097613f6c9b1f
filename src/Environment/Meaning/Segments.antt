-- ===== src/Environment/Meaning/Segments.antt =====
-- loader/loader_environment.c: the comparison of a segment, and the sliding loop, against equations
-- between texts.
use vulkan_sc_loader.Base.{
  ℕ, zero, suc, ◌+◌, ◌-◌, ◌≤◌, ◌<◌, ◌≡◌, refl, sym, ap, ◌∙◌, inl, inr, true, [], ◌∷◌, ◌++◌, CString,
  lower, tolower, length, drop, take, append-nil, arith, Bool-cases, length-append, length-map,
  ==_iff, length-drop,
}
use vulkan_sc_loader.Environment.Match.{name_segment_matches_filter_value, slide}

length-lower : (s : CString) → length (lower s) ≡ length s
length-lower s = length-map tolower s

pub lower-take-drop : (n : ℕ) (s : CString) → lower s ≡ lower (take n s) ++ lower (drop n s)
lower-take-drop zero s = refl
lower-take-drop (suc n) [] = refl
lower-take-drop (suc n) (c ∷ s) = ap (◌∷◌ (tolower c)) (lower-take-drop n s)

pub segment_sound :
    (name v : CString)
    → length v ≤ length name
    → name_segment_matches_filter_value name v (length v) ≡ true
    → lower name ≡ v ++ lower (drop (length v) name)
unfolding name_segment_matches_filter_value
segment_sound name [] h e = refl
segment_sound [] (d ∷ v) h e = absurd (omega arith)
segment_sound (c ∷ name) (d ∷ v) h e = ground (arith, segment_sound name v, ==_iff (tolower c) d)

pub segment_complete :
    (name v b : CString)
    → lower name ≡ v ++ b
    → name_segment_matches_filter_value name v (length v) ≡ true
unfolding name_segment_matches_filter_value
segment_complete name [] b e = refl
segment_complete [] (d ∷ v) b e = cc
segment_complete (c ∷ name) (d ∷ v) b e =
    ground (arith, segment_complete name v b, ==_iff (tolower c) d)

length_zero : (s : CString) → length s ≡ 0 → s ≡ []
length_zero [] h = refl
length_zero (c ∷ s) h = absurd (omega arith)

-- With equal lengths nothing is left behind the segment.
pub exact_sound :
    (name v : CString)
    → length name ≡ length v
    → name_segment_matches_filter_value name v (length v) ≡ true
    → lower name ≡ v
exact_sound name v h e =
    segment_sound name v (omega arith) e
    ∙ ap (λ s. v ++ lower s)
        (length_zero (drop (length v) name) (omega (arith, length-drop (length v) name)))
    ∙ append-nil v

pub suffix_sound :
    (name v : CString)
    → length v ≤ length name
    → name_segment_matches_filter_value (drop (length name - length v) name) v (length v) ≡ true
    → (a : CString) × (lower name ≡ a ++ v)
suffix_sound name v h e =
    let k = length name - length v in
    (
      lower (take k name),
      lower-take-drop k name
          ∙ ap (λ s. lower (take k name) ++ s)
              (exact_sound (drop k name) v (omega (arith, length-drop k name)) e),
    )

drop-append_any : (a s : CString) → drop (length a) (a ++ s) ≡ s
drop-append_any [] s = refl
drop-append_any (c ∷ a) s = drop-append_any a s

lower-drop : (n : ℕ) (s : CString) → lower (drop n s) ≡ drop n (lower s)
lower-drop zero s = refl
lower-drop (suc n) [] = refl
lower-drop (suc n) (c ∷ s) = lower-drop n s

pub suffix_complete :
    (name v a : CString)
    → lower name ≡ a ++ v
    → name_segment_matches_filter_value (drop (length name - length v) name) v (length v) ≡ true
suffix_complete name v a e =
    let k : length name - length v ≡ length a =
      omega (arith, length-lower name, ap length e, length-append a v) in
    rw k (
      segment_complete (drop (length a) name) v [] (
        lower-drop (length a) name
        ∙ ap (drop (length a)) e
        ∙ drop-append_any a v
        ∙ sym (append-nil v)))

pub slide_sound :
    (rounds : ℕ) (name v : CString)
    → rounds + length v ≤ length name + 1
    → slide rounds name v (length v) ≡ true
    → (a : CString) × (b : CString) × (lower name ≡ a ++ v ++ b)
unfolding slide
slide_sound zero name v h e = cc
slide_sound (suc zero) [] v h e =
    elim (Bool-cases (name_segment_matches_filter_value [] v (length v))) [
      | inl here ↦ ([], lower (drop (length v) []), segment_sound [] v (omega arith) here)
      | inr later ↦ absurd (ground arith)
    ]
slide_sound (suc (suc rounds)) [] v h e = absurd (omega arith)
slide_sound (suc rounds) (c ∷ name) v h e =
    elim (Bool-cases (name_segment_matches_filter_value (c ∷ name) v (length v))) [
      | inl here ↦
          ([], lower (drop (length v) (c ∷ name)), segment_sound (c ∷ name) v (omega arith) here)
      | inr later ↦
          let (a, b, p) = slide_sound rounds name v (omega arith) (rw (later, slide) at e) in
          (tolower c ∷ a, b, ap (◌∷◌ (tolower c)) p)
    ]

pub slide_complete :
    (rounds : ℕ) (name v a b : CString)
    → length a < rounds
    → lower name ≡ a ++ v ++ b
    → slide rounds name v (length v) ≡ true
unfolding slide
slide_complete zero name v a b h e = elim h [ ]
slide_complete (suc rounds) name v [] b h e = rw (segment_complete name v b e)
slide_complete (suc rounds) [] v (d ∷ a) b h e = cc
slide_complete (suc rounds) (c ∷ name) v (d ∷ a) b h e =
    let rest : slide rounds name v (length v) ≡ true =
      slide_complete rounds name v a b (omega arith) (cc) in
    elim (Bool-cases (name_segment_matches_filter_value (c ∷ name) v (length v))) [
      | inl here ↦ rw here
      | inr later ↦ rw (later, rest)
    ]
