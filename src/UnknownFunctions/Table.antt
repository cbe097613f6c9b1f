-- ===== src/UnknownFunctions/Table.antt =====
-- loader/unknown_function_handling.c: an index of the table stands for one name for good.
use vulkan_sc_loader.Base.{
  ◌↔◌, ℕ, suc, ◌+◌, ◌-◌, ◌≤◌, ◌<◌, ◌≡◌, refl, sym, ◌∙◌, ap, subst, ◌⊎◌, inl, inr, Bool, true,
  Option, none, some, List, [], ◌∷◌, ◌++◌, CString, str_eq, str_eq_iff, str_eq_refl, length,
  length-append, get_or, leb, if◌then◌else◌, Heap, next_answer, Bool-cases, Option-cases, arith,
}
use mathlib.Core.List.{Memᴰ}
use vulkan_sc_loader.UnknownFunctions.Support.{IsSupported, supported_iff, find_name_iff}
use vulkan_sc_loader.UnknownFunctions.{
  is_some, Instance, max_num_unknown_exts, find_name, supported, add_name, loader_dev_ext_gpa_impl,
  loader_init_dispatch_dev_ext_entry,
}

find_name-cons :
    (name x : CString) (xs : List CString) (i : ℕ)
    → find_name name (x ∷ xs) i ≡ (if str_eq x name then some i else find_name name xs (i + 1))
unfolding find_name
find_name-cons name x xs i = refl

find_name-nil : (name : CString) (i : ℕ) → find_name name [] i ≡ none
unfolding find_name
find_name-nil name i = refl

-- What the search finds is there.
abbrev pub IsAt : CString → List CString → ℕ → Option ℕ → Type 0
IsAt name xs i none = Unit
IsAt name xs i (some k) = (i ≤ k) × (k - i < length xs) × (get_or xs (k - i) [] ≡ name)

later_IsAt :
    (name x : CString) (xs : List CString) (i : ℕ) (o : Option ℕ)
    → IsAt name xs (i + 1) o
    → IsAt name (x ∷ xs) i o
later_IsAt name x xs i none h = tt
later_IsAt name x xs i (some k) (from, inside, h) =
    let e : k - i ≡ suc (k - (i + 1)) = omega arith in rw e (omega arith, omega arith, h)

pub find_name-IsAt :
    (name : CString) (xs : List CString) (i : ℕ) → IsAt name xs i (find_name name xs i)
find_name-IsAt name [] i = rw (find_name-nil name i) tt
find_name-IsAt name (x ∷ xs) i = elim (Bool-cases (str_eq x name)) [
  | inl same ↦
      let e : i - i ≡ 0 = omega arith in
      rw (find_name-cons name x xs i, same, e)
        (omega arith, omega arith, (str_eq_iff x name).0 same)
  | inr other ↦
      rw (find_name-cons name x xs i, other)
        (later_IsAt name x xs i (find_name name xs (i + 1)) (find_name-IsAt name xs (i + 1)))
]

-- A name that is found is found at the same index after others are added.
pub find_name-append :
    (name : CString) (xs ys : List CString) (i k : ℕ)
    → find_name name xs i ≡ some k
    → find_name name (xs ++ ys) i ≡ some k
find_name-append name [] ys i k e =
    let nothing : none ≡ some k = sym (find_name-nil name i) ∙ e in cc
find_name-append name (x ∷ xs) ys i k e = elim (Bool-cases (str_eq x name)) [
  | inl same ↦
      rw (find_name-cons name x (xs ++ ys) i, same) (rw (find_name-cons name x xs i, same) at e)
  | inr other ↦
      rw (find_name-cons name x (xs ++ ys) i, other)
        (find_name-append name xs ys (i + 1) k (rw (find_name-cons name x xs i, other) at e))
]

-- A name that was not there is found where it is added.
pub find_name-added :
    (name : CString) (xs : List CString) (i : ℕ)
    → find_name name xs i ≡ none
    → find_name name (xs ++ name ∷ []) i ≡ some (i + length xs)
find_name-added name [] i e =
    rw (find_name-cons name name [] i, str_eq_refl name) (ap some (omega arith))
find_name-added name (x ∷ xs) i e = elim (Bool-cases (str_eq x name)) [
  | inl same ↦ let nothing : some i ≡ none = rw (find_name-cons name x xs i, same) at e in cc
  | inr other ↦
      rw (find_name-cons name x (xs ++ name ∷ []) i, other)
        (find_name-added name xs (i + 1) (rw (find_name-cons name x xs i, other) at e)
          ∙ ap some (omega arith))
]

pub get_or-last : (xs : List CString) (x : CString) → get_or (xs ++ x ∷ []) (length xs) [] ≡ x
get_or-last [] x = refl
get_or-last (y ∷ xs) x = get_or-last xs x

-- The result of a request against the instance before it. A trampoline is inside the table and stands
-- for the name: a second request finds it again; and the null pointer leaves the table as it was.
abbrev pub Gives : Instance → CString → Option ℕ × Heap × Instance → Type 0
Gives inst name (none, h, inst') = inst'.dev_ext_disp_functions ≡ inst.dev_ext_disp_functions
Gives inst name (some i, h, inst') =
    (i < max_num_unknown_exts)
    × (get_or inst'.dev_ext_disp_functions i [] ≡ name)
    × (find_name name inst'.dev_ext_disp_functions 0 ≡ some i)
    × (length inst'.dev_ext_disp_functions ≤ max_num_unknown_exts)
    × ((other : CString) (j : ℕ)
        → find_name other inst.dev_ext_disp_functions 0 ≡ some j
        → find_name other inst'.dev_ext_disp_functions 0 ≡ some j)

add_name-Gives :
    (h : Heap) (inst : Instance) (name : CString)
    → length inst.dev_ext_disp_functions ≤ max_num_unknown_exts
    → find_name name inst.dev_ext_disp_functions 0 ≡ none
    → Gives inst name (add_name h inst name)
unfolding add_name loader_init_dispatch_dev_ext_entry
add_name-Gives h inst name few new =
    elim (Bool-cases (leb max_num_unknown_exts (length inst.dev_ext_disp_functions))) [
      | inl full ↦ rw full refl
      | inr room ↦ elim (Bool-cases (next_answer h.answers)) [
        | inr out ↦ rw (room, out) refl
        | inl ok ↦
            let below : length inst.dev_ext_disp_functions < max_num_unknown_exts = ground arith in
            rw (room, ok)
              (
                below,
                get_or-last inst.dev_ext_disp_functions name,
                find_name-added name inst.dev_ext_disp_functions 0 new ∙ ap some (omega arith),
                omega (arith, below, length-append inst.dev_ext_disp_functions (name ∷ [])),
                λ other j e. find_name-append other inst.dev_ext_disp_functions (name ∷ []) 0 j e,
              )
      ]
    ]

-- A trampoline that a request gives has an index inside the table, at which the requested name
-- stands and at which it is found from then on; the table does not outgrow its array, and every name
-- that had an index keeps it. If the request gives the null pointer the table is as before.
pub loader_dev_ext_gpa_impl-Gives :
    (h : Heap) (inst : Instance) (name : CString) (is_tramp : Bool)
    → length inst.dev_ext_disp_functions ≤ max_num_unknown_exts
    → Gives inst name (loader_dev_ext_gpa_impl h inst name is_tramp)
unfolding loader_dev_ext_gpa_impl
loader_dev_ext_gpa_impl-Gives h inst name is_tramp few =
    elim (Option-cases (find_name name inst.dev_ext_disp_functions 0)) [
      | inl new ↦ elim (Bool-cases (supported inst name is_tramp)) [
        | inl known ↦
            rw (new, loader_dev_ext_gpa_impl) (rw known (add_name-Gives h inst name few new))
        | inr unknown ↦ rw (new, loader_dev_ext_gpa_impl) (rw unknown refl)
      ]
      | inr (i, found) ↦
          let at =
            subst (IsAt name inst.dev_ext_disp_functions 0) found
              (find_name-IsAt name inst.dev_ext_disp_functions 0) in
          let e : i - 0 ≡ i = omega arith in
          rw (found, loader_dev_ext_gpa_impl)
            (omega (arith, at.1, few, e), rw e at at.2, found, few, λ other j h. h)
    ]

some_in_steps :
    (h : Heap) (inst : Instance) (name : CString) (is_tramp : Bool)
    → (is_some (loader_dev_ext_gpa_impl h inst name is_tramp).0 ≡ true) ↔ (
        (is_some (find_name name inst.dev_ext_disp_functions 0) ≡ true)
        ⊎ ((supported inst name is_tramp ≡ true)
            × (length inst.dev_ext_disp_functions < max_num_unknown_exts)
            × (next_answer h.answers ≡ true)))
unfolding loader_dev_ext_gpa_impl add_name
some_in_steps h inst name is_tramp =
    elim (Option-cases (find_name name inst.dev_ext_disp_functions 0)) [
      | inl new ↦ rw (new, loader_dev_ext_gpa_impl) (ground arith)
      | inr (i, found) ↦ rw (found, loader_dev_ext_gpa_impl) (λ h. inl refl, λ h. refl)
    ]

-- Exactly then is there a trampoline: the name is in the table; or the table has room, there is memory
-- for the name, and it is supported: one of the drivers gives an address for it, or the request comes
-- from the trampoline side and the manifest of a layer lists the name among its entry points, or the
-- first layer has a lookup that gives an address for it.
pub loader_dev_ext_gpa_impl-some_iff :
    (h : Heap) (inst : Instance) (name : CString) (is_tramp : Bool)
    → (is_some (loader_dev_ext_gpa_impl h inst name is_tramp).0 ≡ true) ↔ (
        Memᴰ name inst.dev_ext_disp_functions
        ⊎ (IsSupported inst name is_tramp
            × (length inst.dev_ext_disp_functions < max_num_unknown_exts)
            × (next_answer h.answers ≡ true)))
loader_dev_ext_gpa_impl-some_iff h inst name is_tramp =
    let steps = some_in_steps h inst name is_tramp in
    let found = find_name_iff name inst.dev_ext_disp_functions 0 in
    let known = supported_iff inst name is_tramp in
    (
      λ e. elim (steps.0 e) [
        | inl f ↦ inl (found.0 f)
        | inr (s, room, memory) ↦ inr (known.0 s, room, memory)
      ],
      λ e. steps.1 (elim e [
        | inl m ↦ inl (found.1 m)
        | inr (s, room, memory) ↦ inr (known.1 s, room, memory)
      ]),
    )
