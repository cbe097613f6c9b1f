-- ===== src/Activation/Names.antt =====
-- loader/loader.c: a list of names with separators is taken apart without loss.
use vulkan_sc_loader.Base.{
  ℕ, zero, suc, ◌≤◌, ◌≡◌, ◌⊎◌, refl, ap, sym, ◌∙◌, false, List, [], ◌∷◌, ◌++◌, CString, ◌==◌,
  ==_iff, Bool-cases, inl, inr, arith, All, length, length-append, append_assoc,
}
use vulkan_sc_loader.Activation.Requested.{loader_get_next_path, path_names}

abbrev pub separator : ℕ
separator = 58

-- The names with a separator after each.
abbrev pub with_separators : List CString → CString
with_separators [] = []
with_separators (name ∷ names) = name ++ separator ∷ with_separators names

abbrev pub HasNoSeparator : CString → Type 0
HasNoSeparator = All (λ b. (b == separator) ≡ false)

-- Either the path had a separator, or its end was reached.
loader_get_next_path-cases :
    (path : CString)
    → ((path ≡ (loader_get_next_path path).0 ++ separator ∷ (loader_get_next_path path).1)
        ⊎ ((path ≡ (loader_get_next_path path).0) × ((loader_get_next_path path).1 ≡ [])))
      × HasNoSeparator (loader_get_next_path path).0
unfolding loader_get_next_path
loader_get_next_path-cases [] = (inr (refl, refl), tt)
loader_get_next_path-cases (b ∷ path) = elim (Bool-cases (b == 58)) [
  | inl here ↦ rw here (inl (ap (λ x. x ∷ path) ((==_iff b 58).0 here)), tt)
  | inr other ↦
      let (cases, no_separator) = loader_get_next_path-cases path in
      rw other (
        elim cases [
          | inl e ↦ inl (ap (λ x. b ∷ x) e)
          | inr (e, at_end) ↦ inr (ap (λ x. b ∷ x) e, at_end)
        ],
        (other, no_separator),
      )
]

-- A name before the separator and the names behind it.
Rejoins : CString → List CString → Type 0
Rejoins path names =
    (with_separators names ≡ path) ⊎ (with_separators names ≡ path ++ separator ∷ [])

Rejoins-cons :
    (path name next : CString) (names : List CString)
    → path ≡ name ++ separator ∷ next
    → Rejoins next names
    → Rejoins path (name ∷ names)
unfolding Rejoins
Rejoins-cons path name next names e (inl same) = inl (ap (λ x. name ++ separator ∷ x) same ∙ sym e)
Rejoins-cons path name next names e (inr more) = inr (
    ap (λ x. name ++ separator ∷ x) more
    ∙ sym (append_assoc name (separator ∷ next) (separator ∷ []))
    ∙ ap (λ x. x ++ separator ∷ []) (sym e))

path_names-nil : (rounds : ℕ) → path_names rounds [] ≡ []
unfolding path_names
path_names-nil zero = refl
path_names-nil (suc rounds) = refl

-- The loop over a list of names goes through all of it: with as many rounds as the list has bytes the
-- names, with a separator after each, are the list again, or the list with a separator at its end.
-- No name has a separator in it.
pub path_names_lem :
    (rounds : ℕ) (path : CString)
    → length path ≤ rounds
    → ((with_separators (path_names rounds path) ≡ path)
        ⊎ (with_separators (path_names rounds path) ≡ path ++ separator ∷ []))
      × All HasNoSeparator (path_names rounds path)
unfolding path_names Rejoins
path_names_lem zero [] enough = (inl refl, tt)
path_names_lem zero (b ∷ path) enough = absurd (omega arith)
path_names_lem (suc rounds) [] enough = (inl refl, tt)
path_names_lem (suc rounds) (b ∷ path) enough =
    let (cases, no_separator) = loader_get_next_path-cases (b ∷ path) in
    elim cases [
      | inl e ↦
          let (name, next) = loader_get_next_path (b ∷ path) in
          let shorter : length next ≤ rounds =
            omega (arith, ap length e, length-append name (separator ∷ next), enough) in
          let (again, none_of_them) = path_names_lem rounds next shorter in
          (
            Rejoins-cons (b ∷ path) name next (path_names rounds next) e again,
            (no_separator, none_of_them),
          )
      | inr (e, at_end) ↦
          let nothing : path_names rounds (loader_get_next_path (b ∷ path)).1 ≡ [] =
            ap (path_names rounds) at_end ∙ path_names-nil rounds in
          rw nothing (inr (ap (λ x. x ++ separator ∷ []) (sym e)), (no_separator, tt))
    ]
