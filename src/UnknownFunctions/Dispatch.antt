-- ===== src/UnknownFunctions/Dispatch.antt =====
-- loader/unknown_function_handling.c: what the dispatch tables of the devices hold.
use vulkan_sc_loader.Base.{
  ==_iff, ◌==◌, ℕ, zero, suc, ◌+◌, ◌<◌, ◌≡◌, refl, sym, ◌∙◌, ap, subst, inl, inr, Bool, true, false,
  Option, none, some, List, [], ◌∷◌, ◌++◌, map, All, CString, length, length-append, get_or, leb,
  Heap, next_answer, Bool-cases, Option-cases, arith,
}
use vulkan_sc_loader.UnknownFunctions.Table.{get_or-last}
use vulkan_sc_loader.UnknownFunctions.{
  Device, IcdTerm, Instance, max_num_unknown_exts, find_name, supported, add_name,
  loader_dev_ext_gpa_impl, loader_init_dispatch_dev_ext_entry, init_device_entry, init_icd_entry,
  init_entries, loader_init_dispatch_dev_ext, write_entry,
}

-- The entry of each name that the device supports has the device's function of that name.
abbrev pub Serves : List CString → Device → Type 0
Serves names dev =
    (i a : ℕ)
    → i < length names
    → dev.get_device_proc_addr (get_or names i []) ≡ some a
    → dev.ext_dispatch i ≡ some a

-- So it is for all devices of all drivers.
abbrev pub AllServe : List CString → List IcdTerm → Type 0
AllServe names icds = All (λ (icd : IcdTerm). All (Serves names) icd.logical_device_list) icds

All-map :
    {A : Type 0} (P Q : A → Type 0) (f : A → A)
    → ((x : A) → P x → Q (f x))
    → (xs : List A) → All P xs
    → All Q (map f xs)
All-map P Q f step [] h = tt
All-map P Q f step (x ∷ xs) h = (step x h.0, All-map P Q f step xs h.1)

get_or-append :
    (xs ys : List CString) (i : ℕ) → i < length xs → get_or (xs ++ ys) i [] ≡ get_or xs i []
get_or-append [] ys i h = absurd (omega arith)
get_or-append (x ∷ xs) ys zero h = refl
get_or-append (x ∷ xs) ys (suc i) h = get_or-append xs ys i (omega arith)

write_entry-other :
    (table : ℕ → Option ℕ) (idx : ℕ) (value : Option ℕ) (j : ℕ)
    → (j == idx) ≡ false
    → write_entry table idx value j ≡ table j
write_entry-other table idx none j d = refl
write_entry-other table idx (some a) j d = rw d refl

write_entry-same :
    (table : ℕ → Option ℕ) (idx a : ℕ) (value : Option ℕ)
    → value ≡ some a
    → write_entry table idx value idx ≡ some a
write_entry-same table idx a none e = cc
write_entry-same table idx a (some b) e =
    let here : (idx == idx) ≡ true = (==_iff idx idx).1 refl in rw here e

-- The entry for a name that is added at the end of the table.
Serves-append :
    (names : List CString) (name : CString) (dev : Device)
    → Serves names dev
    → Serves (names ++ name ∷ []) (init_device_entry (length names) name dev)
unfolding init_device_entry
Serves-append names name dev s i a inside h = elim (Bool-cases (i == length names)) [
  | inl last ↦
      let e = (==_iff i (length names)).0 last in
      let here : dev.get_device_proc_addr name ≡ some a =
        subst (λ n. dev.get_device_proc_addr n ≡ some a)
          (ap (λ k. get_or (names ++ name ∷ []) k []) e ∙ get_or-last names name) h in
      subst
        (λ k.
          write_entry dev.ext_dispatch (length names) (dev.get_device_proc_addr name) k ≡ some a)
        (sym e)
        (write_entry-same dev.ext_dispatch (length names) a (dev.get_device_proc_addr name) here)
  | inr old ↦
      let below : i < length names = ground (arith, length-append names (name ∷ [])) in
      write_entry-other dev.ext_dispatch (length names) (dev.get_device_proc_addr name) i old
      ∙ s i a below (
          subst (λ n. dev.get_device_proc_addr n ≡ some a) (get_or-append names (name ∷ []) i below)
            h)
]

-- What the loop over the table leaves in a device's dispatch table: the entries below `i` as they were,
-- and from there on those of the names.
record IsFilled (names : List CString) (i : ℕ) (dev dev' : Device) : Type 0 where
  same_device : dev'.get_device_proc_addr ≡ dev.get_device_proc_addr
  below : (j : ℕ) → j < i → dev'.ext_dispatch j ≡ dev.ext_dispatch j
  from :
      (j a : ℕ)
      → j < length names
      → dev.get_device_proc_addr (get_or names j []) ≡ some a
      → dev'.ext_dispatch (i + j) ≡ some a

init_entries-cons :
    (name : CString) (names : List CString) (i : ℕ) (dev : Device)
    → init_entries (name ∷ names) i dev ≡ init_entries names (i + 1) (init_device_entry i name dev)
unfolding init_entries
init_entries-cons name names i dev = refl

init_entries-nil : (i : ℕ) (dev : Device) → init_entries [] i dev ≡ dev
unfolding init_entries
init_entries-nil i dev = refl

IsFilled-cons :
    (name : CString) (names : List CString) (i : ℕ) (dev dev' : Device)
    → IsFilled names (i + 1) (init_device_entry i name dev) dev'
    → IsFilled (name ∷ names) i dev dev'
unfolding init_device_entry
IsFilled-cons name names i dev dev' f = record {
  same_device = f.same_device;
  below = λ j h.
      f.below j (omega arith)
      ∙ write_entry-other dev.ext_dispatch i (dev.get_device_proc_addr name) j (ground arith);
  from = from;
}
  where
    from :
        (j a : ℕ)
        → j < suc (length names)
        → dev.get_device_proc_addr (get_or (name ∷ names) j []) ≡ some a
        → dev'.ext_dispatch (i + j) ≡ some a
    from zero a inside h =
        let e : i + 0 ≡ i = omega arith in
        rw e (
          f.below i (omega arith)
          ∙ write_entry-same dev.ext_dispatch i a (dev.get_device_proc_addr name) h)
    from (suc j) a inside h =
        let e : i + suc j ≡ i + 1 + j = omega arith in rw e (f.from j a (omega arith) h)

init_entries-IsFilled :
    (names : List CString) (i : ℕ) (dev : Device) → IsFilled names i dev (init_entries names i dev)
init_entries-IsFilled [] i dev =
    rw (init_entries-nil i dev)
      (record { same_device = refl; below = λ j h. refl; from = λ j a h. absurd (omega arith) })
init_entries-IsFilled (name ∷ names) i dev = rw (init_entries-cons name names i dev) (
    IsFilled-cons name names i dev _
      (init_entries-IsFilled names (i + 1) (init_device_entry i name dev)))

-- A new device's table is filled with its functions for all the names that are known.
pub loader_init_dispatch_dev_ext-Serves :
    (inst : Instance) (dev : Device)
    → Serves inst.dev_ext_disp_functions (loader_init_dispatch_dev_ext inst dev)
unfolding loader_init_dispatch_dev_ext
loader_init_dispatch_dev_ext-Serves inst dev i a inside h =
    let f = init_entries-IsFilled inst.dev_ext_disp_functions 0 dev in
    let e : 0 + i ≡ i = omega arith in rw e at (f.from i a inside (rw f.same_device at h))

abbrev pub StaysInStep : Option ℕ × Heap × Instance → Type 0
StaysInStep (o, h, inst) = AllServe inst.dev_ext_disp_functions inst.icd_terms

AllServe-append :
    (names : List CString) (name : CString) (icds : List IcdTerm)
    → AllServe names icds
    → AllServe (names ++ name ∷ []) (map (init_icd_entry (length names) name) icds)
AllServe-append names name icds s =
    All-map (λ (icd : IcdTerm). All (Serves names) icd.logical_device_list)
      (λ (icd : IcdTerm). All (Serves (names ++ name ∷ [])) icd.logical_device_list)
      (init_icd_entry (length names) name)
      (λ icd.
        All-map (Serves names) (Serves (names ++ name ∷ [])) (init_device_entry (length names) name)
          (Serves-append names name) icd.logical_device_list)
      icds s

add_name-StaysInStep :
    (h : Heap) (inst : Instance) (name : CString)
    → AllServe inst.dev_ext_disp_functions inst.icd_terms
    → StaysInStep (add_name h inst name)
unfolding add_name loader_init_dispatch_dev_ext_entry
add_name-StaysInStep h inst name s =
    elim (Bool-cases (leb max_num_unknown_exts (length inst.dev_ext_disp_functions))) [
      | inl full ↦ rw full s
      | inr room ↦ elim (Bool-cases (next_answer h.answers)) [
        | inr out ↦ rw (room, out) s
        | inl ok ↦ rw (room, ok) (AllServe-append inst.dev_ext_disp_functions name inst.icd_terms s)
      ]
    ]

-- A request keeps the dispatch tables in step with the table of names: for every device and every name
-- that it supports, the entry has the device's function of that name, also for the name that the
-- request adds.
pub loader_dev_ext_gpa_impl-StaysInStep :
    (h : Heap) (inst : Instance) (name : CString) (is_tramp : Bool)
    → AllServe inst.dev_ext_disp_functions inst.icd_terms
    → StaysInStep (loader_dev_ext_gpa_impl h inst name is_tramp)
unfolding loader_dev_ext_gpa_impl
loader_dev_ext_gpa_impl-StaysInStep h inst name is_tramp s =
    elim (Option-cases (find_name name inst.dev_ext_disp_functions 0)) [
      | inl new ↦ elim (Bool-cases (supported inst name is_tramp)) [
        | inl known ↦
            rw (new, loader_dev_ext_gpa_impl) (rw known (add_name-StaysInStep h inst name s))
        | inr unknown ↦ rw (new, loader_dev_ext_gpa_impl) (rw unknown s)
      ]
      | inr (i, found) ↦ rw (found, loader_dev_ext_gpa_impl) s
    ]
