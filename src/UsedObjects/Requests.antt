-- ===== src/UsedObjects/Requests.antt =====
-- loader/loader.c: what a request for an index and its release do to the entries.
use vulkan_sc_loader.Base.{
  ◌∙◌, sym, next_answer, ap, subst, Bool-cases, ◌-◌, ℕ, ◌*◌, ◌/◌, ◌%◌, ◌^◌, ◌≤◌, ◌<◌, ◌≡◌, refl,
  ◌≢◌, inl, inr, Bool, true, false, ◌&&◌, Option, some, List, [], ◌++◌, set, replicate, length, ltb,
  arith, if◌then◌else◌, VkResult, success, error_out_of_host_memory, Heap, length-append,
  length-set, length-replicate, Option-cases,
}
use vulkan_sc_loader.UsedObjects.{
  ensure_list_and_take, UsedObjectStatus, UsedObjectList, status_size, zero_status, taken,
  init_used_object_list, find_free, grow, take_entry, loader_get_next_available_entry,
  loader_release_object_from_list,
}
use vulkan_sc_loader.UsedObjects.Entries.{
  entry_at, IsValid, get_or-set_self, get_or-set_ne, get_or-replicate, get_or-append_zero,
  get_or-beyond, Found, find_free-Found,
}

module _ {A : Type 0} where
  -- The outcome of a request, against the entries before it. On success the index was free and is now
  -- taken with the caller's callbacks, and no other entry has changed.
  abbrev pub Gives :
      List (UsedObjectStatus A) → Option A → VkResult × Heap × UsedObjectList A × ℕ → Type 0
  Gives list callbacks (success, h, l, i) =
      ((entry_at list i).status ≡ false)
      × (i < length l.list)
      × (entry_at l.list i ≡ taken callbacks)
      × ((j : ℕ) → j ≢ i → entry_at l.list j ≡ entry_at list j)
  Gives list callbacks (error_out_of_host_memory, h, l, i) = l.list ≡ list
  Gives list callbacks (_, h, l, i) = ⊥

  slots_lem : (l : UsedObjectList A) → IsValid l → l.capacity / status_size ≡ length l.list
  slots_lem l v = omega (arith, v.sized)

  -- The entry behind the old ones, in a list that is twice as long.
  grown :
      (list : List (UsedObjectStatus A)) (callbacks : Option A) (n : ℕ)
      → length list ≡ n
      → 0 < n
      → ((entry_at list n).status ≡ false)
        × (n < length (set (list ++ replicate n zero_status) n (taken callbacks)))
        × (entry_at (set (list ++ replicate n zero_status) n (taken callbacks)) n ≡ taken callbacks)
        × ((j : ℕ)
            → j ≢ n
            → entry_at (set (list ++ replicate n zero_status) n (taken callbacks)) j
              ≡ entry_at list j)
  grown list callbacks n e pos =
      let more = list ++ replicate n zero_status in
      let long : n < length more = omega (
        arith,
        length-append list (replicate n zero_status),
        length-replicate n (zero_status {A = A}),
      ) in
      (
        ap (λ (x : UsedObjectStatus A). x.status) (get_or-beyond list n (omega arith)),
        omega (arith, long, length-set more n (taken callbacks)),
        get_or-set_self more n (taken callbacks) long,
        λ j d. get_or-set_ne more n j (taken callbacks) d ∙ get_or-append_zero list n j,
      )

  grow-Gives :
      (h : Heap) (l : UsedObjectList A) (callbacks : Option A)
      → IsValid l
      → 0 < length l.list
      → Gives l.list callbacks (grow h l callbacks)
  unfolding grow
  grow-Gives h l callbacks v n =
      let slots = slots_lem l v in
      let index : length l.list % 2 ^ 32 ≡ length l.list = omega (arith, v.bounded) in
      elim (Bool-cases (next_answer h.answers)) [
        | inl ok ↦ rw (ok, slots, index) (grown l.list callbacks (length l.list) refl n)
        | inr out ↦ rw out refl
      ]

  take_entry-Gives :
      (h : Heap) (l : UsedObjectList A) (callbacks : Option A)
      → IsValid l
      → 0 < length l.list
      → Gives l.list callbacks (take_entry h l callbacks)
  unfolding take_entry
  take_entry-Gives h l callbacks v n = elim (Option-cases (find_free l.list 0)) [
    | inl full ↦ rw (full, take_entry) (grow-Gives h l callbacks v n)
    | inr (i, found) ↦
        rw (found, take_entry)
          (found_entry i (subst (Found l.list 0) found (find_free-Found l.list 0)))
  ]
    where
      found_entry :
          (i : ℕ)
          → Found l.list 0 (some i)
          → Gives l.list callbacks
              (success, h, record l { list = set l.list i (taken callbacks) }, i)
      found_entry i f =
          let e : i - 0 ≡ i = omega arith in
          let inside : i < length l.list = omega arith in
          (
            rw e at f.2,
            omega (arith, inside, length-set l.list i (taken callbacks)),
            get_or-set_self l.list i (taken callbacks) inside,
            λ j d. get_or-set_ne l.list i j (taken callbacks) d,
          )

  first_entry :
      (h : Heap) (l : UsedObjectList A) (callbacks : Option A)
      → Gives [] callbacks (ensure_list_and_take false h l callbacks)
  unfolding init_used_object_list take_entry
  first_entry h l callbacks = elim (Bool-cases (next_answer h.answers)) [
    | inl ok ↦ rw ok (
      refl,
      omega arith,
      refl,
      λ j d.
          get_or-set_ne (replicate 32 zero_status) 0 j (taken callbacks) d ∙ get_or-replicate 32 j,
    )
    | inr out ↦ rw out refl
  ]

  ensure_list_and_take-Gives :
      (b : Bool) (h : Heap) (l : UsedObjectList A) (callbacks : Option A)
      → IsValid l
      → l.allocated ≡ b
      → Gives l.list callbacks (ensure_list_and_take b h l callbacks)
  ensure_list_and_take-Gives true h l callbacks v e = take_entry-Gives h l callbacks v (v.present e)
  ensure_list_and_take-Gives false h l callbacks v e =
      subst (λ list. Gives list callbacks (ensure_list_and_take false h l callbacks))
        (sym (v.absent e)) (first_entry h l callbacks)

  -- A request for an index, on a valid list: on success the index that comes back was free, is now
  -- taken with the caller's callbacks, and every other entry is as before; if memory runs out, so are
  -- all of them.
  pub loader_get_next_available_entry-Gives :
      (h : Heap) (l : UsedObjectList A) (callbacks : Option A)
      → IsValid l
      → Gives l.list callbacks (loader_get_next_available_entry h l callbacks)
  unfolding loader_get_next_available_entry
  loader_get_next_available_entry-Gives h l callbacks v =
      ensure_list_and_take-Gives l.allocated h l callbacks v refl

  release_if :
      (l : UsedObjectList A) (i : ℕ) (b : Bool)
      → (b ≡ true → i < length l.list)
      → (b ≡ false → length l.list ≤ i)
      → let r : UsedObjectList A =
          (if b then record l { list = set l.list i zero_status } else l) in
        (entry_at r.list i ≡ zero_status)
        × ((j : ℕ) → j ≢ i → entry_at r.list j ≡ entry_at l.list j)
  release_if l i true inside beyond = (
    get_or-set_self l.list i zero_status (inside refl),
    λ j d. get_or-set_ne l.list i j zero_status d,
  )
  release_if l i false inside beyond = (get_or-beyond l.list i (beyond refl), λ j d. refl)

  -- Releasing an index frees that entry and no other; beyond the array there is nothing to free.
  pub loader_release_object_from_list_lem :
      (l : UsedObjectList A) (i : ℕ)
      → IsValid l
      → (entry_at (loader_release_object_from_list l i).list i ≡ zero_status)
        × ((j : ℕ)
            → j ≢ i
            → entry_at (loader_release_object_from_list l i).list j ≡ entry_at l.list j)
  unfolding loader_release_object_from_list
  loader_release_object_from_list_lem l i v =
      release_if l i (l.allocated && ltb (i * status_size) l.capacity)
        (λ e. ground (arith, v.sized)) (λ e. beyond l.allocated refl e)
    where
      beyond :
          (b : Bool)
          → l.allocated ≡ b
          → (b && ltb (i * status_size) l.capacity) ≡ false
          → length l.list ≤ i
      beyond true there e = ground (arith, v.sized)
      beyond false missing e = omega (arith, ap length (v.absent missing))
