-- ===== src/UsedObjects/Validity.antt =====
-- loader/loader.c: the shape of the list of used objects, through requests and releases.
use vulkan_sc_loader.Base.{
  incomplete, error_initialization_failed, error_layer_not_present, error_extension_not_present,
  error_incompatible_driver, false≢true, ℕ_discrete, ◌∙◌, sym, next_answer, Bool-cases, ℕ, ◌*◌, ◌/◌,
  ◌%◌, ◌^◌, ◌<◌, ◌≡◌, refl, inl, inr, Bool, true, false, Option, ◌++◌, set, replicate, length,
  arith, VkResult, success, error_out_of_host_memory, Heap, length-append, length-set,
  length-replicate, Option-cases,
}
use vulkan_sc_loader.UsedObjects.{
  ensure_list_and_take, UsedObjectList, status_size, zero_status, taken, init_used_object_list,
  find_free, grow, take_entry, loader_get_next_available_entry, loader_release_object_from_list,
}
use vulkan_sc_loader.UsedObjects.Entries.{entry_at, IsValid}
use vulkan_sc_loader.UsedObjects.Requests.{
  Gives, loader_get_next_available_entry-Gives, loader_release_object_from_list_lem,
}

module _ {A : Type 0} where
  -- The list stays valid as long as it has fewer than 2 ^ 31 entries.
  abbrev pub StaysValid : VkResult × Heap × UsedObjectList A × ℕ → Type 0
  StaysValid (res, h, l, i) = IsValid l

  grow-StaysValid :
      (h : Heap) (l : UsedObjectList A) (callbacks : Option A)
      → IsValid l
      → length l.list < 2 ^ 31
      → l.allocated ≡ true
      → StaysValid (grow h l callbacks)
  unfolding grow
  grow-StaysValid h l callbacks v small there = elim (Bool-cases (next_answer h.answers)) [
    | inl ok ↦ rw ok (record {
      sized = omega (arith, v.sized, new_length);
      absent = λ e. absurd (false≢true (sym e ∙ there));
      present = λ e. omega (arith, new_length, v.present there);
      bounded = omega (arith, new_length);
    })
    | inr out ↦ rw out v
  ]
    where
      new_length :
          length (
            set
              (l.list ++ replicate (l.capacity / status_size) zero_status)
              (l.capacity / status_size % 2 ^ 32)
              (taken callbacks))
          ≡ length l.list * 2
      new_length = omega (
        arith,
        v.sized,
        length-set (l.list ++ replicate (l.capacity / status_size) zero_status)
            (l.capacity / status_size % 2 ^ 32) (taken callbacks),
        length-append l.list (replicate (l.capacity / status_size) zero_status),
        length-replicate (l.capacity / status_size) (zero_status {A = A}),
      )

  take_entry-StaysValid :
      (h : Heap) (l : UsedObjectList A) (callbacks : Option A)
      → IsValid l
      → length l.list < 2 ^ 31
      → l.allocated ≡ true
      → StaysValid (take_entry h l callbacks)
  unfolding take_entry
  take_entry-StaysValid h l callbacks v small there = elim (Option-cases (find_free l.list 0)) [
    | inl full ↦ rw (full, take_entry) (grow-StaysValid h l callbacks v small there)
    | inr (i, found) ↦ rw (found, take_entry) (written i)
  ]
    where
      written : (i : ℕ) → IsValid (record l { list = set l.list i (taken callbacks) })
      written i =
          let same = length-set l.list i (taken callbacks) in
          record {
            sized = omega (arith, v.sized, same);
            absent = λ e. absurd (false≢true (sym e ∙ there));
            present = λ e. omega (arith, same, v.present there);
            bounded = omega (arith, same, v.bounded);
          }

  ensure-StaysValid :
      (b : Bool) (h : Heap) (l : UsedObjectList A) (callbacks : Option A)
      → IsValid l
      → length l.list < 2 ^ 31
      → l.allocated ≡ b
      → StaysValid (ensure_list_and_take b h l callbacks)
  unfolding init_used_object_list
  ensure-StaysValid true h l callbacks v small e = take_entry-StaysValid h l callbacks v small e
  ensure-StaysValid false h l callbacks v small e = elim (Bool-cases (next_answer h.answers)) [
    | inl ok ↦ rw ok (
        take_entry-StaysValid _ _ callbacks
          (record {
            sized = refl;
            absent = λ e. cc;
            present = λ e. omega arith;
            bounded = omega arith;
          })
          (omega arith) refl)
    | inr out ↦
        rw out
          (record { sized = refl; absent = λ e. refl; present = λ e. cc; bounded = omega arith })
  ]

  -- A request keeps the list valid, whether or not it succeeds, as long as there are fewer than
  -- 2 ^ 31 entries.
  pub loader_get_next_available_entry-StaysValid :
      (h : Heap) (l : UsedObjectList A) (callbacks : Option A)
      → IsValid l
      → length l.list < 2 ^ 31
      → StaysValid (loader_get_next_available_entry h l callbacks)
  unfolding loader_get_next_available_entry
  loader_get_next_available_entry-StaysValid h l callbacks v small =
      ensure-StaysValid l.allocated h l callbacks v small refl

  abbrev pub Restores : UsedObjectList A → VkResult × Heap × UsedObjectList A × ℕ → Type 0
  Restores l (success, h, l', i) =
      (j : ℕ)
      → (entry_at (loader_release_object_from_list l' i).list j).status ≡ (entry_at l.list j).status
  Restores l (_, h, l', i) = (j : ℕ) → (entry_at l'.list j).status ≡ (entry_at l.list j).status

  restores :
      (l : UsedObjectList A) (callbacks : Option A) (o : VkResult × Heap × UsedObjectList A × ℕ)
      → StaysValid o
      → Gives l.list callbacks o
      → Restores l o
  restores l callbacks (success, h, l', i) v g = λ j.
      let (self, others) = loader_release_object_from_list_lem l' i v in
      elim (ℕ_discrete j i) [
        | yes same ↦ rw (same, self) (sym g.0)
        | no differs ↦ rw (others j differs, g.3 j differs) refl
      ]
  restores l callbacks (error_out_of_host_memory, h, l', i) v g = λ j. rw g
  restores l callbacks (incomplete, h, l', i) v g = absurd g
  restores l callbacks (error_initialization_failed, h, l', i) v g = absurd g
  restores l callbacks (error_layer_not_present, h, l', i) v g = absurd g
  restores l callbacks (error_extension_not_present, h, l', i) v g = absurd g
  restores l callbacks (error_incompatible_driver, h, l', i) v g = absurd g

  -- On a valid list of fewer than 2 ^ 31 entries, taking an index and giving it back leaves every
  -- index as free or as taken as it was.
  pub release-get :
      (h : Heap) (l : UsedObjectList A) (callbacks : Option A)
      → IsValid l
      → length l.list < 2 ^ 31
      → Restores l (loader_get_next_available_entry h l callbacks)
  release-get h l callbacks v small =
      restores l callbacks (loader_get_next_available_entry h l callbacks)
        (loader_get_next_available_entry-StaysValid h l callbacks v small)
        (loader_get_next_available_entry-Gives h l callbacks v)
