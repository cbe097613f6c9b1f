-- ===== src/Settings/Combined.antt =====
-- loader/settings.c: which layers the combination of two lists has, and in which order.
use vulkan_sc_loader.Base.{
  ◌∙◌, subst, ◌==◌, ℕ, ◌+◌, ◌*◌, ◌%◌, ◌^◌, ◌≤◌, ◌<◌, ◌≡◌, refl, sym, ap, ◌≢◌, Bool, true, false,
  not, ◌&&◌, ◌||◌, some, List, [], ◌∷◌, ◌++◌, Bool-cases, arith, inl, inr, length, length-append,
  append_assoc, Heap, success, CString, error_out_of_host_memory, next_answer,
}
use native.Mathlib.Nat.{mul-le-mul_right}
use vulkan_sc_loader.Layers.{LayerProperties}
use vulkan_sc_loader.Layers.Lists.{LayerList, init_layer_list, no_layers}
use vulkan_sc_loader.Settings.{
  Combining, split_at_location, combine_in_order, combine_split,
  combine_settings_layers_with_regular_layers,
}
use vulkan_sc_loader.Settings.Names.{
  added, left, added_regular, has_layer, has_layer-append, has_layer-added, has_layer-of_added,
  has_layer-left, has_layer-added_regular, length-added, length-added_regular,
}
use vulkan_sc_loader.Settings.Picks.{
  PicksUnlisted, PicksUnknown, added-PicksUnlisted, added_regular-PicksUnknown,
}
use vulkan_sc_loader.Settings.Loops.{
  holding, HasRoom, HasRoom-less, settings_loop_lem, regular_loop_lem,
}
use vulkan_sc_loader.Settings.Location.{Splits, split_at_location-Splits}

-- The output, against the settings' layers before the location entry, that entry, those behind it, and
-- the regular layers: what the three walks take, one behind the other, and the names that it has.
pub record IsCombined (before : List LayerProperties) (location : LayerProperties)
    (after regular output : List LayerProperties) : Type 0 where
  pub first : List LayerProperties
  pub middle : List LayerProperties
  pub last : List LayerProperties
  pub in_order : output ≡ first ++ (middle ++ last)
  pub first_picks : PicksUnlisted [] before first
  pub middle_picks : PicksUnknown (before ++ location ∷ after) first regular middle
  pub last_picks : PicksUnlisted (first ++ middle) after last
  pub first_names : (n : CString) → has_layer n first ≡ has_layer n before
  pub middle_names :
      (n : CString)
      → n ≢ []
      → has_layer n middle ≡ (has_layer n regular && not (has_layer n (before ++ location ∷ after)))
  pub last_names : (n : CString) → has_layer n last ≡ true → has_layer n after ≡ true
  pub all_names :
      (n : CString)
      → n ≢ []
      → has_layer n output ≡ (
          has_layer n before
          || has_layer n after
          || (has_layer n regular && not (has_layer n (before ++ location ∷ after))))

combined :
    (before : List LayerProperties) (location : LayerProperties)
    (after regular : List LayerProperties)
    → let first = added [] before in
      let settings = left [] before ++ location ∷ after in
      let middle = added_regular settings first regular in
      IsCombined before location after regular ((first ++ middle) ++ added (first ++ middle) after)
combined before location after regular = record {
  first = added [] before;
  middle = mid;
  last = added (added [] before ++ mid) after;
  in_order = append_assoc (added [] before) mid (added (added [] before ++ mid) after);
  first_picks = added-PicksUnlisted [] before;
  middle_picks =
      added_regular-PicksUnknown before (location ∷ after) (added [] before) regular
        (λ n h. has_layer-added n [] before ∙ h);
  last_picks = added-PicksUnlisted (added [] before ++ mid) after;
  first_names = λ n. has_layer-added n [] before;
  middle_names = middle_names;
  last_names = λ n. has_layer-of_added n (added [] before ++ mid) after;
  all_names = λ n d.
      let a = has_layer-added n (added [] before ++ mid) after in
      let b = has_layer-append n (added [] before) mid in
      let c = has_layer-added n [] before in let m = middle_names n d in ground (arith);
}
  where
    mid : List LayerProperties
    mid = added_regular (left [] before ++ location ∷ after) (added [] before) regular

    middle_names :
        (n : CString)
        → n ≢ []
        → has_layer n mid ≡ (has_layer n regular && not (has_layer n (before ++ location ∷ after)))
    middle_names n d =
        let a =
          has_layer-added_regular n (left [] before ++ location ∷ after) (added [] before)
            regular in
        let b = has_layer-append n (left [] before) (location ∷ after) in
        let c = has_layer-added n [] before in
        let l = has_layer-left n [] before d in
        let e = has_layer-append n before (location ∷ after) in ground (arith)

-- The outcome, if the array for the output can be allocated or not.
abbrev pub Combines :
    Bool
    → List LayerProperties
    → LayerProperties
    → List LayerProperties
    → List LayerProperties
    → Combining Unit
    → Type 0
Combines true before location after regular (some (success, h, out, t)) =
    IsCombined before location after regular out.list × (out.count ≡ length out.list)
Combines false before location after regular (some (error_out_of_host_memory, h, out, t)) =
    out ≡ no_layers
Combines ok before location after regular _ = ⊥

three_loops :
    (size capacity : ℕ) (before : List LayerProperties) (location : LayerProperties)
    → (after regular : List LayerProperties) (h : Heap)
    → HasRoom size capacity (length before + length regular + length after) []
    → combine_in_order size before location after regular h (holding capacity [])
      ≡ some (
        success,
        h,
        holding capacity (
            (added [] before
              ++ added_regular (left [] before ++ location ∷ after) (added [] before) regular)
            ++ added
                (added [] before
                  ++ added_regular (left [] before ++ location ∷ after) (added [] before) regular)
                after),
        tt,
      )
unfolding combine_in_order
three_loops size capacity before location after regular h r =
    rw
      (
        settings_loop_lem size capacity [] before [] h first_room,
        regular_loop_lem size capacity (left [] before ++ location ∷ after) regular
            (added [] before) h middle_room,
        settings_loop_lem size capacity [] after
            (added [] before
              ++ added_regular (left [] before ++ location ∷ after) (added [] before) regular)
            h last_room,
      )
      refl
  where
    first_room : HasRoom size capacity (length before) []
    first_room = HasRoom-less size capacity [] [] r (omega arith)

    middle_room : HasRoom size capacity (length regular) (added [] before)
    middle_room =
        HasRoom-less size capacity [] (added [] before) r (omega (arith, length-added [] before))

    last_room : HasRoom size capacity (length after) (
        added [] before
        ++ added_regular (left [] before ++ location ∷ after) (added [] before) regular)
    last_room = HasRoom-less size capacity [] _ r (
        omega (
          arith,
          length-added [] before,
          length-added_regular (left [] before ++ location ∷ after) (added [] before) regular,
          length-append (added [] before)
              (added_regular (left [] before ++ location ∷ after) (added [] before) regular),
        ))

split_lem :
    (size : ℕ) (h : Heap) (settings regular : LayerList) (before : List LayerProperties)
    → (location : LayerProperties) (after : List LayerProperties)
    → regular.count ≡ length regular.list
    → 0 < regular.count
    → 0 < size
    → length before + length regular.list + length after ≤ settings.count + regular.count
    → settings.count + regular.count < 2 ^ 31
    → size < 2 ^ 27
    → Combines
        (next_answer h.answers)
        before
        location
        after
        regular.list
        (combine_split size h settings regular (some (before, location, after)))
unfolding init_layer_list
split_lem size h settings regular before location after counted some_regular pos sum few limit =
    let not_empty : (regular.count == 0) ≡ false = ground (arith, some_regular) in
    elim (Bool-cases (next_answer h.answers)) [
      | inl ok ↦ rw (ok, not_empty) (run _)
      | inr out ↦ rw (out, not_empty) refl
    ]
  where
    capacity : ℕ
    capacity = 32 * ((settings.count + regular.count) % 2 ^ 32 * size) % 2 ^ 64

    no_wrap : (settings.count + regular.count) % 2 ^ 32 ≡ settings.count + regular.count
    no_wrap = omega arith

    le_of_lt : {a b : ℕ} → a < b → a ≤ b
    le_of_lt h = omega arith

    roomy : HasRoom size capacity (length before + length regular.list + length after) []
    roomy =
        let same = ap (λ t. t * size) no_wrap in
        let at_most = mul-le-mul_right size (le_of_lt few) in
        let at_least : 1 * size ≤ (settings.count + regular.count) * size =
          mul-le-mul_right size (omega arith) in
        let needed = mul-le-mul_right size sum in
        record {
          room = omega (arith, same, at_most, needed, limit);
          some_room = omega (arith, same, at_most, at_least, limit);
          few = omega arith;
        }

    run :
        (h' : Heap)
        → Combines true before location after regular.list
            (combine_in_order size before location after regular.list h' (holding capacity []))
    run h' =
        subst (Combines true before location after regular.list)
          (sym (three_loops size capacity before location after regular.list h' roomy))
          (combined before location after regular.list, refl)

-- Where the settings have a location entry and there are regular layers, with bounds on the sizes, the
-- combination fails only if the one allocation for the output does, and then the output is empty.
-- Otherwise the output is made by three walks, each in order. Of the settings' layers before the entry
-- those are taken that the output does not list. A layer is listed if, of the output's layers with its
-- name, the first that decides is switched off or has the same library, or the layer is a meta-layer;
-- where one of the two has no library path, the next of the name decides. Then of the regular layers
-- those are taken whose names neither the output nor the settings have; one with an empty name may be
-- passed over. Then of the settings' layers behind the entry those that the output does not list. The
-- output has all names of the settings but that of the entry, and the regular names that the settings
-- do not have, the empty name aside.
pub combine_settings_layers_with_regular_layers-Combines :
    (size : ℕ) (h : Heap) (settings regular output : LayerList) (before : List LayerProperties)
    → (location : LayerProperties) (after : List LayerProperties)
    → settings.count ≡ length settings.list
    → regular.count ≡ length regular.list
    → 0 < regular.count
    → settings.count + regular.count < 2 ^ 31
    → 0 < size
    → size < 2 ^ 27
    → split_at_location settings.list ≡ some (before, location, after)
    → Combines
        (next_answer h.answers)
        before
        location
        after
        regular.list
        (combine_settings_layers_with_regular_layers size h settings regular output)
unfolding combine_settings_layers_with_regular_layers
combine_settings_layers_with_regular_layers-Combines size h settings regular output before location
      after counted_s counted_r some_regular few pos limit split =
    let parts = subst (Splits settings.list) split (split_at_location-Splits settings.list) in
    let not_both : (settings.count == 0 && regular.count == 0) ≡ false =
      ground (arith, some_regular) in
    let has_settings : (settings.count == 0) ≡ false =
      ground (arith, ap length parts, length-append before (location ∷ after)) in
    rw (not_both, has_settings, split)
      (split_lem size h settings regular before location after counted_r some_regular pos
        (omega (arith, ap length parts, length-append before (location ∷ after))) (omega arith)
        (omega arith))
