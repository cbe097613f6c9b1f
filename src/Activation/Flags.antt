-- ===== src/Activation/Flags.antt =====
-- loader/loader.c: whether a meta-layer reports that components are missing.
use vulkan_sc_loader.Base.{
  ℕ, zero, suc, ◌≡◌, refl, Bool, true, false, VkResult, success, is_out_of_host_memory, Bool-cases,
  inl, inr,
}
use vulkan_sc_loader.Activation.{
  LayerPointer, Surroundings, Activation, Outcome, returned, fault, too_many, out_of_fuel,
  on_memory, mark, meta_layer, add_to_target, add_components, add_complete_meta_layer,
  loader_add_meta_layer,
}

abbrev pub FlagIsTrue : Outcome Bool → Type 0
FlagIsTrue (returned result st flag) = flag ≡ true
FlagIsTrue _ = Unit

on_memory-FlagIsTrue :
    {A : Type 0} (o : Outcome A) (k : VkResult → Activation → A → Outcome Bool)
    → ((result : VkResult) (st : Activation) (a : A) → FlagIsTrue (k result st a))
    → FlagIsTrue (on_memory true o k)
on_memory-FlagIsTrue fault k h = tt
on_memory-FlagIsTrue too_many k h = tt
on_memory-FlagIsTrue out_of_fuel k h = tt
on_memory-FlagIsTrue (returned result st a) k h = elim (Bool-cases (is_out_of_host_memory result)) [
  | inl out ↦ rw out refl
  | inr more ↦ rw more (h result st a)
]

-- A meta-layer that is entered with the flag set comes back with the flag set, whether or not its
-- components were found and whatever its result is: the function that enters it as a component never
-- learns that one is missing.
pub loader_add_meta_layer-FlagIsTrue :
    (c : Surroundings) (depth : ℕ) (p : LayerPointer) (st : Activation)
    → FlagIsTrue (loader_add_meta_layer c depth p true st)
unfolding loader_add_meta_layer add_complete_meta_layer
loader_add_meta_layer-FlagIsTrue c zero p st = tt
loader_add_meta_layer-FlagIsTrue c (suc depth) p st =
    on_memory-FlagIsTrue
      (add_components c (loader_add_meta_layer c depth) p.props.component_layer_names success true
        st)
      (add_complete_meta_layer c p true) complete
  where
    complete :
        (result : VkResult) (st' : Activation) (found : Bool)
        → FlagIsTrue (add_complete_meta_layer c p true result st' found)
    complete result st' true =
        on_memory-FlagIsTrue (add_to_target c.size p (mark meta_layer p st')) _
          (λ result' st'' u. refl)
    complete result st' false = refl
