-- ===== src/Activation/ExtensionChecks/Offers.antt =====
-- loader/loader.c: the checks of extensions against who offers them.
use mathlib.Core.List.{Memᴰ}
use vulkan_sc_loader.Base.{
  ℕ, ◌≡◌, ◌↔◌, ◌⊎◌, refl, sym, ap, ◌∙◌, subst, Bool, true, false, false≢true, not, ◌&&◌, ◌||◌,
  Option, none, some, List, [], ◌∷◌, CString, if◌then◌else◌, VkResult, success,
  error_extension_not_present, is_success, Heap, All, Bool-cases, inl, inr, arith,
}
use vulkan_sc_loader.Layers.{any_equal}
use vulkan_sc_loader.Extensions.{ExtensionProperties}
use vulkan_sc_loader.Utf8.{vk_string_validate}
use vulkan_sc_loader.Activation.{
  EnabledByWhat, LayerPointer, Surroundings, Activation, Outcome, returned, fault, too_many,
  out_of_fuel,
}
use vulkan_sc_loader.Activation.Enabling.{Settings, loader_enable_instance_layers}
use vulkan_sc_loader.Activation.Correct.{idle}
use vulkan_sc_loader.Activation.Validation.{max_loader_string_length, is_error}
use vulkan_sc_loader.Activation.ExtensionChecks.{
  get_extension_property, disables_filter, is_found, in_expanded_layers, accepts_instance_extension,
  instance_extensions_loop, check_activated, loader_validate_instance_extensions,
}
use vulkan_sc_loader.Activation.ExtensionChecks.Lookup.{
  HasExtension, HasExtension-get_extension_property, IsWellFormed, and_iff,
  get_extension_property-HasExtension, success_only,
}

module _ (known : List CString)
    (instance_extension_list : LayerPointer → List ExtensionProperties) where
  -- One of the layers has the extension.
  abbrev pub LayerOffers : CString → List LayerPointer → Type 0
  LayerOffers name ps =
      (p : LayerPointer) × Memᴰ p ps × HasExtension name (instance_extension_list p)

  in_expanded_layers-LayerOffers :
      (name : CString) (ps : List LayerPointer)
      → in_expanded_layers known instance_extension_list name ps ≡ true
      → LayerOffers name ps
  unfolding in_expanded_layers
  in_expanded_layers-LayerOffers name [] e = absurd (false≢true e)
  in_expanded_layers-LayerOffers name (p ∷ ps) e =
      elim (Bool-cases (is_found (get_extension_property name (instance_extension_list p)))) [
        | inl here ↦ (
          p,
          Memᴰ.head refl,
          get_extension_property-HasExtension name (instance_extension_list p) here,
        )
        | inr other ↦
            let (q, m, has) = in_expanded_layers-LayerOffers name ps (ground (arith, other, e)) in
            (q, Memᴰ.tail m, has)
      ]

  LayerOffers-in_expanded_layers :
      (name : CString) (ps : List LayerPointer) (p : LayerPointer)
      → Memᴰ p ps
      → HasExtension name (instance_extension_list p)
      → in_expanded_layers known instance_extension_list name ps ≡ true
  unfolding in_expanded_layers
  LayerOffers-in_expanded_layers name [] p m has = elim m [ ]
  LayerOffers-in_expanded_layers name (q ∷ ps) p (Memᴰ.head here) has =
      let found : is_found (get_extension_property name (instance_extension_list q)) ≡ true =
        subst (λ y. is_found (get_extension_property name (instance_extension_list y)) ≡ true) here
          (HasExtension-get_extension_property name (instance_extension_list p) has.0 has.1
            has.2) in
      rw found refl
  LayerOffers-in_expanded_layers name (q ∷ ps) p (Memᴰ.tail m) has =
      let rest = LayerOffers-in_expanded_layers name ps p m has in ground (arith, rest)

  -- The name is a string without an error, of a known extension unless that is not asked for, and a
  -- driver or one of the layers has it.
  abbrev pub IsOffered :
      Bool → List ExtensionProperties → List LayerPointer → Option CString → Type 0
  IsOffered check icd_exts layers none = ⊥
  IsOffered check icd_exts layers (some name) =
      IsWellFormed name
      × ((not check || any_equal known name) ≡ true)
      × (HasExtension name icd_exts ⊎ LayerOffers name layers)

  pub accepts_instance_extension-IsOffered :
      (check : Bool) (icd_exts : List ExtensionProperties) (layers : List LayerPointer)
      (name : Option CString)
      → accepts_instance_extension known instance_extension_list check icd_exts layers name ≡ true
      → IsOffered check icd_exts layers name
  unfolding vk_string_validate
  accepts_instance_extension-IsOffered check icd_exts layers none e = false≢true e
  accepts_instance_extension-IsOffered check icd_exts layers (some name) e =
      let (before, offered) = (and_iff _ _).0 e in
      let (first, is_known) = (and_iff _ _).0 before in
      (
        not_true _ first,
        is_known,
        elim (Bool-cases (is_found (get_extension_property name icd_exts))) [
          | inl here ↦ inl (get_extension_property-HasExtension name icd_exts here)
          | inr other ↦ inr (in_expanded_layers-LayerOffers name layers (second _ _ other offered))
        ],
      )
    where
      not_true : (x : Bool) → not x ≡ true → x ≡ false
      not_true true q = absurd (false≢true q)
      not_true false q = refl

      second : (x y : Bool) → x ≡ false → (x || y) ≡ true → y ≡ true
      second true y q e' = absurd (false≢true (sym q))
      second false y q e' = e'

  pub IsOffered-accepts_instance_extension :
      (check : Bool) (icd_exts : List ExtensionProperties) (layers : List LayerPointer)
      (name : Option CString)
      → IsOffered check icd_exts layers name
      → accepts_instance_extension known instance_extension_list check icd_exts layers name ≡ true
  IsOffered-accepts_instance_extension check icd_exts layers none o = absurd o
  IsOffered-accepts_instance_extension check icd_exts layers (some name) (well, is_known, offered) =
      let found = is_found (get_extension_property name icd_exts) in
      let listed = in_expanded_layers known instance_extension_list name layers in
      let well_formed = not (is_error (vk_string_validate max_loader_string_length (some name))) in
      (and_iff (well_formed && (not check || any_equal known name)) (found || listed)).1 (
        (and_iff well_formed (not check || any_equal known name)).1 (ap not well, is_known),
        elim offered [
          | inl (e, m, n) ↦ rw (HasExtension-get_extension_property name icd_exts e m n) refl
          | inr (p, m, has) ↦ or_right _ (LayerOffers-in_expanded_layers name layers p m has)
        ],
      )
    where
      or_right : (x : Bool) {y : Bool} → y ≡ true → (x || y) ≡ true
      or_right true q = refl
      or_right false q = q

  instance_extensions_loop_iff :
      (env_value : Option CString) (check : Bool) (icd_exts : List ExtensionProperties)
      (layers : List LayerPointer) (names : List (Option CString))
      → (instance_extensions_loop known instance_extension_list env_value check icd_exts layers
            names
          ≡ success)
        ↔ All (IsOffered (if disables_filter env_value then false else check) icd_exts layers) names
  unfolding instance_extensions_loop
  instance_extensions_loop_iff env_value check icd_exts layers [] = (λ e. tt, λ a. refl)
  instance_extensions_loop_iff env_value check icd_exts layers (name ∷ names) =
      let now = (if disables_filter env_value then false else check) in
      let again = instance_extensions_loop_iff env_value now icd_exts layers names in
      let same : (if disables_filter env_value then false else now) ≡ now =
        twice (disables_filter env_value) check in
      let rest =
        instance_extensions_loop known instance_extension_list env_value now icd_exts layers
          names in
      elim (Bool-cases
        (accepts_instance_extension known instance_extension_list now icd_exts layers name)) [
          | inl good ↦ rw good (
            λ e. (
              accepts_instance_extension-IsOffered now icd_exts layers name good,
              subst (λ x. All (IsOffered x icd_exts layers) names) same (again.0 e),
            ),
            λ a. again.1 (subst (λ x. All (IsOffered x icd_exts layers) names) (sym same) a.1),
          )
          | inr bad ↦ rw bad (
            λ e. absurd (failed e),
            λ a. absurd (
                false≢true
                  (sym bad ∙ IsOffered-accepts_instance_extension now icd_exts layers name a.0)),
          )
        ]
    where
      twice :
          (x y : Bool) → (if x then false else if x then false else y) ≡ (if x then false else y)
      twice x y = ground arith

      failed : error_extension_not_present ≡ success → ⊥
      failed e = cc

  -- The run of the activation that the validation rests on.
  abbrev pub HasActivated : Outcome (Unit {0}) → (List LayerPointer → Type 0) → Type 0
  HasActivated o P =
      (st : Activation) × (o ≡ returned success st tt) × P st.expanded_target_list.list

  -- What the validation says of a run of the activation.
  abbrev ChecksActivated :
      Option CString
      → List ExtensionProperties
      → List (Option CString)
      → Outcome (Unit {0})
      → Type 0
  ChecksActivated env_value icd_exts names o =
      (check_activated known instance_extension_list env_value icd_exts names o ≡ some success)
      ↔ HasActivated o (λ layers.
        All (IsOffered (if disables_filter env_value then false else true) icd_exts layers) names)

  check_successful :
      (env_value : Option CString) (icd_exts : List ExtensionProperties)
      (names : List (Option CString)) (st : Activation)
      → ChecksActivated env_value icd_exts names (returned success st tt)
  check_successful env_value icd_exts names st = (
    λ e. (
      st,
      refl,
      (instance_extensions_loop_iff env_value true icd_exts st.expanded_target_list.list names).0
          (inner e),
    ),
    λ a. ap some (
        (instance_extensions_loop_iff env_value true icd_exts st.expanded_target_list.list names).1
          (subst
            (λ s.
              All
                (IsOffered (if disables_filter env_value then false else true) icd_exts
                  s.expanded_target_list.list)
                names)
            (sym (state a.1)) a.2)),
  )
    where
      inner : {r : VkResult} → some r ≡ some success → r ≡ success
      inner e = cc

      state :
          {s : Activation}
          → ◌≡◌ {A = Outcome (Unit {0})} (returned success st tt) (returned success s tt)
          → st ≡ s
      state e = cc

  check_activated_iff :
      (env_value : Option CString) (icd_exts : List ExtensionProperties)
      (names : List (Option CString)) (o : Outcome (Unit {0}))
      → ChecksActivated env_value icd_exts names o
  check_activated_iff env_value icd_exts names fault = (λ e. cc, λ a. absurd (not_returned a.1))
    where
      not_returned :
          {st : Activation} → ◌≡◌ {A = Outcome (Unit {0})} fault (returned success st tt) → ⊥
      not_returned e = cc
  check_activated_iff env_value icd_exts names too_many = (λ e. cc, λ a. absurd (not_returned a.1))
    where
      not_returned :
          {st : Activation} → ◌≡◌ {A = Outcome (Unit {0})} too_many (returned success st tt) → ⊥
      not_returned e = cc
  check_activated_iff env_value icd_exts names out_of_fuel =
      (λ e. cc, λ a. absurd (not_returned a.1))
    where
      not_returned :
          {st : Activation} → ◌≡◌ {A = Outcome (Unit {0})} out_of_fuel (returned success st tt) → ⊥
      not_returned e = cc
  check_activated_iff env_value icd_exts names (returned res st u) =
      elim (Bool-cases (is_success res)) [
        | inl good ↦
            subst (λ r. ChecksActivated env_value icd_exts names (returned r st u))
              (sym (success_only res good)) (check_successful env_value icd_exts names st)
        | inr bad ↦ rw bad (
          λ e. absurd (false≢true (sym bad ∙ ap is_success (inner e))),
          λ a. absurd (false≢true (sym bad ∙ ap is_success (result a.1))),
        )
      ]
    where
      inner : some res ≡ some success → res ≡ success
      inner e = cc

      result : {s : Activation} → returned res st u ≡ returned success s tt → res ≡ success
      result e = cc

  -- The instance extensions that an application asks for pass exactly if the layers of the instance
  -- can be activated with success, and then each name is a string without an error, of an extension
  -- that is known unless the variable switches this off, and a driver has the extension or one of the
  -- activated layers.
  pub loader_validate_instance_extensions_iff :
      (c : Surroundings) (depth : ℕ) (settings : Settings) (env : Option CString)
      (layer_names : List CString) (env_value : Option CString)
      (icd_exts : List ExtensionProperties) (count : ℕ) (names : List (Option CString)) (h : Heap)
      (marks : ℕ → EnabledByWhat)
      → (loader_validate_instance_extensions known instance_extension_list c depth settings env
            layer_names env_value icd_exts count
            (some names)
            h
            marks
          ≡ some success)
        ↔ HasActivated
            (loader_enable_instance_layers c depth settings env layer_names (idle h marks))
            (λ layers.
              All
                (IsOffered (if disables_filter env_value then false else true) icd_exts layers)
                names)
  unfolding loader_validate_instance_extensions
  loader_validate_instance_extensions_iff c depth settings env layer_names env_value icd_exts count
        names h marks =
      check_activated_iff env_value icd_exts names
        (loader_enable_instance_layers c depth settings env layer_names (idle h marks))
