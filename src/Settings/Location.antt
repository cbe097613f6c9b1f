-- ===== src/Settings/Location.antt =====
-- loader/settings.c: the settings' layers around the location entry.
use vulkan_sc_loader.Base.{
  ◌≡◌, refl, ap, Option, none, some, List, [], ◌∷◌, ◌++◌, Bool-cases, inl, inr,
}
use vulkan_sc_loader.Layers.{LayerProperties}
use vulkan_sc_loader.Settings.{is_location, split_at_location}

-- The parts make up the list.
abbrev pub Splits :
    List LayerProperties
    → Option (List LayerProperties × LayerProperties × List LayerProperties)
    → Type 0
Splits settings none = Unit
Splits settings (some (before, location, after)) = settings ≡ before ++ location ∷ after

Splits-cons :
    (s : LayerProperties) (settings : List LayerProperties)
    → (o : Option (List LayerProperties × LayerProperties × List LayerProperties))
    → Splits settings o
    → Splits (s ∷ settings) (elim o [
      | none ↦ none
      | some (before, location, after) ↦ some (s ∷ before, location, after)
    ])
Splits-cons s settings none h = tt
Splits-cons s settings (some (before, location, after)) h = ap (λ xs. s ∷ xs) h

pub split_at_location-Splits :
    (settings : List LayerProperties) → Splits settings (split_at_location settings)
unfolding split_at_location
split_at_location-Splits [] = tt
split_at_location-Splits (s ∷ settings) = elim (Bool-cases (is_location s.settings_control_value)) [
  | inl here ↦ rw here refl
  | inr further ↦
      rw further
        (Splits-cons s settings (split_at_location settings) (split_at_location-Splits settings))
]
