-- ===== src/Activation/Correct.antt =====
-- loader/loader.c: the layers of an instance are those that are asked for, and their components.
use mathlib.Core.List.{Memᴰ}
use vulkan_sc_loader.Base.{
  ◌*◌, false≢true, ℕ, zero, suc, ◌^◌, ◌≤◌, ◌<◌, ◌≡◌, refl, true, false, Option, some, List, [],
  CString, Heap, Bool-cases, inl, inr, arith, next_answer, later_answers,
}
use vulkan_sc_loader.Layers.{any_equal}
use vulkan_sc_loader.Layers.Lists.{pointer_size, no_pointers, loader_init_pointer_layer_list}
use vulkan_sc_loader.Layers.Capacity.{Fits}
use vulkan_sc_loader.Activation.{
  EnabledByWhat, LayerPointer, Surroundings, Activation, Outcome, find_layer_pointer,
}
use vulkan_sc_loader.Activation.Enabling.{Settings, enable_layers, loader_enable_instance_layers}
use vulkan_sc_loader.Activation.Keeps.{Ends-weaken, Ends, Keeping}
use vulkan_sc_loader.Activation.Sound.{
  IsNext, Reached, IsLeft, IsActivated, mark-IsActivated, activate_layer-Ends, meta_added-Ends,
}
use vulkan_sc_loader.Activation.Asked.{
  IsRequested, by_settings, by_default, by_variable, by_filter, by_application,
}
use vulkan_sc_loader.Activation.Requests.{enable_layers-Ends}
use vulkan_sc_loader.Activation.Verification.Searches.{find_layer_pointer-Memᴰ}

-- An instance before its layers are enabled: both lists are zeroed.
abbrev pub idle : Heap → (ℕ → EnabledByWhat) → Activation
idle h marks = record {
  heap = h;
  enabled_by_what = marks;
  target_list = no_pointers;
  expanded_target_list = no_pointers;
}

-- From a meta-layer at most `depth` meta-layers follow each other.
abbrev pub IsGrounded : Surroundings → ℕ → LayerPointer → Type 0
IsGrounded c zero p = ⊥
IsGrounded c (suc depth) p =
    (name : CString) (q : LayerPointer)
    → any_equal p.props.component_layer_names name ≡ true
    → find_layer_pointer name c.source_list ≡ some q
    → q.props.is_meta ≡ true
    → IsGrounded c depth q

fresh-Fits :
    (size : ℕ)
    → Fits {A = LayerPointer} size
        (record { capacity = 32 * pointer_size; count = 0; allocated = true; list = [] })
fresh-Fits size = record {
  valid = record {
    counted = refl;
    fits = omega arith;
    one_fits = λ t. omega arith;
    absent = λ t. refl;
  };
  small = omega arith;
}

failed-Fits :
    (size : ℕ)
    → Fits {A = LayerPointer} size
        (record { capacity = 32 * pointer_size; count = 0; allocated = false; list = [] })
failed-Fits size = record {
  valid = record {
    counted = refl;
    fits = omega arith;
    one_fits = λ t. omega arith;
    absent = λ t. refl;
  };
  small = omega arith;
}

no_pointers-Fits : (size : ℕ) → Fits {A = LayerPointer} size no_pointers
no_pointers-Fits size = record {
  valid = record {
    counted = refl;
    fits = omega arith;
    one_fits = λ t. absurd (false≢true t);
    absent = λ t. refl;
  };
  small = omega arith;
}

module _ (c : Surroundings) (IsRoot : LayerPointer → Type 0) (wide : pointer_size ≤ c.size)
    (limit : c.size < 2 ^ 30) where
  activated :
      (Stuck : Type 0) (p : LayerPointer) (st : Activation) (o : Outcome (Unit {0}))
      → Ends (IsNext c IsRoot p st.target_list.list) (IsLeft c IsRoot) Stuck o
      → Ends (IsActivated c IsRoot) (IsLeft c IsRoot) Stuck o
  activated Stuck p st o =
      Ends-weaken (IsNext c IsRoot p st.target_list.list) (IsActivated c IsRoot) (IsLeft c IsRoot)
        (IsLeft c IsRoot) Stuck o (λ st' n. n.activated) (λ st' l. l)

  sound : Keeping (IsActivated c IsRoot) (IsLeft c IsRoot) Unit c (λ depth. Reached c IsRoot)
  sound = record {
    no_fuel = λ p r meta. tt;
    component = λ depth p q name r meta m e on why. Reached.component name r meta m e on why;
    marked = mark-IsActivated c IsRoot Unit wide limit;
    layer_added = λ depth what p st r plain v.
        activated Unit p st _ (activate_layer-Ends c IsRoot Unit wide limit what p st r plain v);
    meta_added = λ depth p st r meta v.
        activated Unit p st _ (meta_added-Ends c IsRoot Unit wide limit p st r meta v);
  }

  abbrev pub MayAddGrounded : ℕ → LayerPointer → Type 0
  MayAddGrounded depth p = Reached c IsRoot p × ((p.props.is_meta ≡ true) → IsGrounded c depth p)

  pub total : Keeping (IsActivated c IsRoot) (IsLeft c IsRoot) ⊥ c MayAddGrounded
  total = record {
    no_fuel = λ p r meta. r.1 meta;
    component = λ depth p q name r meta m e on why.
        (Reached.component name r.0 meta m e on why, λ meta'. r.1 meta name q m e meta');
    marked = mark-IsActivated c IsRoot ⊥ wide limit;
    layer_added = λ depth what p st r plain v.
        activated ⊥ p st _ (activate_layer-Ends c IsRoot ⊥ wide limit what p st r.0 plain v);
    meta_added = λ depth p st r meta v.
        activated ⊥ p st _ (meta_added-Ends c IsRoot ⊥ wide limit p st r.0 meta v);
  }

pub idle-IsActivated :
    (c : Surroundings) (IsRoot : LayerPointer → Type 0) (h : Heap) (marks : ℕ → EnabledByWhat)
    → IsActivated c IsRoot (idle h marks)
idle-IsActivated c IsRoot h marks = record {
  left = record {
    target_fits = no_pointers-Fits c.size;
    expanded_fits = no_pointers-Fits c.size;
    target_reached = tt;
  };
  expanded_is = refl;
}

-- The two lists are made, or memory runs out.
initialised :
    (c : Surroundings) (IsRoot : LayerPointer → Type 0) (Stuck : Type 0) (depth : ℕ)
    (settings : Settings) (env : Option CString) (names : List CString) (h : Heap)
    (marks : ℕ → EnabledByWhat)
    → ((st : Activation)
        → IsActivated c IsRoot st
        → Ends
            (IsActivated c IsRoot)
            (IsLeft c IsRoot)
            Stuck
            (enable_layers c depth settings env names st))
    → Ends
        (IsActivated c IsRoot)
        (IsLeft c IsRoot)
        Stuck
        (loader_enable_instance_layers c depth settings env names (idle h marks))
unfolding loader_enable_instance_layers loader_init_pointer_layer_list
initialised c IsRoot Stuck depth settings env names h marks enable =
    elim (Bool-cases (next_answer h.answers)) [
      | inr out ↦ rw out (record {
        target_fits = failed-Fits c.size;
        expanded_fits = no_pointers-Fits c.size;
        target_reached = tt;
      })
      | inl ok ↦ elim (Bool-cases (next_answer (later_answers h.answers))) [
        | inr out ↦
            rw (ok, out)
              (record {
                target_fits = fresh-Fits c.size;
                expanded_fits = failed-Fits c.size;
                target_reached = tt;
              })
        | inl ok' ↦
            rw (ok, ok')
              (enable _ (record {
                left = record {
                  target_fits = fresh-Fits c.size;
                  expanded_fits = fresh-Fits c.size;
                  target_reached = tt;
                };
                expanded_is = refl;
              }))
      ]
    ]

-- To enable the layers of an instance never writes beyond an array. Whatever the environment, the
-- application and the settings file ask for, every layer in the lists was asked for by one of them or
-- is, through meta-layers, a component of such a layer that is available and explicit or enabled.
-- Unless memory ran out, the expanded list is the other one without its meta-layers. The struct has
-- the size of a pointer at least and less than 2^30 bytes.
pub loader_enable_instance_layers-Ends :
    (c : Surroundings) (depth : ℕ) (settings : Settings) (env : Option CString)
    (names : List CString) (h : Heap) (marks : ℕ → EnabledByWhat)
    → pointer_size ≤ c.size
    → c.size < 2 ^ 30
    → Ends
        (IsActivated c (IsRequested c settings env names))
        (IsLeft c (IsRequested c settings env names))
        Unit
        (loader_enable_instance_layers c depth settings env names (idle h marks))
loader_enable_instance_layers-Ends c depth settings env names h marks wide limit =
    let IsRoot = IsRequested c settings env names in
    initialised c IsRoot Unit depth settings env names h marks (λ st v.
      enable_layers-Ends (IsActivated c IsRoot) (IsLeft c IsRoot) Unit c (sound c IsRoot wide limit)
        depth settings env names st (λ p r. Reached.root r) v)

-- What is asked for stands in the source list.
IsRequested-Memᴰ :
    (c : Surroundings) (settings : Settings) (env : Option CString) (names : List CString)
    (p : LayerPointer)
    → IsRequested c settings env names p
    → Memᴰ p c.source_list
IsRequested-Memᴰ c settings env names p (by_settings what on m e) = m
IsRequested-Memᴰ c settings env names p (by_default off m e on) = m
IsRequested-Memᴰ c settings env names p (by_variable off m e) = m
IsRequested-Memᴰ c settings env names p (by_filter off m e f) = m
IsRequested-Memᴰ c settings env names p (by_application name off m found on) =
    find_layer_pointer-Memᴰ name c.source_list p found

-- If no more than `depth` meta-layers follow each other, the recursion through them ends.
pub loader_enable_instance_layers-Ends_grounded :
    (c : Surroundings) (depth : ℕ) (settings : Settings) (env : Option CString)
    (names : List CString) (h : Heap) (marks : ℕ → EnabledByWhat)
    → pointer_size ≤ c.size
    → c.size < 2 ^ 30
    → ((p : LayerPointer) → Memᴰ p c.source_list → p.props.is_meta ≡ true → IsGrounded c depth p)
    → Ends
        (IsActivated c (IsRequested c settings env names))
        (IsLeft c (IsRequested c settings env names))
        ⊥
        (loader_enable_instance_layers c depth settings env names (idle h marks))
loader_enable_instance_layers-Ends_grounded c depth settings env names h marks wide limit grounded =
    let IsRoot = IsRequested c settings env names in
    initialised c IsRoot ⊥ depth settings env names h marks (λ st v.
      enable_layers-Ends (IsActivated c IsRoot) (IsLeft c IsRoot) ⊥ c (total c IsRoot wide limit)
        depth settings env names st
        (λ p r. (Reached.root r, grounded p (IsRequested-Memᴰ c settings env names p r))) v)
