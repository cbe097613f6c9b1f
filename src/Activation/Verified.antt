-- ===== src/Activation/Verified.antt =====
-- loader/loader.c: the layers that passed the verification are activated without endless recursion.
use mathlib.Core.List.{Memᴰ}
use vulkan_sc_loader.Base.{
  not, ◌&&◌, arith, All, str_eq_comm, ℕ, zero, suc, ◌^◌, ◌≤◌, ◌<◌, ◌≡◌, refl, sym, ◌∙◌, Bool, true,
  false, Option, some, List, [], ◌∷◌, CString, str_eq, Heap, length, subst,
}
use vulkan_sc_loader.Layers.Lists.{pointer_size}
use vulkan_sc_loader.Activation.{
  EnabledByWhat, LayerPointer, Surroundings, Activation, is_available, find_layer_pointer,
  loader_find_layer_name_in_list,
}
use vulkan_sc_loader.Activation.Requested.{loader_add_layer_names_to_list}
use vulkan_sc_loader.Activation.Complete.{Has, loader_add_layer_names_to_list-lists}
use vulkan_sc_loader.Layers.{any_equal}
use vulkan_sc_loader.Activation.Enabling.{Settings, loader_enable_instance_layers}
use vulkan_sc_loader.Activation.Keeps.{Ends}
use vulkan_sc_loader.Activation.Sound.{IsLeft, IsActivated}
use vulkan_sc_loader.Activation.Asked.{IsRequested}
use vulkan_sc_loader.Activation.Correct.{
  idle, IsGrounded, loader_enable_instance_layers-Ends_grounded,
}
use vulkan_sc_loader.Activation.Verification.{verdict, verify_meta_layer_component_layers}
use vulkan_sc_loader.Activation.Verification.Searches.{find_layer_pointer-Memᴰ, last_index-IsFound}
use vulkan_sc_loader.Activation.Verification.Depth.{
  Reaches, Settled, verify_meta_layer_component_layers-Settled,
}

-- No two layers have the same name.
abbrev pub HaveOwnNames : List LayerPointer → Type 0
HaveOwnNames layers =
    (p q : LayerPointer)
    → Memᴰ p layers
    → Memᴰ q layers
    → str_eq p.props.layer_name q.props.layer_name ≡ true
    → p ≡ q

-- Whether all names differ.
abbrev pub names_differ : List LayerPointer → Bool
names_differ [] = true
names_differ (p ∷ ps) =
    not (loader_find_layer_name_in_list p.props.layer_name ps) && names_differ ps

in_list-Memᴰ :
    (name : CString) (ps : List LayerPointer) (q : LayerPointer)
    → Memᴰ q ps
    → str_eq name q.props.layer_name ≡ true
    → loader_find_layer_name_in_list name ps ≡ true
unfolding loader_find_layer_name_in_list find_layer_pointer
in_list-Memᴰ name [] q m e = elim m [ ]
in_list-Memᴰ name (p ∷ ps) q (Memᴰ.head same) e =
    let here : str_eq name p.props.layer_name ≡ true =
      subst (λ x. str_eq name x.props.layer_name ≡ true) same e in
    ground arith
in_list-Memᴰ name (p ∷ ps) q (Memᴰ.tail m) e = ground (arith, in_list-Memᴰ name ps q m e)

-- A layer behind another does not have its name.
behind :
    (p q : LayerPointer) (ps : List LayerPointer)
    → names_differ (p ∷ ps) ≡ true
    → Memᴰ q ps
    → str_eq p.props.layer_name q.props.layer_name ≡ true
    → ⊥
behind p q ps differ m e = ground (arith, in_list-Memᴰ p.props.layer_name ps q m e)

pub names_differ-HaveOwnNames : (ps : List LayerPointer) → names_differ ps ≡ true → HaveOwnNames ps
names_differ-HaveOwnNames [] differ p q m n e = elim m [ ]
names_differ-HaveOwnNames (x ∷ ps) differ p q (Memᴰ.head a) (Memᴰ.head b) e = a ∙ sym b
names_differ-HaveOwnNames (x ∷ ps) differ p q (Memᴰ.head a) (Memᴰ.tail n) e =
    absurd (
      behind x q ps differ n (subst (λ y. str_eq y.props.layer_name q.props.layer_name ≡ true) a e))
names_differ-HaveOwnNames (x ∷ ps) differ p q (Memᴰ.tail m) (Memᴰ.head b) e = absurd (
    behind x p ps differ m (
      subst (λ y. str_eq y.props.layer_name p.props.layer_name ≡ true) b
        (str_eq_comm q.props.layer_name p.props.layer_name ∙ e)))
names_differ-HaveOwnNames (x ∷ ps) differ p q (Memᴰ.tail m) (Memᴰ.tail n) e =
    names_differ-HaveOwnNames ps (ground arith) p q m n e

All-Memᴰ : {A : Type 0} (P : A → Type 0) (xs : List A) (a : A) → All P xs → Memᴰ a xs → P a
All-Memᴰ P [] a all m = elim m [ ]
All-Memᴰ P (x ∷ xs) a all (Memᴰ.head e) = subst P (sym e) all.0
All-Memᴰ P (x ∷ xs) a all (Memᴰ.tail m) = All-Memᴰ P xs a all.1 m

-- With names of their own the two searches find the same layer.
IsGrounded-Reaches :
    (c : Surroundings) (depth : ℕ) (p : LayerPointer)
    → HaveOwnNames c.source_list
    → Reaches c.source_list depth p
    → IsGrounded c depth p
IsGrounded-Reaches c zero p own reaches = reaches
IsGrounded-Reaches c (suc depth) p own reaches = λ name q listed found meta.
    let (j, (r, last, further)) = reaches name q listed found meta in
    let f = last_index-IsFound q.props.layer_name c.source_list 0 j r last in
    let same : q ≡ r =
      own q r (find_layer_pointer-Memᴰ name c.source_list q found) f.member f.named in
    subst (IsGrounded c depth) (sym same) (IsGrounded-Reaches c depth r own further)

module _ (version_major version_minor version_patch : ℕ → ℕ) where
  -- The verification says at an index of the list that the meta-layer is valid.
  pub record IsValidMeta (layers : List LayerPointer) (p : LayerPointer) : Type 0 where
    pub index : ℕ
    pub in_range : index < length layers
    pub checked : List Bool
    pub valid :
        verify_meta_layer_component_layers version_major version_minor version_patch layers p index
        ≡ verdict true checked

  IsValidMeta-Reaches :
      (layers : List LayerPointer) (p : LayerPointer)
      → IsValidMeta layers p
      → Reaches layers (length layers) p
  IsValidMeta-Reaches layers p v =
      let s =
        verify_meta_layer_component_layers-Settled version_major version_minor version_patch layers
          p v.index v.in_range in
      (subst (Settled layers (length layers) (Reaches layers (length layers) p)) v.valid s).2 refl

  -- Every meta-layer of the list passes the verification.
  abbrev pub AreValid : List LayerPointer → Type 0
  AreValid layers = All (λ p. p.props.is_meta ≡ true → IsValidMeta layers p) layers

  AreValid-IsGrounded :
      (c : Surroundings)
      → names_differ c.source_list ≡ true
      → AreValid c.source_list
      → (p : LayerPointer) → Memᴰ p c.source_list
      → p.props.is_meta ≡ true
      → IsGrounded c (length c.source_list) p
  AreValid-IsGrounded c differ valid p m meta =
      IsGrounded-Reaches c (length c.source_list) p (names_differ-HaveOwnNames c.source_list differ)
        (IsValidMeta-Reaches c.source_list p (
          All-Memᴰ (λ q. q.props.is_meta ≡ true → IsValidMeta c.source_list q) c.source_list p valid
            m meta))

  -- If every meta-layer of the list passes the verification and no two layers have the same name,
  -- then to enable the layers of an instance ends: the recursion through meta-layers is at most as
  -- deep as there are layers. It never writes beyond an array, the lists have nothing but layers that
  -- were asked for and their components, and unless memory ran out they agree.
  pub loader_enable_instance_layers-verify_meta_layer_component_layers :
      (c : Surroundings) (settings : Settings) (env : Option CString) (names : List CString)
      (h : Heap) (marks : ℕ → EnabledByWhat)
      → pointer_size ≤ c.size
      → c.size < 2 ^ 30
      → names_differ c.source_list ≡ true
      → AreValid c.source_list
      → Ends
          (IsActivated c (IsRequested c settings env names))
          (IsLeft c (IsRequested c settings env names))
          ⊥
          (loader_enable_instance_layers c (length c.source_list) settings env names (idle h marks))
  loader_enable_instance_layers-verify_meta_layer_component_layers c settings env names h marks wide
        limit differ valid =
      loader_enable_instance_layers-Ends_grounded c (length c.source_list) settings env names h
        marks wide limit (AreValid-IsGrounded c differ valid)

  -- If every meta-layer of the list passes the verification and no two layers have the same name,
  -- then adding the layers that an application names ends. Unless memory runs out, afterwards there
  -- is an activated layer for every name that finds an available layer which is no meta-layer,
  -- whatever the other names are.
  pub loader_add_layer_names_to_list-find_layer_pointer :
      (c : Surroundings) (names : List CString) (name : CString) (p : LayerPointer)
      (st : Activation)
      → pointer_size ≤ c.size
      → c.size < 2 ^ 30
      → names_differ c.source_list ≡ true
      → AreValid c.source_list
      → any_equal names name ≡ true
      → find_layer_pointer name c.source_list ≡ some p
      → is_available c p ≡ true
      → p.props.is_meta ≡ false
      → IsActivated c (λ q. Unit) st
      → Ends
          (Has c (λ q. Unit) name)
          (IsLeft c (λ q. Unit))
          ⊥
          (loader_add_layer_names_to_list c (length c.source_list) names st)
  loader_add_layer_names_to_list-find_layer_pointer c names name p st wide limit differ valid =
      loader_add_layer_names_to_list-lists c (length c.source_list) names name p st wide limit
        (AreValid-IsGrounded c differ valid)
