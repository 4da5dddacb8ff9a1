-- ===== src/Gui/Browser/Rounds.antt =====
-- The calls of the browse of src/gui/OpcUaBrowser.cpp, one step at a time.
use bo_smart_factory_opcua_t.Base.{
  ℕ, zero, suc, ◌≡◌, ◌⊎◌, inl, inr, refl, true, List, [], ◌∷◌, ◌++◌, Option, Bool, false, none,
  some, and_then, arith,
}
use bo_smart_factory_opcua_t.Nodes.BrowseMap.{NodeId}
use bo_smart_factory_opcua_t.Gui.Qt.{Qt}
use bo_smart_factory_opcua_t.Gui.Browser.{
  NodeClass, object, variable, other, Reference, AddressSpace, DiscoveredNode, discovered,
  browse_references, references_of, browse_recursive,
}

abbrev pub BrowseChild : Type 0
BrowseChild = NodeId → List DiscoveredNode → Option (Bool × List DiscoveredNode)

pub Class-cases : (c : NodeClass) → (c ≡ variable) ⊎ ((c ≡ object) ⊎ (c ≡ other))
Class-cases variable = inl refl
Class-cases object = inr (inl refl)
Class-cases other = inr (inr refl)

module _ (qt : Qt) (space : AddressSpace) where
  pub browse_references-nil :
      (browse_child : BrowseChild) (old : List DiscoveredNode)
      → browse_references qt space browse_child [] old ≡ some old
  unfolding browse_references
  browse_references-nil browse_child old = refl

  module _ (browse_child : BrowseChild) (ref : Reference) (refs : List Reference)
      (old : List DiscoveredNode) where
    pub browse_references-variable :
        ref.node_class ≡ variable
        → browse_references qt space browse_child (ref ∷ refs) old
          ≡ browse_references qt space browse_child refs (old ++ discovered qt space ref ∷ [])
    unfolding browse_references
    browse_references-variable c = ground arith

    pub browse_references-other :
        ref.node_class ≡ other
        → browse_references qt space browse_child (ref ∷ refs) old
          ≡ browse_references qt space browse_child refs old
    unfolding browse_references
    browse_references-other c = rw (c, browse_references) refl

    pub browse_references-object :
        (o : Option (Bool × List DiscoveredNode))
        → ref.node_class ≡ object
        → browse_child ref.node_id old ≡ o
        → browse_references qt space browse_child (ref ∷ refs) old
          ≡ and_then o (λ r. browse_references qt space browse_child refs r.1)
    unfolding browse_references
    browse_references-object o c e = rw (c, e, browse_references) refl

  pub browse_recursive-zero :
      (id : NodeId) (old : List DiscoveredNode) → browse_recursive qt space zero id old ≡ none
  unfolding browse_recursive
  browse_recursive-zero id old = refl

  -- One call, by what is found at the node.
  module _ (depth : ℕ) (id : NodeId) (old : List DiscoveredNode) where
    pub browse_recursive-none :
        references_of (space.browse id) ≡ none
        → browse_recursive qt space (suc depth) id old ≡ some (false, old)
    unfolding browse_recursive
    browse_recursive-none e = rw (e, browse_recursive) refl

    pub browse_recursive-some :
        (refs : List Reference)
        → references_of (space.browse id) ≡ some refs
        → browse_recursive qt space (suc depth) id old
          ≡ and_then
              (browse_references qt space (browse_recursive qt space depth) refs old)
              (λ found. some (true, found))
    unfolding browse_recursive
    browse_recursive-some refs e = rw (e, browse_recursive) refl
