-- ===== src/Gui/Browser/Returning.antt =====
-- The browse of src/gui/OpcUaBrowser.cpp returns below a node from which its calls get no further
-- than some depth.
use mathlib.Core.List.{Memᴰ}
use bo_smart_factory_opcua_t.Base.{
  ℕ, zero, suc, ◌≡◌, ◌<◌, inl, inr, refl, sym, ap, ◌∙◌, subst, true, List, [], ◌∷◌, ◌++◌, Bool,
  false, some, and_then, arith, Option-cases,
}
use bo_smart_factory_opcua_t.Nodes.BrowseMap.{NodeId}
use bo_smart_factory_opcua_t.Gui.Qt.{Qt}
use bo_smart_factory_opcua_t.Gui.Browser.{
  object, Reference, AddressSpace, DiscoveredNode, discovered, browse_references, references_of,
  browse_recursive,
}
use bo_smart_factory_opcua_t.Gui.Browser.Reaching.{
  refs_or_none, references, Adds, Adds-nil, Adds-variable, Adds-object, Adds-other,
}
use bo_smart_factory_opcua_t.Gui.Browser.Rounds.{
  BrowseChild, Class-cases, browse_references-nil, browse_references-variable,
  browse_references-other, browse_references-object, browse_recursive-none, browse_recursive-some,
}

le_of_falls : {a b c : ℕ} → a < b → b < suc c → a < c
le_of_falls h k = omega arith

module _ (qt : Qt) (space : AddressSpace) where
  -- A call for a node returns, with exactly the nodes that it is to add.
  abbrev pub Returns : BrowseChild → NodeId → Type 0
  Returns browse_child id =
      (old : List DiscoveredNode)
      → (r : Bool × List DiscoveredNode) × (browse_child id old ≡ some r)
        × Adds qt space (references qt space id) old r.1

  -- Below each object among the references the calls return.
  abbrev AllReturn : BrowseChild → List Reference → Type 0
  AllReturn browse_child [] = Unit
  AllReturn browse_child (ref ∷ refs) =
      (ref.node_class ≡ object → Returns browse_child ref.node_id) × AllReturn browse_child refs

  -- The loop returns, with exactly the nodes found from its references.
  module _ (browse_child : BrowseChild) where
    browse_references-returns :
        (refs : List Reference) (old : List DiscoveredNode)
        → AllReturn browse_child refs
        → (found : List DiscoveredNode) × (browse_references qt space browse_child refs old
            ≡ some found)
          × Adds qt space refs old found
    browse_references-returns [] old h =
        (old, browse_references-nil qt space browse_child old, Adds-nil qt space old)
    browse_references-returns (ref ∷ refs) old h = elim (Class-cases ref.node_class) [
      | inl c ↦
          let (found, runs, adds) =
            browse_references-returns refs (old ++ discovered qt space ref ∷ []) h.1 in
          (
            found,
            browse_references-variable qt space browse_child ref refs old c ∙ runs,
            Adds-variable qt space ref refs old found c adds,
          )
      | inr (inl c) ↦
          let (r, child, below) = h.0 c old in
          let (found, runs, adds) = browse_references-returns refs r.1 h.1 in
          (
            found,
            browse_references-object qt space browse_child ref refs old (some r) c child ∙ runs,
            Adds-object qt space ref refs old found r.1 c below adds,
          )
      | inr (inr c) ↦
          let (found, runs, adds) = browse_references-returns refs old h.1 in
          (
            found,
            browse_references-other qt space browse_child ref refs old c ∙ runs,
            Adds-other qt space ref refs old found c adds,
          )
    ]

    all_of_each :
        (refs : List Reference)
        → ((ref : Reference)
            → Memᴰ ref refs
            → ref.node_class ≡ object
            → Returns browse_child ref.node_id)
        → AllReturn browse_child refs
    all_of_each [] h = tt
    all_of_each (ref ∷ refs) h =
        (h ref (Memᴰ.head refl), all_of_each refs (λ r m. h r (Memᴰ.tail m)))

  -- The browse of a node returns, and it has then added exactly the variables found from its
  -- references: those that the node refers to, and those found from an object that it refers to. The
  -- depth of the calls is asked to be above the rank of the node, for some rank that falls from a
  -- node to each object that it refers to; so the address space below the node has no cycle.
  pub browse_recursive-Returns :
      (rank : NodeId → ℕ)
      → ((id : NodeId) (ref : Reference)
          → Memᴰ ref (references qt space id)
          → ref.node_class ≡ object
          → rank ref.node_id < rank id)
      → (depth : ℕ) (id : NodeId) → rank id < depth
      → Returns (browse_recursive qt space depth) id
  browse_recursive-Returns rank falls zero id h old = absurd (omega (arith, h))
  browse_recursive-Returns rank falls (suc depth) id h old =
      elim (Option-cases (references_of (space.browse id))) [
        | inl e ↦ (
          (false, old),
          browse_recursive-none qt space depth id old e,
          λ d.
              subst (λ o. Adds qt space (refs_or_none qt space o) old old) (sym e)
                (Adds-nil qt space old) d,
        )
        | inr (refs, e) ↦
            let here : references qt space id ≡ refs = ap (refs_or_none qt space) e in
            let (found, runs, adds) =
              browse_references-returns (browse_recursive qt space depth) refs old (
                all_of_each (browse_recursive qt space depth) refs (λ ref m c.
                  browse_recursive-Returns rank falls depth ref.node_id
                    (le_of_falls (falls id ref (subst (Memᴰ ref) (sym here) m) c) h))) in
            (
              (true, found),
              browse_recursive-some qt space depth id old refs e
                  ∙ ap (λ o. and_then o (λ f. some (true, f))) runs,
              subst (λ rs. Adds qt space rs old found) (sym here) adds,
            )
      ]
