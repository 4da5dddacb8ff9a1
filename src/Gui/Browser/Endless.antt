-- ===== src/Gui/Browser/Endless.antt =====
-- The browse of src/gui/OpcUaBrowser.cpp does not return where its calls can go on for ever.
use mathlib.Core.List.{Memᴰ}
use mathlib.Core.List.Memᴰ
use bo_smart_factory_opcua_t.Base.{
  ℕ, zero, suc, ◌≡◌, inl, inr, sym, ap, ◌∙◌, subst, true, List, [], ◌∷◌, ◌++◌, none, some, and_then,
  Option-cases,
}
use bo_smart_factory_opcua_t.Nodes.BrowseMap.{NodeId}
use bo_smart_factory_opcua_t.Gui.Qt.{Qt}
use bo_smart_factory_opcua_t.Gui.Browser.{
  object, Reference, AddressSpace, DiscoveredNode, discovered, browse_references, references_of,
  browse_recursive,
}
use bo_smart_factory_opcua_t.Gui.Browser.Reaching.{
  refs_or_none, references, variable-ne-object, object-ne-other,
}
use bo_smart_factory_opcua_t.Gui.Browser.Rounds.{
  BrowseChild, Class-cases, browse_references-variable, browse_references-other,
  browse_references-object, browse_recursive-zero, browse_recursive-some,
}

not_here :
    (ref x : Reference) (refs : List Reference)
    → (ref ≡ x → ⊥)
    → Memᴰ ref (x ∷ refs)
    → Memᴰ ref refs
not_here ref x refs ne m = elim (Memᴰ.cases_cons m) [ inl e ↦ absurd (ne e) | inr m' ↦ m' ]

module _ (qt : Qt) (space : AddressSpace) where
  module _ (browse_child : BrowseChild) where
    -- A call below that does not return.
    browse_references-endless :
        (ref : Reference) (refs : List Reference) (old : List DiscoveredNode)
        → Memᴰ ref refs
        → ref.node_class ≡ object
        → ((nodes : List DiscoveredNode) → browse_child ref.node_id nodes ≡ none)
        → browse_references qt space browse_child refs old ≡ none
    browse_references-endless ref [] old m c h = absurd (Memᴰ.not-nil m)
    browse_references-endless ref (x ∷ refs) old m c h = elim (Class-cases x.node_class) [
      | inl v ↦
          browse_references-variable qt space browse_child x refs old v
          ∙ browse_references-endless ref refs (old ++ discovered qt space x ∷ [])
              (not_here ref x refs
                (λ e. variable-ne-object (sym v ∙ ap (λ (r : Reference). r.node_class) (sym e) ∙ c))
                m)
              c h
      | inr (inl o) ↦ elim (Memᴰ.cases_cons m) [
        | inl e ↦
            browse_references-object qt space browse_child x refs old none o
              (ap (λ (r : Reference). browse_child r.node_id old) (sym e) ∙ h old)
        | inr m' ↦ elim (Option-cases (browse_child x.node_id old)) [
          | inl stuck ↦ browse_references-object qt space browse_child x refs old none o stuck
          | inr (r, goes) ↦
              browse_references-object qt space browse_child x refs old (some r) o goes
              ∙ browse_references-endless ref refs r.1 m' c h
        ]
      ]
      | inr (inr t) ↦
          browse_references-other qt space browse_child x refs old t
          ∙ browse_references-endless ref refs old
              (not_here ref x refs
                (λ e. object-ne-other (sym c ∙ ap (λ (r : Reference). r.node_class) e ∙ t)) m)
              c h
    ]

  -- Where some nodes each refer to an object among them, as on a cycle, the browse of one of them
  -- does not return, however deep its calls may go: it has no memory of the nodes that it has seen.
  pub browse_recursive-endless :
      (P : NodeId → Type 0)
      → ((id : NodeId)
          → P id
          → (ref : Reference) × Memᴰ ref (references qt space id)
            × (ref.node_class ≡ object)
            × P ref.node_id)
      → (depth : ℕ) (id : NodeId) (old : List DiscoveredNode) → P id
      → browse_recursive qt space depth id old ≡ none
  browse_recursive-endless P next zero id old p = browse_recursive-zero qt space id old
  browse_recursive-endless P next (suc depth) id old p =
      elim (Option-cases (references_of (space.browse id))) [
        | inl e ↦ absurd (
            Memᴰ.not-nil
              (subst (λ o. Memᴰ (next id p).0 (refs_or_none qt space o)) e (next id p).1))
        | inr (refs, e) ↦
            let (ref, m, c, p') = next id p in
            let here : references qt space id ≡ refs = ap (refs_or_none qt space) e in
            browse_recursive-some qt space depth id old refs e
            ∙ ap (λ o. and_then o (λ f. some (true, f)))
                (browse_references-endless (browse_recursive qt space depth) ref refs old
                  (subst (Memᴰ ref) here m) c
                  (λ nodes. browse_recursive-endless P next depth ref.node_id nodes p'))
      ]
