-- ===== src/Gui/Browser/Reaching.antt =====
-- What the browse of src/gui/OpcUaBrowser.cpp collects, and when it returns.
use mathlib.Core.List.{Memᴰ}
use mathlib.Core.List.Memᴰ
use bo_smart_factory_opcua_t.Base.{
  ◌≡◌, ◌↔◌, ◌⊎◌, inl, inr, sym, ◌∙◌, List, [], ◌∷◌, ◌++◌, Option, none, some,
}
use bo_smart_factory_opcua_t.Nodes.BrowseMap.{NodeId}
use bo_smart_factory_opcua_t.Gui.Qt.{Qt}
use bo_smart_factory_opcua_t.Gui.Browser.{
  object, variable, other, Reference, AddressSpace, DiscoveredNode, discovered, references_of,
}

pub variable-ne-object : variable ≡ object → ⊥
variable-ne-object e = cc

variable-ne-other : variable ≡ other → ⊥
variable-ne-other e = cc

pub object-ne-other : object ≡ other → ⊥
object-ne-other e = cc

module _ (qt : Qt) (space : AddressSpace) where
  -- The references of a node, none if it cannot be browsed.
  abbrev pub refs_or_none : Option (List Reference) → List Reference
  refs_or_none none = []
  refs_or_none (some refs) = refs

  abbrev pub references : NodeId → List Reference
  references id = refs_or_none (references_of (space.browse id))

  -- A node is found from references: it is a variable among them, or found from an object's.
  pub data FoundFrom : List Reference → DiscoveredNode → Type 0 where
    variable_here :
        {ref : Reference} {refs : List Reference} {d : DiscoveredNode}
        → ref.node_class ≡ variable
        → d ≡ discovered qt space ref
        → FoundFrom (ref ∷ refs) d
    below_object :
        {ref : Reference} {refs : List Reference} {d : DiscoveredNode}
        → ref.node_class ≡ object
        → FoundFrom (references ref.node_id) d
        → FoundFrom (ref ∷ refs) d
    later :
        {ref : Reference} {refs : List Reference} {d : DiscoveredNode}
        → FoundFrom refs d
        → FoundFrom (ref ∷ refs) d

  -- `found` holds exactly the old nodes and those found from the references.
  abbrev pub Adds : List Reference → List DiscoveredNode → List DiscoveredNode → Type 0
  Adds refs old found = (d : DiscoveredNode) → Memᴰ d found ↔ (Memᴰ d old ⊎ FoundFrom refs d)

  pub FoundFrom-cases :
      {ref : Reference} {refs : List Reference} {d : DiscoveredNode}
      → FoundFrom (ref ∷ refs) d
      → ((ref.node_class ≡ variable) × (d ≡ discovered qt space ref))
        ⊎ (((ref.node_class ≡ object) × FoundFrom (references ref.node_id) d) ⊎ FoundFrom refs d)
  FoundFrom-cases (variable_here c e) = inl (c, e)
  FoundFrom-cases (below_object c f) = inr (inl (c, f))
  FoundFrom-cases (later f) = inr (inr f)

  not-FoundFrom-nil : {d : DiscoveredNode} → FoundFrom [] d → ⊥
  not-FoundFrom-nil f = elim f [ ]

  pub Adds-nil : (old : List DiscoveredNode) → Adds [] old old
  Adds-nil old d = (inl, λ f. elim f [ inl m ↦ m | inr n ↦ absurd (not-FoundFrom-nil n) ])

  -- The first reference, by its class.
  module _ (ref : Reference) (refs : List Reference) (old found : List DiscoveredNode) where
    pub Adds-variable :
        ref.node_class ≡ variable
        → Adds refs (old ++ discovered qt space ref ∷ []) found
        → Adds (ref ∷ refs) old found
    Adds-variable c h d = (
      λ m. elim ((h d).0 m) [
        | inl m' ↦ elim (Memᴰ.append_cases old m') [
          | inl o ↦ inl o
          | inr new ↦ inr (variable_here c (Memᴰ.eq_of_singleton new))
        ]
        | inr f ↦ inr (later f)
      ],
      λ f. elim f [
        | inl o ↦ (h d).1 (inl (Memᴰ.append_left (discovered qt space ref ∷ []) o))
        | inr g ↦ elim (FoundFrom-cases g) [
          | inl (k, e) ↦ (h d).1 (inl (Memᴰ.append_right old (Memᴰ.head e)))
          | inr g' ↦ elim g' [
            | inl (k, below) ↦ absurd (variable-ne-object (sym c ∙ k))
            | inr more ↦ (h d).1 (inr more)
          ]
        ]
      ],
    )

    pub Adds-object :
        (mid : List DiscoveredNode)
        → ref.node_class ≡ object
        → Adds (references ref.node_id) old mid
        → Adds refs mid found
        → Adds (ref ∷ refs) old found
    Adds-object mid c below h d = (
      λ m. elim ((h d).0 m) [
        | inl m' ↦ elim ((below d).0 m') [ inl o ↦ inl o | inr b ↦ inr (below_object c b) ]
        | inr f ↦ inr (later f)
      ],
      λ f. elim f [
        | inl o ↦ (h d).1 (inl ((below d).1 (inl o)))
        | inr g ↦ elim (FoundFrom-cases g) [
          | inl (k, e) ↦ absurd (variable-ne-object (sym k ∙ c))
          | inr g' ↦ elim g' [
            | inl (k, b) ↦ (h d).1 (inl ((below d).1 (inr b)))
            | inr more ↦ (h d).1 (inr more)
          ]
        ]
      ],
    )

    pub Adds-other : ref.node_class ≡ other → Adds refs old found → Adds (ref ∷ refs) old found
    Adds-other c h d = (
      λ m. elim ((h d).0 m) [ inl o ↦ inl o | inr f ↦ inr (later f) ],
      λ f. elim f [
        | inl o ↦ (h d).1 (inl o)
        | inr g ↦ elim (FoundFrom-cases g) [
          | inl (k, e) ↦ absurd (variable-ne-other (sym k ∙ c))
          | inr g' ↦ elim g' [
            | inl (k, b) ↦ absurd (object-ne-other (sym k ∙ c))
            | inr more ↦ (h d).1 (inr more)
          ]
        ]
      ],
    )
