-- ===== src/Gui/Dialog/Filtering.antt =====
-- Which nodes the dialog of src/gui/NodeSelectionDialog.cpp shows for a filter.
use mathlib.Core.List.{Memᴰ}
use mathlib.Core.List.Memᴰ
use bo_smart_factory_opcua_t.Base.{
  ◌≡◌, ◌↔◌, ◌⊎◌, refl, sym, ap, ◌∙◌, subst, true, false, List, [], ◌∷◌, map, Bool-cases, inl, inr,
  not, if◌then◌else◌,
}
use bo_smart_factory_opcua_t.Gui.Qt.{Text, Qt}
use bo_smart_factory_opcua_t.Gui.Browser.{DiscoveredNode}
use bo_smart_factory_opcua_t.Gui.Dialog.{
  NodeSelectionDialog, combo_item, matches, filter_nodes, on_filter_changed, shown_nodes, has_nodes,
}

true-ne-false : true ≡ false → ⊥
true-ne-false h = cc

module _ (qt : Qt) (lower : Text) where
  filter_nodes-true :
      (m : DiscoveredNode) (ns : List DiscoveredNode)
      → matches qt lower m ≡ true
      → filter_nodes qt lower (m ∷ ns) ≡ m ∷ filter_nodes qt lower ns
  unfolding filter_nodes
  filter_nodes-true m ns h = rw h refl

  filter_nodes-false :
      (m : DiscoveredNode) (ns : List DiscoveredNode)
      → matches qt lower m ≡ false
      → filter_nodes qt lower (m ∷ ns) ≡ filter_nodes qt lower ns
  unfolding filter_nodes
  filter_nodes-false m ns h = rw h refl

  filter_nodes-nil : filter_nodes qt lower [] ≡ []
  unfolding filter_nodes
  filter_nodes-nil = refl

  matching_kept :
      (ns : List DiscoveredNode) (n : DiscoveredNode)
      → Memᴰ n ns
      → matches qt lower n ≡ true
      → Memᴰ n (filter_nodes qt lower ns)
  matching_kept [] n m t = absurd (Memᴰ.not-nil m)
  matching_kept (x ∷ ns) n m t = elim (Bool-cases (matches qt lower x)) [
    | inl y ↦ subst (Memᴰ n) (sym (filter_nodes-true x ns y)) (elim (Memᴰ.cases_cons m) [
      | inl e ↦ Memᴰ.head e
      | inr m' ↦ Memᴰ.tail (matching_kept ns n m' t)
    ])
    | inr y ↦ subst (Memᴰ n) (sym (filter_nodes-false x ns y)) (elim (Memᴰ.cases_cons m) [
      | inl e ↦ absurd (true-ne-false (sym t ∙ ap (matches qt lower) e ∙ y))
      | inr m' ↦ matching_kept ns n m' t
    ])
  ]

  kept_matching :
      (ns : List DiscoveredNode) (n : DiscoveredNode)
      → Memᴰ n (filter_nodes qt lower ns)
      → Memᴰ n ns × (matches qt lower n ≡ true)
  kept_matching [] n m = absurd (Memᴰ.not-nil (subst (Memᴰ n) filter_nodes-nil m))
  kept_matching (x ∷ ns) n m = elim (Bool-cases (matches qt lower x)) [
    | inl y ↦ elim (Memᴰ.cases_cons (subst (Memᴰ n) (filter_nodes-true x ns y) m)) [
      | inl e ↦ (Memᴰ.head e, ap (matches qt lower) e ∙ y)
      | inr m' ↦ let below = kept_matching ns n m' in (Memᴰ.tail below.0, below.1)
    ]
    | inr y ↦
        let below = kept_matching ns n (subst (Memᴰ n) (filter_nodes-false x ns y) m) in
        (Memᴰ.tail below.0, below.1)
  ]

  -- What a filter is to show: the nodes that match, or all of them if none does.
  abbrev pub IsShown : List DiscoveredNode → DiscoveredNode → Type 0
  IsShown nodes n =
      Memᴰ n nodes
      × ((matches qt lower n ≡ true)
          ⊎ ((m : DiscoveredNode) → Memᴰ m nodes → matches qt lower m ≡ false))

  kept_or_all :
      (nodes kept : List DiscoveredNode)
      → filter_nodes qt lower nodes ≡ kept
      → (n : DiscoveredNode)
      → Memᴰ n (if not (has_nodes kept) then nodes else kept) ↔ IsShown nodes n
  kept_or_all nodes [] e n = (λ m. (m, inr (λ x mx. unmatched x mx)), λ s. s.0)
    where
      unmatched : (x : DiscoveredNode) → Memᴰ x nodes → matches qt lower x ≡ false
      unmatched x mx = elim (Bool-cases (matches qt lower x)) [
        | inl y ↦ absurd (Memᴰ.not-nil (subst (Memᴰ x) e (matching_kept nodes x mx y)))
        | inr f ↦ f
      ]
  kept_or_all nodes (x ∷ xs) e n = (
    λ m. let k = kept_matching nodes n (subst (Memᴰ n) (sym e) m) in (k.0, inl k.1),
    λ s. elim s.1 [
      | inl y ↦ subst (Memᴰ n) e (matching_kept nodes n s.0 y)
      | inr nothing ↦
          let k = kept_matching nodes x (subst (Memᴰ x) (sym e) (Memᴰ.head refl)) in
          absurd (true-ne-false (sym k.1 ∙ nothing x k.0))
    ],
  )

-- Behind a change of the filter the combo box holds, in order, the entries of the nodes that are
-- shown, and these are the nodes that match the filter or, where no node matches it, all of them.
pub on_filter_changed_lem :
    (qt : Qt) (text : Text) (d : NodeSelectionDialog)
    → let d' = on_filter_changed qt text d in
      (d'.combo ≡ map combo_item (shown_nodes d'))
      × ((n : DiscoveredNode) → Memᴰ n (shown_nodes d') ↔ IsShown qt (qt.to_lower text) d.nodes n)
unfolding on_filter_changed
on_filter_changed_lem qt text d = (
  refl,
  kept_or_all qt (qt.to_lower text) d.nodes (filter_nodes qt (qt.to_lower text) d.nodes) refl,
)
