-- ===== src/Gui/Dialog/Selecting.antt =====
-- What the dialog of src/gui/NodeSelectionDialog.cpp shows and what it reads back from the text of
-- the selected entry.
use bo_smart_factory_opcua_t.Base.{
  ℕ, zero, suc, ◌≡◌, ◌<◌, ◌↔◌, refl, sym, ap, ◌∙◌, ◌&&◌, [], ◌∷◌, ◌++◌, Option, none, some, codes,
  length, take, arith, ◌==◌, if◌then◌else◌, Option-cases, inl, inr, and_then,
}
use bo_smart_factory_opcua_t.Gui.Qt.{Text, Qt}
use bo_smart_factory_opcua_t.Gui.Browser.{DiscoveredNode}
use bo_smart_factory_opcua_t.Gui.Dialog.{
  NodeSelectionDialog, combo_item, selected_browse_name, selected_node_id_string, current_item,
  left_of,
}

-- The first position of a space with an opening parenthesis behind it.
unfoldable pub find_parenthesis : Text → Option ℕ
find_parenthesis [] = none
find_parenthesis (c ∷ []) = none
find_parenthesis (c ∷ d ∷ s) =
    let later = and_then (find_parenthesis (d ∷ s)) λ i. some (suc i) in
    if (c == b' ') && (d == b'(') then some 0 else later

-- In front of " (" it is found at the first place in the name, or else behind the name.
abbrev or_at : ℕ → Option ℕ → Option ℕ
or_at n none = some n
or_at n (some i) = some i

find-name :
    (name rest : Text)
    → find_parenthesis (name ++ (codes " (" ++ rest)) ≡ or_at (length name) (find_parenthesis name)
unfolding find_parenthesis
find-name [] rest = refl
find-name (c ∷ []) rest = ground arith
find-name (c ∷ d ∷ s) rest = ground (arith, find-name (d ∷ s) rest)

find-lt : (name : Text) (i : ℕ) → find_parenthesis name ≡ some i → i < length name
unfolding find_parenthesis
find-lt [] i h = cc
find-lt (c ∷ []) i h = cc
find-lt (c ∷ d ∷ s) i h = elim (Option-cases (find_parenthesis (d ∷ s))) [
  | inl e ↦ ground (arith, e)
  | inr (j, e) ↦ ground (arith, e, find-lt (d ∷ s) j e)
]

take-length_append : (xs ys : Text) → take (length xs) (xs ++ ys) ≡ xs
take-length_append [] ys = refl
take-length_append (x ∷ xs) ys = ap (λ t. x ∷ t) (take-length_append xs ys)

length-take_lt : (i : ℕ) (xs ys : Text) → i < length xs → length (take i (xs ++ ys)) ≡ i
length-take_lt zero xs ys h = refl
length-take_lt (suc i) [] ys h = absurd (omega (arith, h))
length-take_lt (suc i) (x ∷ xs) ys h = omega (arith, length-take_lt i xs ys (omega (arith, h)))

-- What the documentation of QString::indexOf says, for " (".
abbrev pub FindsParenthesis : Qt → Type 0
FindsParenthesis qt = (s : Text) → qt.index_of s (codes " (") ≡ find_parenthesis s

module _ (qt : Qt) (finds : FindsParenthesis qt) (d : NodeSelectionDialog)
    (n : DiscoveredNode) where
  selected_name :
      current_item d ≡ some (combo_item n)
      → selected_browse_name qt d
        ≡ left_of (combo_item n).text (find_parenthesis (combo_item n).text)
  unfolding selected_browse_name
  selected_name h = rw (h, selected_browse_name, finds (combo_item n).text) refl

  cut_at :
      (o : Option ℕ)
      → find_parenthesis n.browse_name ≡ o
      → current_item d ≡ some (combo_item n)
      → selected_browse_name qt d ≡ left_of (combo_item n).text (or_at (length n.browse_name) o)
  unfolding combo_item
  cut_at o e h =
      selected_name h
      ∙ ap (left_of (combo_item n).text) (
          find-name n.browse_name (n.node_id_string ++ codes ")")
          ∙ ap (or_at (length n.browse_name)) e)

  name_iff :
      (o : Option ℕ)
      → find_parenthesis n.browse_name ≡ o
      → current_item d ≡ some (combo_item n)
      → (selected_browse_name qt d ≡ n.browse_name) ↔ (o ≡ none)
  unfolding combo_item
  name_iff none e h = (
    λ _. refl,
    λ _.
        cut_at none e h
        ∙ take-length_append n.browse_name (codes " (" ++ (n.node_id_string ++ codes ")")),
  )
  name_iff (some i) e h = (
    λ same. absurd (too_short i (find-lt n.browse_name i e) (sym (cut_at (some i) e h) ∙ same)),
    λ none_found. absurd (some-ne-none none_found),
  )
    where
      some-ne-none : some i ≡ none → ⊥
      some-ne-none k = cc

      too_short :
          (j : ℕ) → j < length n.browse_name → take j (combo_item n).text ≡ n.browse_name → ⊥
      too_short j below same = omega (
        arith,
        ap length same,
        length-take_lt j n.browse_name (codes " (" ++ (n.node_id_string ++ codes ")")) below,
      )

  node_id_selected :
      current_item d ≡ some (combo_item n) → selected_node_id_string d ≡ n.node_id_string
  unfolding selected_node_id_string combo_item
  node_id_selected h = rw (h, selected_node_id_string) refl

-- With an entry selected, the dialog gives back the node id of its node; and it gives back the
-- node's browse name exactly if that has no space followed by an opening parenthesis. QString's
-- indexOf is asked to find the first place.
pub selected_browse_name_iff :
    (qt : Qt) (d : NodeSelectionDialog) (n : DiscoveredNode)
    → FindsParenthesis qt
    → current_item d ≡ some (combo_item n)
    → (selected_node_id_string d ≡ n.node_id_string)
      × ((selected_browse_name qt d ≡ n.browse_name) ↔ (find_parenthesis n.browse_name ≡ none))
selected_browse_name_iff qt d n finds h =
    (node_id_selected qt finds d n h, name_iff qt finds d n (find_parenthesis n.browse_name) refl h)
