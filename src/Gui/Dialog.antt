-- ===== src/Gui/Dialog.antt =====
-- NodeSelectionDialog of src/gui: the filter, the list of nodes and what is selected in it.
pub mod Selecting
pub mod Filtering
use bo_smart_factory_opcua_t.Base.{
  ℕ, Bool, true, false, not, ◌&&◌, ◌||◌, List, [], ◌∷◌, ◌++◌, Option, none, some, codes,
  if◌then◌else◌, non_empty, map, take, get_elem?, and_then, is_some, length, ltb,
}
use bo_smart_factory_opcua_t.Gui.Qt.{Text, Qt}
use bo_smart_factory_opcua_t.Gui.Browser.{DiscoveredNode, OpcUaBrowser}

-- An entry of the combo box: its text, and its data.
pub record ComboItem : Type 0 where
  pub text : Text
  pub node_id : Text

-- `current` is currentIndex(), and `none` is -1.
pub record NodeSelectionDialog : Type 0 where
  pub endpoint_url : Text
  pub namespace_uri : Text
  pub nodes : List DiscoveredNode
  pub filtered_nodes : List DiscoveredNode
  pub combo : List ComboItem
  pub current : Option ℕ
  pub ok_enabled : Bool

-- `isEmpty()` of a vector.
abbrev pub has_nodes : List DiscoveredNode → Bool
has_nodes [] = false
has_nodes (n ∷ ns) = true

unfoldable pub combo_item : DiscoveredNode → ComboItem
combo_item n = record {
  text = n.browse_name ++ (codes " (" ++ (n.node_id_string ++ codes ")"));
  node_id = n.node_id_string;
}

unfoldable pub on_selection_changed : NodeSelectionDialog → NodeSelectionDialog
on_selection_changed d = record d { ok_enabled = is_some d.current && ltb 0 (length d.combo) }

-- The first entry that is added to an empty combo box becomes the current one.
abbrev pub first_index : List ComboItem → Option ℕ
first_index [] = none
first_index (i ∷ is) = some 0

abbrev pub shown_nodes : NodeSelectionDialog → List DiscoveredNode
shown_nodes d = if not (has_nodes d.filtered_nodes) then d.nodes else d.filtered_nodes

unfoldable pub populate_combo : NodeSelectionDialog → NodeSelectionDialog
unfolding on_selection_changed
populate_combo d =
    let items = map combo_item (shown_nodes d) in
    on_selection_changed (record d { combo = items; current = first_index items })

-- The constructor, for the cached nodes.
unfoldable pub new_dialog : Text → Text → List DiscoveredNode → NodeSelectionDialog
unfolding populate_combo
new_dialog endpoint_url namespace_uri cached =
    let d : NodeSelectionDialog = record {
      endpoint_url = endpoint_url;
      namespace_uri = namespace_uri;
      nodes = cached;
      filtered_nodes = [];
      combo = [];
      current = none;
      ok_enabled = false;
    } in
    if has_nodes cached then populate_combo d else d

-- The test of onFilterChanged, with the filter in lower case.
unfoldable pub matches : Qt → Text → DiscoveredNode → Bool
matches qt lower n =
    not (non_empty lower)
    || qt.contains (qt.to_lower n.browse_name) lower
    || qt.contains (qt.to_lower n.display_name) lower
    || qt.contains (qt.to_lower n.node_id_string) lower

-- The loop of onFilterChanged.
unfoldable pub filter_nodes : Qt → Text → List DiscoveredNode → List DiscoveredNode
filter_nodes qt lower [] = []
filter_nodes qt lower (n ∷ ns) =
    let rest = filter_nodes qt lower ns in if matches qt lower n then n ∷ rest else rest

unfoldable pub on_filter_changed : Qt → Text → NodeSelectionDialog → NodeSelectionDialog
unfolding populate_combo filter_nodes
on_filter_changed qt text d =
    populate_combo (record d { filtered_nodes = filter_nodes qt (qt.to_lower text) d.nodes })

-- onDiscover, with what connectAndBrowse returns and leaves in the browser.
unfoldable pub on_discover : Bool × OpcUaBrowser → NodeSelectionDialog → NodeSelectionDialog
unfolding populate_combo
on_discover (success, browser) d =
    if not (non_empty d.endpoint_url) || not (non_empty d.namespace_uri)
    then d
    else if success
    then populate_combo (record d { nodes = browser.nodes })
    else d

abbrev pub current_item : NodeSelectionDialog → Option ComboItem
current_item d = and_then d.current (get_elem? d.combo)

unfoldable pub selected_node_id_string : NodeSelectionDialog → Text
selected_node_id_string d = elim (current_item d) [ none ↦ [] | some item ↦ item.node_id ]

-- `text.left(pos)`, or the whole text.
abbrev pub left_of : Text → Option ℕ → Text
left_of text none = text
left_of text (some pos) = take pos text

unfoldable pub selected_browse_name : Qt → NodeSelectionDialog → Text
selected_browse_name qt d = elim (current_item d) [
  | none ↦ []
  | some item ↦ left_of item.text (qt.index_of item.text (codes " ("))
]

abbrev pub selected_type_code : ℕ
selected_type_code = 0
