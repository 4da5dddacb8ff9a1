-- ===== src/Gui/Window.antt =====
-- MainWindow of src/gui/MainWindow.cpp: the table of the sensors, and the node chosen for a row.
pub mod Files
pub mod Buttons
pub mod RoundTrip
pub mod Validating
pub mod Reaching
use bo_smart_factory_opcua_t.Base.{
  ℕ, zero, suc, Bool, true, false, ◌&&◌, List, [], ◌∷◌, ◌++◌, Option, none, some, codes,
  if◌then◌else◌, non_empty, map, set, get_elem?, and_then, str_eq,
}
use bo_smart_factory_opcua_t.Gui.Qt.{Text, Qt}
use bo_smart_factory_opcua_t.Gui.Mapping.{SensorMapping, new_mapping, quint8}
use bo_smart_factory_opcua_t.Gui.Browser.{DiscoveredNode}
use bo_smart_factory_opcua_t.Gui.Dialog.{
  NodeSelectionDialog, selected_node_id_string, selected_browse_name,
}
use bo_smart_factory_opcua_t.Gui.Engine.{Engine, new_engine}

-- A row of m_mappingTable: the check box, and the texts of the items in the next three columns;
-- `none` is no widget, or no item.
pub record Row : Type 0 where
  pub check : Option Bool
  pub id_item : Option Text
  pub node_item : Option Text
  pub type_item : Option Text

-- The edits, the table, the buttons that are enabled, the nodes of the last discovery, and m_engine.
pub record MainWindow : Type 0 where
  pub endpoint : Text
  pub namespace : Text
  pub port : ℕ
  pub rows : List Row
  pub cached_nodes : List DiscoveredNode
  pub cached_endpoint : Text
  pub cached_namespace : Text
  pub connect_enabled : Bool
  pub disconnect_enabled : Bool
  pub start_enabled : Bool
  pub stop_enabled : Bool
  pub edits_enabled : Bool
  pub engine : Engine

-- What setupUi leaves, where a button is enabled from the start.
abbrev pub set_up : MainWindow
set_up = record {
  endpoint = codes "opc.tcp://localhost:4840";
  namespace = codes "urn:binary-sensors-demo";
  port = 9000;
  rows = [];
  cached_nodes = [];
  cached_endpoint = [];
  cached_namespace = [];
  connect_enabled = true;
  disconnect_enabled = true;
  start_enabled = true;
  stop_enabled = true;
  edits_enabled = true;
  engine = new_engine;
}

abbrev pub checked : Option Bool → Bool
checked none = true
checked (some c) = c

abbrev pub trimmed_item : Qt → Option Text → Text
trimmed_item qt none = []
trimmed_item qt (some s) = qt.trimmed s

-- toInt() of a text, which is 0 if it fails.
abbrev pub int_or_zero : Option ℕ → ℕ
int_or_zero none = 0
int_or_zero (some n) = n

abbrev pub type_of_item : Qt → Option Text → ℕ
type_of_item qt none = quint8 0
type_of_item qt (some s) = quint8 (int_or_zero (qt.to_int s))

-- The body of the loop of mappingsFromTable.
unfoldable pub mapping_of_row : Qt → Row → SensorMapping
mapping_of_row qt r = record new_mapping {
  message_pack_id = trimmed_item qt r.id_item;
  node_id_string = trimmed_item qt r.node_item;
  type_code = type_of_item qt r.type_item;
  enabled = checked r.check;
}

unfoldable pub mappings_from_table : Qt → List Row → List SensorMapping
unfolding mapping_of_row
mappings_from_table qt rows = map (mapping_of_row qt) rows

-- The body of the loop of showMappingsInTable.
unfoldable pub row_of_mapping : Qt → SensorMapping → Row
row_of_mapping qt m = record {
  check = some m.enabled;
  id_item = some m.message_pack_id;
  node_item = some m.node_id_string;
  type_item = some (qt.number m.type_code);
}

unfoldable pub show_mappings_in_table : Qt → List SensorMapping → List Row
unfolding row_of_mapping
show_mappings_in_table qt mappings = map (row_of_mapping qt) mappings

unfoldable pub on_add_sensor : List Row → List Row
on_add_sensor rows =
    rows
    ++ record {
      check = some true;
      id_item = some [];
      node_item = some [];
      type_item = some (codes "0");
    }
      ∷ []

-- QTableWidget::removeRow; a row that is not there changes nothing.
unfoldable pub remove_row : List Row → ℕ → List Row
remove_row [] row = []
remove_row (r ∷ rows) zero = rows
remove_row (r ∷ rows) (suc row) = r ∷ remove_row rows row

-- The nodes that the dialog starts with.
unfoldable pub cached_for : Text → Text → MainWindow → List DiscoveredNode
cached_for endpoint namespace w =
    if str_eq endpoint w.cached_endpoint && str_eq namespace w.cached_namespace
    then w.cached_nodes
    else []

-- The item for the id: an empty one takes the browse name.
abbrev pub named_item : Option Text → Text → Option Text
named_item none browse_name = some browse_name
named_item (some s) browse_name = some (if non_empty s then s else browse_name)

unfoldable pub choose_node : Text → Text → Row → Row
choose_node node_id browse_name r = record r {
  node_item = some node_id;
  id_item = named_item r.id_item browse_name;
}

abbrev pub choose_in_rows : Text → Text → List Row → ℕ → List Row
choose_in_rows node_id browse_name rows row = elim (get_elem? rows row) [
  | none ↦ rows
  | some r ↦ set rows row (choose_node node_id browse_name r)
]

-- onSelectNode behind dlg.exec(), with the dialog if it was accepted.
unfoldable pub on_select_node : Qt → Option NodeSelectionDialog → ℕ → MainWindow → MainWindow
unfolding choose_node
on_select_node qt none row w = w
on_select_node qt (some dlg) row w =
    let w' = record w {
      cached_nodes = dlg.nodes;
      cached_endpoint = qt.trimmed w.endpoint;
      cached_namespace = qt.trimmed w.namespace;
    } in
    let node_id = selected_node_id_string dlg in
    if non_empty node_id
    then record w' { rows = choose_in_rows node_id (selected_browse_name qt dlg) w.rows row }
    else w'
