-- ===== src/Gui/Mapping.antt =====
-- src/gui/SensorMapping: a row of the window's table, in JSON in both directions, and parseNodeId of
-- src/gui/BridgeEngine.cpp.
pub mod RoundTrip
use bo_smart_factory_opcua_t.Base.{
  ℕ, ◌%◌, ◌^◌, Bool, true, false, not, List, [], ◌∷◌, Option, none, some, codes, str_eq, non_empty,
  if◌then◌else◌, and_then,
}
use bo_smart_factory_opcua_t.Nodes.BrowseMap.{NodeId, numeric, string, null_node_id}
use bo_smart_factory_opcua_t.Gui.Qt.{Text, Captures, Qt, QtJson}

-- A node id that was never written is taken for the null node id.
pub record SensorMapping : Type 0 where
  pub message_pack_id : Text
  pub node_id_string : Text
  pub type_code : ℕ
  pub enabled : Bool
  pub node_id : NodeId

-- The record with its default values.
abbrev pub new_mapping : SensorMapping
new_mapping = record {
  message_pack_id = [];
  node_id_string = [];
  type_code = 0;
  enabled = true;
  node_id = null_node_id;
}

-- static_cast<quint8>
abbrev pub quint8 : ℕ → ℕ
quint8 n = n % 2 ^ 8

module _ (js : QtJson) where
  unfoldable pub to_json : SensorMapping → js.Json
  to_json m = js.object (
      (codes "messagePackId", js.string m.message_pack_id)
      ∷ (codes "nodeIdString", js.string m.node_id_string)
      ∷ (codes "typeCode", js.int m.type_code)
      ∷ (codes "enabled", js.bool m.enabled)
      ∷ [])

  unfoldable pub from_json : js.Json → SensorMapping
  from_json obj = record new_mapping {
    message_pack_id = js.to_string (js.item obj (codes "messagePackId")) [];
    node_id_string = js.to_string (js.item obj (codes "nodeIdString")) [];
    type_code = quint8 (js.to_int (js.item obj (codes "typeCode")) 0);
    enabled = js.to_bool (js.item obj (codes "enabled")) true;
  }

-- Behind the conversion of the namespace; the number is converted to UA_UInt32, whose pattern it has.
abbrev pub identifier : Qt → ℕ → Captures → Option NodeId
identifier qt ns c =
    if str_eq c.id_type (codes "s")
    then some (string ns (qt.to_utf8 c.id_value))
    else if str_eq c.id_type (codes "i")
    then and_then (qt.to_int c.id_value) (λ num. some (numeric ns num))
    else none

-- parseNodeId; `none` is false, which leaves the null node id.
unfoldable pub parse_node_id : Qt → Text → Option NodeId
parse_node_id qt str =
    and_then (qt.match_node_id (qt.trimmed str))
      λ c. and_then (qt.to_ushort c.namespace) λ ns. identifier qt ns c

-- `*out` behind a call of parseNodeId.
abbrev pub parsed_or_null : Option NodeId → NodeId
parsed_or_null none = null_node_id
parsed_or_null (some id) = id

-- The body of the loop of BridgeEngine::setMappings.
unfoldable pub set_node_id : Qt → SensorMapping → SensorMapping
set_node_id qt m = record m {
  node_id =
      if non_empty m.node_id_string
      then parsed_or_null (parse_node_id qt m.node_id_string)
      else null_node_id;
}

-- BridgeEngine::resolveNodeIds: whether each node id could be read, and the mappings, where the
-- first that could not is cleared and those behind it are left as they were.
unfoldable pub resolve_node_ids : Qt → List SensorMapping → Bool × List SensorMapping
resolve_node_ids qt [] = (true, [])
resolve_node_ids qt (m ∷ ms) =
    let (all, rest) = resolve_node_ids qt ms in
    if not (non_empty m.node_id_string)
    then (all, record m { node_id = null_node_id } ∷ rest)
    else elim (parse_node_id qt m.node_id_string) [
      | none ↦ (false, record m { node_id = null_node_id } ∷ ms)
      | some id ↦ (all, record m { node_id = id } ∷ rest)
    ]
