-- ===== src/Gui/Mapping/RoundTrip.antt =====
-- A mapping of src/gui/SensorMapping.cpp written to JSON and read back, and what the engine's two
-- loops over the mappings read of their node ids.
use bo_smart_factory_opcua_t.Base.{
  ◌≡◌, ◌<◌, ◌^◌, ◌⊎◌, refl, true, false, List, [], ◌∷◌, str_eq, non_empty, map, arith, All, is_some,
}
use bo_smart_factory_opcua_t.Nodes.BrowseMap.{null_node_id}
use bo_smart_factory_opcua_t.Gui.Qt.{Qt, QtJson, QtJsonLaws, first_value}
use bo_smart_factory_opcua_t.Gui.Mapping.{
  SensorMapping, to_json, from_json, parse_node_id, set_node_id, resolve_node_ids,
}

-- A mapping whose node id was not looked up yet, as the table gives it.
abbrev pub without_node : SensorMapping → SensorMapping
without_node m = record m { node_id = null_node_id }

pub from_json-to_json :
    (js : QtJson) (laws : QtJsonLaws js) (m : SensorMapping)
    → m.type_code < 2 ^ 8
    → from_json js (to_json js m) ≡ without_node m
unfolding from_json to_json first_value str_eq
from_json-to_json js laws m h =
    simp
      (
        laws.item-object,
        laws.to_string-string,
        laws.to_bool-bool,
        laws.to_int-int m.type_code 0 (omega arith),
      )
      (ground arith)

-- A node id that parseNodeId reads, or none at all.
abbrev pub Readable : Qt → SensorMapping → Type 0
Readable qt m =
    (non_empty m.node_id_string ≡ false) ⊎ (is_some (parse_node_id qt m.node_id_string) ≡ true)

-- resolveNodeIds does what setMappings did, if every node id can be read.
pub resolve_node_ids-Readable :
    (qt : Qt) (ms : List SensorMapping)
    → All (Readable qt) ms
    → resolve_node_ids qt ms ≡ (true, map (set_node_id qt) ms)
unfolding resolve_node_ids set_node_id
resolve_node_ids-Readable qt [] h = refl
resolve_node_ids-Readable qt (m ∷ ms) h = ground (arith, resolve_node_ids-Readable qt ms h.1)

pub Readable-resolve_node_ids :
    (qt : Qt) (ms : List SensorMapping) → (resolve_node_ids qt ms).0 ≡ true → All (Readable qt) ms
unfolding resolve_node_ids
Readable-resolve_node_ids qt [] h = tt
Readable-resolve_node_ids qt (m ∷ ms) h = ground (arith, Readable-resolve_node_ids qt ms)
