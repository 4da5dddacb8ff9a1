-- ===== src/Config/Json/Nodes.antt =====
-- Node definitions and configurations as JSON, and back.
use bo_smart_factory_opcua_t.Base.{
  ℕ, Bool, true, false, List, [], ◌∷◌, ◌++◌, Option, none, some, CString, codes, str_eq, fit,
  non_empty, and_then, if◌then◌else◌, map, length, leb,
}
use bo_smart_factory_opcua_t.Config.{
  ServerConfig, ServerNodeDef, dt_boolean, kind_variable, kind_size, browse_name_max,
  display_name_max, role_size, max_nodes,
}
use bo_smart_factory_opcua_t.Config.DataTypes.{data_type_to_string, data_type_from_string}
use bo_smart_factory_opcua_t.Config.Json.Library.{CJson}

abbrev pub fit_or_empty : ℕ → Option CString → CString
fit_or_empty size none = []
fit_or_empty size (some s) = fit size s

abbrev pub or_default {ℓ} : {A : Type ℓ} → A → Option A → A
or_default d none = d
or_default d (some a) = a

module _ (c : CJson) where
  open c use {Json, get_object_item, string_value, string, bool, array, object}

  -- cJSON_IsString(cJSON_GetObjectItemCaseSensitive(item, key)), with the string.
  abbrev pub string_field : Json → CString → Option CString
  string_field item key = and_then (get_object_item item key) string_value

  -- cJSON_IsTrue of a field.
  abbrev pub true_field : Json → CString → Bool
  true_field item key = elim (get_object_item item key) [ none ↦ false | some j ↦ c.is_true j ]

  -- `none` is `false`; nothing has been written to `*n` then.
  unfoldable pub parse_node : Json → Option ServerNodeDef
  parse_node item = and_then (string_field item (codes "kind")) λ kind.
      and_then (string_field item (codes "browseName")) λ browse.
        and_then (string_field item (codes "displayName")) λ display. some (record {
          kind = fit kind_size kind;
          browse_name = fit browse_name_max browse;
          display_name = fit display_name_max display;
          parent_browse_name =
              fit_or_empty browse_name_max (string_field item (codes "parentBrowseName"));
          data_type =
              or_default dt_boolean
                (and_then (string_field item (codes "dataType")) data_type_from_string);
          simulation = true_field item (codes "simulation");
          role = fit_or_empty role_size (string_field item (codes "role"));
        })

  -- The optional fields, in the order in which they are added.
  abbrev pub data_type_field : ServerNodeDef → List (CString × Json)
  data_type_field n =
      if str_eq n.kind kind_variable
      then (codes "dataType", string (data_type_to_string n.data_type)) ∷ []
      else []

  abbrev pub simulation_field : ServerNodeDef → List (CString × Json)
  simulation_field n = if n.simulation then (codes "simulation", bool true) ∷ [] else []

  abbrev pub role_field : ServerNodeDef → List (CString × Json)
  role_field n = if non_empty n.role then (codes "role", string n.role) ∷ [] else []

  unfoldable pub node_fields : ServerNodeDef → List (CString × Json)
  node_fields n =
      (codes "kind", string n.kind)
      ∷ (codes "browseName", string n.browse_name)
      ∷ (codes "displayName", string n.display_name)
      ∷ (codes "parentBrowseName", string n.parent_browse_name)
      ∷ (data_type_field n ++ (simulation_field n ++ role_field n))

  unfoldable pub node_to_json : ServerNodeDef → Json
  unfolding node_fields
  node_to_json n = object (node_fields n)

  -- The document that server_config_save prints.
  unfoldable pub config_to_json : ServerConfig → Json
  config_to_json cfg = object (
      (codes "namespaceUri", string cfg.namespace_uri)
      ∷ (codes "nodes", array (map node_to_json cfg.nodes))
      ∷ [])

  -- cJSON_ArrayForEach of server_config_load; the first argument is `nodes[0 .. nodeCount)`. An item
  -- that does not parse is skipped, and the loop is left when the array is full.
  unfoldable pub load_nodes : List ServerNodeDef → List Json → List ServerNodeDef
  load_nodes nodes [] = nodes
  load_nodes nodes (item ∷ items) = elim (leb max_nodes (length nodes)) [
    | true ↦ nodes
    | false ↦ load_nodes (elim (parse_node item) [ none ↦ nodes | some n ↦ nodes ++ n ∷ [] ]) items
  ]
