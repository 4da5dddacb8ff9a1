-- ===== src/Http/Handlers.antt =====
-- The handlers of src/http_server.c, over the operations of the node manager.
use bo_smart_factory_opcua_t.Base.{
  Bool, true, not, ◌&&◌, [], ◌∷◌, ◌++◌, Option, none, some, CString, codes, fit, if◌then◌else◌,
  and_then, map,
}
use bo_smart_factory_opcua_t.Config.{ServerDataType, dt_boolean, ServerNodeDef, namespace_max}
use bo_smart_factory_opcua_t.Config.Names.{validate_browse_name}
use bo_smart_factory_opcua_t.Config.DataTypes.{data_type_from_string}
use bo_smart_factory_opcua_t.Config.Storage.{Env}
use bo_smart_factory_opcua_t.Config.Json.{CJson, string_field, true_field, node_fields}
use bo_smart_factory_opcua_t.Nodes.Server.{UaServer, StatusCode, is_good}
use bo_smart_factory_opcua_t.Nodes.Manager.{Manager, SimulatedSensor, Realloc, save_config}
use bo_smart_factory_opcua_t.Nodes.Edit.{add_folder, add_variable, delete, is_boolean_type}
use bo_smart_factory_opcua_t.Nodes.Simulation.{Writes, set_simulation_enabled, reset_overrides}
use bo_smart_factory_opcua_t.Http.Answers.{
  Answer, Queue, send_json, send_text, send_checked, send_error_json, http_ok, http_bad_request,
  browse_name_invalid_msg, add_node_status_message, node_id_string,
}

-- What the handlers use of the libraries.
pub record Libraries : Type 1 where
  pub json : CJson
  pub env : Env
  pub ua : UaServer
  pub realloc : Realloc
  pub queue : Queue
  pub status_name : StatusCode → CString

-- The manager, the writes to the server that follow, and the answer.
pub record Handled (ua : UaServer) : Type 0 where
  pub manager : Manager ua
  pub writes : Writes
  pub answer : Answer

module _ (lib : Libraries) where
  open lib use {json, env, ua, realloc, queue, status_name}

  abbrev pub answered : Manager ua → Answer → Handled ua
  answered nm a = record { manager = nm; writes = []; answer = a }

  abbrev pub refuse : Manager ua → CString → Handled ua
  refuse nm msg = answered nm (send_error_json json queue http_bad_request msg)

  abbrev pub ok_document : json.Json
  ok_document = json.object ((codes "ok", json.bool true) ∷ [])

  abbrev pub send_ok : Answer
  send_ok = send_text queue http_ok (json.print_unformatted ok_document)

  -- The answer to an edit of the address space.
  abbrev pub answer_edit : Manager ua × StatusCode → Handled ua
  answer_edit (nm, rc) =
      if not (is_good rc)
      then refuse nm (add_node_status_message status_name rc)
      else answered nm send_ok

  unfoldable pub handle_get_config : Manager ua → Answer
  unfolding send_json
  handle_get_config nm = send_checked queue http_ok (
      json.print_unformatted (
        json.object (
          (codes "namespaceUri", json.string nm.config.namespace_uri)
          ∷ (codes "configPath", json.string nm.storage.g_config_path)
          ∷ [])))

  -- Behind the parser and the test of the field.
  abbrev pub put_namespace : Manager ua → CString → Handled ua
  put_namespace nm uri =
      answered
        (save_config json env
          (record nm { config = record (nm.config) { namespace_uri = fit namespace_max uri } }))
        (send_text queue http_ok (
          json.print_unformatted (
            json.object (
              (codes "ok", json.bool true)
              ∷ (codes "message", json.string (codes "Restart server to apply namespace change"))
              ∷ []))))

  unfoldable pub handle_put_config : Manager ua → CString → Handled ua
  handle_put_config nm body = elim (json.parse body) [
    | none ↦ refuse nm (codes "invalid json")
    | some root ↦ elim (string_field json root (codes "namespaceUri")) [
      | none ↦ refuse nm (codes "namespaceUri required")
      | some uri ↦ put_namespace nm uri
    ]
  ]

  abbrev listed_node : Manager ua → ServerNodeDef → json.Json
  listed_node nm n = json.object (
      node_fields json n
      ++ (codes "nodeIdString", json.string (node_id_string nm.ns_idx n.browse_name 128)) ∷ [])

  unfoldable pub handle_get_nodes : Manager ua → Answer
  unfolding node_fields node_id_string send_json
  handle_get_nodes nm =
      send_checked queue http_ok
        (json.print_unformatted (json.array (map (listed_node nm) nm.config.nodes)))

  abbrev listed_sensor : SimulatedSensor → json.Json
  listed_sensor st = json.object (
      (codes "browseName", json.string st.browse_name)
      ∷ (codes "value", json.bool st.value)
      ∷ (codes "overridden", json.bool st.overridden)
      ∷ [])

  unfoldable pub handle_get_status : Manager ua → Answer
  unfolding send_json
  handle_get_status nm = send_checked queue http_ok (
      json.print_unformatted (
        json.object (
          (codes "namespaceUri", json.string nm.config.namespace_uri)
          ∷ (codes "namespaceIndex", json.number nm.ns_idx)
          ∷ (codes "simulationEnabled", json.bool nm.simulation_enabled)
          ∷ (codes "sensors", json.array (map listed_sensor nm.sensors))
          ∷ [])))

  -- A field for which cJSON_IsBool holds, as cJSON_IsTrue sees it.
  abbrev pub bool_field : json.Json → CString → Option Bool
  bool_field root key =
      and_then (json.get_object_item root key)
        λ j. if json.is_bool j then some (json.is_true j) else none

  -- `none` is undefined behaviour, as in set_simulation_enabled.
  abbrev pub switch_simulation : Manager ua → Bool → Option (Handled ua)
  switch_simulation nm enabled =
      and_then (set_simulation_enabled nm enabled)
        λ r. some (record { manager = r.0; writes = r.1; answer = send_ok })

  unfoldable pub handle_put_simulation : Manager ua → CString → Option (Handled ua)
  handle_put_simulation nm body = elim (json.parse body) [
    | none ↦ some (refuse nm (codes "invalid json"))
    | some root ↦ elim (bool_field root (codes "enabled")) [
      | none ↦ some (refuse nm (codes "enabled required"))
      | some enabled ↦ switch_simulation nm enabled
    ]
  ]

  -- browseName and displayName, both strings.
  abbrev pub names_field : json.Json → Option (CString × CString)
  names_field root = and_then (string_field json root (codes "browseName")) λ browse.
      and_then (string_field json root (codes "displayName")) λ display. some (browse, display)

  -- A parent that is no string is "".
  abbrev pub parent_field : json.Json → CString
  parent_field root = elim (string_field json root (codes "parentBrowseName")) [
    | none ↦ []
    | some s ↦ s
  ]

  abbrev pub post_folder : Manager ua → CString → CString × CString → Handled ua
  post_folder nm parent (browse, display) =
      if not (validate_browse_name (some browse))
      then refuse nm browse_name_invalid_msg
      else answer_edit (add_folder ua json env nm (some parent) browse display)

  unfoldable pub handle_post_folder : Manager ua → CString → Handled ua
  handle_post_folder nm body = elim (json.parse body) [
    | none ↦ refuse nm (codes "invalid json")
    | some root ↦ elim (names_field root) [
      | none ↦ refuse nm (codes "browseName and displayName required")
      | some names ↦ post_folder nm (parent_field root) names
    ]
  ]

  -- The data type: Boolean if the field is no string, `none` if the string names none.
  abbrev pub data_type_or_boolean : Option CString → Option ServerDataType
  data_type_or_boolean none = some dt_boolean
  data_type_or_boolean (some s) = data_type_from_string s

  abbrev pub post_typed :
      Manager ua → CString → CString × CString → Bool → ServerDataType → Handled ua
  post_typed nm parent (browse, display) simulation dt =
      if simulation && not (is_boolean_type dt)
      then refuse nm (codes "simulation is only supported for Boolean variables")
      else answer_edit
          (add_variable ua json env realloc nm (some parent) browse display dt simulation)

  abbrev pub post_variable : Manager ua → json.Json → CString × CString → Handled ua
  post_variable nm root names =
      if not (validate_browse_name (some (names.0)))
      then refuse nm browse_name_invalid_msg
      else elim (data_type_or_boolean (string_field json root (codes "dataType"))) [
        | none ↦ refuse nm (codes "dataType must be Boolean, Int32, Double, or String")
        | some dt ↦
            post_typed nm (parent_field root) names (true_field json root (codes "simulation")) dt
      ]

  unfoldable pub handle_post_variable : Manager ua → CString → Handled ua
  handle_post_variable nm body = elim (json.parse body) [
    | none ↦ refuse nm (codes "invalid json")
    | some root ↦ elim (names_field root) [
      | none ↦ refuse nm (codes "browseName and displayName required")
      | some names ↦ post_variable nm root names
    ]
  ]

  abbrev pub ok_text : CString
  ok_text = codes "{\"ok\":true}"

  -- The DELETE branch of access_handler, behind the test of the name.
  unfoldable pub handle_delete : Manager ua → CString → Handled ua
  unfolding delete
  handle_delete nm name =
      let (nm', rc) = delete ua json env nm name in
      answered nm' (
        if not (is_good rc)
        then send_error_json json queue http_bad_request (status_name rc)
        else send_json queue http_ok ok_text)

  unfoldable pub handle_reset_overrides : Manager ua → Handled ua
  unfolding reset_overrides
  handle_reset_overrides nm = answered (reset_overrides nm) (send_json queue http_ok ok_text)
