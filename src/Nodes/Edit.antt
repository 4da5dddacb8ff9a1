-- ===== src/Nodes/Edit.antt =====
-- node_manager_add_folder, node_manager_add_variable and node_manager_delete of
-- src/node_manager.c. Each locks the manager's mutex around the change.
pub mod Names
pub mod Adding
pub mod Overflow
pub mod Deleting
pub mod Pointers
pub mod Registering
pub mod Growth
pub mod Refusing
use bo_smart_factory_opcua_t.Base.{
  ℕ, suc, ◌+◌, Bool, true, false, not, ◌&&◌, List, [], ◌∷◌, ◌++◌, Option, none, some, CString,
  str_eq, fit, if◌then◌else◌, length, ltb, and_then, get_elem?, remove_at,
}
use bo_smart_factory_opcua_t.Config.{
  ServerConfig, ServerNodeDef, ServerDataType, dt_boolean, kind_folder, kind_variable,
  browse_name_max, display_name_max, kind_size, max_nodes,
}
use bo_smart_factory_opcua_t.Config.Names.{validate_browse_name}
use bo_smart_factory_opcua_t.Config.Seed.{or_empty}
use bo_smart_factory_opcua_t.Config.Storage.{Env}
use bo_smart_factory_opcua_t.Config.Json.{CJson}
use bo_smart_factory_opcua_t.Nodes.BrowseMap.{NodeId, map_lookup, map_remove}
use bo_smart_factory_opcua_t.Nodes.Server.{
  UaServer, StatusCode, good, is_good, bad_invalid_argument, bad_node_id_exists,
  bad_node_id_unknown, bad_user_access_denied, bad_not_implemented,
}
use bo_smart_factory_opcua_t.Nodes.Manager.{
  NodeManager, SimulatedSensor, Realloc, Manager, create_folder, create_variable, save_config,
  is_simulation_switch,
}

unfoldable pub config_has_browse : List ServerNodeDef → CString → Bool
config_has_browse [] name = false
config_has_browse (n ∷ ns) name =
    if str_eq n.browse_name name then true else config_has_browse ns name

unfoldable pub has_children_in_config : List ServerNodeDef → CString → Bool
has_children_in_config [] name = false
has_children_in_config (n ∷ ns) name =
    if str_eq n.parent_browse_name name then true else has_children_in_config ns name

-- `none` is -1.
unfoldable pub find_node_index : List ServerNodeDef → CString → Option ℕ
find_node_index [] name = none
find_node_index (n ∷ ns) name =
    if str_eq n.browse_name name
    then some 0
    else and_then (find_node_index ns name) λ i. some (suc i)

-- The first sensor with the name is moved over.
unfoldable pub remove_sensor : List SimulatedSensor → CString → List SimulatedSensor
remove_sensor [] name = []
remove_sensor (st ∷ sts) name =
    if str_eq st.browse_name name then sts else st ∷ remove_sensor sts name

abbrev pub is_boolean_type : ServerDataType → Bool
is_boolean_type dt_boolean = true
is_boolean_type dt = false

abbrev pub folder_def : Option CString → CString → CString → ServerNodeDef
folder_def parent browse_name display_name = record {
  kind = fit kind_size kind_folder;
  browse_name = fit browse_name_max browse_name;
  display_name = fit display_name_max display_name;
  parent_browse_name = fit browse_name_max (or_empty parent);
  data_type = dt_boolean;
  simulation = false;
  role = [];
}

abbrev pub variable_def : Option CString → CString → CString → ServerDataType → Bool → ServerNodeDef
variable_def parent browse_name display_name dt simulation = record {
  kind = fit kind_size kind_variable;
  browse_name = fit browse_name_max browse_name;
  display_name = fit display_name_max display_name;
  parent_browse_name = fit browse_name_max (or_empty parent);
  data_type = dt;
  simulation = simulation;
  role = [];
}

module _ (ua : UaServer) (c : CJson) (env : Env) where
  -- The definition is kept, and the configuration saved, only while there is room.
  unfoldable pub keep_def : Manager ua × StatusCode → ServerNodeDef → Manager ua × StatusCode
  keep_def (nm, rc) def = (
    if is_good rc && ltb (length nm.config.nodes) max_nodes
        then save_config c env
            (record nm { config = record (nm.config) { nodes = nm.config.nodes ++ def ∷ [] } })
        else nm,
    rc,
  )

  unfoldable pub add_folder :
      Manager ua → Option CString → CString → CString → Manager ua × StatusCode
  unfolding keep_def
  add_folder nm parent browse_name display_name =
      let def = folder_def parent browse_name display_name in
      if not (validate_browse_name (some browse_name))
      then (nm, bad_invalid_argument)
      else if config_has_browse nm.config.nodes browse_name
      then (nm, bad_node_id_exists)
      else keep_def (create_folder ua nm def) def

  -- The node with the id that g_map has for the name is taken out of the server and of g_map.
  abbrev drop_found : Manager ua → CString → Option NodeId → Manager ua
  drop_found nm name none = nm
  drop_found nm name (some id) = record nm {
    server = ua.delete_node nm.server id;
    browse_map = map_remove nm.browse_map name;
  }

  abbrev pub drop_node : Manager ua → CString → Manager ua
  drop_node nm name = drop_found nm name (map_lookup nm.browse_map name)

  -- Behind the guards, for the node at idx.
  unfoldable pub delete_at : Manager ua → CString → ℕ → Manager ua
  delete_at nm name idx =
      let nm' = drop_node nm name in
      save_config c env (record nm' {
        sensors = remove_sensor nm'.sensors name;
        config = record (nm'.config) { nodes = remove_at idx nm'.config.nodes };
      })

  -- The guards on the definition at idx.
  unfoldable pub delete_checked : Manager ua → CString → ℕ → ServerNodeDef → Manager ua × StatusCode
  unfolding delete_at
  delete_checked nm name idx def =
      if is_simulation_switch def
      then (nm, bad_user_access_denied)
      else if has_children_in_config nm.config.nodes name
      then (nm, bad_not_implemented)
      else (delete_at nm name idx, good)

  unfoldable pub delete : Manager ua → CString → Manager ua × StatusCode
  unfolding delete_checked
  delete nm name = elim (find_node_index nm.config.nodes name) [
    | none ↦ (nm, bad_node_id_unknown)
    | some idx ↦ elim (get_elem? nm.config.nodes idx) [
      | none ↦ (nm, bad_node_id_unknown)
      | some def ↦ delete_checked nm name idx def
    ]
  ]

module _ (ua : UaServer) (c : CJson) (env : Env) (realloc : Realloc) where
  unfoldable pub add_variable :
      Manager ua
      → Option CString
      → CString
      → CString
      → ServerDataType
      → Bool
      → Manager ua × StatusCode
  unfolding keep_def
  add_variable nm parent browse_name display_name dt simulation =
      let def = variable_def parent browse_name display_name dt simulation in
      if not (validate_browse_name (some browse_name))
      then (nm, bad_invalid_argument)
      else if config_has_browse nm.config.nodes browse_name
      then (nm, bad_node_id_exists)
      else if simulation && not (is_boolean_type dt)
      then (nm, bad_invalid_argument)
      else keep_def ua c env (create_variable ua realloc nm def) def
