-- ===== src/Nodes/Manager.antt =====
-- The state of src/node_manager.c, its sensors and the creation of nodes.
pub mod Building
use bo_smart_factory_opcua_t.Base.{
  ℕ, ◌-◌, ◌*◌, Bool, true, false, not, ◌&&◌, List, [], ◌∷◌, ◌++◌, Option, none, some, CString,
  str_eq, fit, non_empty, if◌then◌else◌, length, ltb, leb, ◌==◌, replicate,
}
use bo_smart_factory_opcua_t.Config.{
  ServerConfig, ServerNodeDef, ServerDataType, dt_boolean, kind_folder, kind_variable,
  role_simulation_enabled, browse_name_max, max_nodes,
}
use bo_smart_factory_opcua_t.Config.Storage.{Storage, Env, save}
use bo_smart_factory_opcua_t.Config.Json.{CJson}
use bo_smart_factory_opcua_t.Nodes.BrowseMap.{
  NodeId, string, null_node_id, BrowseMapEntry, free_entry, max_entries, map_add, resolve_parent,
}
use bo_smart_factory_opcua_t.Nodes.Sort.{sort_nodes_by_depth}
use bo_smart_factory_opcua_t.Nodes.Server.{
  UaServer, StatusCode, ObjectRequest, VariableRequest, good, is_good, sensor_write,
  simulation_enabled_write, data_type_for, initial_value,
}

pub record SimulatedSensor : Type 0 where
  pub node_id : NodeId
  pub value : Bool
  pub overridden : Bool
  pub browse_name : CString

-- `sensors` holds the first `sensorCount` cells of the allocation `sensors_block`. The globals g_map
-- and g_configPath stand beside the fields of the struct; g_nm_for_callbacks is this manager.
pub record NodeManager (S : Type 0) : Type 0 where
  pub server : S
  pub ns_idx : ℕ
  pub config : ServerConfig
  pub sensors : List SimulatedSensor
  pub sensors_block : ℕ
  pub sensor_capacity : ℕ
  pub simulation_enabled : Bool
  pub simulation_enabled_node_id : NodeId
  pub simulation_node_set : Bool
  pub browse_map : List BrowseMapEntry
  pub storage : Storage

-- `calloc_ok` is whether calloc gives memory; `none` is NULL.
unfoldable pub create :
    {S : Type 0} → Bool → S → ℕ → ServerConfig → Storage → Option (NodeManager S)
create calloc_ok server ns_idx cfg storage =
    if not calloc_ok
    then none
    else some (record {
      server = server;
      ns_idx = ns_idx;
      config = cfg;
      sensors = [];
      sensors_block = 0;
      sensor_capacity = 0;
      simulation_enabled = true;
      simulation_enabled_node_id = null_node_id;
      simulation_node_set = false;
      browse_map = replicate max_entries free_entry;
      storage = storage;
    })

-- realloc(block, capacity); `none` is NULL.
abbrev pub Realloc : Type 0
Realloc = ℕ → ℕ → Option ℕ

abbrev pub grown_capacity : ℕ → ℕ
grown_capacity capacity = if capacity == 0 then 8 else capacity * 2

module _ {S : Type 0} where
  abbrev pub push_sensor : NodeManager S → CString → NodeId → NodeManager S
  push_sensor nm browse_name id = record nm {
    sensors =
        nm.sensors
        ++ record {
          node_id = id;
          value = false;
          overridden = false;
          browse_name = fit browse_name_max browse_name;
        }
          ∷ [];
  }

  -- The result is the pair of the state and the returned bool.
  unfoldable pub add_simulated_sensor :
      Realloc → NodeManager S → CString → NodeId → NodeManager S × Bool
  add_simulated_sensor realloc nm browse_name id =
      if leb nm.sensor_capacity (length nm.sensors)
      then elim (realloc nm.sensors_block (grown_capacity nm.sensor_capacity)) [
        | none ↦ (nm, false)
        | some block ↦ (
          push_sensor
              (record nm {
                sensors_block = block;
                sensor_capacity = grown_capacity nm.sensor_capacity;
              })
              browse_name id,
          true,
        )
      ]
      else (push_sensor nm browse_name id, true)

abbrev pub is_simulation_switch : ServerNodeDef → Bool
is_simulation_switch def = non_empty def.role && str_eq def.role role_simulation_enabled

abbrev pub is_boolean : ServerDataType → Bool
is_boolean dt_boolean = true
is_boolean dt = false

abbrev pub is_simulated : ServerNodeDef → Bool
is_simulated def = is_boolean def.data_type && def.simulation

-- The arguments of UA_Server_addObjectNode and UA_Server_addVariableNode.
abbrev pub object_request : {S : Type 0} → NodeManager S → ServerNodeDef → ObjectRequest
object_request nm def = record {
  node_id = string nm.ns_idx def.browse_name;
  parent = resolve_parent nm.browse_map def.parent_browse_name;
  browse_name = def.browse_name;
  display_name = def.display_name;
}

abbrev pub variable_request : {S : Type 0} → NodeManager S → ServerNodeDef → VariableRequest
variable_request nm def = record {
  node_id = string nm.ns_idx def.browse_name;
  parent = resolve_parent nm.browse_map def.parent_browse_name;
  browse_name = def.browse_name;
  display_name = def.display_name;
  data_type = data_type_for def.data_type;
  value = initial_value def.data_type;
}

abbrev pub Manager : UaServer → Type 0
Manager ua = NodeManager ua.Server

unfoldable pub save_config : {S : Type 0} → CJson → Env → NodeManager S → NodeManager S
save_config c env nm = record nm { storage = (save c env nm.storage nm.config).1 }

module _ (ua : UaServer) where
  unfoldable pub create_folder : Manager ua → ServerNodeDef → Manager ua × StatusCode
  create_folder nm def =
      let (server, retval, id) = ua.add_object_node nm.server (object_request nm def) in
      (
        if is_good retval
            then record nm {
              server = server;
              browse_map = map_add nm.browse_map def.browse_name id;
            }
            else record nm { server = server },
        retval,
      )

  -- What create_variable does for the simulation switch.
  abbrev attach_switch : Manager ua → NodeId → Manager ua
  attach_switch nm id = record nm {
    simulation_enabled_node_id = id;
    simulation_node_set = true;
    simulation_enabled = true;
    server = ua.set_value_callback nm.server id simulation_enabled_write;
  }

  -- The context and the callback of a new simulated sensor, the last of the array.
  abbrev pub attach_sensor : Manager ua × Bool → NodeId → Manager ua
  attach_sensor (nm, true) id = record nm {
    server =
        ua.set_value_callback
          (ua.set_node_context nm.server id
            (record { block = nm.sensors_block; index = length nm.sensors - 1 }))
          id sensor_write;
  }
  attach_sensor (nm, false) id = nm

module _ (ua : UaServer) (realloc : Realloc) where
  -- The part of create_variable behind a node that was added.
  unfoldable pub register_variable : Manager ua → ServerNodeDef → NodeId → Manager ua
  unfolding add_simulated_sensor
  register_variable nm def id =
      let mapped = record nm { browse_map = map_add nm.browse_map def.browse_name id } in
      if is_simulation_switch def
      then attach_switch ua mapped id
      else if is_simulated def
      then attach_sensor ua (add_simulated_sensor realloc mapped def.browse_name id) id
      else mapped

  unfoldable pub create_variable : Manager ua → ServerNodeDef → Manager ua × StatusCode
  unfolding register_variable
  create_variable nm def =
      let (server, retval, id) = ua.add_variable_node nm.server (variable_request nm def) in
      if is_good retval
      then (register_variable (record nm { server = server }) def id, good)
      else (record nm { server = server }, retval)

  -- The body of the loop of node_manager_build; a node of no known kind is passed over.
  unfoldable pub create_node : Manager ua → ServerNodeDef → Manager ua × StatusCode
  unfolding create_folder create_variable
  create_node nm def =
      if str_eq def.kind kind_folder
      then create_folder ua nm def
      else if str_eq def.kind kind_variable
      then create_variable nm def
      else (nm, good)

  unfoldable pub build_loop : Manager ua → List ServerNodeDef → Manager ua × StatusCode
  unfolding create_node
  build_loop nm [] = (nm, good)
  build_loop nm (def ∷ defs) =
      let (nm', rc) = create_node nm def in
      let rest = build_loop nm' defs in if is_good rc then rest else (nm', rc)

  unfoldable pub build : Manager ua → Manager ua × StatusCode
  unfolding build_loop
  build nm =
      let count = length nm.config.nodes in
      let n = if ltb max_nodes count then max_nodes else count in
      build_loop nm (sort_nodes_by_depth nm.config.nodes n)
