-- ===== src/Nodes/Edit/Registering.antt =====
-- create_variable of src/node_manager.c for a simulated sensor: the server and the array that it leaves.
use bo_smart_factory_opcua_t.Base.{
  ℕ, ◌≤◌, ◌<◌, ◌≡◌, ◌≢◌, refl, ◌∙◌, true, false, [], ◌∷◌, ◌++◌, some, arith, CString, length,
  length-append, lt→leb-false, le→leb, fit,
}
use bo_smart_factory_opcua_t.Config.{ServerNodeDef, browse_name_max}
use mathlib.Core.Path.{ap₂}
use bo_smart_factory_opcua_t.Nodes.Server.{
  UaServer, SensorPointer, sensor_write, VariableRequest, is_good,
}
use bo_smart_factory_opcua_t.Nodes.BrowseMap.{NodeId, map_add}
use bo_smart_factory_opcua_t.Nodes.Manager.{
  Manager, Realloc, SimulatedSensor, grown_capacity, add_simulated_sensor, register_variable,
  create_variable, variable_request, push_sensor, attach_sensor, is_simulation_switch, is_simulated,
}
use bo_smart_factory_opcua_t.Nodes.Edit.Overflow.{create_variable-accepted}
use bo_smart_factory_opcua_t.Nodes.Edit.Pointers.{UaLaws}

-- A definition that create_variable makes a simulated sensor of.
pub record IsSensorDef (def : ServerNodeDef) : Type 0 where
  pub not_switch : is_simulation_switch def ≡ false
  pub simulated : is_simulated def ≡ true

-- The server once create_variable is done with a simulated sensor.
abbrev pub server_with : (ua : UaServer) → ua.Server → VariableRequest → SensorPointer → ua.Server
server_with ua s r p =
    let id = (ua.add_variable_node s r).2 in
    ua.set_value_callback (ua.set_node_context (ua.add_variable_node s r).0 id p) id sensor_write

pub server_with_ne :
    (ua : UaServer) (laws : UaLaws ua) (s : ua.Server) (r : VariableRequest) (p : SensorPointer)
    (q : NodeId)
    → q ≢ (ua.add_variable_node s r).2
    → (ua.on_write (server_with ua s r p) q ≡ ua.on_write s q)
      × (ua.node_context (server_with ua s r p) q ≡ ua.node_context s q)
server_with_ne ua laws s r p q ne =
    let id = (ua.add_variable_node s r).2 in
    let added = (ua.add_variable_node s r).0 in
    (
      laws.on_write-set_value_callback_ne (ua.set_node_context added id p) id sensor_write q ne
          ∙ (laws.on_write-set_node_context added id p q
              ∙ laws.on_write-add_variable_node_ne s r q ne),
      laws.node_context-set_value_callback (ua.set_node_context added id p) id sensor_write q
          ∙ (laws.node_context-set_node_context_ne added id p q ne
              ∙ laws.node_context-add_variable_node_ne s r q ne),
    )

pub server_with_self :
    (ua : UaServer) (laws : UaLaws ua) (s : ua.Server) (r : VariableRequest) (p : SensorPointer)
    → let id = (ua.add_variable_node s r).2 in
      (ua.on_write (server_with ua s r p) id ≡ some sensor_write)
      × (ua.node_context (server_with ua s r p) id ≡ some p)
server_with_self ua laws s r p =
    let id = (ua.add_variable_node s r).2 in
    let added = (ua.add_variable_node s r).0 in
    (
      laws.on_write-set_value_callback (ua.set_node_context added id p) id sensor_write,
      laws.node_context-set_value_callback (ua.set_node_context added id p) id sensor_write id
          ∙ laws.node_context-set_node_context added id p,
    )

-- The state once a simulated sensor has been created: the array's block, and what comes with it.
pub record HasSensor (ua : UaServer) (nm nm' : Manager ua) (r : VariableRequest) (block : ℕ)
    : Type 0 where
  pub sensor : SimulatedSensor
  pub sensor_id : sensor.node_id ≡ (ua.add_variable_node nm.server r).2
  pub same_server :
      nm'.server ≡ server_with ua nm.server r (record { block = block; index = length nm.sensors })
  pub same_sensors : nm'.sensors ≡ nm.sensors ++ sensor ∷ []
  pub same_block : nm'.sensors_block ≡ block

register_sensor_def :
    (ua : UaServer) (realloc : Realloc) (nm : Manager ua) (def : ServerNodeDef) (id : NodeId)
    → IsSensorDef def
    → register_variable ua realloc nm def id
      ≡ attach_sensor ua
          (add_simulated_sensor realloc
            (record nm { browse_map = map_add nm.browse_map def.browse_name id })
            def.browse_name
            id)
          id
unfolding register_variable
register_sensor_def ua realloc nm def id d = rw (d.not_switch, d.simulated)

attach_pushed :
    (ua : UaServer) (nm m : Manager ua) (r : VariableRequest) (name : CString)
    → m.server ≡ (ua.add_variable_node nm.server r).0
    → m.sensors ≡ nm.sensors
    → HasSensor ua nm
        (attach_sensor ua
          (push_sensor m name (ua.add_variable_node nm.server r).2, true)
          (ua.add_variable_node nm.server r).2)
        r
        m.sensors_block
attach_pushed ua nm m r name s e = record {
  sensor = record {
    node_id = (ua.add_variable_node nm.server r).2;
    value = false;
    overridden = false;
    browse_name = fit browse_name_max name;
  };
  sensor_id = refl;
  same_server =
      ap₂
        (λ t i.
          let id = (ua.add_variable_node nm.server r).2 in
          ua.set_value_callback
            (ua.set_node_context t id (record { block = m.sensors_block; index = i })) id
            sensor_write)
        s (rw e (omega (arith, length-append nm.sensors)));
  same_sensors = rw e;
  same_block = refl;
}

pub create_variable_room :
    (ua : UaServer) (realloc : Realloc) (nm : Manager ua) (def : ServerNodeDef)
    → IsSensorDef def
    → is_good (ua.add_variable_node nm.server (variable_request nm def)).1 ≡ true
    → length nm.sensors < nm.sensor_capacity
    → HasSensor ua nm
        (create_variable ua realloc nm def).0
        (variable_request nm def)
        nm.sensors_block
unfolding add_simulated_sensor
create_variable_room ua realloc nm def d acc room =
    let l = lt→leb-false nm.sensor_capacity (length nm.sensors) room in
    rw (create_variable-accepted ua realloc nm def acc, register_sensor_def, d, l)
      (attach_pushed ua nm _ (variable_request nm def) def.browse_name refl refl)

pub create_variable_grown :
    (ua : UaServer) (realloc : Realloc) (nm : Manager ua) (def : ServerNodeDef) (block : ℕ)
    → IsSensorDef def
    → is_good (ua.add_variable_node nm.server (variable_request nm def)).1 ≡ true
    → nm.sensor_capacity ≤ length nm.sensors
    → realloc nm.sensors_block (grown_capacity nm.sensor_capacity) ≡ some block
    → HasSensor ua nm (create_variable ua realloc nm def).0 (variable_request nm def) block
unfolding add_simulated_sensor
create_variable_grown ua realloc nm def block d acc full grows =
    let l = le→leb nm.sensor_capacity (length nm.sensors) full in
    rw (create_variable-accepted ua realloc nm def acc, register_sensor_def, d, l, grows)
      (attach_pushed ua nm _ (variable_request nm def) def.browse_name refl refl)
