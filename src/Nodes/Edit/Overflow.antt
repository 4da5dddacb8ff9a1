-- ===== src/Nodes/Edit/Overflow.antt =====
-- node_manager_add_variable when the array of nodes is full.
use bo_smart_factory_opcua_t.Base.{
  ◌+◌, ◌≤◌, ◌<◌, ◌≡◌, refl, sym, true, false, List, [], Option, none, some, arith, CString, length,
  length-append, lt→leb-false, le→ltb, ap, ◌∙◌,
}
use bo_smart_factory_opcua_t.Config.{ServerNodeDef, dt_boolean, max_nodes}
use bo_smart_factory_opcua_t.Config.Names.{validate_browse_name}
use bo_smart_factory_opcua_t.Config.Storage.{Env}
use bo_smart_factory_opcua_t.Config.Json.{CJson}
use bo_smart_factory_opcua_t.Nodes.Server.{UaServer, good, is_good, bad_node_id_unknown}
use bo_smart_factory_opcua_t.Nodes.BrowseMap.{NodeId}
use bo_smart_factory_opcua_t.Nodes.Manager.{
  Realloc, Manager, create_variable, variable_request, register_variable, add_simulated_sensor,
}
use bo_smart_factory_opcua_t.Nodes.Edit.{
  config_has_browse, variable_def, keep_def, add_variable, find_node_index, delete,
}
use bo_smart_factory_opcua_t.Nodes.Edit.Names.{find_node_index-config_has_browse}
use bo_smart_factory_opcua_t.Nodes.Edit.Adding.{create_variable-config}

register_sensor :
    (ua : UaServer) (realloc : Realloc) (nm : Manager ua) (def : ServerNodeDef) (id : NodeId)
    → def.role ≡ []
    → def.data_type ≡ dt_boolean
    → def.simulation ≡ true
    → length nm.sensors < nm.sensor_capacity
    → length (register_variable ua realloc nm def id).sensors ≡ length nm.sensors + 1
unfolding register_variable add_simulated_sensor
register_sensor ua realloc nm def id r d s room =
    rw (r, d, s, lt→leb-false nm.sensor_capacity (length nm.sensors) room)
      (omega (arith, length-append nm.sensors))

pub create_variable-accepted :
    (ua : UaServer) (realloc : Realloc) (nm : Manager ua) (def : ServerNodeDef)
    → is_good (ua.add_variable_node nm.server (variable_request nm def)).1 ≡ true
    → create_variable ua realloc nm def ≡ (
      register_variable ua realloc
          (record nm { server = (ua.add_variable_node nm.server (variable_request nm def)).0 })
          def
          (ua.add_variable_node nm.server (variable_request nm def)).2,
      good,
    )
unfolding create_variable
create_variable-accepted ua realloc nm def a = rw a

find_node_index_absent :
    (ns : List ServerNodeDef) (name : CString)
    → config_has_browse ns name ≡ false
    → find_node_index ns name ≡ none
find_node_index_absent ns name h = ground (arith, find_node_index-config_has_browse ns name)

delete_absent :
    (ua : UaServer) (c : CJson) (env : Env) (nm : Manager ua) (name : CString)
    → config_has_browse nm.config.nodes name ≡ false
    → delete ua c env nm name ≡ (nm, bad_node_id_unknown)
unfolding delete
delete_absent ua c env nm name h = rw (find_node_index_absent nm.config.nodes name h, delete)

-- When the configuration holds 256 nodes or more and the array of the sensors has room, a simulated
-- Boolean variable with a valid name that no node has, and that the server accepts, is reported as a
-- success and becomes one more sensor, but it is not put into the configuration, and deleting it is
-- refused as an unknown node.
pub add_variable_full :
    (ua : UaServer) (c : CJson) (env : Env) (realloc : Realloc) (nm : Manager ua)
    (parent : Option CString) (browse_name display_name : CString)
    → validate_browse_name (some browse_name) ≡ true
    → config_has_browse nm.config.nodes browse_name ≡ false
    → max_nodes ≤ length nm.config.nodes
    → length nm.sensors < nm.sensor_capacity
    → is_good
        (ua.add_variable_node nm.server
          (variable_request nm (variable_def parent browse_name display_name dt_boolean true))).1
      ≡ true
    → let (nm', rc) =
        add_variable ua c env realloc nm parent browse_name display_name dt_boolean true in
      (rc ≡ good)
      × (nm'.config ≡ nm.config)
      × (length nm'.sensors ≡ length nm.sensors + 1)
      × (delete ua c env nm' browse_name ≡ (nm', bad_node_id_unknown))
unfolding add_variable keep_def
add_variable_full ua c env realloc nm parent browse_name display_name v new full room accepted =
    let def = variable_def parent browse_name display_name dt_boolean true in
    let answer = ua.add_variable_node nm.server (variable_request nm def) in
    let nm' = register_variable ua realloc (record nm { server = answer.0 }) def answer.2 in
    let same : nm'.config ≡ nm.config =
      ap (λ r. r.0.config) (sym (create_variable-accepted ua realloc nm def accepted))
      ∙ create_variable-config ua realloc nm def in
    let whole : add_variable ua c env realloc nm parent browse_name display_name dt_boolean true
        ≡ (nm', good) =
      rw (
        v,
        new,
        create_variable-accepted ua realloc nm def accepted,
        same,
        le→ltb (length nm.config.nodes) max_nodes full,
      ) in
    rw whole (
      refl,
      same,
      register_sensor ua realloc (record nm { server = answer.0 }) def answer.2 refl refl refl room,
      delete_absent ua c env nm' browse_name (rw same new),
    )
