-- ===== src/Nodes/Edit/Pointers.antt =====
-- The context of a sensor's node is a pointer into the array of sensors. node_manager_delete moves
-- the later sensors of the array, and no pointer is changed.
use bo_smart_factory_opcua_t.Base.{
  ℕ, zero, suc, ◌+◌, ◌≤◌, ◌≡◌, ◌≢◌, refl, sym, ap, ◌∙◌, Bool, true, inl, inr, List, [], ◌∷◌, Option,
  none, some, arith, CString, str_eq, if◌then◌else◌, get_elem?, remove_at, update_at,
  get_elem?-update_at_self, get_elem?-update_at_ne, get_elem?-remove_at_above, subst-some, and_then,
  and_then-eq-some, Option-cases, Bool-cases,
}
use mathlib.Core.Path.{ap₂}
use mathlib.Core.Bool.{false≢true}
use bo_smart_factory_opcua_t.Config.Storage.{Env}
use bo_smart_factory_opcua_t.Config.Json.{CJson}
use bo_smart_factory_opcua_t.Nodes.Server.{
  UaServer, boolean, Callback, SensorPointer, sensor_write, VariableRequest, is_good,
}
use bo_smart_factory_opcua_t.Nodes.BrowseMap.{NodeId, map_lookup}
use bo_smart_factory_opcua_t.Nodes.Manager.{Manager, SimulatedSensor, save_config}
use bo_smart_factory_opcua_t.Nodes.Simulation.{override, sensor_write_callback, accepted}
use bo_smart_factory_opcua_t.Nodes.Simulation.Delivery.{KeepsNodes, write_and_notify, Attached}
use bo_smart_factory_opcua_t.Nodes.Edit.{remove_sensor, delete_at, delete}
use bo_smart_factory_opcua_t.Nodes.Edit.Deleting.{refused, deleted, delete_cases}

-- What open62541 documents of callbacks and contexts: a call changes those of its own node.
pub record UaLaws (ua : UaServer) : Type 0 where
  pub writes_keep : KeepsNodes ua
  pub on_write-delete_node_ne :
      (s : ua.Server) (id q : NodeId)
      → q ≢ id
      → ua.on_write (ua.delete_node s id) q ≡ ua.on_write s q
  pub node_context-delete_node_ne :
      (s : ua.Server) (id q : NodeId)
      → q ≢ id
      → ua.node_context (ua.delete_node s id) q ≡ ua.node_context s q
  pub on_write-add_variable_node_ne :
      (s : ua.Server) (r : VariableRequest) (q : NodeId)
      → q ≢ (ua.add_variable_node s r).2
      → ua.on_write (ua.add_variable_node s r).0 q ≡ ua.on_write s q
  pub node_context-add_variable_node_ne :
      (s : ua.Server) (r : VariableRequest) (q : NodeId)
      → q ≢ (ua.add_variable_node s r).2
      → ua.node_context (ua.add_variable_node s r).0 q ≡ ua.node_context s q
  pub on_write-set_value_callback :
      (s : ua.Server) (id : NodeId) (cb : Callback)
      → ua.on_write (ua.set_value_callback s id cb) id ≡ some cb
  pub on_write-set_value_callback_ne :
      (s : ua.Server) (id : NodeId) (cb : Callback) (q : NodeId)
      → q ≢ id
      → ua.on_write (ua.set_value_callback s id cb) q ≡ ua.on_write s q
  pub node_context-set_value_callback :
      (s : ua.Server) (id : NodeId) (cb : Callback) (q : NodeId)
      → ua.node_context (ua.set_value_callback s id cb) q ≡ ua.node_context s q
  pub node_context-set_node_context :
      (s : ua.Server) (id : NodeId) (p : SensorPointer)
      → ua.node_context (ua.set_node_context s id p) id ≡ some p
  pub node_context-set_node_context_ne :
      (s : ua.Server) (id : NodeId) (p : SensorPointer) (q : NodeId)
      → q ≢ id
      → ua.node_context (ua.set_node_context s id p) q ≡ ua.node_context s q
  pub on_write-set_node_context :
      (s : ua.Server) (id : NodeId) (p : SensorPointer) (q : NodeId)
      → ua.on_write (ua.set_node_context s id p) q ≡ ua.on_write s q

abbrev pub cell : ℕ → ℕ → Option SensorPointer
cell block index = some (record { block = block; index = index })

pub Attached-get_elem :
    (ua : UaServer) (s : ua.Server) (block i j : ℕ) (sts : List SimulatedSensor)
    (st : SimulatedSensor)
    → Attached ua s block i sts
    → get_elem? sts j ≡ some st
    → (ua.on_write s st.node_id ≡ some sensor_write)
      × (ua.node_context s st.node_id ≡ some (record { block = block; index = i + j }))
Attached-get_elem ua s block i j [] st a g = cc
Attached-get_elem ua s block i zero (x ∷ sts) st a g =
    subst-some
      (λ t.
        (ua.on_write s t.node_id ≡ some sensor_write)
        × (ua.node_context s t.node_id ≡ cell block (i + 0)))
      g (a.0, a.1 ∙ ap (cell block) (omega arith))
Attached-get_elem ua s block i (suc j) (x ∷ sts) st a g =
    let (w, p) = Attached-get_elem ua s block (suc i) j sts st a.2 g in
    (w, p ∙ ap (cell block) (omega arith))

-- The index of the first sensor with a name.
unfoldable pub find_sensor : List SimulatedSensor → CString → Option ℕ
find_sensor [] name = none
find_sensor (st ∷ sts) name =
    if str_eq st.browse_name name then some 0 else and_then (find_sensor sts name) λ i. some (suc i)

remove_sensor-find_sensor :
    (sts : List SimulatedSensor) (name : CString) (i : ℕ)
    → find_sensor sts name ≡ some i
    → remove_sensor sts name ≡ remove_at i sts
unfolding find_sensor remove_sensor
remove_sensor-find_sensor [] name i h = cc
remove_sensor-find_sensor (st ∷ sts) name i h = elim (Bool-cases (str_eq st.browse_name name)) [
  | inl e ↦ let h' : some 0 ≡ some i = rw (e, find_sensor) at h in let p : 0 ≡ i = cc in rw (e, ← p)
  | inr e ↦
      let h' : and_then (find_sensor sts name) (λ k. some (suc k)) ≡ some i =
        rw (e, find_sensor) at h in
      let (k, found, q) = and_then-eq-some (find_sensor sts name) (λ k. some (suc k)) h' in
      let p : suc k ≡ i = cc in rw (e, ← p, remove_sensor-find_sensor sts name k found)
]

-- A write of a node that points to the cell at `index`.
pub write_at :
    (ua : UaServer) (laws : KeepsNodes ua) (nm : Manager ua) (id : NodeId) (b : Bool) (index : ℕ)
    → ua.on_write nm.server id ≡ some sensor_write
    → ua.node_context nm.server id ≡ some (record { block = nm.sensors_block; index = index })
    → write_and_notify ua nm id (boolean b)
      ≡ some (
        record nm {
          server = ua.write_value nm.server id (boolean b);
          sensors = update_at nm.sensors index (override b);
        },
        [],
      )
unfolding write_and_notify sensor_write_callback accepted
write_at ua laws nm id b index w k = ground (
  arith,
  laws.on_write-write_value nm.server id (boolean b) id,
  laws.node_context-write_value nm.server id (boolean b) id,
)

delete_at_sensors :
    (ua : UaServer) (c : CJson) (env : Env) (nm : Manager ua) (name : CString) (idx i : ℕ)
    → find_sensor nm.sensors name ≡ some i
    → ((delete_at ua c env nm name idx).sensors ≡ remove_at i nm.sensors)
      × ((delete_at ua c env nm name idx).sensors_block ≡ nm.sensors_block)
unfolding delete_at save_config
delete_at_sensors ua c env nm name idx i h =
    ground (arith, remove_sensor-find_sensor nm.sensors name i h)

delete_at_node :
    (ua : UaServer) (laws : UaLaws ua) (c : CJson) (env : Env) (nm : Manager ua) (name : CString)
    (idx : ℕ) (q : NodeId)
    → map_lookup nm.browse_map name ≢ some q
    → (ua.on_write (delete_at ua c env nm name idx).server q ≡ ua.on_write nm.server q)
      × (ua.node_context (delete_at ua c env nm name idx).server q ≡ ua.node_context nm.server q)
unfolding delete_at save_config
delete_at_node ua laws c env nm name idx q ne =
    elim (Option-cases (map_lookup nm.browse_map name)) [
      | inl e ↦ rw (e, delete_at) (refl, refl)
      | inr (id, e) ↦
          let other : q ≢ id = λ same. ne (e ∙ ap some (sym same)) in
          rw (e, delete_at)
            (
              laws.on_write-delete_node_ne nm.server id q other,
              laws.node_context-delete_node_ne nm.server id q other,
            )
    ]

-- Once a sensor has been deleted, a client's write to the node of a later sensor goes to the wrong
-- cell: the sensor itself is left as it was, and the one behind it in the array takes the value and
-- counts as overridden.
pub delete_misdirects :
    (ua : UaServer) (laws : UaLaws ua) (c : CJson) (env : Env) (nm : Manager ua) (name : CString)
    (i k : ℕ) (st next : SimulatedSensor) (b : Bool)
    → Attached ua nm.server nm.sensors_block 0 nm.sensors
    → find_sensor nm.sensors name ≡ some i
    → i ≤ k
    → get_elem? nm.sensors (suc k) ≡ some st
    → get_elem? nm.sensors (suc (suc k)) ≡ some next
    → map_lookup nm.browse_map name ≢ some st.node_id
    → is_good (delete ua c env nm name).1 ≡ true
    → let nm' = (delete ua c env nm name).0 in
      (nm'' : Manager ua) × (write_and_notify ua nm' st.node_id (boolean b) ≡ some (nm'', []))
      × (get_elem? nm''.sensors k ≡ some st)
      × (get_elem? nm''.sensors (suc k) ≡ some (override b next))
delete_misdirects ua laws c env nm name i k st next b a f le g g' ne h =
    elim (delete_cases ua c env nm name) [
      | refused _ bad ↦ absurd (false≢true (sym bad ∙ h))
      | deleted idx def got named s kids e ↦
          let nm' = delete_at ua c env nm name idx in
          let (sensors, block) = delete_at_sensors ua c env nm name idx i f in
          let (on, context) = delete_at_node ua laws c env nm name idx st.node_id ne in
          let (w, p) =
            Attached-get_elem ua nm.server nm.sensors_block 0 (suc k) nm.sensors st a g in
          let moved = get_elem?-remove_at_above i k nm.sensors le ∙ g in
          let moved' = get_elem?-remove_at_above i (suc k) nm.sensors (omega arith) ∙ g' in
          rw e (
            record nm' {
              server = ua.write_value nm'.server st.node_id (boolean b);
              sensors = update_at nm'.sensors (suc k) (override b);
            },
            write_at ua laws.writes_keep nm' st.node_id b (suc k) (on ∙ w)
                (context ∙ (p ∙ ap₂ cell (sym block) (omega arith))),
            rw
                (
                  sensors,
                  get_elem?-update_at_ne (remove_at i nm.sensors) (suc k) k (override b)
                      (omega arith),
                )
                moved,
            rw sensors
                (get_elem?-update_at_self (remove_at i nm.sensors) (suc k) (override b) moved'),
          )
    ]
