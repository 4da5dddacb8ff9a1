-- ===== src/Nodes/Edit/Growth.antt =====
-- add_simulated_sensor and create_variable: what a new sensor does to the pointers that the nodes
-- of the others hold.
use bo_smart_factory_opcua_t.Base.{
  ℕ, suc, ◌+◌, ◌≤◌, ◌<◌, ◌≡◌, ◌≢◌, sym, ap, ◌∙◌, Bool, true, List, [], ◌∷◌, ◌++◌, none, some, arith,
  get_elem?, length, All, All-get_elem,
}
use bo_smart_factory_opcua_t.Config.{ServerNodeDef}
use bo_smart_factory_opcua_t.Nodes.Server.{
  UaServer, boolean, SensorPointer, sensor_write, VariableRequest, is_good,
}
use bo_smart_factory_opcua_t.Nodes.BrowseMap.{NodeId}
use bo_smart_factory_opcua_t.Nodes.Manager.{
  Manager, Realloc, SimulatedSensor, grown_capacity, create_variable, variable_request,
}
use bo_smart_factory_opcua_t.Nodes.Simulation.{sensor_write_callback, accepted}
use bo_smart_factory_opcua_t.Nodes.Simulation.Delivery.{write_and_notify, Attached}
use bo_smart_factory_opcua_t.Nodes.Edit.Registering.{
  IsSensorDef, server_with, server_with_ne, server_with_self, create_variable_room,
  create_variable_grown,
}
use bo_smart_factory_opcua_t.Nodes.Edit.Pointers.{UaLaws, Attached-get_elem, cell}

-- The new node's id is no sensor's.
abbrev pub IsNewId : NodeId → List SimulatedSensor → Type 0
IsNewId id = All (λ st. st.node_id ≢ id)

Attached-snoc :
    (ua : UaServer) (s : ua.Server) (block i : ℕ) (sts : List SimulatedSensor)
    (st : SimulatedSensor)
    → Attached ua s block i sts
    → (ua.on_write s st.node_id ≡ some sensor_write)
      × (ua.node_context s st.node_id ≡ cell block (i + length sts))
    → Attached ua s block i (sts ++ st ∷ [])
Attached-snoc ua s block i [] st a n = (n.0, n.1 ∙ ap (cell block) (omega arith), tt)
Attached-snoc ua s block i (x ∷ sts) st a n = (
  a.0,
  a.1,
  Attached-snoc ua s block (suc i) sts st a.2 (n.0, n.1 ∙ ap (cell block) (omega arith)),
)

Attached-server_with :
    (ua : UaServer) (laws : UaLaws ua) (s : ua.Server) (r : VariableRequest) (p : SensorPointer)
    (block i : ℕ) (sts : List SimulatedSensor)
    → IsNewId (ua.add_variable_node s r).2 sts
    → Attached ua s block i sts
    → Attached ua (server_with ua s r p) block i sts
Attached-server_with ua laws s r p block i [] new a = tt
Attached-server_with ua laws s r p block i (st ∷ sts) new a =
    let (w, c) = server_with_ne ua laws s r p st.node_id new.0 in
    (w ∙ a.0, c ∙ a.1, Attached-server_with ua laws s r p block (suc i) sts new.1 a.2)

write_dangles :
    (ua : UaServer) (laws : UaLaws ua) (nm : Manager ua) (id : NodeId) (b : Bool) (block index : ℕ)
    → ua.on_write nm.server id ≡ some sensor_write
    → ua.node_context nm.server id ≡ cell block index
    → block ≢ nm.sensors_block
    → write_and_notify ua nm id (boolean b) ≡ none
unfolding write_and_notify sensor_write_callback accepted
write_dangles ua laws nm id b block index w k ne = ground (
  arith,
  laws.writes_keep.on_write-write_value nm.server id (boolean b) id,
  laws.writes_keep.node_context-write_value nm.server id (boolean b) id,
)

-- The node of every sensor, the new one included, points to the sensor's own cell after a simulated
-- Boolean variable has been created, if the array has room for it.
pub create_variable-Attached :
    (ua : UaServer) (laws : UaLaws ua) (realloc : Realloc) (nm : Manager ua) (def : ServerNodeDef)
    → IsSensorDef def
    → Attached ua nm.server nm.sensors_block 0 nm.sensors
    → is_good (ua.add_variable_node nm.server (variable_request nm def)).1 ≡ true
    → IsNewId (ua.add_variable_node nm.server (variable_request nm def)).2 nm.sensors
    → length nm.sensors < nm.sensor_capacity
    → let nm' = (create_variable ua realloc nm def).0 in
      Attached ua nm'.server nm'.sensors_block 0 nm'.sensors
create_variable-Attached ua laws realloc nm def d a acc new room =
    let h = create_variable_room ua realloc nm def d acc room in
    rw (h.same_server, h.same_block, h.same_sensors)
      (Attached-snoc ua _ nm.sensors_block 0 nm.sensors h.sensor
        (Attached-server_with ua laws nm.server (variable_request nm def) _ nm.sensors_block 0
          nm.sensors new a)
        (rw h.sensor_id (
          let (w, p) =
            server_with_self ua laws nm.server (variable_request nm def)
              (record { block = nm.sensors_block; index = length nm.sensors }) in
          (w, p ∙ ap (cell nm.sensors_block) (omega arith)))))

-- When the array is full and realloc moves it, the nodes of the sensors that were there keep their
-- pointers into the block that was given back: a client's write to any of them writes through a
-- dangling pointer.
pub create_variable_dangles :
    (ua : UaServer) (laws : UaLaws ua) (realloc : Realloc) (nm : Manager ua) (def : ServerNodeDef)
    (block j : ℕ) (st : SimulatedSensor) (b : Bool)
    → IsSensorDef def
    → Attached ua nm.server nm.sensors_block 0 nm.sensors
    → is_good (ua.add_variable_node nm.server (variable_request nm def)).1 ≡ true
    → IsNewId (ua.add_variable_node nm.server (variable_request nm def)).2 nm.sensors
    → nm.sensor_capacity ≤ length nm.sensors
    → realloc nm.sensors_block (grown_capacity nm.sensor_capacity) ≡ some block
    → block ≢ nm.sensors_block
    → get_elem? nm.sensors j ≡ some st
    → let nm' = (create_variable ua realloc nm def).0 in
      write_and_notify ua nm' st.node_id (boolean b) ≡ none
create_variable_dangles ua laws realloc nm def block j st b d a acc new full grows moves g =
    let h = create_variable_grown ua realloc nm def block d acc full grows in
    let (w, p) = Attached-get_elem ua nm.server nm.sensors_block 0 j nm.sensors st a g in
    let other = All-get_elem (λ t. t.node_id ≢ _) nm.sensors j st new g in
    let (w', p') =
      server_with_ne ua laws nm.server (variable_request nm def)
        (record { block = block; index = length nm.sensors }) st.node_id other in
    let nm' = (create_variable ua realloc nm def).0 in
    write_dangles ua laws nm' st.node_id b nm.sensors_block (0 + j)
      (ap (λ s. ua.on_write s st.node_id) h.same_server ∙ (w' ∙ w))
      (ap (λ s. ua.node_context s st.node_id) h.same_server ∙ (p' ∙ p))
      (λ same. moves (sym h.same_block ∙ sym same))
