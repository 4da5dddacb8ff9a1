-- ===== src/Nodes/Simulation.antt =====
-- The simulation of src/node_manager.c: the tick, the switch, the overrides and the callbacks that
-- open62541 runs after a write. What is written to the server after the mutex is released is
-- returned as a list, in order. The three functions that write collect on the stack, in arrays of
-- SERVER_MAX_NODES cells: `none` is a write behind their end.
pub mod Laws
pub mod Delivery
use bo_smart_factory_opcua_t.Base.{
  ℕ, Bool, true, false, not, List, [], ◌∷◌, ◌++◌, Option, none, some, if◌then◌else◌, map, ◌==◌,
  update_at, length, ltb,
}
use bo_smart_factory_opcua_t.Config.{max_nodes}
use bo_smart_factory_opcua_t.Nodes.BrowseMap.{NodeId}
use bo_smart_factory_opcua_t.Nodes.Server.{Value, boolean, DataValue, SensorPointer}
use bo_smart_factory_opcua_t.Nodes.Manager.{NodeManager, SimulatedSensor}

abbrev pub Writes : Type 0
Writes = List (NodeId × Value)

unfoldable pub toggle : SimulatedSensor → SimulatedSensor
toggle st = record st { value = if st.value then false else true }

-- The loop of node_manager_run_simulation_tick over the sensors: the sensors, and what goes
-- into writeIds and writeValues; whether it fits is tested in run_simulation_tick.
unfoldable pub tick_sensors : List SimulatedSensor → List SimulatedSensor × Writes
unfolding toggle
tick_sensors [] = ([], [])
tick_sensors (st ∷ sts) =
    let (rest, writes) = tick_sensors sts in
    if st.overridden
    then (st ∷ rest, writes)
    else (toggle st ∷ rest, (st.node_id, boolean (toggle st).value) ∷ writes)

-- The loop body of the two functions that switch the simulation.
unfoldable pub switch_sensor : Bool → SimulatedSensor → SimulatedSensor
switch_sensor enabled st =
    if not enabled
    then record st { value = false; overridden = false }
    else record st { overridden = false }

abbrev pub all_false : List SimulatedSensor → Writes
all_false = map (λ st. (st.node_id, boolean false))

-- The Boolean of a data value that a callback accepts.
unfoldable pub accepted : Option DataValue → Option Bool
accepted none = none
accepted (some d) =
    if not d.has_value then none else elim d.value [ some (boolean b) ↦ some b | _ ↦ none ]

-- node_manager_run_simulation_tick: the state behind the mutex, and the writes that follow.
unfoldable pub run_simulation_tick : {S : Type 0} → NodeManager S → Option (NodeManager S × Writes)
unfolding tick_sensors
run_simulation_tick nm =
    if not nm.simulation_enabled
    then some (nm, [])
    else let (sensors, writes) = tick_sensors nm.sensors in
      if ltb max_nodes (length writes) then none else some (record nm { sensors = sensors }, writes)

-- node_manager_set_simulation_enabled
unfoldable pub set_simulation_enabled :
    {S : Type 0} → NodeManager S → Bool → Option (NodeManager S × Writes)
unfolding switch_sensor
set_simulation_enabled nm enabled =
    if ltb max_nodes (length nm.sensors)
    then none
    else some (
      record nm { simulation_enabled = enabled; sensors = map (switch_sensor enabled) nm.sensors },
      (if nm.simulation_node_set then (nm.simulation_enabled_node_id, boolean enabled) ∷ [] else [])
          ++ (if not enabled then all_false nm.sensors else []),
    )

unfoldable pub clear_override : SimulatedSensor → SimulatedSensor
clear_override st = record st { overridden = false }

-- node_manager_reset_overrides
unfoldable pub reset_overrides : {S : Type 0} → NodeManager S → NodeManager S
unfolding clear_override
reset_overrides nm = record nm { sensors = map clear_override nm.sensors }

-- simulation_enabled_write_callback
unfoldable pub simulation_enabled_write_callback :
    {S : Type 0} → NodeManager S → Option DataValue → Option (NodeManager S × Writes)
unfolding accepted switch_sensor
simulation_enabled_write_callback nm d = elim (accepted d) [
  | none ↦ some (nm, [])
  | some enabled ↦
      if ltb max_nodes (length nm.sensors)
      then none
      else some (
        record nm {
          simulation_enabled = enabled;
          sensors = map (switch_sensor enabled) nm.sensors;
        },
        if not enabled then all_false nm.sensors else [],
      )
]

-- What a client's Boolean does to a sensor.
abbrev pub override : Bool → SimulatedSensor → SimulatedSensor
override b st = record st { value = b; overridden = true }

-- sensor_write_callback. The context is a pointer; `none` is a write through a pointer into an
-- allocation that realloc has given back. A cell that is allocated and not in use changes unseen.
unfoldable pub sensor_write_callback :
    {S : Type 0} → NodeManager S → Option SensorPointer → Option DataValue → Option (NodeManager S)
unfolding accepted
sensor_write_callback nm none d = some nm
sensor_write_callback nm (some p) d = elim (accepted d) [
  | none ↦ some nm
  | some b ↦
      if not (p.block == nm.sensors_block)
      then none
      else some (record nm { sensors = update_at nm.sensors p.index (override b) })
]
