-- ===== src/Nodes/Simulation/Laws.antt =====
-- The tick, the switch and the overrides.
use bo_smart_factory_opcua_t.Base.{
  ◌≡◌, ◌≤◌, refl, true, false, List, [], ◌∷◌, ◌++◌, some, arith, if◌then◌else◌, map, length, ltb,
  le→ltb, All,
}
use bo_smart_factory_opcua_t.Config.{max_nodes}
use bo_smart_factory_opcua_t.Nodes.Server.{boolean}
use bo_smart_factory_opcua_t.Nodes.Manager.{NodeManager, SimulatedSensor}
use bo_smart_factory_opcua_t.Nodes.Simulation.{
  Writes, toggle, tick_sensors, switch_sensor, run_simulation_tick, set_simulation_enabled,
}

-- A tick seen by one sensor.
abbrev pub ticked : SimulatedSensor → SimulatedSensor
ticked st = if st.overridden then st else toggle st

-- The present values of the sensors that are not overridden, in order.
unfoldable pub live_values : List SimulatedSensor → Writes
live_values [] = []
live_values (st ∷ sts) =
    if st.overridden then live_values sts else (st.node_id, boolean st.value) ∷ live_values sts

pub tick_sensors_lem :
    (sts : List SimulatedSensor) → tick_sensors sts ≡ (map ticked sts, live_values (map ticked sts))
unfolding tick_sensors live_values
tick_sensors_lem [] = refl
tick_sensors_lem (st ∷ sts) = ground (arith, tick_sensors_lem sts)

length-live_values :
    (sts : List SimulatedSensor) → length (live_values (map ticked sts)) ≤ length sts
unfolding live_values toggle
length-live_values [] = omega arith
length-live_values (st ∷ sts) = ground (arith, length-live_values sts)

-- While the simulation is on, a tick of at most 256 sensors flips every sensor that is not
-- overridden and leaves the others, and what is then written to the server is, in order, the new
-- value of each flipped sensor. Nothing else of the manager changes.
pub run_simulation_tick_lem :
    {S : Type 0} (nm : NodeManager S)
    → nm.simulation_enabled ≡ true
    → length nm.sensors ≤ max_nodes
    → run_simulation_tick nm
      ≡ some (record nm { sensors = map ticked nm.sensors }, live_values (map ticked nm.sensors))
unfolding run_simulation_tick
run_simulation_tick_lem nm on few =
    let fits : ltb max_nodes (length (live_values (map ticked nm.sensors))) ≡ false =
      le→ltb max_nodes (length (live_values (map ticked nm.sensors)))
        (omega (arith, length-live_values nm.sensors, few)) in
    rw (on, tick_sensors_lem nm.sensors, fits) refl

tick_off :
    {S : Type 0} (nm : NodeManager S)
    → nm.simulation_enabled ≡ false
    → run_simulation_tick nm ≡ some (nm, [])
unfolding run_simulation_tick
tick_off nm off = rw off refl

switched_off :
    (sts : List SimulatedSensor)
    → All (λ st. (st.value ≡ false) × (st.overridden ≡ false)) (map (switch_sensor false) sts)
unfolding switch_sensor
switched_off [] = tt
switched_off (st ∷ sts) = ((refl, refl), switched_off sts)

-- Switching the simulation off over HTTP with at most 256 sensors sets every sensor to false and
-- clears its override, and writes false to the node of the switch, if there is one, and then
-- to every sensor's node; a tick then changes nothing and writes nothing.
pub set_simulation_disabled :
    {S : Type 0} (nm : NodeManager S)
    → length nm.sensors ≤ max_nodes
    → (r : NodeManager S × Writes) × (set_simulation_enabled nm false ≡ some r)
      × All (λ st. (st.value ≡ false) × (st.overridden ≡ false)) r.0.sensors
      × (r.1
          ≡ (if nm.simulation_node_set
              then (nm.simulation_enabled_node_id, boolean false) ∷ []
              else [])
            ++ map (λ st. (st.node_id, boolean false)) nm.sensors)
      × (run_simulation_tick r.0 ≡ some (r.0, []))
unfolding set_simulation_enabled switch_sensor
set_simulation_disabled nm few =
    rw (le→ltb max_nodes (length nm.sensors) few)
      (_, refl, switched_off nm.sensors, refl, tick_off _ refl)
