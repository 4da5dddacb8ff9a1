-- ===== src/Nodes/Simulation/Delivery/Stopping.antt =====
-- What the writes of a tick of src/node_manager.c do to the simulation when they come back.
use bo_smart_factory_opcua_t.Base.{
  ◌≡◌, refl, sym, ◌∙◌, ap, Bool, true, List, [], ◌∷◌, some, arith, map, length, map-ext-map, ◌≤◌,
  length-map,
}
use bo_smart_factory_opcua_t.Config.{max_nodes}
use bo_smart_factory_opcua_t.Nodes.Server.{UaServer}
use bo_smart_factory_opcua_t.Nodes.Manager.{NodeManager, Manager, SimulatedSensor}
use bo_smart_factory_opcua_t.Nodes.Simulation.{Writes, toggle, run_simulation_tick}
use bo_smart_factory_opcua_t.Nodes.Simulation.Laws.{ticked, live_values, run_simulation_tick_lem}
use bo_smart_factory_opcua_t.Nodes.Simulation.Delivery.{KeepsNodes, make_writes, Attached}
use bo_smart_factory_opcua_t.Nodes.Simulation.Delivery.Choices.{
  put, cell, decision, late_writes, make_writes-Delivered, deliver,
}

-- A sensor once its write has come back.
abbrev echoed : SimulatedSensor → SimulatedSensor
echoed st = record st { overridden = true }

-- A tick passes over sensors that are all overridden.
all_overridden_quiet :
    (sts : List SimulatedSensor)
    → (map ticked (map echoed sts) ≡ map echoed sts)
      × (live_values (map ticked (map echoed sts)) ≡ [])
unfolding live_values
all_overridden_quiet [] = (refl, refl)
all_overridden_quiet (st ∷ sts) =
    (ap (◌∷◌ (echoed st)) (all_overridden_quiet sts).0, (all_overridden_quiet sts).1)

quiet_tick :
    {S : Type 0} (nm : NodeManager S) (sts : List SimulatedSensor)
    → nm.simulation_enabled ≡ true
    → nm.sensors ≡ map echoed sts
    → length nm.sensors ≤ max_nodes
    → run_simulation_tick nm ≡ some (nm, [])
quiet_tick nm sts on e few =
    let (same, silent) = all_overridden_quiet sts in
    let p : map ticked nm.sensors ≡ nm.sensors = ap (map ticked) e ∙ (same ∙ sym e) in
    let q : live_values (map ticked nm.sensors) ≡ [] =
      ap (λ l. live_values (map ticked l)) e ∙ silent in
    run_simulation_tick_lem nm on few ∙ (λ i. some (record nm { sensors = p i }, q i))

abbrev ticked_value : SimulatedSensor → Bool
ticked_value x = (ticked x).value

ticked_cells :
    (xs : List SimulatedSensor) → map ticked xs ≡ map (cell ticked_value (λ x. x.overridden)) xs
unfolding toggle
ticked_cells [] = refl
ticked_cells (x ∷ xs) = ground (arith, ticked_cells xs)

ticked_echoes :
    (xs : List SimulatedSensor)
    → map (λ x. put (decision x) (cell ticked_value (λ x. x.overridden) x)) xs
      ≡ map (λ st. record (ticked st) { overridden = true }) xs
unfolding toggle
ticked_echoes [] = refl
ticked_echoes (x ∷ xs) = ground (arith, ticked_echoes xs)

-- If the server runs the callback of a sensor's node also for the writes that a tick makes, then
-- after one tick of a running simulation, with its writes made, every sensor counts as overridden,
-- with the value that the tick gave it, and the next tick changes nothing and writes nothing: the
-- simulation has stopped. The node of each sensor is asked to point to the sensor's own cell, and
-- the sensors to be no more than the 256 for which a tick has room.
pub run_simulation_tick_stops :
    (ua : UaServer) (laws : KeepsNodes ua) (nm : Manager ua)
    → nm.simulation_enabled ≡ true
    → length nm.sensors ≤ max_nodes
    → Attached ua nm.server nm.sensors_block 0 nm.sensors
    → (r : Manager ua × Writes) × (run_simulation_tick nm ≡ some r)
      × (nm'' : Manager ua) × (make_writes ua (length nm.sensors) r.0 r.1 ≡ some nm'')
      × (nm''.sensors ≡ map (λ st. record (ticked st) { overridden = true }) nm.sensors)
      × (run_simulation_tick nm'' ≡ some (nm'', []))
run_simulation_tick_stops ua laws nm on few a =
    let start : Manager ua = record nm { sensors = map ticked nm.sensors } in
    let d =
      deliver ua laws ticked_value (λ x. x.overridden) decision start [] nm.sensors []
        (ticked_cells nm.sensors) a in
    let sensors = d.cells ∙ ticked_echoes nm.sensors in
    (
      (start, live_values (map ticked nm.sensors)),
      run_simulation_tick_lem nm on few,
      d.after,
      ap (make_writes ua (length nm.sensors) start) (late_writes nm.sensors)
          ∙ make_writes-Delivered ua start _ d,
      sensors,
      quiet_tick d.after (map ticked nm.sensors) (d.same.same_switch ∙ on)
          (sensors ∙ sym (map-ext-map echoed ticked _ (λ st. refl) nm.sensors))
          (omega (
            arith,
            ap length sensors,
            length-map (λ st. record (ticked st) { overridden = true }) nm.sensors,
            few,
          )),
    )
