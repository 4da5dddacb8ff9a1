-- ===== src/Nodes/Simulation/Delivery/Racing.antt =====
-- A tick of src/node_manager.c that is overtaken: its writes come behind those of
-- node_manager_set_simulation_enabled, which the thread of the HTTP server makes.
use bo_smart_factory_opcua_t.Base.{
  suc, ◌+◌, ◌*◌, ◌≡◌, refl, sym, ◌∙◌, ap, Bool, true, false, List, [], ◌∷◌, ◌++◌, some,
  if◌then◌else◌, arith, map, length, subst, map-ext-map, ◌≤◌, length-map, le→ltb,
}
use mathlib.Core.Path.{ap₂}
use bo_smart_factory_opcua_t.Config.{max_nodes}
use bo_smart_factory_opcua_t.Nodes.BrowseMap.{NodeId}
use bo_smart_factory_opcua_t.Nodes.Server.{UaServer, boolean, simulation_enabled_write}
use bo_smart_factory_opcua_t.Nodes.Manager.{Manager, SimulatedSensor}
use bo_smart_factory_opcua_t.Nodes.Simulation.{
  Writes, toggle, accepted, switch_sensor, all_false, run_simulation_tick, set_simulation_enabled,
  simulation_enabled_write_callback,
}
use bo_smart_factory_opcua_t.Nodes.Simulation.Laws.{ticked, live_values, run_simulation_tick_lem}
use bo_smart_factory_opcua_t.Nodes.Simulation.Delivery.{
  KeepsNodes, write_and_notify, make_writes, Attached,
}
use bo_smart_factory_opcua_t.Nodes.Simulation.Delivery.Choices.{
  chosen_writes, put, cell, decision, late_writes, Attached-SameNodes, Delivered, Delivered-trans,
  more_rounds, make_writes-Delivered, deliver, one_more,
}

off_writes :
    (v o : SimulatedSensor → Bool) (xs : List SimulatedSensor) (ws : Writes)
    → all_false (map (cell v o) xs) ++ ws ≡ chosen_writes (λ x. some false) xs ws
unfolding chosen_writes
off_writes v o [] ws = refl
off_writes v o (x ∷ xs) ws = ap (◌∷◌ (x.node_id, boolean false)) (off_writes v o xs ws)

-- What is left of a sensor: what the tick made of it, or false if it was overridden.
abbrev pub overtaken : SimulatedSensor → SimulatedSensor
overtaken x = record x {
  value = if x.overridden then false else if x.value then false else true;
  overridden = true;
}

overtaken_cell :
    (x : SimulatedSensor)
    → put (decision x) (record x { value = false; overridden = true }) ≡ overtaken x
overtaken_cell x = ground arith

overtaken_cells :
    (xs : List SimulatedSensor)
    → map (λ x. put (decision x) (record x { value = false; overridden = true })) xs
      ≡ map overtaken xs
overtaken_cells [] = refl
overtaken_cells (x ∷ xs) = ap₂ (λ y ys. y ∷ ys) (overtaken_cell x) (overtaken_cells xs)

switched :
    (xs : List SimulatedSensor)
    → map (switch_sensor false) (map ticked xs) ≡ map (cell (λ x. false) (λ x. false)) xs
unfolding switch_sensor toggle
switched [] = refl
switched (x ∷ xs) = ground (arith, switched xs)

switched_cells :
    (v o : SimulatedSensor → Bool) (xs : List SimulatedSensor)
    → map (switch_sensor false) (map (cell v o) xs) ≡ map (cell (λ x. false) (λ x. false)) xs
unfolding switch_sensor
switched_cells v o xs = map-ext-map (switch_sensor false) (cell v o) _ (λ x. refl) xs

same_off :
    (xs : List SimulatedSensor)
    → all_false (map ticked xs) ≡ all_false (map (cell (λ x. false) (λ x. false)) xs)
unfolding toggle
same_off [] = refl
same_off (x ∷ xs) = ground (arith, same_off xs)

-- A manager behind a write of false to the node of the switch.
abbrev switched_off_by : (ua : UaServer) → Manager ua → NodeId → Manager ua
switched_off_by ua m id = record m {
  server = ua.write_value m.server id (boolean false);
  simulation_enabled = false;
  sensors = map (switch_sensor false) m.sensors;
}

notify_switch :
    (ua : UaServer) (laws : KeepsNodes ua) (m : Manager ua) (id : NodeId)
    → ua.on_write m.server id ≡ some simulation_enabled_write
    → length m.sensors ≤ max_nodes
    → write_and_notify ua m id (boolean false) ≡ some (switched_off_by ua m id, all_false m.sensors)
unfolding write_and_notify accepted simulation_enabled_write_callback
notify_switch ua laws m id w few = ground (
  arith,
  laws.on_write-write_value m.server id (boolean false) id,
  le→ltb max_nodes (length m.sensors) few,
)

module _ (ua : UaServer) (laws : KeepsNodes ua) (xs : List SimulatedSensor)
    (few : length xs ≤ max_nodes) where
  -- The writes of the switch to the sensors and then those of the tick.
  abbrev both_writes : Writes
  both_writes = chosen_writes (λ x. some false) xs (chosen_writes decision xs [])

  off_then_late :
      (v o : SimulatedSensor → Bool) (m : Manager ua)
      → m.sensors ≡ map (cell v o) xs
      → Attached ua m.server m.sensors_block 0 xs
      → Delivered ua m (map overtaken xs) both_writes [] (length xs + length xs)
  off_then_late v o m e a =
      let off = deliver ua laws v o (λ x. some false) m [] xs (chosen_writes decision xs []) e a in
      let late =
        deliver ua laws (λ x. false) (λ x. true) decision off.after [] xs [] off.cells
          (Attached-SameNodes ua m off.after 0 xs off.same a) in
      subst (λ l. Delivered ua m l both_writes [] (length xs + length xs)) (overtaken_cells xs)
        (Delivered-trans ua m both_writes off late)

  -- The write to the node of the switch runs its callback, which switches the simulation off again.
  switch_first :
      (m : Manager ua) (id : NodeId)
      → m.simulation_enabled ≡ false
      → m.sensors ≡ map (cell (λ x. false) (λ x. false)) xs
      → Attached ua m.server m.sensors_block 0 xs
      → ua.on_write m.server id ≡ some simulation_enabled_write
      → Delivered ua m
          (map overtaken xs)
          ((id, boolean false) ∷ both_writes)
          []
          (suc (3 * length xs))
  unfolding make_writes
  switch_first m id off e a w =
      let again = switched_off_by ua m id in
      let fits : length m.sensors ≤ max_nodes =
        omega (arith, ap length e, length-map (cell (λ x. false) (λ x. false)) xs, few) in
      let step : Delivered ua m again.sensors ((id, boolean false) ∷ both_writes)
          (chosen_writes (λ x. some false) xs both_writes) 1 =
        record {
          after = again;
          same = record {
            callbacks = λ q. laws.on_write-write_value m.server id (boolean false) q;
            contexts = λ q. laws.node_context-write_value m.server id (boolean false) q;
            same_block = refl;
            same_switch = sym off;
          };
          cells = refl;
          used = 1;
          few = omega arith;
          made = λ rounds.
              let sent = notify_switch ua laws m id w fits in
              ap (λ n. make_writes ua n m ((id, boolean false) ∷ both_writes)) (one_more rounds)
              ∙ (rw (make_writes, sent) refl
                  ∙ ap (make_writes ua rounds again) (
                      ap (λ l. all_false l ++ both_writes) e
                      ∙ off_writes (λ x. false) (λ x. false) xs both_writes));
        } in
      let cells : again.sensors ≡ map (cell (λ x. false) (λ x. false)) xs =
        ap (map (switch_sensor false)) e ∙ switched_cells (λ x. false) (λ x. false) xs in
      let attached = Attached-SameNodes ua m again 0 xs step.same a in
      let first =
        deliver ua laws (λ x. false) (λ x. false) (λ x. some false) again [] xs both_writes cells
          attached in
      let rest =
        off_then_late (λ x. false) (λ x. true) first.after first.cells
          (Attached-SameNodes ua again first.after 0 xs first.same attached) in
      let all = (id, boolean false) ∷ both_writes in
      more_rounds ua m all
        (Delivered-trans ua m all step
          (Delivered-trans ua again (chosen_writes (λ x. some false) xs both_writes) first rest))
        (omega arith)

  sensor_writes : all_false (map ticked xs) ++ live_values (map ticked xs) ≡ both_writes
  sensor_writes =
      ap₂ (λ l l'. l ++ l') (same_off xs) (late_writes xs)
      ∙ off_writes (λ x. false) (λ x. false) xs (chosen_writes decision xs [])

  -- What is written, with the write to the node of the switch if there is one.
  all_writes :
      (set : Bool) (id : NodeId)
      → ((if set then (id, boolean false) ∷ [] else []) ++ all_false (map ticked xs))
          ++ live_values (map ticked xs)
        ≡ (if set then (id, boolean false) ∷ both_writes else both_writes)
  all_writes true id = ap (◌∷◌ (id, boolean false)) sensor_writes
  all_writes false id = sensor_writes

  switch_if_set :
      (m : Manager ua) (set : Bool) (id : NodeId)
      → m.simulation_enabled ≡ false
      → m.sensors ≡ map (cell (λ x. false) (λ x. false)) xs
      → Attached ua m.server m.sensors_block 0 xs
      → (set ≡ true → ua.on_write m.server id ≡ some simulation_enabled_write)
      → Delivered ua m
          (map overtaken xs)
          (if set then (id, boolean false) ∷ both_writes else both_writes)
          []
          (suc (3 * length xs))
  switch_if_set m true id off e a w = switch_first m id off e a (w refl)
  switch_if_set m false id off e a w =
      more_rounds ua m both_writes (off_then_late (λ x. false) (λ x. false) m e a) (omega arith)

-- A tick of a running simulation has released the mutex and not yet made its writes, when the
-- simulation is switched off over HTTP and all writes of that are made. Then the writes of the tick
-- are made behind them: the simulation is off, and yet every sensor that was not overridden has the
-- value that the tick gave it, and every sensor counts as overridden. This is for at most 256
-- sensors, and for a server that runs the callbacks also for these writes, with a node of each sensor
-- that points to the sensor's own cell and a node of the switch, if there is one, that has the
-- callback of the switch.
pub set_simulation_enabled-overtaken :
    (ua : UaServer) (laws : KeepsNodes ua) (nm : Manager ua)
    → nm.simulation_enabled ≡ true
    → length nm.sensors ≤ max_nodes
    → Attached ua nm.server nm.sensors_block 0 nm.sensors
    → (nm.simulation_node_set ≡ true
        → ua.on_write nm.server nm.simulation_enabled_node_id ≡ some simulation_enabled_write)
    → (ticking : Manager ua × Writes) × (run_simulation_tick nm ≡ some ticking)
      × (off : Manager ua × Writes) × (set_simulation_enabled ticking.0 false ≡ some off)
      × (nm' : Manager ua) × (make_writes ua
            (suc (3 * length nm.sensors))
            off.0
            (off.1 ++ ticking.1)
          ≡ some nm')
      × (nm'.simulation_enabled ≡ false)
      × (nm'.sensors ≡ map overtaken nm.sensors)
unfolding set_simulation_enabled
set_simulation_enabled-overtaken ua laws nm on few a sw =
    let ticking : Manager ua = record nm { sensors = map ticked nm.sensors } in
    let off : Manager ua = record ticking {
      sensors = map (switch_sensor false) ticking.sensors;
      simulation_enabled = false;
    } in
    let d =
      switch_if_set ua laws nm.sensors few off nm.simulation_node_set nm.simulation_enabled_node_id
        refl (switched nm.sensors) a sw in
    let sent =
      all_writes ua laws nm.sensors few nm.simulation_node_set nm.simulation_enabled_node_id in
    let fits : length ticking.sensors ≤ max_nodes =
      omega (arith, length-map ticked nm.sensors, few) in
    (
      (ticking, live_values (map ticked nm.sensors)),
      run_simulation_tick_lem nm on few,
      (off, _),
      rw (le→ltb max_nodes (length ticking.sensors) fits) refl,
      d.after,
      ap (make_writes ua (suc (3 * length nm.sensors)) off) sent ∙ make_writes-Delivered ua off _ d,
      d.same.same_switch,
      d.cells,
    )
