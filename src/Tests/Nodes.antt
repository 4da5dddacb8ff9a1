-- ===== src/Tests/Nodes.antt =====
-- The theorems about the node manager at concrete inputs.
use bo_smart_factory_opcua_t.Base.{
  ℕ, ◌≡◌, ◌≢◌, refl, Bool, true, false, List, [], ◌∷◌, ◌++◌, if◌then◌else◌, Option, none, some,
  arith, CString, codes, str_eq, get_elem?, map, All,
}
use bo_smart_factory_opcua_t.Config.{ServerNodeDef, dt_boolean}
use bo_smart_factory_opcua_t.Nodes.BrowseMap.{NodeId, numeric, string, map_lookup}
use bo_smart_factory_opcua_t.Nodes.Server.{
  boolean, SensorPointer, sensor_write, simulation_enabled_write,
}
use bo_smart_factory_opcua_t.Nodes.Manager.{Manager, SimulatedSensor, create_variable}
use bo_smart_factory_opcua_t.Nodes.Simulation.{Writes, run_simulation_tick, set_simulation_enabled}
use bo_smart_factory_opcua_t.Nodes.Simulation.Laws.{ticked}
use bo_smart_factory_opcua_t.Nodes.Simulation.Delivery.{make_writes, write_and_notify, Attached}
use bo_smart_factory_opcua_t.Nodes.Simulation.Delivery.Stopping.{run_simulation_tick_stops}
use bo_smart_factory_opcua_t.Nodes.Simulation.Delivery.Racing.{set_simulation_enabled-overtaken}
use bo_smart_factory_opcua_t.Nodes.Edit.{
  has_children_in_config, find_node_index, delete, variable_def,
}
use bo_smart_factory_opcua_t.Nodes.Edit.Pointers.{find_sensor, delete_misdirects}
use bo_smart_factory_opcua_t.Nodes.Edit.Growth.{create_variable-Attached, create_variable_dangles}
use bo_smart_factory_opcua_t.Tests.Config.{no_faults, no_files, folder, plant, plant_json}
use bo_smart_factory_opcua_t.Tests.Server.{
  Tiny, tiny_server, tiny_server_laws, put, same_id, ids_differ,
}

abbrev pub lamp : CString → Bool → Bool → SimulatedSensor
lamp name value overridden = record {
  node_id = string 1 name;
  value = value;
  overridden = overridden;
  browse_name = name;
}

abbrev pub lamps : List SimulatedSensor
lamps =
    lamp (codes "L0") true false ∷ lamp (codes "L1") false false ∷ lamp (codes "L2") false true ∷ []

abbrev pub pointer : ℕ → Option SensorPointer
pointer i = some (record { block = 7; index = i })

-- A server whose nodes L0, L1 and L2 are attached to the three cells of block 7.
abbrev pub attached : Tiny
attached = record {
  callbacks = λ _. some sensor_write;
  contexts =
      put
        (put (put (λ _. none) (string 1 (codes "L0")) (pointer 0)) (string 1 (codes "L1"))
          (pointer 1))
        (string 1 (codes "L2")) (pointer 2);
}

abbrev pub lamp_def : CString → ServerNodeDef
lamp_def name = variable_def (some (codes "Sensors")) name name dt_boolean true

abbrev pub running : Manager tiny_server
running = record {
  server = attached;
  ns_idx = 1;
  config = record plant {
    nodes = folder ∷ lamp_def (codes "L0") ∷ lamp_def (codes "L1") ∷ lamp_def (codes "L2") ∷ [];
  };
  sensors = lamps;
  sensors_block = 7;
  sensor_capacity = 8;
  simulation_enabled = true;
  simulation_enabled_node_id = numeric 0 0;
  simulation_node_set = false;
  browse_map = [];
  storage = no_files;
}

attached_lem : Attached tiny_server attached 7 0 lamps
unfolding same_id str_eq
attached_lem = (refl, refl, (refl, refl, (refl, refl, tt)))

run_simulation_tick_stops_example :
    (r : Manager tiny_server × Writes) × (run_simulation_tick running ≡ some r)
    × (nm'' : Manager tiny_server) × (make_writes tiny_server 3 r.0 r.1 ≡ some nm'')
    × (nm''.sensors ≡ map (λ st. record (ticked st) { overridden = true }) lamps)
    × (run_simulation_tick nm'' ≡ some (nm'', []))
run_simulation_tick_stops_example =
    run_simulation_tick_stops tiny_server tiny_server_laws.writes_keep running refl (omega arith)
      attached_lem

-- The same with a node of the switch.
abbrev switched : Manager tiny_server
switched = record running {
  server = record attached {
    callbacks = λ id.
        if same_id id (string 1 (codes "Sw"))
        then some simulation_enabled_write
        else some sensor_write;
  };
  simulation_enabled_node_id = string 1 (codes "Sw");
  simulation_node_set = true;
}

switched-Attached : Attached tiny_server switched.server 7 0 lamps
unfolding same_id str_eq
switched-Attached = (refl, refl, (refl, refl, (refl, refl, tt)))

set_simulation_enabled-overtaken_example :
    (ticking : Manager tiny_server × Writes) × (run_simulation_tick switched ≡ some ticking)
    × (off : Manager tiny_server × Writes) × (set_simulation_enabled ticking.0 false ≡ some off)
    × (nm' : Manager tiny_server) × (make_writes tiny_server 10 off.0 (off.1 ++ ticking.1)
        ≡ some nm')
    × (nm'.simulation_enabled ≡ false)
    × (nm'.sensors
        ≡ lamp (codes "L0") false true
          ∷ lamp (codes "L1") true true
          ∷ lamp (codes "L2") false true
          ∷ [])
unfolding same_id str_eq
set_simulation_enabled-overtaken_example =
    set_simulation_enabled-overtaken tiny_server tiny_server_laws.writes_keep switched refl
      (omega arith) switched-Attached (λ _. refl)

delete_misdirects_example :
    let nm' = (delete tiny_server plant_json no_faults running (codes "L0")).0 in
    (nm'' : Manager tiny_server) × (write_and_notify tiny_server nm'
        (string 1 (codes "L1"))
        (boolean true)
      ≡ some (nm'', []))
    × (get_elem? nm''.sensors 0 ≡ some (lamp (codes "L1") false false))
    × (get_elem? nm''.sensors 1 ≡ some (lamp (codes "L2") true true))
unfolding find_sensor map_lookup delete find_node_index has_children_in_config str_eq
delete_misdirects_example =
    delete_misdirects tiny_server tiny_server_laws plant_json no_faults running (codes "L0") 0 0
      (lamp (codes "L1") false false) (lamp (codes "L2") false true) true attached_lem refl
      (omega arith) refl refl (λ h. cc) refl

abbrev l3 : NodeId
l3 = string 1 (codes "L3")

new_id : All (λ st. st.node_id ≢ l3) lamps
unfolding same_id str_eq
new_id = (
  ids_differ (string 1 (codes "L0")) l3 refl,
  (ids_differ (string 1 (codes "L1")) l3 refl, (ids_differ (string 1 (codes "L2")) l3 refl, tt)),
)

create_variable-Attached_example :
    let nm' = (create_variable tiny_server (λ _ _. none) running (lamp_def (codes "L3"))).0 in
    Attached tiny_server nm'.server nm'.sensors_block 0 nm'.sensors
create_variable-Attached_example =
    create_variable-Attached tiny_server tiny_server_laws (λ _ _. none) running
      (lamp_def (codes "L3")) (record { not_switch = refl; simulated = refl }) attached_lem refl
      new_id (omega arith)

abbrev crowded : Manager tiny_server
crowded = record running { sensor_capacity = 3 }

create_variable_dangles_example :
    let nm' = (create_variable tiny_server (λ _ _. some 9) crowded (lamp_def (codes "L3"))).0 in
    write_and_notify tiny_server nm' (string 1 (codes "L1")) (boolean true) ≡ none
create_variable_dangles_example =
    create_variable_dangles tiny_server tiny_server_laws (λ _ _. some 9) crowded
      (lamp_def (codes "L3")) 9 1 (lamp (codes "L1") false false) true
      (record { not_switch = refl; simulated = refl }) attached_lem refl new_id (omega arith) refl
      (omega arith) refl
