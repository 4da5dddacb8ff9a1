-- ===== src/Config/Seed.antt =====
-- add_node and server_config_seed_defaults of src/server_config.c.
use bo_smart_factory_opcua_t.Base.{
  ℕ, ◌+◌, Bool, true, false, [], ◌∷◌, ◌++◌, Option, none, some, arith, length, leb, CString, codes,
  fit, if◌then◌else◌, All-append, Bool-cases, inl, inr, leb-false→lt, length-append, fit_short,
}
use bo_smart_factory_opcua_t.Config.{
  ServerConfig, ServerDataType, dt_boolean, kind_folder, kind_variable, max_nodes,
  role_simulation_enabled, kind_size, browse_name_max, display_name_max, role_size, namespace_max,
  config_path_max, FitsBuffers, IsBounded,
}

-- A pointer that may be NULL, with "" for NULL.
abbrev pub or_empty : Option CString → CString
or_empty none = []
or_empty (some s) = s

unfoldable pub add_node :
    ServerConfig
    → CString
    → CString
    → CString
    → Option CString
    → ServerDataType
    → Bool
    → Option CString
    → ServerConfig
add_node cfg kind browse_name display_name parent dt simulation role =
    if leb max_nodes (length cfg.nodes) then cfg else record cfg {
      nodes =
          cfg.nodes
          ++ record {
            kind = fit kind_size kind;
            browse_name = fit browse_name_max browse_name;
            display_name = fit display_name_max display_name;
            parent_browse_name = fit browse_name_max (or_empty parent);
            data_type = dt;
            simulation = simulation;
            role = fit role_size (or_empty role);
          }
            ∷ [];
    }

-- snprintf(buf, 32, "%s%d", prefix, i) for one digit.
abbrev with_digit : CString → ℕ → CString
with_digit prefix i = fit 32 (prefix ++ (b'0' + i) ∷ [])

-- The loop body of the seed, for sensor i.
unfoldable pub add_sensor : ServerConfig → ℕ → ServerConfig
unfolding add_node
add_sensor cfg i =
    add_node cfg kind_variable (with_digit (codes "Sensor") i) (with_digit (codes "Sensor ") i)
      (some (codes "Sensors")) dt_boolean true none

-- for(int i = first; i < first + rounds; ++i)
unfoldable pub add_sensors : ℕ → ℕ → ServerConfig → ServerConfig
unfolding add_sensor
add_sensors ℕ.zero first cfg = cfg
add_sensors (ℕ.suc rounds) first cfg = add_sensors rounds (first + 1) (add_sensor cfg first)

unfoldable pub seed_defaults : CString → ServerConfig
unfolding add_sensors add_node
seed_defaults path =
    let empty : ServerConfig = record {
      namespace_uri = fit namespace_max (codes "urn:binary-sensors-demo");
      nodes = [];
      config_path = fit config_path_max path;
    } in
    let folder =
      add_node empty kind_folder (codes "Sensors") (codes "Sensors") (some []) dt_boolean false
        none in
    let sensors = add_sensors 4 1 folder in
    let switch =
      add_node sensors kind_variable (codes "Pi1_InductionSwitch1")
        (codes "Induction Switch 1 (Pi 1)") (some (codes "Sensors")) dt_boolean false none in
    add_node switch kind_variable (codes "SimulationEnabled") (codes "Simulation Enabled")
      (some (codes "Sensors")) dt_boolean false (some role_simulation_enabled)

-- A definition filled by `snprintf` fits its buffers, whatever the arguments.
pub add_node-IsBounded :
    (cfg : ServerConfig) (kind browse_name display_name : CString) (parent : Option CString)
    (dt : ServerDataType) (simulation : Bool) (role : Option CString)
    → IsBounded cfg
    → IsBounded (add_node cfg kind browse_name display_name parent dt simulation role)
unfolding add_node
add_node-IsBounded cfg kind browse_name display_name parent dt simulation role b =
    elim (Bool-cases (leb max_nodes (length cfg.nodes))) [
      | inl full ↦ rw full b
      | inr room ↦ rw room record {
        namespace_fits = b.namespace_fits;
        count_fits = omega (arith, leb-false→lt _ _ room, length-append cfg.nodes);
        nodes_fit = All-append FitsBuffers cfg.nodes _ b.nodes_fit (fits, tt);
        path_fits = b.path_fits;
      }
    ]
  where
    fits : FitsBuffers record {
      kind = fit kind_size kind;
      browse_name = fit browse_name_max browse_name;
      display_name = fit display_name_max display_name;
      parent_browse_name = fit browse_name_max (or_empty parent);
      data_type = dt;
      simulation = simulation;
      role = fit role_size (or_empty role);
    }
    fits = record {
      kind_fits = fit_short kind_size kind (omega arith);
      browse_name_fits = fit_short browse_name_max browse_name (omega arith);
      display_name_fits = fit_short display_name_max display_name (omega arith);
      parent_fits = fit_short browse_name_max (or_empty parent) (omega arith);
      role_fits = fit_short role_size (or_empty role) (omega arith);
    }

pub seed_defaults-IsBounded : (path : CString) → IsBounded (seed_defaults path)
unfolding seed_defaults
seed_defaults-IsBounded path = record {
  namespace_fits = omega arith;
  count_fits = omega arith;
  nodes_fit = omega arith;
  path_fits = fit_short config_path_max path (omega arith);
}
