-- ===== src/Tests/Edits.antt =====
-- The theorems about the order of the nodes, the table of names and the edits at concrete inputs.
use mathlib.Core.List.{Mem}
use bo_smart_factory_opcua_t.Base.{
  ℕ, zero, suc, ◌+◌, ◌≡◌, ◌↔◌, ◌<◌, refl, true, false, List, [], ◌∷◌, none, some, arith, codes,
  length, str_eq, fit, replicate,
}
use bo_smart_factory_opcua_t.Config.{ServerNodeDef, dt_boolean, browse_name_max, FitsBuffers}
use bo_smart_factory_opcua_t.Config.Names.{
  validate_browse_name, browse_name_char, all_browse_name_chars,
}
use bo_smart_factory_opcua_t.Nodes.BrowseMap.{string, BrowseMapEntry, free_entry, map_lookup}
use bo_smart_factory_opcua_t.Nodes.Depth.{
  node_depth, depth_loop, parent_of, Depth, node_depth_iff, find_node,
}
use bo_smart_factory_opcua_t.Nodes.Sort.{sort_loop, exchange, sort_nodes_by_depth}
use bo_smart_factory_opcua_t.Nodes.Sort.Parents.{sort_nodes_by_depth_parent_before}
use bo_smart_factory_opcua_t.Nodes.Server.{good, bad_node_id_unknown}
use bo_smart_factory_opcua_t.Nodes.Manager.{Manager}
use bo_smart_factory_opcua_t.Nodes.Edit.{
  config_has_browse, has_children_in_config, find_node_index, add_variable, delete,
}
use bo_smart_factory_opcua_t.Nodes.Edit.Names.{ParentsKnown, Distinct}
use bo_smart_factory_opcua_t.Nodes.Edit.Adding.{
  IsConsistent, variable_def-FitsBuffers, add_variable-IsConsistent,
}
use bo_smart_factory_opcua_t.Nodes.Edit.Overflow.{add_variable_full}
use bo_smart_factory_opcua_t.Nodes.Edit.Deleting.{delete_good, delete-IsConsistent}
use bo_smart_factory_opcua_t.Tests.Config.{no_faults, folder, counter, plant, plant_json}
use bo_smart_factory_opcua_t.Tests.Server.{tiny_server}
use bo_smart_factory_opcua_t.Tests.Nodes.{running}

-- The child stands first in the file.
abbrev child_first : List ServerNodeDef
child_first = counter ∷ folder ∷ []

node_depth_iff_example :
    ((node_depth child_first counter ≡ 1) × (1 < 32))
    ↔ (Depth child_first (fit browse_name_max counter.parent_browse_name) 1 × (1 < 32))
node_depth_iff_example = node_depth_iff child_first counter 1

sort_nodes_by_depth_parent_before_example : Mem folder (folder ∷ [])
unfolding sort_nodes_by_depth sort_loop exchange depth_loop parent_of node_depth find_node str_eq
sort_nodes_by_depth_parent_before_example =
    sort_nodes_by_depth_parent_before child_first (folder ∷ []) [] counter folder refl (omega arith)
      refl refl (omega arith)

-- Before node_manager_build.
abbrev unbuilt : Manager tiny_server
unbuilt = record running {
  config = record plant { nodes = child_first };
  sensors = [];
  sensor_capacity = 0;
  browse_map = free_entry ∷ free_entry ∷ [];
}

abbrev table : List BrowseMapEntry
table =
    record { browse_name = codes "Sensors"; node_id = string 1 (codes "Sensors"); used = true }
    ∷ free_entry
    ∷ free_entry
    ∷ []

distinct_lem : Distinct running.config.nodes
unfolding config_has_browse str_eq
distinct_lem = (refl, (refl, (refl, (refl, tt))))

delete_good_example :
    let nm' = (delete tiny_server plant_json no_faults running (codes "L1")).0 in
    (config_has_browse nm'.config.nodes (codes "L1") ≡ false)
    × (map_lookup nm'.browse_map (codes "L1") ≡ none)
    × (length nm'.config.nodes + 1 ≡ 4)
unfolding delete find_node_index has_children_in_config str_eq
delete_good_example =
    delete_good tiny_server plant_json no_faults running (codes "L1") (codes "L1") distinct_lem tt
      refl

fits_folder : FitsBuffers folder
fits_folder = record {
  kind_fits = omega arith;
  browse_name_fits = omega arith;
  display_name_fits = omega arith;
  parent_fits = omega arith;
  role_fits = omega arith;
}

pub consistent_lem : IsConsistent running.config
consistent_lem = record {
  bounded = record {
    namespace_fits = omega arith;
    count_fits = omega arith;
    nodes_fit = (
      fits_folder,
      (
        variable_def-FitsBuffers (some (codes "Sensors")) (codes "L0") (codes "L0") dt_boolean true,
        (
          variable_def-FitsBuffers (some (codes "Sensors")) (codes "L1") (codes "L1") dt_boolean
              true,
          (
            variable_def-FitsBuffers (some (codes "Sensors")) (codes "L2") (codes "L2") dt_boolean
                true,
            tt,
          ),
        ),
      ),
    );
    path_fits = omega arith;
  };
  distinct = distinct_lem;
}

known_lem : ParentsKnown running.config.nodes
unfolding config_has_browse str_eq
known_lem = (refl, (refl, (refl, (refl, tt))))

delete-IsConsistent_example :
    let cfg = (delete tiny_server plant_json no_faults running (codes "L1")).0.config in
    IsConsistent cfg × ParentsKnown cfg.nodes
delete-IsConsistent_example =
    delete-IsConsistent tiny_server plant_json no_faults running (codes "L1") consistent_lem
      known_lem

add_variable-IsConsistent_example :
    IsConsistent
      (add_variable tiny_server plant_json no_faults
        (λ _ _. none)
        running
        (some (codes "Sensors"))
        (codes "L3")
        (codes "L3")
        dt_boolean
        true).0.config
add_variable-IsConsistent_example =
    add_variable-IsConsistent tiny_server plant_json no_faults (λ _ _. none) running
      (some (codes "Sensors")) (codes "L3") (codes "L3") dt_boolean true consistent_lem

abbrev full : Manager tiny_server
full = record running { config = record plant { nodes = replicate 256 folder } }

absent_in_full : (n : ℕ) → config_has_browse (replicate n folder) (codes "L3") ≡ false
unfolding config_has_browse str_eq
absent_in_full zero = refl
absent_in_full (suc n) = absent_in_full n

length-full : (n : ℕ) → length (replicate n folder) ≡ n
length-full zero = refl
length-full (suc n) = omega (arith, length-full n)

add_variable_full_example :
    let (nm', rc) =
      add_variable tiny_server plant_json no_faults
        (λ _ _. none)
        full
        (some (codes "Sensors"))
        (codes "L3")
        (codes "L3")
        dt_boolean
        true in
    (rc ≡ good)
    × (nm'.config ≡ full.config)
    × (length nm'.sensors ≡ 4)
    × (delete tiny_server plant_json no_faults nm' (codes "L3") ≡ (nm', bad_node_id_unknown))
unfolding validate_browse_name all_browse_name_chars browse_name_char
add_variable_full_example =
    add_variable_full tiny_server plant_json no_faults (λ _ _. none) full (some (codes "Sensors"))
      (codes "L3") (codes "L3") refl (absent_in_full 256) (omega (arith, length-full 256))
      (omega arith) refl
