-- ===== src/Nodes/BrowseMap.antt =====
-- The table g_map of src/node_manager.c, from browse names to node ids.
pub mod Laws
use bo_smart_factory_opcua_t.Base.{
  ℕ, suc, ◌+◌, ◌≡◌, Bool, true, false, ◌&&◌, List, [], ◌∷◌, Option, none, some, CString, codes,
  str_eq, fit, non_empty, if◌then◌else◌, and_then,
}
use bo_smart_factory_opcua_t.Config.{max_nodes, browse_name_max}

-- UA_NodeId, as far as it is used: UA_NODEID_NUMERIC and UA_NODEID_STRING.
pub data NodeId : Type 0 where
  numeric : ℕ → ℕ → NodeId
  string : ℕ → CString → NodeId

abbrev pub null_node_id : NodeId
null_node_id = numeric 0 0

-- UA_NODEID_NUMERIC(0, UA_NS0ID_OBJECTSFOLDER)
abbrev pub objects_folder : NodeId
objects_folder = numeric 0 85

abbrev pub max_entries : ℕ
max_entries = max_nodes + 4

pub record BrowseMapEntry : Type 0 where
  pub browse_name : CString
  pub node_id : NodeId
  pub used : Bool

-- An entry that memset has cleared.
abbrev pub free_entry : BrowseMapEntry
free_entry = record { browse_name = []; node_id = null_node_id; used = false }

-- The entry that map_find points at, as its index.
unfoldable pub map_find : List BrowseMapEntry → CString → Option ℕ
map_find [] name = none
map_find (e ∷ es) name =
    if e.used && str_eq e.browse_name name
    then some 0
    else and_then (map_find es name) λ i. some (suc i)

-- e->nodeId for e = map_find(name)
unfoldable pub map_lookup : List BrowseMapEntry → CString → Option NodeId
map_lookup [] name = none
map_lookup (e ∷ es) name =
    if e.used && str_eq e.browse_name name then some e.node_id else map_lookup es name

abbrev pub or_objects : Option NodeId → NodeId
or_objects none = objects_folder
or_objects (some id) = id

-- A NULL parent is "".
unfoldable pub resolve_parent : List BrowseMapEntry → CString → NodeId
unfolding map_lookup
resolve_parent es parent =
    if non_empty parent then or_objects (map_lookup es parent) else objects_folder

-- The first free entry is taken; a full table is left as it is.
unfoldable pub map_add : List BrowseMapEntry → CString → NodeId → List BrowseMapEntry
map_add [] name id = []
map_add (e ∷ es) name id =
    if e.used
    then e ∷ map_add es name id
    else record { browse_name = fit browse_name_max name; node_id = id; used = true } ∷ es

unfoldable pub map_remove : List BrowseMapEntry → CString → List BrowseMapEntry
map_remove [] name = []
map_remove (e ∷ es) name =
    if e.used && str_eq e.browse_name name then free_entry ∷ es else e ∷ map_remove es name
