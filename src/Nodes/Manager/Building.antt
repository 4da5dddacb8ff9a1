-- ===== src/Nodes/Manager/Building.antt =====
-- In which state of the table of names node_manager_build of src/node_manager.c creates a node.
use mathlib.Core.List.{Memᴰ}
use mathlib.Core.List.Memᴰ
use bo_smart_factory_opcua_t.Base.{
  ℕ, ◌+◌, ◌≡◌, Bool, true, ◌||◌, List, [], ◌∷◌, is_some, CString, str_eq, if◌then◌else◌,
}
use bo_smart_factory_opcua_t.Config.{ServerNodeDef, kind_folder, kind_variable}
use bo_smart_factory_opcua_t.Nodes.BrowseMap.{BrowseMapEntry, map_lookup}
use bo_smart_factory_opcua_t.Nodes.Manager.{Manager}

-- The entries of the table that are not in use.
unfoldable pub free_entries : List BrowseMapEntry → ℕ
free_entries [] = 0
free_entries (e ∷ es) = if e.used then free_entries es else free_entries es + 1

abbrev pub IsBound : List BrowseMapEntry → CString → Type 0
IsBound es name = is_some (map_lookup es name) ≡ true

-- A definition from which build makes a node.
abbrev pub has_known_kind : ServerNodeDef → Bool
has_known_kind def = str_eq def.kind kind_folder || str_eq def.kind kind_variable
