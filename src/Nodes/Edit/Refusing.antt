-- ===== src/Nodes/Edit/Refusing.antt =====
-- The configuration and the files when node_manager_add_folder or node_manager_add_variable fails.
use bo_smart_factory_opcua_t.Base.{
  ◌≡◌, refl, Bool, false, not, ◌&&◌, Option, some, CString, arith, if-either,
}
use bo_smart_factory_opcua_t.Config.{ServerDataType, ServerNodeDef}
use bo_smart_factory_opcua_t.Config.Names.{validate_browse_name}
use bo_smart_factory_opcua_t.Config.Json.{CJson}
use bo_smart_factory_opcua_t.Config.Storage.{Env}
use bo_smart_factory_opcua_t.Nodes.Manager.{
  NodeManager, Manager, Realloc, create_folder, create_variable, register_variable,
  add_simulated_sensor,
}
use bo_smart_factory_opcua_t.Nodes.Server.{UaServer, StatusCode, is_good}
use bo_smart_factory_opcua_t.Nodes.Edit.{
  add_folder, add_variable, is_boolean_type, keep_def, config_has_browse, folder_def, variable_def,
}

-- The configuration and the files are as they were.
pub record Keeps {S : Type 0} (nm nm' : NodeManager S) : Type 0 where
  pub same_config : nm'.config ≡ nm.config
  pub same_storage : nm'.storage ≡ nm.storage

pub Keeps-self : {S : Type 0} (nm : NodeManager S) → Keeps nm nm
Keeps-self nm = record { same_config = refl; same_storage = refl }

pub create_folder-Keeps :
    (ua : UaServer) (nm : Manager ua) (def : ServerNodeDef) → Keeps nm (create_folder ua nm def).0
unfolding create_folder
create_folder-Keeps ua nm def = record { same_config = ground arith; same_storage = ground arith }

pub create_variable-Keeps :
    (ua : UaServer) (realloc : Realloc) (nm : Manager ua) (def : ServerNodeDef)
    → Keeps nm (create_variable ua realloc nm def).0
unfolding create_variable register_variable add_simulated_sensor
create_variable-Keeps ua realloc nm def = record {
  same_config = ground arith;
  same_storage = ground arith;
}

module _ (ua : UaServer) (c : CJson) (env : Env) where
  -- An edit keeps what it found unless its status is good.
  abbrev pub RefusedKeeps : Manager ua → Manager ua × StatusCode → Type 0
  RefusedKeeps nm r = is_good r.1 ≡ false → Keeps nm r.0

  keep_def-RefusedKeeps :
      (nm : Manager ua) (r : Manager ua × StatusCode) (def : ServerNodeDef)
      → Keeps nm r.0
      → RefusedKeeps nm (keep_def ua c env r def)
  unfolding keep_def
  keep_def-RefusedKeeps nm (nm', rc) def k bad = rw bad k

  pub add_folder-RefusedKeeps :
      (nm : Manager ua) (parent : Option CString) (browse display : CString)
      → RefusedKeeps nm (add_folder ua c env nm parent browse display)
  unfolding add_folder
  add_folder-RefusedKeeps nm parent browse display =
      let P : Manager ua × StatusCode → Type 0 = RefusedKeeps nm in
      if-either P (not (validate_browse_name (some browse))) (λ _. Keeps-self nm)
        (if-either P (config_has_browse nm.config.nodes browse) (λ _. Keeps-self nm)
          (keep_def-RefusedKeeps nm (create_folder ua nm (folder_def parent browse display))
            (folder_def parent browse display)
            (create_folder-Keeps ua nm (folder_def parent browse display))))

  pub add_variable-RefusedKeeps :
      (realloc : Realloc) (nm : Manager ua) (parent : Option CString) (browse display : CString)
      (dt : ServerDataType) (simulation : Bool)
      → RefusedKeeps nm (add_variable ua c env realloc nm parent browse display dt simulation)
  unfolding add_variable
  add_variable-RefusedKeeps realloc nm parent browse display dt simulation =
      let P : Manager ua × StatusCode → Type 0 = RefusedKeeps nm in
      let def = variable_def parent browse display dt simulation in
      if-either P (not (validate_browse_name (some browse))) (λ _. Keeps-self nm)
        (if-either P (config_has_browse nm.config.nodes browse) (λ _. Keeps-self nm)
          (if-either P (simulation && not (is_boolean_type dt)) (λ _. Keeps-self nm)
            (keep_def-RefusedKeeps nm (create_variable ua realloc nm def) def
              (create_variable-Keeps ua realloc nm def))))
