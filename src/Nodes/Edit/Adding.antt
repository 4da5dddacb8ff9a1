-- ===== src/Nodes/Edit/Adding.antt =====
-- node_manager_add_folder and node_manager_add_variable.
use bo_smart_factory_opcua_t.Base.{
  ◌<◌, ◌≡◌, sym, Bool, true, false, not, ◌&&◌, inl, inr, [], ◌∷◌, ◌++◌, Option, some, arith,
  CString, fit, fit_of_short, fit_short, if◌then◌else◌, length, ltb, All-append, length-append,
  Bool-cases, if-split, subst-some,
}
use bo_smart_factory_opcua_t.Config.{
  ServerConfig, ServerNodeDef, ServerDataType, max_nodes, FitsBuffers, IsBounded, browse_name_max,
  display_name_max,
}
use bo_smart_factory_opcua_t.Config.Names.{validate_browse_name, validate_browse_name_iff}
use bo_smart_factory_opcua_t.Config.Seed.{or_empty}
use bo_smart_factory_opcua_t.Config.Storage.{Env}
use bo_smart_factory_opcua_t.Config.Json.{CJson}
use bo_smart_factory_opcua_t.Nodes.Server.{UaServer, StatusCode, is_good}
use bo_smart_factory_opcua_t.Nodes.Manager.{
  Realloc, Manager, create_folder, create_variable, save_config,
}
use bo_smart_factory_opcua_t.Nodes.Edit.{
  config_has_browse, folder_def, variable_def, keep_def, add_folder, add_variable, is_boolean_type,
}
use bo_smart_factory_opcua_t.Nodes.Edit.Names.{Distinct, Distinct-snoc}

-- The configuration fits its arrays, and no two nodes have one name.
pub record IsConsistent (cfg : ServerConfig) : Type 0 where
  pub bounded : IsBounded cfg
  pub distinct : Distinct cfg.nodes

create_folder-config :
    (ua : UaServer) (nm : Manager ua) (def : ServerNodeDef)
    → (create_folder ua nm def).0.config ≡ nm.config
unfolding create_folder
create_folder-config ua nm def = ground arith

pub create_variable-config :
    (ua : UaServer) (realloc : Realloc) (nm : Manager ua) (def : ServerNodeDef)
    → (create_variable ua realloc nm def).0.config ≡ nm.config
unfolding create_variable
create_variable-config ua realloc nm def = ground arith

-- What an accepted edit makes of the configuration.
abbrev pub kept : ServerConfig → ServerNodeDef → Bool → ServerConfig
kept cfg def ok =
    if ok && ltb (length cfg.nodes) max_nodes
    then record cfg { nodes = cfg.nodes ++ def ∷ [] }
    else cfg

keep_def-config :
    (ua : UaServer) (c : CJson) (env : Env) (nm : Manager ua) (rc : StatusCode)
    (def : ServerNodeDef)
    → (keep_def ua c env (nm, rc) def).0.config ≡ kept nm.config def (is_good rc)
unfolding keep_def save_config
keep_def-config ua c env nm rc def = ground arith

folder_def-FitsBuffers :
    (parent : Option CString) (browse_name display_name : CString)
    → FitsBuffers (folder_def parent browse_name display_name)
folder_def-FitsBuffers parent browse_name display_name = record {
  kind_fits = omega arith;
  browse_name_fits = fit_short browse_name_max browse_name (omega arith);
  display_name_fits = fit_short display_name_max display_name (omega arith);
  parent_fits = fit_short browse_name_max (or_empty parent) (omega arith);
  role_fits = omega arith;
}

pub variable_def-FitsBuffers :
    (parent : Option CString) (browse_name display_name : CString) (dt : ServerDataType)
    (simulation : Bool)
    → FitsBuffers (variable_def parent browse_name display_name dt simulation)
variable_def-FitsBuffers parent browse_name display_name dt simulation = record {
  kind_fits = omega arith;
  browse_name_fits = fit_short browse_name_max browse_name (omega arith);
  display_name_fits = fit_short display_name_max display_name (omega arith);
  parent_fits = fit_short browse_name_max (or_empty parent) (omega arith);
  role_fits = omega arith;
}

kept-IsConsistent :
    (cfg : ServerConfig) (def : ServerNodeDef) (ok : Bool)
    → IsConsistent cfg
    → FitsBuffers def
    → config_has_browse cfg.nodes def.browse_name ≡ false
    → IsConsistent (kept cfg def ok)
kept-IsConsistent cfg def ok k f new = elim (Bool-cases (ok && ltb (length cfg.nodes) max_nodes)) [
  | inr e ↦ rw e k
  | inl e ↦ rw e record {
    bounded = record {
      namespace_fits = k.bounded.namespace_fits;
      count_fits = ground (arith, length-append cfg.nodes (def ∷ []));
      nodes_fit = All-append FitsBuffers cfg.nodes (def ∷ []) k.bounded.nodes_fit (f, tt);
      path_fits = k.bounded.path_fits;
    };
    distinct = Distinct-snoc cfg.nodes def k.distinct new;
  }
]

valid-fit :
    (name : CString) → validate_browse_name (some name) ≡ true → fit browse_name_max name ≡ name
valid-fit name v =
    let (s, e, b) = (validate_browse_name_iff (some name)).0 v in
    fit_of_short browse_name_max name (subst-some (λ t. length t < browse_name_max) (sym e) b.fits)

not-false : (b : Bool) → not b ≡ false → b ≡ true
not-false b h = ground arith

edit-IsConsistent :
    (ua : UaServer) (c : CJson) (env : Env) (nm : Manager ua) (r : Manager ua × StatusCode)
    (def : ServerNodeDef)
    → r.0.config ≡ nm.config
    → IsConsistent nm.config
    → FitsBuffers def
    → config_has_browse nm.config.nodes def.browse_name ≡ false
    → IsConsistent (keep_def ua c env r def).0.config
edit-IsConsistent ua c env nm (nm', rc) def e k f new =
    rw (keep_def-config ua c env nm' rc def, e)
      (kept-IsConsistent nm.config def (is_good rc) k f new)

-- Whatever the server answers and whatever is asked for, adding a folder keeps the configuration
-- within its arrays and its names distinct.
pub add_folder-IsConsistent :
    (ua : UaServer) (c : CJson) (env : Env) (nm : Manager ua) (parent : Option CString)
    (browse_name display_name : CString)
    → IsConsistent nm.config
    → IsConsistent (add_folder ua c env nm parent browse_name display_name).0.config
unfolding add_folder
add_folder-IsConsistent ua c env nm parent browse_name display_name k =
    let P : Manager ua × StatusCode → Type 0 = λ r. IsConsistent r.0.config in
    let def = folder_def parent browse_name display_name in
    if-split P (not (validate_browse_name (some browse_name))) (λ _. k)
      λ v.
        if-split P (config_has_browse nm.config.nodes browse_name) (λ _. k)
          λ new.
            edit-IsConsistent ua c env nm (create_folder ua nm def) def
              (create_folder-config ua nm def) k
              (folder_def-FitsBuffers parent browse_name display_name)
              (rw (valid-fit browse_name (not-false _ v)) new)

-- Whatever the server answers and whatever is asked for, adding a variable keeps the configuration
-- within its arrays and its names distinct.
pub add_variable-IsConsistent :
    (ua : UaServer) (c : CJson) (env : Env) (realloc : Realloc) (nm : Manager ua)
    (parent : Option CString) (browse_name display_name : CString) (dt : ServerDataType)
    (simulation : Bool)
    → IsConsistent nm.config
    → IsConsistent
        (add_variable ua c env realloc nm parent browse_name display_name dt simulation).0.config
unfolding add_variable
add_variable-IsConsistent ua c env realloc nm parent browse_name display_name dt simulation k =
    let P : Manager ua × StatusCode → Type 0 = λ r. IsConsistent r.0.config in
    let def = variable_def parent browse_name display_name dt simulation in
    if-split P (not (validate_browse_name (some browse_name))) (λ _. k)
      λ v.
        if-split P (config_has_browse nm.config.nodes browse_name) (λ _. k)
          λ new.
            if-split P (simulation && not (is_boolean_type dt)) (λ _. k)
              λ _.
                edit-IsConsistent ua c env nm (create_variable ua realloc nm def) def
                  (create_variable-config ua realloc nm def) k
                  (variable_def-FitsBuffers parent browse_name display_name dt simulation)
                  (rw (valid-fit browse_name (not-false _ v)) new)
