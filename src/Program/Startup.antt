-- ===== src/Program/Startup.antt =====
-- What main has freed when it gives up, and the state in which it enters its loop.
use bo_smart_factory_opcua_t.Base.{
  ℕ, ◌≡◌, refl, sym, subst, ◌∙◌, Bool, true, false, not, List, [], ◌∷◌, Option, none, some,
  if◌then◌else◌, if-either, length, ltb,
}
use bo_smart_factory_opcua_t.Config.{ServerConfig, ServerNodeDef, IsBounded, max_nodes}
use bo_smart_factory_opcua_t.Config.Storage.{Storage, load, init_path, resolve_namespace_uri}
use bo_smart_factory_opcua_t.Config.Storage.Load.{load-IsBounded}
use bo_smart_factory_opcua_t.Nodes.Manager.{
  NodeManager, Manager, Realloc, create, create_node, build_loop, build,
}
use bo_smart_factory_opcua_t.Nodes.Server.{UaServer, StatusCode, is_good}
use bo_smart_factory_opcua_t.Nodes.Edit.Refusing.{
  Keeps, Keeps-self, create_folder-Keeps, create_variable-Keeps,
}
use bo_smart_factory_opcua_t.Nodes.Sort.{sort_nodes_by_depth}
use bo_smart_factory_opcua_t.Http.Handlers.{Libraries}
use bo_smart_factory_opcua_t.Program.{
  MainCalls, Cleanup, node_manager_destroyed, server_deleted, Started, failed, running, start_http,
  start_built, start_created, start_server, start_loaded, start,
}

Keeps-trans : {S : Type 0} {a b c : NodeManager S} → Keeps a b → Keeps b c → Keeps a c
Keeps-trans k l = record {
  same_config = l.same_config ∙ k.same_config;
  same_storage = l.same_storage ∙ k.same_storage;
}

create_node-Keeps :
    (ua : UaServer) (realloc : Realloc) (nm : Manager ua) (def : ServerNodeDef)
    → Keeps nm (create_node ua realloc nm def).0
unfolding create_node
create_node-Keeps ua realloc nm def =
    let P : Manager ua × StatusCode → Type 0 = λ r. Keeps nm r.0 in
    if-either P _ (create_folder-Keeps ua nm def)
      (if-either P _ (create_variable-Keeps ua realloc nm def) (Keeps-self nm))

build_loop-Keeps :
    (ua : UaServer) (realloc : Realloc) (nm : Manager ua) (defs : List ServerNodeDef)
    → Keeps nm (build_loop ua realloc nm defs).0
unfolding build_loop
build_loop-Keeps ua realloc nm [] = Keeps-self nm
build_loop-Keeps ua realloc nm (def ∷ defs) =
    let P : Manager ua × StatusCode → Type 0 = λ r. Keeps nm r.0 in
    let first = create_node-Keeps ua realloc nm def in
    if-either P (is_good (create_node ua realloc nm def).1)
      (Keeps-trans first (build_loop-Keeps ua realloc (create_node ua realloc nm def).0 defs)) first

build-Keeps :
    (ua : UaServer) (realloc : Realloc) (nm : Manager ua) → Keeps nm (build ua realloc nm).0
unfolding build
build-Keeps ua realloc nm = build_loop-Keeps ua realloc nm (
    sort_nodes_by_depth nm.config.nodes
      (if ltb max_nodes (length nm.config.nodes) then max_nodes else length nm.config.nodes))

module _ (lib : Libraries) (calls : MainCalls lib.ua) where
  open lib use {json, env, ua, realloc}

  -- What has been made by the time main gives up, in the order in which it is freed.
  abbrev pub made : Bool → Option ua.Server → Bool → List Cleanup
  made false server calloc = []
  made true none calloc = []
  made true (some _) false = server_deleted ∷ []
  made true (some _) true = node_manager_destroyed ∷ server_deleted ∷ []

module _ (lib : Libraries) (calls : MainCalls lib.ua) (requested : Bool) where
  open lib use {json, env, ua, realloc}

  -- Given up with everything freed, or running with a bounded configuration and the request to shut
  -- down that came meanwhile, if any.
  abbrev pub GoodStart : List Cleanup → Started ua → Type 0
  GoodStart cs (failed ds) = ds ≡ cs
  GoodStart cs (running http) =
      IsBounded http.manager.config × (http.shutdown_requested ≡ requested)

  start_http-GoodStart :
      (nm : Manager ua)
      → IsBounded nm.config
      → GoodStart (node_manager_destroyed ∷ server_deleted ∷ []) (start_http lib calls requested nm)
  unfolding start_http
  start_http-GoodStart nm b =
      if-either (GoodStart (node_manager_destroyed ∷ server_deleted ∷ []))
        (not (calls.start_daemon _)) refl (b, refl)

  start_built-GoodStart :
      (r : Manager ua × StatusCode)
      → IsBounded r.0.config
      → GoodStart (node_manager_destroyed ∷ server_deleted ∷ []) (start_built lib calls requested r)
  start_built-GoodStart (nm, rc) b =
      let P : Started ua → Type 0 = GoodStart (node_manager_destroyed ∷ server_deleted ∷ []) in
      if-either P (not (is_good rc)) refl
        (if-either P (not (is_good calls.add_repeated_callback)) refl (start_http-GoodStart nm b))

  start_created-GoodStart :
      (calloc : Bool) (server : ua.Server) (ns_idx : ℕ) (cfg : ServerConfig) (st : Storage)
      → IsBounded cfg
      → GoodStart
          (made lib calls true (some server) calloc)
          (start_created lib calls requested (create calloc server ns_idx cfg st))
  unfolding create
  start_created-GoodStart false server ns_idx cfg st b = refl
  start_created-GoodStart true server ns_idx cfg st b =
      start_built-GoodStart (build ua realloc _)
        (subst IsBounded (sym (build-Keeps ua realloc _).same_config) b)

  start_loaded-GoodStart :
      (r : Bool × ServerConfig × Storage) (o : Option ua.Server)
      → IsBounded r.1
      → GoodStart (made lib calls r.0 o calls.calloc) (start_loaded lib calls requested r o)
  unfolding start_server
  start_loaded-GoodStart (false, cfg, st) o b = refl
  start_loaded-GoodStart (true, cfg, st) none b = refl
  start_loaded-GoodStart (true, cfg, st) (some server) b =
      let (server', ns_idx) = calls.add_namespace server (resolve_namespace_uri env (some cfg)) in
      start_created-GoodStart calls.calloc server' ns_idx cfg st b

-- main either gives up, having freed exactly what it had made by then, in the reverse order, or it
-- enters its loop with a configuration that fits its buffers and arrays, whatever the file holds and
-- the libraries answer; a shutdown is then requested exactly if a signal or a request to restart has
-- come during the start.
pub start-GoodStart :
    (lib : Libraries) (calls : MainCalls lib.ua) (requested : Bool) (st : Storage)
    → GoodStart lib calls requested
        (made lib calls
          (load lib.json lib.env (init_path lib.env st)).0
          calls.server_new
          calls.calloc)
        (start lib calls requested st)
unfolding start
start-GoodStart lib calls requested st =
    start_loaded-GoodStart lib calls requested (load lib.json lib.env (init_path lib.env st))
      calls.server_new (load-IsBounded lib.json lib.env (init_path lib.env st))
