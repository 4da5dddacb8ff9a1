-- ===== src/Program.antt =====
-- main of src/opcua_server.c up to its loop, and http_server_start of src/http_server.c.
pub mod Startup
pub mod Ending
pub mod Returning
use bo_smart_factory_opcua_t.Base.{
  ℕ, Bool, true, false, not, List, [], ◌∷◌, Option, none, some, CString, codes, if◌then◌else◌, ◌==◌,
}
use bo_smart_factory_opcua_t.Config.{ServerConfig}
use bo_smart_factory_opcua_t.Config.Storage.{
  Storage, Env, set_variable, init_path, load, resolve_namespace_uri,
}
use bo_smart_factory_opcua_t.Nodes.Manager.{NodeManager, Manager, create, build}
use bo_smart_factory_opcua_t.Nodes.Server.{UaServer, StatusCode, is_good}
use bo_smart_factory_opcua_t.Http.Answers.{init_web_root}
use bo_smart_factory_opcua_t.Http.Handlers.{Libraries}
use bo_smart_factory_opcua_t.Http.Access.{HttpServer}

-- What main uses of open62541, libmicrohttpd and the C library beside the other files.
pub record MainCalls (ua : UaServer) : Type 0 where
  -- UA_Server_new with the default configuration
  pub server_new : Option ua.Server
  pub add_namespace : ua.Server → CString → ua.Server × ℕ
  pub calloc : Bool
  pub add_repeated_callback : StatusCode
  -- (unsigned int)atoi(s)
  pub atoi : CString → ℕ
  -- whether MHD_start_daemon starts on a port
  pub start_daemon : ℕ → Bool

abbrev pub default_http_port : ℕ
default_http_port = 8081

-- The port of http_server_start. An address without a colon in front is passed over.
unfoldable pub http_port : (CString → ℕ) → Option CString → ℕ
http_port atoi none = default_http_port
http_port atoi (some []) = default_http_port
http_port atoi (some (c ∷ s)) = if c == b':' then atoi s else default_http_port

-- What main frees before it returns EXIT_FAILURE, in order.
pub data Cleanup : Type 0 where
  node_manager_destroyed server_deleted : Cleanup

-- EXIT_FAILURE, or the state with which the loop is entered.
pub data Started (ua : UaServer) : Type 0 where
  failed : List Cleanup → Started ua
  running : HttpServer ua → Started ua

-- `requested` is g_shutdown_requested when http_server_start returns: whether a SIGINT or a SIGTERM has
-- come since main installed its handlers, or the daemon has already served a request to restart.
module _ (lib : Libraries) (calls : MainCalls lib.ua) (requested : Bool) where
  open lib use {json, env, ua, realloc}

  -- http_server_start; it leaves g_shutdown_requested alone.
  unfoldable pub start_http : Manager ua → Started ua
  unfolding http_port init_web_root
  start_http nm =
      if not (calls.start_daemon (http_port calls.atoi (env.getenv (codes "OPCUA_HTTP_ADDR"))))
      then failed (node_manager_destroyed ∷ server_deleted ∷ [])
      else running
          (record { manager = nm; shutdown_requested = requested; web_root = init_web_root env })

  -- Behind node_manager_create.
  abbrev pub start_built : Manager ua × StatusCode → Started ua
  start_built (nm, retval) =
      if not (is_good retval)
      then failed (node_manager_destroyed ∷ server_deleted ∷ [])
      else if not (is_good calls.add_repeated_callback)
      then failed (node_manager_destroyed ∷ server_deleted ∷ [])
      else start_http nm

  abbrev pub start_created : Option (Manager ua) → Started ua
  start_created none = failed (server_deleted ∷ [])
  start_created (some nm) = start_built (build ua realloc nm)

  -- Behind UA_Server_new.
  unfoldable pub start_server : ServerConfig → Storage → ua.Server → Started ua
  unfolding start_http build create resolve_namespace_uri
  start_server cfg st server =
      let (server', ns_idx) = calls.add_namespace server (resolve_namespace_uri env (some cfg)) in
      start_created (create calls.calloc server' ns_idx cfg st)

  abbrev pub start_on : ServerConfig → Storage → Option ua.Server → Started ua
  start_on cfg st none = failed []
  start_on cfg st (some server) = start_server cfg st server

  abbrev pub start_loaded : Bool × ServerConfig × Storage → Option ua.Server → Started ua
  start_loaded (false, cfg, st) server = failed []
  start_loaded (true, cfg, st) server = start_on cfg st server

  -- main up to its loop, over the value of g_configPath and the files.
  unfoldable pub start : Storage → Started ua
  unfolding start_server load init_path
  start st = start_loaded (load json env (init_path env st)) calls.server_new
