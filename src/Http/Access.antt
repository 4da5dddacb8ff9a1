-- ===== src/Http/Access.antt =====
-- access_handler of src/http_server.c: the collection of a body, the routes and what is served when
-- none of them answers.
pub mod Laws
pub mod Refusals
use bo_smart_factory_opcua_t.Base.{
  Bool, true, false, not, ◌&&◌, List, [], ◌∷◌, Option, none, some, ℕ, CString, codes, str_eq,
  if◌then◌else◌, non_empty, and_then,
}
use bo_smart_factory_opcua_t.Nodes.Server.{UaServer}
use bo_smart_factory_opcua_t.Nodes.Manager.{NodeManager, Manager}
use bo_smart_factory_opcua_t.Nodes.Simulation.{Writes}
use bo_smart_factory_opcua_t.Http.Body.{ConCls, null, Upload, has_body, collect_body}
use bo_smart_factory_opcua_t.Http.Answers.{
  Answer, no, queue_response, is_answered, send_json, send_error_json, http_ok, http_not_found,
  url_after_prefix, serve_static,
}
use bo_smart_factory_opcua_t.Http.Handlers.{
  Libraries, Handled, answered, handle_get_config, handle_put_config, handle_get_nodes,
  handle_get_status, handle_put_simulation, handle_post_folder, handle_post_variable, handle_delete,
  handle_reset_overrides, ok_text,
}

pub record Request : Type 0 where
  pub method : CString
  pub url : CString

-- The routes; a DELETE is told by its prefix.
pub data Route : Type 0 where
  get_config put_config get_nodes get_status put_simulation : Route
  post_reset_overrides post_restart post_folder post_variable : Route
  delete_node : CString → Route
  no_route : Route

abbrev is_route : Request → CString → CString → Bool
is_route req method url = str_eq req.method method && str_eq req.url url

abbrev delete_route : Option CString → Route
delete_route none = no_route
delete_route (some name) = if non_empty name then delete_node name else no_route

-- The chain of tests of access_handler.
unfoldable pub route_of : Request → Route
unfolding url_after_prefix
route_of req =
    if is_route req (codes "GET") (codes "/api/config")
    then get_config
    else if is_route req (codes "PUT") (codes "/api/config")
    then put_config
    else if is_route req (codes "GET") (codes "/api/nodes")
    then get_nodes
    else if is_route req (codes "GET") (codes "/api/status")
    then get_status
    else if is_route req (codes "PUT") (codes "/api/simulation")
    then put_simulation
    else if is_route req (codes "POST") (codes "/api/reset-overrides")
    then post_reset_overrides
    else if is_route req (codes "POST") (codes "/api/restart")
    then post_restart
    else if is_route req (codes "POST") (codes "/api/nodes/folder")
    then post_folder
    else if is_route req (codes "POST") (codes "/api/nodes/variable")
    then post_variable
    else if str_eq req.method (codes "DELETE")
    then delete_route (url_after_prefix req.url (codes "/api/nodes/"))
    else no_route

-- The globals of the file: g_nm, g_shutdown_requested and g_webRoot.
pub record HttpServer (ua : UaServer) : Type 0 where
  pub manager : Manager ua
  pub shutdown_requested : Bool
  pub web_root : CString

-- What a call leaves behind: MHD_YES without a response is `waiting`.
pub data Outcome : Type 0 where
  waiting : Outcome
  done : Answer → Outcome

pub record Served (ua : UaServer) : Type 0 where
  pub server : HttpServer ua
  pub writes : Writes
  pub outcome : Outcome
  pub upload : Upload

module _ (lib : Libraries) where
  open lib use {json, env, ua, queue}

  abbrev pub shuts_down : Route → Bool
  shuts_down post_restart = true
  shuts_down _ = false

  -- `none` is undefined behaviour, in the switch of the simulation.
  unfoldable pub dispatch : Manager ua → CString → Route → Option (Handled ua)
  unfolding handle_get_config handle_put_config handle_get_nodes handle_get_status
      handle_put_simulation handle_post_folder handle_post_variable handle_delete
      handle_reset_overrides send_json
  dispatch nm body get_config = some (answered lib nm (handle_get_config lib nm))
  dispatch nm body put_config = some (handle_put_config lib nm body)
  dispatch nm body get_nodes = some (answered lib nm (handle_get_nodes lib nm))
  dispatch nm body get_status = some (answered lib nm (handle_get_status lib nm))
  dispatch nm body put_simulation = handle_put_simulation lib nm body
  dispatch nm body post_reset_overrides = some (handle_reset_overrides lib nm)
  dispatch nm body post_restart = some (answered lib nm (send_json queue http_ok (ok_text lib)))
  dispatch nm body post_folder = some (handle_post_folder lib nm body)
  dispatch nm body post_variable = some (handle_post_variable lib nm body)
  dispatch nm body (delete_node name) = some (handle_delete lib nm name)
  dispatch nm body no_route = some (answered lib nm no)

  abbrev is_static : Request → Bool
  is_static req =
      str_eq req.method (codes "GET")
      && (elim (url_after_prefix req.url (codes "/api/")) [ none ↦ true | some _ ↦ false ])

  -- What is served when no route has answered, and *con_cls after that: a static file leaves it.
  unfoldable pub fall_back : HttpServer ua → Request → Upload → Answer × Upload
  unfolding serve_static send_error_json url_after_prefix
  fall_back http req up =
      let file =
        if is_static req
        then serve_static env queue http.web_root http.manager.storage req.url
        else no in
      if is_answered file then (file, up) else (
        send_error_json json queue http_not_found (codes "not found"),
        record up { con_cls = null },
      )

  -- Behind a route.
  unfoldable pub answer_handled : HttpServer ua → Request → Upload → Route → Handled ua → Served ua
  unfolding fall_back
  answer_handled http req up route handled =
      let http' : HttpServer ua = record http {
        manager = handled.manager;
        shutdown_requested = if shuts_down route then true else http.shutdown_requested;
      } in
      if is_answered handled.answer
      then record {
        server = http';
        writes = handled.writes;
        outcome = done handled.answer;
        upload = record up { con_cls = null };
      }
      else let last = fall_back http' req up in
        record { server = http'; writes = handled.writes; outcome = done last.0; upload = last.1 }

  -- Behind the collection of the body; `none` as in dispatch.
  unfoldable pub answer_request : HttpServer ua → Request → CString → Upload → Option (Served ua)
  unfolding dispatch route_of answer_handled
  answer_request http req body up =
      let route = route_of req in
      and_then (dispatch http.manager body route)
        λ handled. some (answer_handled http req up route handled)

  -- A PUT or a POST, once the body is there or not yet.
  abbrev pub answer_body : HttpServer ua → Request → Option CString × Upload → Option (Served ua)
  answer_body http req (none, up) =
      some (record { server = http; writes = []; outcome = waiting; upload = up })
  answer_body http req (some body, up) = answer_request http req body up

  -- One call of access_handler; `memory` is whether the allocation for the body succeeds. `none` as
  -- in dispatch.
  unfoldable pub access_handler :
      Bool → HttpServer ua → Request → List ℕ → ConCls → Option (Served ua)
  unfolding collect_body answer_request
  access_handler memory http req upload_data con =
      let untouched : Upload = record { con_cls = con; data_left = upload_data } in
      if str_eq req.method (codes "OPTIONS")
      then some (record {
        server = http;
        writes = [];
        outcome =
            done (queue_response queue (record { status = 204; content_type = []; body = [] }));
        upload = untouched;
      })
      else if has_body req.method
      then answer_body http req (collect_body memory upload_data con)
      else answer_request http req [] untouched
