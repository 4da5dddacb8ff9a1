-- ===== src/Tests/Http.antt =====
-- The theorems about the HTTP interface at concrete inputs.
use bo_smart_factory_opcua_t.Base.{
  ◌≡◌, refl, true, false, [], ◌∷◌, none, some, codes, str_eq, arith,
}
use bo_smart_factory_opcua_t.Nodes.Server.{good}
use bo_smart_factory_opcua_t.Nodes.Edit.{delete, find_node_index, has_children_in_config}
use bo_smart_factory_opcua_t.Nodes.Edit.Refusing.{Keeps}
use bo_smart_factory_opcua_t.Http.Body.{buffer, marker}
use bo_smart_factory_opcua_t.Http.Body.Collect.{collect_request, waiting_calls, collect_request_lem}
use bo_smart_factory_opcua_t.Http.Answers.{send_json, send_error_json}
use bo_smart_factory_opcua_t.Http.Handlers.{Libraries, Handled, handle_delete}
use bo_smart_factory_opcua_t.Http.Access.{HttpServer, dispatch, delete_node}
use bo_smart_factory_opcua_t.Http.Access.Refusals.{dispatch-Keeps}
use bo_smart_factory_opcua_t.Tests.Json.{str, obj, field, end, tiny_json}
use bo_smart_factory_opcua_t.Config.Storage.{init_path, load}
use bo_smart_factory_opcua_t.Program.{MainCalls, start}
use bo_smart_factory_opcua_t.Program.Startup.{GoodStart, made, start-GoodStart}
use bo_smart_factory_opcua_t.Tests.Server.{tiny_server, empty_server}
use bo_smart_factory_opcua_t.Tests.Config.{no_faults, no_files}
use bo_smart_factory_opcua_t.Tests.Nodes.{running}

collect_request_lem_example :
    collect_request ((65, 66 ∷ []) ∷ (67, []) ∷ [])
    ≡ (none, record { con_cls = marker; data_left = [] })
      ∷ (none, record { con_cls = buffer (65 ∷ 66 ∷ []); data_left = [] })
      ∷ (none, record { con_cls = buffer (65 ∷ 66 ∷ 67 ∷ []); data_left = [] })
      ∷ (some (65 ∷ 66 ∷ 67 ∷ []), record { con_cls = buffer (65 ∷ 66 ∷ 67 ∷ []); data_left = [] })
      ∷ []
unfolding waiting_calls
collect_request_lem_example =
    collect_request_lem ((65, 66 ∷ []) ∷ (67, []) ∷ [])
      (omega arith, (omega arith, (omega arith, tt)))

-- Every body parses to a request for the folder Line.
abbrev libraries : Libraries
libraries = record {
  json = tiny_json (codes "{}") (
      obj (
        field (codes "browseName") (str (codes "Line"))
          (field (codes "displayName") (str (codes "Line")) end)));
  env = no_faults;
  ua = tiny_server;
  realloc = λ _ _. none;
  queue = λ _. true;
  status_name = λ _. codes "Bad";
}

abbrev http : HttpServer tiny_server
http = record {
  manager = running;
  shutdown_requested = false;
  web_root = codes "./web/opcua-server";
}

-- The folder Sensors has children.
abbrev refused : Handled tiny_server
refused = handle_delete libraries running (codes "Sensors")

dispatch-Keeps_example : Keeps running refused.manager
unfolding dispatch handle_delete delete find_node_index has_children_in_config str_eq send_json
    send_error_json
dispatch-Keeps_example =
    dispatch-Keeps libraries running [] (delete_node (codes "Sensors")) refused refl refl

abbrev main_calls : MainCalls tiny_server
main_calls = record {
  server_new = some empty_server;
  add_namespace = λ s _. (s, 2);
  calloc = true;
  add_repeated_callback = good;
  atoi = λ _. 8082;
  start_daemon = λ _. true;
}

start-GoodStart_example :
    GoodStart libraries main_calls true
      (made libraries main_calls
        (load libraries.json no_faults (init_path no_faults no_files)).0
        (some empty_server)
        true)
      (start libraries main_calls true no_files)
start-GoodStart_example = start-GoodStart libraries main_calls true no_files
