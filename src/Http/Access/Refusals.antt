-- ===== src/Http/Access/Refusals.antt =====
-- The configuration and the files under a request that is answered with 400.
use mathlib.Core.Bool.{false≢true}
use bo_smart_factory_opcua_t.Base.{
  ◌≡◌, refl, sym, ◌∙◌, Bool, true, false, not, ◌&&◌, inl, inr, Option, none, some, CString, codes,
  ◌==◌, if-either, subst, Bool-cases, Option-cases, and_then,
}
use bo_smart_factory_opcua_t.Config.{ServerDataType}
use bo_smart_factory_opcua_t.Config.Names.{validate_browse_name}
use bo_smart_factory_opcua_t.Config.Json.{string_field, true_field}
use bo_smart_factory_opcua_t.Nodes.Manager.{NodeManager, Manager}
use bo_smart_factory_opcua_t.Nodes.Server.{StatusCode, is_good}
use bo_smart_factory_opcua_t.Nodes.Edit.{add_folder, add_variable, delete, is_boolean_type}
use bo_smart_factory_opcua_t.Nodes.Edit.Deleting.{delete_refused}
use bo_smart_factory_opcua_t.Nodes.Edit.Refusing.{
  Keeps, Keeps-self, RefusedKeeps, add_folder-RefusedKeeps, add_variable-RefusedKeeps,
}
use bo_smart_factory_opcua_t.Nodes.Simulation.{Writes, set_simulation_enabled, reset_overrides}
use bo_smart_factory_opcua_t.Http.Answers.{Answer, queued, Queue, send_json, send_text}
use bo_smart_factory_opcua_t.Http.Handlers.{
  Libraries, Handled, answer_edit, ok_text, handle_put_config, handle_put_simulation,
  switch_simulation, send_ok, bool_field, names_field, parent_field, post_folder, post_variable,
  post_typed, data_type_or_boolean, handle_post_folder, handle_post_variable, handle_delete,
  handle_reset_overrides,
}
use bo_smart_factory_opcua_t.Http.Access.{
  Route, get_config, put_config, get_nodes, get_status, put_simulation, post_reset_overrides,
  post_restart, delete_node, no_route, dispatch,
}

-- The response that was queued has the status 400.
abbrev pub is_bad_request : Answer → Bool
is_bad_request (queued r) = r.status == 400
is_bad_request _ = false

send_json_ok : (queue : Queue) (text : CString) → is_bad_request (send_json queue 200 text) ≡ false
unfolding send_json
send_json_ok queue text = if-either (λ a. is_bad_request a ≡ false) (queue _) refl refl

send_text_ok : (queue : Queue) (o : Option CString) → is_bad_request (send_text queue 200 o) ≡ false
send_text_ok queue none = refl
send_text_ok queue (some text) = send_json_ok queue text

module _ (lib : Libraries) where
  open lib use {json, env, ua, realloc, queue, status_name}

  abbrev BadKeeps : Manager ua → Handled ua → Type 0
  BadKeeps nm h = is_bad_request h.answer ≡ true → Keeps nm h.manager

  from_false : {nm nm' : NodeManager ua.Server} {b : Bool} → b ≡ false → b ≡ true → Keeps nm nm'
  from_false e h = absurd (false≢true (sym e ∙ h))

  answer_edit-BadKeeps :
      (nm : Manager ua) (r : Manager ua × StatusCode)
      → RefusedKeeps ua json env nm r
      → BadKeeps nm (answer_edit lib r)
  answer_edit-BadKeeps nm (nm', rc) k = elim (Bool-cases (is_good rc)) [
    | inl g ↦ rw g (from_false (send_text_ok queue _))
    | inr g ↦ rw g (λ _. k g)
  ]

  handle_put_config-BadKeeps :
      (nm : Manager ua) (body : CString) → BadKeeps nm (handle_put_config lib nm body)
  unfolding handle_put_config
  handle_put_config-BadKeeps nm body = elim (Option-cases (json.parse body)) [
    | inl e ↦ rw (e, handle_put_config) (λ _. Keeps-self nm)
    | inr (root, e) ↦ elim (Option-cases (string_field json root (codes "namespaceUri"))) [
      | inl f ↦ rw (e, handle_put_config, f) (λ _. Keeps-self nm)
      | inr (uri, f) ↦ rw (e, handle_put_config, f) (from_false (send_text_ok queue _))
    ]
  ]

  abbrev AllBadKeep : Manager ua → Option (Handled ua) → Type 0
  AllBadKeep nm none = Unit {0}
  AllBadKeep nm (some h) = BadKeeps nm h

  switch_simulation-BadKeeps :
      (nm : Manager ua) (enabled : Bool) → AllBadKeep nm (switch_simulation lib nm enabled)
  switch_simulation-BadKeeps nm enabled = switched (set_simulation_enabled nm enabled)
    where
      switched :
          (o : Option (Manager ua × Writes))
          → AllBadKeep nm
              (and_then o λ r. some (record { manager = r.0; writes = r.1; answer = send_ok lib }))
      switched none = tt
      switched (some r) = from_false (send_text_ok queue _)

  handle_put_simulation-BadKeeps :
      (nm : Manager ua) (body : CString) → AllBadKeep nm (handle_put_simulation lib nm body)
  unfolding handle_put_simulation
  handle_put_simulation-BadKeeps nm body = elim (Option-cases (json.parse body)) [
    | inl e ↦ rw (e, handle_put_simulation) (λ _. Keeps-self nm)
    | inr (root, e) ↦ elim (Option-cases (bool_field lib root (codes "enabled"))) [
      | inl f ↦ rw (e, handle_put_simulation, f) (λ _. Keeps-self nm)
      | inr (enabled, f) ↦ rw (e, handle_put_simulation, f) (switch_simulation-BadKeeps nm enabled)
    ]
  ]

  post_folder-BadKeeps :
      (nm : Manager ua) (parent : CString) (names : CString × CString)
      → BadKeeps nm (post_folder lib nm parent names)
  post_folder-BadKeeps nm parent (browse, display) =
      if-either (BadKeeps nm) (not (validate_browse_name (some browse))) (λ _. Keeps-self nm)
        (answer_edit-BadKeeps nm (add_folder ua json env nm (some parent) browse display)
          (add_folder-RefusedKeeps ua json env nm (some parent) browse display))

  handle_post_folder-BadKeeps :
      (nm : Manager ua) (body : CString) → BadKeeps nm (handle_post_folder lib nm body)
  unfolding handle_post_folder
  handle_post_folder-BadKeeps nm body = elim (Option-cases (json.parse body)) [
    | inl e ↦ rw (e, handle_post_folder) (λ _. Keeps-self nm)
    | inr (root, e) ↦ elim (Option-cases (names_field lib root)) [
      | inl f ↦ rw (e, handle_post_folder, f) (λ _. Keeps-self nm)
      | inr (names, f) ↦
          rw (e, handle_post_folder, f) (post_folder-BadKeeps nm (parent_field lib root) names)
    ]
  ]

  post_typed-BadKeeps :
      (nm : Manager ua) (parent : CString) (names : CString × CString) (simulation : Bool)
      (dt : ServerDataType)
      → BadKeeps nm (post_typed lib nm parent names simulation dt)
  post_typed-BadKeeps nm parent (browse, display) simulation dt =
      if-either (BadKeeps nm) (simulation && not (is_boolean_type dt)) (λ _. Keeps-self nm)
        (answer_edit-BadKeeps nm
          (add_variable ua json env realloc nm (some parent) browse display dt simulation)
          (add_variable-RefusedKeeps ua json env realloc nm (some parent) browse display dt
            simulation))

  post_variable-BadKeeps :
      (nm : Manager ua) (root : json.Json) (names : CString × CString)
      → BadKeeps nm (post_variable lib nm root names)
  post_variable-BadKeeps nm root names =
      elim (Bool-cases (not (validate_browse_name (some (names.0))))) [
        | inl v ↦ rw v (λ _. Keeps-self nm)
        | inr v ↦
            elim (Option-cases
              (data_type_or_boolean lib (string_field json root (codes "dataType")))) [
                | inl d ↦ rw (v, d) (λ _. Keeps-self nm)
                | inr (dt, d) ↦
                    rw (v, d)
                      (post_typed-BadKeeps nm (parent_field lib root) names
                        (true_field json root (codes "simulation")) dt)
              ]
      ]

  handle_post_variable-BadKeeps :
      (nm : Manager ua) (body : CString) → BadKeeps nm (handle_post_variable lib nm body)
  unfolding handle_post_variable
  handle_post_variable-BadKeeps nm body = elim (Option-cases (json.parse body)) [
    | inl e ↦ rw (e, handle_post_variable) (λ _. Keeps-self nm)
    | inr (root, e) ↦ elim (Option-cases (names_field lib root)) [
      | inl f ↦ rw (e, handle_post_variable, f) (λ _. Keeps-self nm)
      | inr (names, f) ↦ rw (e, handle_post_variable, f) (post_variable-BadKeeps nm root names)
    ]
  ]

  handle_delete-BadKeeps :
      (nm : Manager ua) (name : CString) → BadKeeps nm (handle_delete lib nm name)
  unfolding handle_delete
  handle_delete-BadKeeps nm name = elim (Bool-cases (is_good (delete ua json env nm name).1)) [
    | inl g ↦ rw g (from_false (send_json_ok queue (ok_text lib)))
    | inr g ↦
        rw g (λ _. subst (Keeps nm) (sym (delete_refused ua json env nm name g)) (Keeps-self nm))
  ]

  dispatch-BadKeeps :
      (nm : Manager ua) (body : CString) (route : Route)
      → AllBadKeep nm (dispatch lib nm body route)
  unfolding dispatch handle_reset_overrides reset_overrides
  dispatch-BadKeeps nm body get_config = λ _. Keeps-self nm
  dispatch-BadKeeps nm body put_config = handle_put_config-BadKeeps nm body
  dispatch-BadKeeps nm body get_nodes = λ _. Keeps-self nm
  dispatch-BadKeeps nm body get_status = λ _. Keeps-self nm
  dispatch-BadKeeps nm body put_simulation = handle_put_simulation-BadKeeps nm body
  dispatch-BadKeeps nm body post_reset_overrides =
      λ _. record { same_config = refl; same_storage = refl }
  dispatch-BadKeeps nm body post_restart = λ _. Keeps-self nm
  dispatch-BadKeeps nm body Route.post_folder = handle_post_folder-BadKeeps nm body
  dispatch-BadKeeps nm body Route.post_variable = handle_post_variable-BadKeeps nm body
  dispatch-BadKeeps nm body (delete_node name) = handle_delete-BadKeeps nm name
  dispatch-BadKeeps nm body no_route = λ _. Keeps-self nm

-- A request that is answered with 400 has changed neither the configuration nor a file, whichever
-- check refuses it: the parser, a missing field, the name, the data type, the node manager or the
-- OPC UA server.
pub dispatch-Keeps :
    (lib : Libraries) (nm : Manager lib.ua) (body : CString) (route : Route) (h : Handled lib.ua)
    → dispatch lib nm body route ≡ some h
    → is_bad_request h.answer ≡ true
    → Keeps nm h.manager
dispatch-Keeps lib nm body route h e =
    subst (AllBadKeep lib nm) e (dispatch-BadKeeps lib nm body route)
