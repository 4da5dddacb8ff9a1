-- ===== src/Gui/Engine.antt =====
-- BridgeEngine of src/gui/BridgeEngine.h and src/gui/BridgeEngine.cpp: connecting, starting,
-- stopping and the TCP clients.
pub mod Events
pub mod Stopping
pub mod Invariant
pub mod Resolving
pub mod Losing
pub mod Serving
use bo_smart_factory_opcua_t.Base.{
  ℕ, zero, suc, ◌+◌, ◌%◌, ◌^◌, Bool, true, false, not, ◌&&◌, ◌||◌, List, [], ◌∷◌, ◌++◌, Option,
  none, some, if◌then◌else◌, length, get_elem?, ◌==◌, map, non_empty, and_then, is_some,
}
use bo_smart_factory_opcua_t.Nodes.Server.{StatusCode, is_good}
use bo_smart_factory_opcua_t.Gui.Qt.{Text, Qt}
use bo_smart_factory_opcua_t.Gui.Mapping.{SensorMapping, set_node_id, resolve_node_ids}
use bo_smart_factory_opcua_t.Gui.Frame.{GuiPack, ReadValue, frame_bytes}

pub data Status : Type 0 where
  disconnected opc_ua_connected : Status
  running_with_clients running_on_port : ℕ → Status

pub data Error : Type 0 where
  failed_to_create_client failed_to_resolve not_connected listen_failed connection_lost : Error
  connect_failed namespace_not_found : StatusCode → Error

pub data Signal : Type 0 where
  status_changed : Status → Signal
  error_occurred : Error → Signal
  client_count_changed : ℕ → Signal

-- The fields of the class. `session` is m_client, if it is not null: whether it has an open session.
-- `listening` is the port of m_tcpServer, `timer` whether m_timer runs. `emitted` holds the signals,
-- `closing` the sockets given to disconnectFromHost and `written` what was written to which socket;
-- the last one stands first.
pub record Engine : Type 0 where
  pub endpoint_url : Text
  pub namespace_uri : Text
  pub tcp_port : ℕ
  pub mappings : List SensorMapping
  pub session : Option Bool
  pub timer : Bool
  pub listening : Option ℕ
  pub clients : List ℕ
  pub connected : Bool
  pub running : Bool
  pub sequence : ℕ
  pub namespace_index : ℕ
  pub emitted : List Signal
  pub closing : List ℕ
  pub written : List (ℕ × List ℕ)

abbrev pub new_engine : Engine
new_engine = record {
  endpoint_url = [];
  namespace_uri = [];
  tcp_port = 9000;
  mappings = [];
  session = none;
  timer = false;
  listening = none;
  clients = [];
  connected = false;
  running = false;
  sequence = 0;
  namespace_index = 0xffff;
  emitted = [];
  closing = [];
  written = [];
}

unfoldable pub emit : Signal → Engine → Engine
emit s e = record e { emitted = s ∷ e.emitted }

abbrev pub fail : Error → Engine → Engine
fail err e = emit (error_occurred err) e

unfoldable pub update_status : Engine → Engine
unfolding emit
update_status e =
    if e.running
    then emit (status_changed (running_with_clients (length e.clients))) e
    else if e.connected
    then emit (status_changed opc_ua_connected) e
    else emit (status_changed disconnected) e

unfoldable pub set_mappings : Qt → List SensorMapping → Engine → Engine
set_mappings qt mappings e = record e { mappings = map (set_node_id qt) mappings }

-- What the open62541 client answers to connectToOpcUa: whether it can be made, the status of the
-- connection, and the status of the look-up of the namespace with the index behind it.
pub record Connecting : Type 0 where
  pub created : Bool
  pub connect : StatusCode
  pub namespace_get_index : StatusCode × ℕ

-- Behind the look-up of the namespace.
unfoldable pub resolve : Qt → Engine → Engine
unfolding resolve_node_ids emit
resolve qt e =
    let (all, mappings) = resolve_node_ids qt e.mappings in
    if all
    then record e { connected = true; mappings = mappings }
    else fail failed_to_resolve (record e { connected = false; mappings = mappings })

unfoldable pub connect_client : Qt → Connecting → Engine → Engine
unfolding resolve update_status
connect_client qt c e =
    if not (is_good c.connect)
    then update_status
        (fail (connect_failed c.connect) (record e { session = some false; connected = false }))
    else let (rc, index) = c.namespace_get_index in
      if not (is_good rc)
      then update_status (
          fail (namespace_not_found rc)
            (record e { session = some false; connected = false; namespace_index = index }))
      else update_status (resolve qt (record e { session = some true; namespace_index = index }))

unfoldable pub connect_to_opc_ua : Qt → Connecting → Engine → Engine
unfolding connect_client
connect_to_opc_ua qt c e =
    if is_some e.session || c.created then connect_client qt c e else fail failed_to_create_client e

unfoldable pub disconnect_from_opc_ua : Engine → Engine
unfolding update_status
disconnect_from_opc_ua e = update_status (record e { connected = false; session = none })

-- startBridge, with what listen() returns.
unfoldable pub start_bridge : Bool → Engine → Engine
unfolding update_status emit
start_bridge listens e =
    if e.running
    then e
    else if not (is_some e.session) || not e.connected
    then fail not_connected e
    else if not listens
    then fail listen_failed (record e { listening = none })
    else emit (status_changed (running_on_port e.tcp_port))
        (update_status (record e { listening = some e.tcp_port; running = true; timer = true }))

-- QList::removeAll
unfoldable pub remove_all : ℕ → List ℕ → List ℕ
remove_all s [] = []
remove_all s (t ∷ ts) = let rest = remove_all s ts in if t == s then rest else t ∷ rest

unfoldable pub on_client_disconnected : ℕ → Engine → Engine
unfolding remove_all emit
on_client_disconnected s e =
    let clients = remove_all s e.clients in
    emit (client_count_changed (length clients)) (record e { clients = clients })

-- disconnectFromHost: a socket with nothing left to write may emit its disconnected() at once, which
-- calls onClientDisconnected.
unfoldable pub disconnect_from_host : (ℕ → Bool) → ℕ → Engine → Engine
unfolding on_client_disconnected
disconnect_from_host at_once s e =
    let e' = record e { closing = s ∷ e.closing } in
    if at_once s then on_client_disconnected s e' else e'

-- The loop of stopBridge, from the index i on, over the items that the list had at its start; `none`
-- is a read behind the end of the list, which is undefined.
unfoldable pub disconnect_clients : (ℕ → Bool) → ℕ → ℕ → Engine → Option Engine
unfolding disconnect_from_host
disconnect_clients at_once zero i e = some e
disconnect_clients at_once (suc n) i e = elim (get_elem? e.clients i) [
  | none ↦ none
  | some s ↦ disconnect_clients at_once n (suc i) (disconnect_from_host at_once s e)
]

-- Behind the loop.
unfoldable pub forget_clients : Engine → Engine
unfolding update_status emit
forget_clients e = update_status (emit (client_count_changed 0) (record e { clients = [] }))

unfoldable pub stop_bridge : (ℕ → Bool) → Engine → Option Engine
unfolding disconnect_clients forget_clients
stop_bridge at_once e =
    let e' = record e { running = false; timer = false; listening = none } in
    and_then (disconnect_clients at_once (length e.clients) 0 e') λ e''. some (forget_clients e'')

-- onAcceptConnection, with the connections that are pending.
unfoldable pub on_accept_connection : List ℕ → Engine → Engine
unfolding emit
on_accept_connection [] e = e
on_accept_connection (s ∷ pending) e = on_accept_connection pending (
    emit (client_count_changed (length e.clients + 1)) (record e { clients = e.clients ++ s ∷ [] }))
