-- ===== src/Gui/Engine/Events.antt =====
-- The tick of BridgeEngine in src/gui/BridgeEngine.cpp, and the engine over any sequence of events.
use bo_smart_factory_opcua_t.Base.{
  ℕ, ◌≡◌, ap, ◌+◌, ◌%◌, ◌^◌, Bool, false, not, ◌&&◌, ◌||◌, List, [], ◌∷◌, Option, some,
  if◌then◌else◌, non_empty, and_then, is_some,
}
use bo_smart_factory_opcua_t.Nodes.Server.{StatusCode, is_good}
use bo_smart_factory_opcua_t.Gui.Qt.{Text, Qt}
use bo_smart_factory_opcua_t.Gui.Mapping.{SensorMapping}
use bo_smart_factory_opcua_t.Gui.Frame.{GuiPack, ReadValue, frame_bytes}
use bo_smart_factory_opcua_t.Gui.Engine.{
  Engine, Connecting, fail, connection_lost, update_status, emit, set_mappings, connect_to_opc_ua,
  disconnect_from_opc_ua, start_bridge, stop_bridge, on_accept_connection, on_client_disconnected,
}

-- What a tick meets: the state that UA_Client_getState reports, the values, the time, and which
-- sockets are connected.
pub record Tick : Type 0 where
  pub channel_open : Bool
  pub session_activated : Bool
  pub status : StatusCode
  pub read_value : ReadValue
  pub timestamp_ms : ℕ
  pub is_connected : ℕ → Bool

abbrev pub is_alive : Tick → Bool
is_alive t = t.channel_open && t.session_activated && is_good t.status

unfoldable pub encode_frame : GuiPack → Qt → Tick → Engine → Engine × List ℕ
unfolding frame_bytes
encode_frame gp qt t e =
    let sequence = (e.sequence + 1) % 2 ^ 64 in
    (
      record e { sequence = sequence },
      frame_bytes gp qt t.read_value e.mappings sequence t.timestamp_ms,
    )

-- The loop of onTick over the clients.
unfoldable pub write_frame : (ℕ → Bool) → List ℕ → List ℕ → List (ℕ × List ℕ) → List (ℕ × List ℕ)
write_frame is_connected frame [] written = written
write_frame is_connected frame (s ∷ clients) written =
    write_frame is_connected frame clients
      (if is_connected s then (s, frame) ∷ written else written)

-- Behind the test of the connection.
unfoldable pub send_frame : GuiPack → Qt → Tick → Engine → Engine
unfolding encode_frame write_frame
send_frame gp qt t e =
    let (e', frame) = encode_frame gp qt t e in
    if non_empty frame
    then record e' { written = write_frame t.is_connected frame e'.clients e'.written }
    else e'

unfoldable pub on_tick : GuiPack → Qt → Tick → Engine → Engine
unfolding send_frame update_status emit
on_tick gp qt t e =
    if not (is_some e.session) || not e.connected || not e.running
    then e
    else if not (is_alive t)
    then update_status (fail connection_lost (record e { connected = false }))
    else send_frame gp qt t e

-- What may happen to the engine: the calls of the window, and the signals of Qt. Connections are
-- pending only while the server listens, and the timer only ticks while it runs.
pub data Event : Type 0 where
  configure : Text → Text → ℕ → List SensorMapping → Event
  connect : Connecting → Event
  disconnect : Event
  start : Bool → Event
  stop : (ℕ → Bool) → Event
  accept : List ℕ → Event
  client_disconnected : ℕ → Event
  tick : Tick → Event

module _ (gp : GuiPack) (qt : Qt) where
  -- `none` is undefined behaviour.
  unfoldable pub step : Engine → Event → Option Engine
  unfolding on_tick on_accept_connection on_client_disconnected stop_bridge start_bridge
      disconnect_from_opc_ua connect_to_opc_ua set_mappings
  step e (configure url uri port mappings) = some (
      set_mappings qt mappings
        (record e { endpoint_url = url; namespace_uri = uri; tcp_port = port }))
  step e (connect c) = some (connect_to_opc_ua qt c e)
  step e disconnect = some (disconnect_from_opc_ua e)
  step e (start listens) = some (start_bridge listens e)
  step e (stop at_once) = stop_bridge at_once e
  step e (accept pending) = some (if is_some e.listening then on_accept_connection pending e else e)
  step e (client_disconnected s) = some (on_client_disconnected s e)
  step e (tick t) = some (if e.timer then on_tick gp qt t e else e)

  unfoldable pub run : Engine → List Event → Option Engine
  unfolding step
  run e [] = some e
  run e (ev ∷ evs) = and_then (step e ev) λ e'. run e' evs

  pub run-step :
      (e : Engine) (ev : Event) (evs : List Event) {e' : Engine}
      → step e ev ≡ some e'
      → run e (ev ∷ evs) ≡ run e' evs
  unfolding run
  run-step e ev evs h = ap (λ o. and_then o (λ e'. run e' evs)) h
