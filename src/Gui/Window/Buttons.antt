-- ===== src/Gui/Window/Buttons.antt =====
-- The buttons of src/gui/MainWindow.cpp with the engine behind them.
use bo_smart_factory_opcua_t.Base.{
  ℕ, ◌%◌, ◌^◌, ◌≡◌, Bool, true, not, ◌&&◌, ◌||◌, List, Option, some, and_then, if◌then◌else◌,
}
use bo_smart_factory_opcua_t.Gui.Qt.{Text, Qt, QtJson}
use bo_smart_factory_opcua_t.Gui.Frame.{GuiPack}
use bo_smart_factory_opcua_t.Gui.Engine.{
  Engine, Connecting, set_mappings, connect_to_opc_ua, disconnect_from_opc_ua, start_bridge,
  stop_bridge,
}
use bo_smart_factory_opcua_t.Gui.Engine.Events.{Tick, tick, accept, client_disconnected, step}
use bo_smart_factory_opcua_t.Gui.Dialog.{NodeSelectionDialog}
use bo_smart_factory_opcua_t.Gui.Window.{MainWindow, Row, mappings_from_table, on_select_node}
use bo_smart_factory_opcua_t.Gui.Window.Files.{Files, on_load_config}

unfoldable pub update_ui_state : MainWindow → MainWindow
update_ui_state w =
    let connected = w.engine.connected in
    let running = w.engine.running in
    record w {
      connect_enabled = not connected && not running;
      disconnect_enabled = connected || running;
      start_enabled = connected && not running;
      stop_enabled = running;
      edits_enabled = not running;
    }

-- The four calls with which onConnect and onStartBridge begin; a port is 16 bits wide.
unfoldable pub configure_engine : Qt → MainWindow → Engine
configure_engine qt w = set_mappings qt (mappings_from_table qt w.rows) (record w.engine {
  endpoint_url = qt.trimmed w.endpoint;
  namespace_uri = qt.trimmed w.namespace;
  tcp_port = w.port % 2 ^ 16;
})

unfoldable pub on_connect : Qt → Connecting → MainWindow → MainWindow
unfolding update_ui_state configure_engine
on_connect qt c w =
    update_ui_state (record w { engine = connect_to_opc_ua qt c (configure_engine qt w) })

-- `none` is undefined behaviour, as in stopBridge.
unfoldable pub on_disconnect : (ℕ → Bool) → MainWindow → Option MainWindow
unfolding update_ui_state
on_disconnect at_once w =
    and_then (stop_bridge at_once w.engine)
      λ e. some (update_ui_state (record w { engine = disconnect_from_opc_ua e }))

unfoldable pub on_stop_bridge : (ℕ → Bool) → MainWindow → Option MainWindow
unfolding update_ui_state
on_stop_bridge at_once w =
    and_then (stop_bridge at_once w.engine) λ e. some (update_ui_state (record w { engine = e }))

-- What onStartBridge leaves of the engine, with what listen() returns.
unfoldable pub start_engine : Qt → Connecting → Bool → Engine → Engine
start_engine qt c listens e =
    let e' = if e.connected then e else connect_to_opc_ua qt c e in
    if e'.connected then start_bridge listens e' else e'

unfoldable pub on_start_bridge : Qt → Connecting → Bool → MainWindow → MainWindow
unfolding start_engine update_ui_state configure_engine
on_start_bridge qt c listens w =
    update_ui_state (record w { engine = start_engine qt c listens (configure_engine qt w) })

-- MainWindow, as main() shows it, before the first event.
abbrev pub opened : MainWindow → MainWindow
opened w = update_ui_state w

-- What can happen to an open window: a click on a button that is enabled, a change of the edits or of
-- the table, a node chosen for a row, File > Load, which is never disabled, or an event of the engine.
pub data Move (gp : GuiPack) (qt : Qt) (js : QtJson) (w : MainWindow) : MainWindow → Type 0 where
  click_connect : (c : Connecting) → w.connect_enabled ≡ true → Move gp qt js w (on_connect qt c w)
  click_disconnect :
      (at_once : ℕ → Bool) {w' : MainWindow}
      → w.disconnect_enabled ≡ true
      → on_disconnect at_once w ≡ some w'
      → Move gp qt js w w'
  click_start :
      (c : Connecting) (listens : Bool)
      → w.start_enabled ≡ true
      → Move gp qt js w (on_start_bridge qt c listens w)
  click_stop :
      (at_once : ℕ → Bool) {w' : MainWindow}
      → w.stop_enabled ≡ true
      → on_stop_bridge at_once w ≡ some w'
      → Move gp qt js w w'
  edit :
      (endpoint namespace : Text) (port : ℕ)
      → w.edits_enabled ≡ true
      → Move gp qt js w (record w { endpoint = endpoint; namespace = namespace; port = port })
  change_table : (rows : List Row) → Move gp qt js w (record w { rows = rows })
  select :
      (dialog : Option NodeSelectionDialog) (row : ℕ)
      → Move gp qt js w (on_select_node qt dialog row w)
  load : (path : Text) (files : Files) → Move gp qt js w (on_load_config qt js path files w).0
  ticks :
      (t : Tick) {e : Engine}
      → step gp qt w.engine (tick t) ≡ some e
      → Move gp qt js w (record w { engine = e })
  accepts :
      (pending : List ℕ) {e : Engine}
      → step gp qt w.engine (accept pending) ≡ some e
      → Move gp qt js w (record w { engine = e })
  loses_client :
      (s : ℕ) {e : Engine}
      → step gp qt w.engine (client_disconnected s) ≡ some e
      → Move gp qt js w (record w { engine = e })

-- The windows that can be reached from one.
pub data Reach (gp : GuiPack) (qt : Qt) (js : QtJson) (w : MainWindow) : MainWindow → Type 0 where
  here : Reach gp qt js w w
  next : {u v : MainWindow} → Reach gp qt js w u → Move gp qt js u v → Reach gp qt js w v
