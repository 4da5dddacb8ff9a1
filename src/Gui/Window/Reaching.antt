-- ===== src/Gui/Window/Reaching.antt =====
-- The windows of src/gui/MainWindow.cpp that can be reached.
use bo_smart_factory_opcua_t.Base.{
  ℕ, ◌≡◌, refl, sym, Bool, false, not, ◌&&◌, ◌||◌, Option, none, non_empty, if-either, List, [],
  ◌∷◌, some, and_then-eq-some, subst, subst-some, arith, length, ◌++◌, ◌+◌,
}
use bo_smart_factory_opcua_t.Gui.Qt.{Text, Qt, QtJson}
use bo_smart_factory_opcua_t.Gui.Frame.{GuiPack}
use bo_smart_factory_opcua_t.Gui.Engine.{
  Engine, new_engine, Connecting, set_mappings, connect_to_opc_ua, disconnect_from_opc_ua,
  stop_bridge, on_accept_connection, on_client_disconnected, emit, update_status,
  client_count_changed,
}
use bo_smart_factory_opcua_t.Gui.Engine.Events.{
  Tick, tick, accept, client_disconnected, step, on_tick, send_frame, encode_frame,
}
use bo_smart_factory_opcua_t.Gui.Engine.Invariant.{
  IsEngine, connect_to_opc_ua-IsEngine, disconnect-IsEngine, start_bridge-IsEngine,
  stop_bridge-IsEngine, step-IsEngine,
}
use bo_smart_factory_opcua_t.Gui.Dialog.{NodeSelectionDialog}
use bo_smart_factory_opcua_t.Gui.Window.{MainWindow, Row, on_select_node}
use bo_smart_factory_opcua_t.Gui.Window.Files.{
  Files, on_load_config, load_parsed, load_root, load_file, Warning,
}
use bo_smart_factory_opcua_t.Gui.Window.Buttons.{
  update_ui_state, configure_engine, on_connect, on_disconnect, on_stop_bridge, start_engine,
  on_start_bridge, opened, Move, click_connect, click_disconnect, click_start, click_stop, edit,
  change_table, select, load, ticks, accepts, loses_client, Reach, here, next,
}

-- The buttons and the edits are enabled as the engine asks for it.
pub record Agrees (w : MainWindow) : Type 0 where
  pub connect_exact : w.connect_enabled ≡ (not w.engine.connected && not w.engine.running)
  pub disconnect_exact : w.disconnect_enabled ≡ (w.engine.connected || w.engine.running)
  pub start_exact : w.start_enabled ≡ (w.engine.connected && not w.engine.running)
  pub stop_exact : w.stop_enabled ≡ w.engine.running
  pub edits_exact : w.edits_enabled ≡ not w.engine.running

pub record IsWindow (w : MainWindow) : Type 0 where
  pub engine_good : IsEngine w.engine
  pub agrees : Agrees w

Agrees-update_ui_state : (w : MainWindow) → Agrees (update_ui_state w)
unfolding update_ui_state
Agrees-update_ui_state w = ground arith

engine-update_ui_state : (w : MainWindow) → (update_ui_state w).engine ≡ w.engine
unfolding update_ui_state
engine-update_ui_state w = refl

IsWindow-update : (w : MainWindow) → IsEngine w.engine → IsWindow (update_ui_state w)
unfolding update_ui_state
IsWindow-update w h = record { engine_good = h; agrees = Agrees-update_ui_state w }

configure-IsEngine :
    (qt : Qt) (w : MainWindow) → IsEngine w.engine → IsEngine (configure_engine qt w)
unfolding configure_engine set_mappings
configure-IsEngine qt w h = ground arith

start_engine-IsEngine :
    (qt : Qt) (c : Connecting) (listens : Bool) (e : Engine)
    → IsEngine e
    → IsEngine (start_engine qt c listens e)
unfolding start_engine
start_engine-IsEngine qt c listens e h = ground (
  arith,
  connect_to_opc_ua-IsEngine qt c e h,
  start_bridge-IsEngine listens e h,
  start_bridge-IsEngine listens (connect_to_opc_ua qt c e),
)

-- What the engine does by itself does not stop or start the bridge, and loses a connection only while
-- the bridge runs.
record Stays (e e' : Engine) : Type 0 where
  same_running : e'.running ≡ e.running
  same_connected : e.running ≡ false → e'.connected ≡ e.connected

Stays-on_accept : (pending : List ℕ) (e : Engine) → Stays e (on_accept_connection pending e)
unfolding on_accept_connection emit
Stays-on_accept [] e = record { same_running = refl; same_connected = λ _. refl }
Stays-on_accept (s ∷ pending) e =
    let rest = Stays-on_accept pending (
      emit (client_count_changed (length e.clients + 1))
        (record e { clients = e.clients ++ s ∷ [] })) in
    record { same_running = rest.same_running; same_connected = rest.same_connected }

Stays-on_tick : (gp : GuiPack) (qt : Qt) (t : Tick) (e : Engine) → Stays e (on_tick gp qt t e)
unfolding on_tick send_frame encode_frame update_status emit
Stays-on_tick gp qt t e = ground arith

with_engine :
    (w : MainWindow) (e : Engine)
    → IsEngine e
    → Stays w.engine e
    → Agrees w
    → IsWindow (record w { engine = e })
with_engine w e h r a = record { engine_good = h; agrees = ground arith }

Stays-step_tick :
    (gp : GuiPack) (qt : Qt) (t : Tick) (e : Engine) {e' : Engine}
    → step gp qt e (tick t) ≡ some e'
    → Stays e e'
unfolding step
Stays-step_tick gp qt t e h = subst-some (Stays e) h (ground (arith, Stays-on_tick gp qt t e))

Stays-step_accept :
    (gp : GuiPack) (qt : Qt) (pending : List ℕ) (e : Engine) {e' : Engine}
    → step gp qt e (accept pending) ≡ some e'
    → Stays e e'
unfolding step
Stays-step_accept gp qt pending e h =
    subst-some (Stays e) h (ground (arith, Stays-on_accept pending e))

Stays-step_lost :
    (gp : GuiPack) (qt : Qt) (s : ℕ) (e : Engine) {e' : Engine}
    → step gp qt e (client_disconnected s) ≡ some e'
    → Stays e e'
unfolding step on_client_disconnected emit
Stays-step_lost gp qt s e h =
    subst-some (Stays e) h (record { same_running = refl; same_connected = λ _. refl })

stop-IsWindow :
    (at_once : ℕ → Bool) (w : MainWindow) {w' : MainWindow}
    → on_stop_bridge at_once w ≡ some w'
    → IsWindow w
    → IsWindow w'
unfolding on_stop_bridge
stop-IsWindow at_once w h i =
    let (e, stopped, eq) = and_then-eq-some (stop_bridge at_once w.engine) _ h in
    subst-some IsWindow eq (
      IsWindow-update (record w { engine = e })
        (stop_bridge-IsEngine at_once w.engine stopped i.engine_good))

disconnect-IsWindow :
    (at_once : ℕ → Bool) (w : MainWindow) {w' : MainWindow}
    → on_disconnect at_once w ≡ some w'
    → IsWindow w
    → IsWindow w'
unfolding on_disconnect
disconnect-IsWindow at_once w h i =
    let (e, stopped, eq) = and_then-eq-some (stop_bridge at_once w.engine) _ h in
    subst-some IsWindow eq (
      IsWindow-update (record w { engine = disconnect_from_opc_ua e })
        (disconnect-IsEngine e (stop_bridge-IsEngine at_once w.engine stopped i.engine_good)))

-- A window with other contents of the edits and the table.
same_buttons :
    (w : MainWindow) (endpoint namespace : Text) (port : ℕ) (rows : List Row)
    → IsWindow w
    → IsWindow (record w { endpoint = endpoint; namespace = namespace; port = port; rows = rows })
same_buttons w endpoint namespace port rows i = record {
  engine_good = i.engine_good;
  agrees = ground (arith, i.agrees);
}

load_parsed-IsWindow :
    (qt : Qt) (js : QtJson) (root : Option js.Json) (w : MainWindow)
    → IsWindow w
    → IsWindow (load_parsed qt js root w).0
unfolding load_parsed load_root
load_parsed-IsWindow qt js none w i = i
load_parsed-IsWindow qt js (some root) w i = same_buttons w _ _ _ _ i

load_file-IsWindow :
    (qt : Qt) (js : QtJson) (contents : Option (List ℕ)) (w : MainWindow)
    → IsWindow w
    → IsWindow (load_file qt js contents w).0
unfolding load_file
load_file-IsWindow qt js none w i = i
load_file-IsWindow qt js (some bytes) w i = load_parsed-IsWindow qt js (js.from_json bytes) w i

on_load_config-IsWindow :
    (qt : Qt) (js : QtJson) (path : Text) (files : Files) (w : MainWindow)
    → IsWindow w
    → IsWindow (on_load_config qt js path files w).0
unfolding on_load_config
on_load_config-IsWindow qt js path files w i =
    if-either (λ (r : MainWindow × Option Warning). IsWindow r.0) (not (non_empty path)) i
      (load_file-IsWindow qt js (files path) w i)

on_select_node-IsWindow :
    (qt : Qt) (dialog : Option NodeSelectionDialog) (row : ℕ) (w : MainWindow)
    → IsWindow w
    → IsWindow (on_select_node qt dialog row w)
unfolding on_select_node
on_select_node-IsWindow qt none row w i = i
on_select_node-IsWindow qt (some dialog) row w i = record {
  engine_good = ground (arith, i.engine_good);
  agrees = ground (arith, i.agrees);
}

Move-IsWindow :
    {gp : GuiPack} {qt : Qt} {js : QtJson} {w w' : MainWindow}
    → Move gp qt js w w'
    → IsWindow w
    → IsWindow w'
unfolding on_connect on_start_bridge
Move-IsWindow {gp} {qt} {js} {w} (click_connect c b) i =
    IsWindow-update (record w { engine = connect_to_opc_ua qt c (configure_engine qt w) })
      (connect_to_opc_ua-IsEngine qt c (configure_engine qt w)
        (configure-IsEngine qt w i.engine_good))
Move-IsWindow {gp} {qt} {js} {w} (click_disconnect at_once b h) i =
    disconnect-IsWindow at_once w h i
Move-IsWindow {gp} {qt} {js} {w} (click_start c listens b) i =
    IsWindow-update (record w { engine = start_engine qt c listens (configure_engine qt w) })
      (start_engine-IsEngine qt c listens (configure_engine qt w)
        (configure-IsEngine qt w i.engine_good))
Move-IsWindow {gp} {qt} {js} {w} (click_stop at_once b h) i = stop-IsWindow at_once w h i
Move-IsWindow {gp} {qt} {js} {w} (edit endpoint namespace port b) i =
    same_buttons w endpoint namespace port w.rows i
Move-IsWindow {gp} {qt} {js} {w} (change_table rows) i =
    same_buttons w w.endpoint w.namespace w.port rows i
Move-IsWindow {gp} {qt} {js} {w} (select dialog row) i = on_select_node-IsWindow qt dialog row w i
Move-IsWindow {gp} {qt} {js} {w} (load path files) i = on_load_config-IsWindow qt js path files w i
Move-IsWindow {gp} {qt} {js} {w} (ticks t {e} h) i =
    with_engine w e (step-IsEngine gp qt w.engine (tick t) h i.engine_good)
      (Stays-step_tick gp qt t w.engine h) i.agrees
Move-IsWindow {gp} {qt} {js} {w} (accepts pending {e} h) i =
    with_engine w e (step-IsEngine gp qt w.engine (accept pending) h i.engine_good)
      (Stays-step_accept gp qt pending w.engine h) i.agrees
Move-IsWindow {gp} {qt} {js} {w} (loses_client s {e} h) i =
    with_engine w e (step-IsEngine gp qt w.engine (client_disconnected s) h i.engine_good)
      (Stays-step_lost gp qt s w.engine h) i.agrees

-- In every window that can be reached from one that was just opened, by clicks on enabled buttons,
-- by edits, by nodes chosen for a row, by loaded files, and by ticks, new and lost TCP clients of the
-- engine, the engine is in order, and the buttons follow its state as it is then: Connect is enabled
-- exactly while it has neither a connection nor runs, Disconnect while it has a connection or runs,
-- Start while it has a connection and does not run, Stop while it runs, and the edits while it does
-- not run. So a bridge that has lost its connection cannot be connected again before it is stopped.
pub Reach-IsWindow :
    (gp : GuiPack) (qt : Qt) (js : QtJson) (w : MainWindow) {w' : MainWindow}
    → w.engine ≡ new_engine
    → Reach gp qt js (opened w) w'
    → IsWindow w'
Reach-IsWindow gp qt js w h here = IsWindow-update w (subst IsEngine (sym h) (ground arith))
Reach-IsWindow gp qt js w h (next r m) = Move-IsWindow m (Reach-IsWindow gp qt js w h r)
