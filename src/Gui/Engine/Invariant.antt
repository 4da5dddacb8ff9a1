-- ===== src/Gui/Engine/Invariant.antt =====
-- What holds of the engine of src/gui/BridgeEngine.cpp between two events.
use bo_smart_factory_opcua_t.Base.{
  ℕ, zero, suc, ◌≡◌, Bool, true, false, List, [], ◌∷◌, ◌++◌, none, some, is_some, get_elem?, arith,
  sym, ◌∙◌, length, ◌+◌, Option-cases, inl, inr, and_then-eq-some, subst-some,
}
use bo_smart_factory_opcua_t.Gui.Qt.{Qt}
use bo_smart_factory_opcua_t.Gui.Frame.{GuiPack}
use bo_smart_factory_opcua_t.Gui.Engine.{
  Engine, new_engine, Connecting, emit, update_status, resolve, connect_client, connect_to_opc_ua,
  disconnect_from_opc_ua, start_bridge, stop_bridge, disconnect_clients, disconnect_from_host,
  forget_clients, client_count_changed, on_accept_connection, on_client_disconnected, remove_all,
  set_mappings,
}
use bo_smart_factory_opcua_t.Gui.Engine.Stopping.{disconnect_clients-none, disconnect_clients-some}
use bo_smart_factory_opcua_t.Gui.Engine.Events.{
  Tick, send_frame, encode_frame, on_tick, Event, configure, connect, disconnect, start, stop,
  accept, client_disconnected, tick, step, run,
}

-- A connection has a client behind it, the timer and the TCP server go on exactly while the bridge
-- runs, and a bridge that does not run has no TCP clients.
pub record IsEngine (e : Engine) : Type 0 where
  pub client_behind : e.connected ≡ true → is_some e.session ≡ true
  pub timer_runs : e.timer ≡ e.running
  pub server_listens : is_some e.listening ≡ e.running
  pub no_clients : e.running ≡ false → e.clients ≡ []

pub update_status-IsEngine : (e : Engine) → IsEngine e → IsEngine (update_status e)
unfolding update_status emit
update_status-IsEngine e h = ground arith

pub connect_to_opc_ua-IsEngine :
    (qt : Qt) (c : Connecting) (e : Engine) → IsEngine e → IsEngine (connect_to_opc_ua qt c e)
unfolding connect_to_opc_ua connect_client resolve update_status emit
connect_to_opc_ua-IsEngine qt c e h = ground arith

pub disconnect-IsEngine : (e : Engine) → IsEngine e → IsEngine (disconnect_from_opc_ua e)
unfolding disconnect_from_opc_ua update_status emit
disconnect-IsEngine e h = ground arith

pub start_bridge-IsEngine :
    (listens : Bool) (e : Engine) → IsEngine e → IsEngine (start_bridge listens e)
unfolding start_bridge update_status emit
start_bridge-IsEngine listens e h = ground arith

-- What the loop of stopBridge leaves alone.
pub record KeepsConnection (e e' : Engine) : Type 0 where
  pub same_session : e'.session ≡ e.session
  pub same_connected : e'.connected ≡ e.connected
  pub same_running : e'.running ≡ e.running
  pub same_timer : e'.timer ≡ e.timer
  pub same_listening : e'.listening ≡ e.listening
  pub same_sequence : e'.sequence ≡ e.sequence
  pub same_written : e'.written ≡ e.written

pub disconnect_from_host-Keeps :
    (at_once : ℕ → Bool) (s : ℕ) (e : Engine) → KeepsConnection e (disconnect_from_host at_once s e)
unfolding disconnect_from_host on_client_disconnected emit
disconnect_from_host-Keeps at_once s e = ground arith

Keeps_trans : {a b c : Engine} → KeepsConnection a b → KeepsConnection b c → KeepsConnection a c
Keeps_trans h k = ground arith

-- The end of stopBridge's loop, if it has one, leaves the same connection.
pub disconnect_clients-Keeps :
    (at_once : ℕ → Bool) (n i : ℕ) (e e' : Engine)
    → disconnect_clients at_once n i e ≡ some e'
    → KeepsConnection e e'
unfolding disconnect_clients
disconnect_clients-Keeps at_once zero i e e' h = ground arith
disconnect_clients-Keeps at_once (suc n) i e e' h = elim (Option-cases (get_elem? e.clients i)) [
  | inl out ↦ cc (h, disconnect_clients-none at_once n i e out)
  | inr (s, found) ↦ Keeps_trans (disconnect_from_host-Keeps at_once s e) (
      disconnect_clients-Keeps at_once n (suc i) (disconnect_from_host at_once s e) e'
        (sym (disconnect_clients-some at_once n i e s found) ∙ h))
]

on_client_disconnected-IsEngine :
    (s : ℕ) (e : Engine) → IsEngine e → IsEngine (on_client_disconnected s e)
unfolding on_client_disconnected emit remove_all
on_client_disconnected-IsEngine s e h = ground arith

on_accept_connection-IsEngine :
    (pending : List ℕ) (e : Engine)
    → e.running ≡ true
    → IsEngine e
    → IsEngine (on_accept_connection pending e)
unfolding on_accept_connection emit
on_accept_connection-IsEngine [] e r h = h
on_accept_connection-IsEngine (s ∷ pending) e r h =
    on_accept_connection-IsEngine pending
      (emit (client_count_changed (length e.clients + 1))
        (record e { clients = e.clients ++ s ∷ [] }))
      r (ground arith)

send_frame-IsEngine :
    (gp : GuiPack) (qt : Qt) (t : Tick) (e : Engine) → IsEngine e → IsEngine (send_frame gp qt t e)
unfolding send_frame encode_frame
send_frame-IsEngine gp qt t e h = ground arith

on_tick-IsEngine :
    (gp : GuiPack) (qt : Qt) (t : Tick) (e : Engine) → IsEngine e → IsEngine (on_tick gp qt t e)
unfolding on_tick update_status emit
on_tick-IsEngine gp qt t e h = ground (arith, send_frame-IsEngine gp qt t e)

forget_clients-IsEngine :
    (e e' : Engine)
    → KeepsConnection (record e { running = false; timer = false; listening = none }) e'
    → IsEngine e
    → IsEngine (forget_clients e')
unfolding forget_clients update_status emit
forget_clients-IsEngine e e' k h = ground arith

pub stop_bridge-IsEngine :
    (at_once : ℕ → Bool) (e : Engine) {e' : Engine}
    → stop_bridge at_once e ≡ some e'
    → IsEngine e
    → IsEngine e'
unfolding stop_bridge
stop_bridge-IsEngine at_once e h i =
    let off = record e { running = false; timer = false; listening = none } in
    let (left, looped, eq) =
      and_then-eq-some (disconnect_clients at_once (length e.clients) 0 off) _ h in
    let keeps = disconnect_clients-Keeps at_once (length e.clients) 0 off left looped in
    subst-some IsEngine eq (forget_clients-IsEngine e left keeps i)

module _ (gp : GuiPack) (qt : Qt) where
  pub step-IsEngine :
      (e : Engine) (ev : Event) {e' : Engine} → step gp qt e ev ≡ some e' → IsEngine e → IsEngine e'
  unfolding step set_mappings
  step-IsEngine e (configure url uri port mappings) h i = subst-some IsEngine h (ground arith)
  step-IsEngine e (connect c) h i = subst-some IsEngine h (connect_to_opc_ua-IsEngine qt c e i)
  step-IsEngine e disconnect h i = subst-some IsEngine h (disconnect-IsEngine e i)
  step-IsEngine e (start listens) h i = subst-some IsEngine h (start_bridge-IsEngine listens e i)
  step-IsEngine e (stop at_once) h i = stop_bridge-IsEngine at_once e h i
  step-IsEngine e (accept pending) h i =
      subst-some IsEngine h (ground (arith, on_accept_connection-IsEngine pending e))
  step-IsEngine e (client_disconnected s) h i =
      subst-some IsEngine h (on_client_disconnected-IsEngine s e i)
  step-IsEngine e (tick t) h i = subst-some IsEngine h (ground (arith, on_tick-IsEngine gp qt t e))

  pub run-IsEngine :
      (e : Engine) (evs : List Event) {e' : Engine}
      → run gp qt e evs ≡ some e'
      → IsEngine e
      → IsEngine e'
  unfolding run
  run-IsEngine e [] h i = subst-some IsEngine h i
  run-IsEngine e (ev ∷ evs) h i =
      let (e1, first, rest) = and_then-eq-some (step gp qt e ev) (λ e'. run gp qt e' evs) h in
      run-IsEngine e1 evs rest (step-IsEngine e ev first i)

-- However the window, the TCP clients and the timer drive a new engine: as long as no read is
-- undefined, it has an OPC UA client whenever it holds itself to be connected, its timer runs and
-- its TCP server listens exactly while the bridge runs, and it has TCP clients only then.
pub run-IsEngine_new :
    (gp : GuiPack) (qt : Qt) (evs : List Event) (e : Engine)
    → run gp qt new_engine evs ≡ some e
    → IsEngine e
run-IsEngine_new gp qt evs e h = run-IsEngine gp qt new_engine evs h (ground arith)
