-- ===== src/Gui/Engine/Losing.antt =====
-- The ticks of src/gui/BridgeEngine.cpp while the connection lives, and once it is lost.
use bo_smart_factory_opcua_t.Base.{
  ℕ, ◌+◌, ◌≡◌, refl, ◌∙◌, true, false, List, [], ◌∷◌, ◌++◌, some, length, arith, All,
}
use bo_smart_factory_opcua_t.Gui.Qt.{Qt}
use bo_smart_factory_opcua_t.Gui.Frame.{GuiPack}
use bo_smart_factory_opcua_t.Gui.Engine.{
  Engine, emit, update_status, start_bridge, on_accept_connection, on_client_disconnected,
  set_mappings, disconnect_from_opc_ua, client_count_changed,
}
use bo_smart_factory_opcua_t.Gui.Engine.Events.{
  on_tick, Event, configure, connect, disconnect, start, stop, accept, client_disconnected, tick,
  step, run, run-step,
}

-- The bridge runs, and the engine knows that its connection is gone.
pub record IsLost (e : Engine) : Type 0 where
  pub still_running : e.running ≡ true
  pub not_connected : e.connected ≡ false

-- Neither connectToOpcUa nor stopBridge is called.
abbrev pub NoHelp : Event → Type 0
NoHelp (connect c) = ⊥
NoHelp (stop at_once) = ⊥
NoHelp _ = Unit

abbrev pub SameOutput : Engine → Engine → Type 0
SameOutput e e' = (e'.written ≡ e.written) × (e'.sequence ≡ e.sequence)

module _ (gp : GuiPack) (qt : Qt) where
  on_accept-IsLost :
      (pending : List ℕ) (e : Engine)
      → IsLost e
      → IsLost (on_accept_connection pending e) × SameOutput e (on_accept_connection pending e)
  unfolding on_accept_connection emit
  on_accept-IsLost [] e l = (l, (refl, refl))
  on_accept-IsLost (s ∷ pending) e l =
      on_accept-IsLost pending
        (emit (client_count_changed (length e.clients + 1))
          (record e { clients = e.clients ++ s ∷ [] }))
        (ground arith)

  -- What an event that is no help leaves.
  step-IsLost :
      (e : Engine) (ev : Event)
      → IsLost e
      → NoHelp ev
      → (e' : Engine) × (step gp qt e ev ≡ some e') × IsLost e' × SameOutput e e'
  unfolding step set_mappings disconnect_from_opc_ua start_bridge on_client_disconnected on_tick
      update_status emit
  step-IsLost e (configure url uri port mappings) l n = (_, refl, ground arith, ground arith)
  step-IsLost e (connect c) l n = absurd n
  step-IsLost e disconnect l n = (_, refl, ground arith, ground arith)
  step-IsLost e (start listens) l n = (_, refl, ground arith, ground arith)
  step-IsLost e (stop at_once) l n = absurd n
  step-IsLost e (accept pending) l n = (
    _,
    refl,
    ground (arith, on_accept-IsLost pending e l),
    ground (arith, on_accept-IsLost pending e l),
  )
  step-IsLost e (client_disconnected s) l n = (_, refl, ground arith, ground arith)
  step-IsLost e (tick t) l n = (_, refl, ground arith, ground arith)

  -- A bridge that runs on after its connection was lost never sends another frame by itself: over
  -- any sequence of ticks, new and lost TCP clients, changed mappings and calls of startBridge and
  -- disconnectFromOpcUa, it goes on running without a connection, nothing is written to any client
  -- and no sequence number is used. Only connectToOpcUa and stopBridge are left out.
  pub run-IsLost :
      (e : Engine) (evs : List Event)
      → IsLost e
      → All NoHelp evs
      → (e' : Engine) × (run gp qt e evs ≡ some e') × IsLost e' × SameOutput e e'
  unfolding run
  run-IsLost e [] l n = (e, refl, l, (refl, refl))
  run-IsLost e (ev ∷ evs) l n =
      let (e1, first, l1, same) = step-IsLost e ev l n.0 in
      let (e', rest, l', same') = run-IsLost e1 evs l1 n.1 in
      (e', run-step gp qt e ev evs first ∙ rest, l', (same'.0 ∙ same.0, same'.1 ∙ same.1))
