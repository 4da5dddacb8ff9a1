-- ===== src/Nodes/Simulation/Delivery.antt =====
-- What open62541 does with the writes of src/node_manager.c: it stores the value and then runs the
-- onWrite callback of the node, for the program's own writes as for a client's.
pub mod Choices
pub mod Stopping
pub mod Racing
use bo_smart_factory_opcua_t.Base.{
  ℕ, zero, suc, ◌≡◌, refl, sym, ◌∙◌, ap, true, inl, inr, List, [], ◌∷◌, ◌++◌, Option, none, some,
  arith, map, length, Bool, Bool-cases, update_at-append, ◌≤◌, map-ext-map, length-append,
  length-map, subst, and_then,
}
use mathlib.Core.List.{append_assoc}
use bo_smart_factory_opcua_t.Nodes.BrowseMap.{NodeId}
use bo_smart_factory_opcua_t.Nodes.Server.{
  UaServer, Value, boolean, DataValue, sensor_write, simulation_enabled_write,
}
use bo_smart_factory_opcua_t.Nodes.Manager.{NodeManager, Manager, SimulatedSensor}
use bo_smart_factory_opcua_t.Nodes.Simulation.{
  Writes, toggle, accepted, run_simulation_tick, simulation_enabled_write_callback, override,
  sensor_write_callback,
}
use bo_smart_factory_opcua_t.Nodes.Simulation.Laws.{ticked, live_values, run_simulation_tick_lem}

-- A value that is written, as the callback sees it.
abbrev pub full_value : Value → DataValue
full_value v = record { has_value = true; value = some v }

-- A write does not change which callback and which context a node has.
pub record KeepsNodes (ua : UaServer) : Type 0 where
  pub on_write-write_value :
      (s : ua.Server) (id : NodeId) (v : Value) (q : NodeId)
      → ua.on_write (ua.write_value s id v) q ≡ ua.on_write s q
  pub node_context-write_value :
      (s : ua.Server) (id : NodeId) (v : Value) (q : NodeId)
      → ua.node_context (ua.write_value s id v) q ≡ ua.node_context s q

pub length-snoc {ℓ} : {A : Type ℓ} (xs : List A) (x : A) → suc (length xs) ≡ length (xs ++ x ∷ [])
length-snoc xs x = omega (arith, length-append xs (x ∷ []))

module _ (ua : UaServer) where
  -- One UA_Server_writeValue, with the callback that it runs: the state, and the writes that the
  -- callback makes in its turn. `none` is a write through a dangling pointer or behind an array.
  unfoldable pub write_and_notify : Manager ua → NodeId → Value → Option (Manager ua × Writes)
  unfolding sensor_write_callback simulation_enabled_write_callback
  write_and_notify nm id v =
      let written = record nm { server = ua.write_value nm.server id v } in
      elim (ua.on_write written.server id) [
        | none ↦ some (written, [])
        | some sensor_write ↦
            and_then
              (sensor_write_callback written (ua.node_context written.server id)
                (some (full_value v)))
              λ nm'. some (nm', [])
        | some simulation_enabled_write ↦
            simulation_enabled_write_callback written (some (full_value v))
      ]

  -- The writes that are still to be made, those of a callback first; with the rounds left.
  unfoldable pub make_writes : ℕ → Manager ua → Writes → Option (Manager ua)
  unfolding write_and_notify
  make_writes rounds nm [] = some nm
  make_writes zero nm (w ∷ ws) = none
  make_writes (suc rounds) nm ((id, v) ∷ ws) = elim (write_and_notify nm id v) [
    | none ↦ none
    | some (nm', more) ↦ make_writes rounds nm' (more ++ ws)
  ]

  -- The nodes of the sensors from index i on have the callback, and a pointer to their own cell.
  abbrev pub Attached : ua.Server → ℕ → ℕ → List SimulatedSensor → Type 0
  Attached s block i [] = Unit {0}
  Attached s block i (st ∷ sts) =
      (ua.on_write s st.node_id ≡ some sensor_write)
      × (ua.node_context s st.node_id ≡ some (record { block = block; index = i }))
      × Attached s block (suc i) sts

  pub Attached-write_value :
      (laws : KeepsNodes ua) (s : ua.Server) (id : NodeId) (v : Value) (block i : ℕ)
      (sts : List SimulatedSensor)
      → Attached s block i sts
      → Attached (ua.write_value s id v) block i sts
  Attached-write_value laws s id v block i [] a = tt
  Attached-write_value laws s id v block i (st ∷ sts) a = (
    laws.on_write-write_value s id v st.node_id ∙ a.0,
    laws.node_context-write_value s id v st.node_id ∙ a.1,
    Attached-write_value laws s id v block (suc i) sts a.2,
  )

  pub notify_sensor :
      (laws : KeepsNodes ua) (nm : Manager ua) (before after : List SimulatedSensor)
      (st : SimulatedSensor) (b : Bool)
      → nm.sensors ≡ before ++ st ∷ after
      → ua.on_write nm.server st.node_id ≡ some sensor_write
      → ua.node_context nm.server st.node_id
        ≡ some (record { block = nm.sensors_block; index = length before })
      → write_and_notify nm st.node_id (boolean b)
        ≡ some (
          record nm {
            server = ua.write_value nm.server st.node_id (boolean b);
            sensors = before ++ override b st ∷ after;
          },
          [],
        )
  unfolding write_and_notify accepted
  notify_sensor laws nm before after st b e w k = ground (
    arith,
    laws.on_write-write_value nm.server st.node_id (boolean b) st.node_id,
    laws.node_context-write_value nm.server st.node_id (boolean b) st.node_id,
    update_at-append before st after (override b),
  )
