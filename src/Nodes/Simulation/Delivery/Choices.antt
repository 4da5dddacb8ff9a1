-- ===== src/Nodes/Simulation/Delivery/Choices.antt =====
-- Writes to some of the sensors of src/node_manager.c, made one after the other with their callbacks.
use bo_smart_factory_opcua_t.Base.{
  ℕ, suc, ◌+◌, ◌-◌, ◌≤◌, ◌≡◌, refl, sym, ◌∙◌, ap, Bool, true, false, List, [], ◌∷◌, ◌++◌, Option,
  none, some, if◌then◌else◌, arith, map, length, subst,
}
use mathlib.Core.List.{append_assoc}
use bo_smart_factory_opcua_t.Nodes.BrowseMap.{NodeId}
use bo_smart_factory_opcua_t.Nodes.Server.{UaServer, boolean, sensor_write}
use bo_smart_factory_opcua_t.Nodes.Manager.{Manager, SimulatedSensor}
use bo_smart_factory_opcua_t.Nodes.Simulation.{Writes, toggle, override}
use bo_smart_factory_opcua_t.Nodes.Simulation.Laws.{ticked, live_values}
use bo_smart_factory_opcua_t.Nodes.Simulation.Delivery.{
  KeepsNodes, make_writes, Attached, notify_sensor, length-snoc,
}

-- The writes to the sensors that a choice picks, and what they leave of a cell.
abbrev pub chosen_write : NodeId → Option Bool → Writes → Writes
chosen_write id none ws = ws
chosen_write id (some b) ws = (id, boolean b) ∷ ws

unfoldable pub chosen_writes :
    (SimulatedSensor → Option Bool) → List SimulatedSensor → Writes → Writes
chosen_writes choice [] ws = ws
chosen_writes choice (x ∷ xs) ws = chosen_write x.node_id (choice x) (chosen_writes choice xs ws)

abbrev pub put : Option Bool → SimulatedSensor → SimulatedSensor
put none st = st
put (some b) st = override b st

-- A manager with the same nodes and the same switch.
pub record SameNodes (ua : UaServer) (nm nm' : Manager ua) : Type 0 where
  pub callbacks : (q : NodeId) → ua.on_write nm'.server q ≡ ua.on_write nm.server q
  pub contexts : (q : NodeId) → ua.node_context nm'.server q ≡ ua.node_context nm.server q
  pub same_block : nm'.sensors_block ≡ nm.sensors_block
  pub same_switch : nm'.simulation_enabled ≡ nm.simulation_enabled

pub Attached-SameNodes :
    (ua : UaServer) (nm nm' : Manager ua) (i : ℕ) (xs : List SimulatedSensor)
    → SameNodes ua nm nm'
    → Attached ua nm.server nm.sensors_block i xs
    → Attached ua nm'.server nm'.sensors_block i xs
Attached-SameNodes ua nm nm' i [] same a = tt
Attached-SameNodes ua nm nm' i (x ∷ xs) same a = (
  same.callbacks x.node_id ∙ a.0,
  rw same.same_block (same.contexts x.node_id ∙ a.1),
  Attached-SameNodes ua nm nm' (suc i) xs same a.2,
)

-- The writes of a choice are made one after the other, each with its callback, in any cells that
-- have the nodes of xs.
pub record Delivered (ua : UaServer) (nm : Manager ua) (sensors : List SimulatedSensor)
    (all rest : Writes) (bound : ℕ) : Type 0 where
  pub after : Manager ua
  pub same : SameNodes ua nm after
  pub cells : after.sensors ≡ sensors
  pub used : ℕ
  pub few : used ≤ bound
  pub made : (rounds : ℕ) → make_writes ua (used + rounds) nm all ≡ make_writes ua rounds after rest

SameNodes-refl : (ua : UaServer) (nm : Manager ua) → SameNodes ua nm nm
SameNodes-refl ua nm = record {
  callbacks = λ q. refl;
  contexts = λ q. refl;
  same_block = refl;
  same_switch = refl;
}

SameNodes-trans :
    (ua : UaServer) (a b c : Manager ua) → SameNodes ua a b → SameNodes ua b c → SameNodes ua a c
SameNodes-trans ua a b c p q = record {
  callbacks = λ id. q.callbacks id ∙ p.callbacks id;
  contexts = λ id. q.contexts id ∙ p.contexts id;
  same_block = q.same_block ∙ p.same_block;
  same_switch = q.same_switch ∙ p.same_switch;
}

Delivered-refl :
    (ua : UaServer) (nm : Manager ua) {sensors : List SimulatedSensor} (ws : Writes)
    → nm.sensors ≡ sensors
    → Delivered ua nm sensors ws ws 0
Delivered-refl ua nm ws e = record {
  after = nm;
  same = SameNodes-refl ua nm;
  cells = e;
  used = 0;
  few = omega arith;
  made = λ rounds. ap (λ n. make_writes ua n nm ws) (omega arith);
}

-- A larger bound.
pub more_rounds :
    (ua : UaServer) (nm : Manager ua) {sensors : List SimulatedSensor} (all : Writes)
    {rest : Writes} {n n' : ℕ}
    → Delivered ua nm sensors all rest n
    → n ≤ n'
    → Delivered ua nm sensors all rest n'
more_rounds ua nm all d h = record {
  after = d.after;
  same = d.same;
  cells = d.cells;
  used = d.used;
  few = omega (arith, d.few);
  made = d.made;
}

rest_of : (used n : ℕ) → used ≤ n → n ≡ used + (n - used)
rest_of used n h = omega arith

-- When nothing remains, the bound is enough rounds.
pub make_writes-Delivered :
    (ua : UaServer) (nm : Manager ua) {sensors : List SimulatedSensor} (all : Writes) {n : ℕ}
    (d : Delivered ua nm sensors all [] n)
    → make_writes ua n nm all ≡ some d.after
unfolding make_writes
make_writes-Delivered ua nm all {n} d =
    ap (λ k. make_writes ua k nm all) (rest_of d.used n d.few) ∙ d.made (n - d.used)

pub one_more : (n : ℕ) → 1 + n ≡ suc n
one_more n = omega arith

pub Delivered-trans :
    (ua : UaServer) (nm : Manager ua) {sensors sensors' : List SimulatedSensor} (all : Writes)
    {rest rest' : Writes} {n n' : ℕ} (d : Delivered ua nm sensors all rest n)
    → Delivered ua d.after sensors' rest rest' n'
    → Delivered ua nm sensors' all rest' (n + n')
Delivered-trans ua nm all d d' = record {
  after = d'.after;
  same = SameNodes-trans ua nm d.after d'.after d.same d'.same;
  cells = d'.cells;
  used = d.used + d'.used;
  few = omega (arith, d.few, d'.few);
  made = λ rounds.
      ap (λ n. make_writes ua n nm all) (omega arith)
      ∙ (d.made (d'.used + rounds) ∙ d'.made rounds);
}

-- A sensor with another value and another override.
abbrev pub cell :
    (SimulatedSensor → Bool) → (SimulatedSensor → Bool) → SimulatedSensor → SimulatedSensor
cell value overridden x = record x { value = value x; overridden = overridden x }

module _ (ua : UaServer) (laws : KeepsNodes ua) (v o : SimulatedSensor → Bool)
    (choice : SimulatedSensor → Option Bool) where
  deliver_one :
      (nm : Manager ua) (before after : List SimulatedSensor) (x : SimulatedSensor) (ws : Writes)
      (chosen : Option Bool)
      → nm.sensors ≡ before ++ cell v o x ∷ after
      → ua.on_write nm.server x.node_id ≡ some sensor_write
      → ua.node_context nm.server x.node_id
        ≡ some (record { block = nm.sensors_block; index = length before })
      → Delivered ua nm
          (before ++ put chosen (cell v o x) ∷ after)
          (chosen_write x.node_id chosen ws)
          ws
          1
  unfolding make_writes
  deliver_one nm before after x ws none e w k =
      more_rounds ua nm ws (Delivered-refl ua nm ws e) (omega arith)
  deliver_one nm before after x ws (some b) e w k = record {
    after = record nm {
      server = ua.write_value nm.server x.node_id (boolean b);
      sensors = before ++ override b (cell v o x) ∷ after;
    };
    same = record {
      callbacks = λ q. laws.on_write-write_value nm.server x.node_id (boolean b) q;
      contexts = λ q. laws.node_context-write_value nm.server x.node_id (boolean b) q;
      same_block = refl;
      same_switch = refl;
    };
    cells = refl;
    used = 1;
    few = omega arith;
    made = λ rounds.
        let sent = notify_sensor ua laws nm before after (cell v o x) b e w k in
        ap (λ n. make_writes ua n nm ((x.node_id, boolean b) ∷ ws)) (one_more rounds)
        ∙ rw (make_writes, sent) refl;
  }

  pub deliver :
      (nm : Manager ua) (before xs : List SimulatedSensor) (ws : Writes)
      → nm.sensors ≡ before ++ map (cell v o) xs
      → Attached ua nm.server nm.sensors_block (length before) xs
      → Delivered ua nm
          (before ++ map (λ x. put (choice x) (cell v o x)) xs)
          (chosen_writes choice xs ws)
          ws
          (length xs)
  unfolding chosen_writes
  deliver nm before [] ws e a = Delivered-refl ua nm ws e
  deliver nm before (x ∷ xs) ws e a =
      let one =
        deliver_one nm before (map (cell v o) xs) x (chosen_writes choice xs ws) (choice x) e a.0
          a.1 in
      let next = put (choice x) (cell v o x) in
      let rest =
        deliver one.after (before ++ next ∷ []) xs ws
          (one.cells ∙ sym (append_assoc before (next ∷ []) (map (cell v o) xs)))
          (subst (λ i. Attached ua one.after.server one.after.sensors_block i xs)
            (length-snoc before next)
            (Attached-SameNodes ua nm one.after (suc (length before)) xs one.same a.2)) in
      subst (λ l. Delivered ua nm l (chosen_writes choice (x ∷ xs) ws) ws (length (x ∷ xs)))
        (append_assoc before (next ∷ []) (map (λ x. put (choice x) (cell v o x)) xs))
        (more_rounds ua nm (chosen_writes choice (x ∷ xs) ws)
          (Delivered-trans ua nm (chosen_writes choice (x ∷ xs) ws) one rest) (omega arith))

-- What a tick decides for a sensor.
abbrev pub decision : SimulatedSensor → Option Bool
decision x = if x.overridden then none else some (if x.value then false else true)

pub late_writes :
    (xs : List SimulatedSensor) → live_values (map ticked xs) ≡ chosen_writes decision xs []
unfolding live_values chosen_writes toggle
late_writes [] = refl
late_writes (x ∷ xs) = ground (arith, late_writes xs)
