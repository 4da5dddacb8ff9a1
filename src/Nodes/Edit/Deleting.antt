-- ===== src/Nodes/Edit/Deleting.antt =====
-- node_manager_delete.
use bo_smart_factory_opcua_t.Base.{
  ℕ, ◌+◌, ◌≡◌, refl, sym, ap, ◌∙◌, true, false, inl, inr, List, none, some, arith, CString, str_eq,
  str_eq_iff, if◌then◌else◌, length, Bool-cases, Option-cases, get_elem?, remove_at,
  length-remove_at, get_elem?-lt, All-remove_at, subst,
}
use mathlib.Core.Bool.{false≢true}
use bo_smart_factory_opcua_t.Config.{ServerNodeDef, FitsBuffers}
use bo_smart_factory_opcua_t.Config.Storage.{Env}
use bo_smart_factory_opcua_t.Config.Json.{CJson}
use bo_smart_factory_opcua_t.Nodes.Server.{UaServer, StatusCode, good, is_good}
use bo_smart_factory_opcua_t.Nodes.BrowseMap.{map_lookup}
use bo_smart_factory_opcua_t.Nodes.BrowseMap.Laws.{IsMap, map_lookup-map_remove}
use bo_smart_factory_opcua_t.Nodes.Manager.{Manager, save_config, is_simulation_switch}
use bo_smart_factory_opcua_t.Nodes.Edit.{
  config_has_browse, has_children_in_config, find_node_index, delete_at, delete,
}
use bo_smart_factory_opcua_t.Nodes.Edit.Names.{
  Distinct, Distinct-remove_at, config_has_browse-remove_at, config_has_browse-remove_at_self,
  find_node_index-get_elem, ParentsKnown, no_children-remove_at, has_switch, has_switch-remove_at,
}
use bo_smart_factory_opcua_t.Nodes.Edit.Adding.{IsConsistent}

-- The ways through a delete: it is refused and nothing changes, or the node was found, is not the
-- switch, has no children, and is deleted.
pub data Deleted (ua : UaServer) (c : CJson) (env : Env) (nm : Manager ua) (name : CString)
    (r : Manager ua × StatusCode) : Type 0 where
  refused : r.0 ≡ nm → is_good r.1 ≡ false → Deleted ua c env nm name r
  deleted :
      (idx : ℕ) (def : ServerNodeDef)
      → get_elem? nm.config.nodes idx ≡ some def
      → def.browse_name ≡ name
      → is_simulation_switch def ≡ false
      → has_children_in_config nm.config.nodes name ≡ false
      → r ≡ (delete_at ua c env nm name idx, good)
      → Deleted ua c env nm name r

pub delete_cases :
    (ua : UaServer) (c : CJson) (env : Env) (nm : Manager ua) (name : CString)
    → Deleted ua c env nm name (delete ua c env nm name)
unfolding delete
delete_cases ua c env nm name = elim (Option-cases (find_node_index nm.config.nodes name)) [
  | inl e ↦ rw (e, delete) (refused refl refl)
  | inr (idx, e) ↦
      let (def, got, named) = find_node_index-get_elem nm.config.nodes name idx e in
      elim (Bool-cases (is_simulation_switch def)) [
        | inl s ↦ rw (e, delete, got, s) (refused refl refl)
        | inr s ↦ elim (Bool-cases (has_children_in_config nm.config.nodes name)) [
          | inl h ↦ rw (e, delete, got, s, h) (refused refl refl)
          | inr h ↦ rw (e, delete, got, s, h) (deleted idx def got named s h refl)
        ]
      ]
]

delete_at-config :
    (ua : UaServer) (c : CJson) (env : Env) (nm : Manager ua) (name : CString) (idx : ℕ)
    → (delete_at ua c env nm name idx).config
      ≡ record (nm.config) { nodes = remove_at idx nm.config.nodes }
unfolding delete_at save_config
delete_at-config ua c env nm name idx = ground arith

delete_at-browse_map :
    (ua : UaServer) (c : CJson) (env : Env) (nm : Manager ua) (name q : CString) (idx : ℕ)
    → IsMap nm.browse_map
    → map_lookup (delete_at ua c env nm name idx).browse_map q
      ≡ (if str_eq name q then none else map_lookup nm.browse_map q)
unfolding delete_at save_config
delete_at-browse_map ua c env nm name q idx m =
    ground (arith, map_lookup-map_remove nm.browse_map name q m, str_eq_iff name q)

-- A delete that is refused changes nothing at all: not the server, the sensors, the table, the
-- configuration or the file.
pub delete_refused :
    (ua : UaServer) (c : CJson) (env : Env) (nm : Manager ua) (name : CString)
    → is_good (delete ua c env nm name).1 ≡ false
    → (delete ua c env nm name).0 ≡ nm
delete_refused ua c env nm name h = elim (delete_cases ua c env nm name) [
  | refused same _ ↦ same
  | deleted idx def _ _ _ _ e ↦ absurd (false≢true (sym h ∙ ap (λ r. is_good r.1) e))
]

names_without :
    (ns : List ServerNodeDef) (idx : ℕ) (def : ServerNodeDef) {name : CString} (q : CString)
    → get_elem? ns idx ≡ some def
    → def.browse_name ≡ name
    → Distinct ns
    → config_has_browse (remove_at idx ns) q
      ≡ (if str_eq name q then false else config_has_browse ns q)
names_without ns idx def q got named d =
    rw (← named) (elim (Bool-cases (str_eq def.browse_name q)) [
      | inl e ↦ rw e (
          subst (λ t. config_has_browse (remove_at idx ns) t ≡ false)
            ((str_eq_iff def.browse_name q).0 e)
            (config_has_browse-remove_at_self ns idx def got d))
      | inr e ↦ rw e (config_has_browse-remove_at ns idx def q got e)
    ])

-- If the configuration gives no two nodes one name, and no name is in use twice in the table of node
-- ids, then a delete that succeeds removes the name and no other: from the configuration, which gets
-- one node shorter, and from the table.
pub delete_good :
    (ua : UaServer) (c : CJson) (env : Env) (nm : Manager ua) (name q : CString)
    → Distinct nm.config.nodes
    → IsMap nm.browse_map
    → is_good (delete ua c env nm name).1 ≡ true
    → let nm' = (delete ua c env nm name).0 in
      (config_has_browse nm'.config.nodes q
        ≡ (if str_eq name q then false else config_has_browse nm.config.nodes q))
      × (map_lookup nm'.browse_map q ≡ (if str_eq name q then none else map_lookup nm.browse_map q))
      × (length nm'.config.nodes + 1 ≡ length nm.config.nodes)
delete_good ua c env nm name q d m h = elim (delete_cases ua c env nm name) [
  | refused _ bad ↦ absurd (false≢true (sym bad ∙ h))
  | deleted idx def got named s kids e ↦
      rw (e, delete_at-config ua c env nm name idx)
        (
          names_without nm.config.nodes idx def q got named d,
          delete_at-browse_map ua c env nm name q idx m,
          length-remove_at idx nm.config.nodes (get_elem?-lt nm.config.nodes idx got),
        )
]

pub delete_keeps-IsConsistent :
    (ua : UaServer) (c : CJson) (env : Env) (nm : Manager ua) (name : CString)
    → IsConsistent nm.config
    → IsConsistent (delete ua c env nm name).0.config
delete_keeps-IsConsistent ua c env nm name k = elim (delete_cases ua c env nm name) [
  | refused same _ ↦ rw same k
  | deleted idx def got named s kids e ↦
      rw (e, delete_at-config ua c env nm name idx)
        (record {
          bounded = record {
            namespace_fits = k.bounded.namespace_fits;
            count_fits = omega (
              arith,
              k.bounded.count_fits,
              length-remove_at idx nm.config.nodes (get_elem?-lt nm.config.nodes idx got),
            );
            nodes_fit = All-remove_at FitsBuffers idx nm.config.nodes k.bounded.nodes_fit;
            path_fits = k.bounded.path_fits;
          };
          distinct = Distinct-remove_at nm.config.nodes idx k.distinct;
        })
]

-- If the configuration fits its arrays, its names are distinct and every parent that a node names
-- is in it, then all of that holds after a delete, refused or not.
pub delete-IsConsistent :
    (ua : UaServer) (c : CJson) (env : Env) (nm : Manager ua) (name : CString)
    → IsConsistent nm.config
    → ParentsKnown nm.config.nodes
    → let cfg = (delete ua c env nm name).0.config in IsConsistent cfg × ParentsKnown cfg.nodes
delete-IsConsistent ua c env nm name k p = (
  delete_keeps-IsConsistent ua c env nm name k,
  elim (delete_cases ua c env nm name) [
    | refused same _ ↦ rw same p
    | deleted idx def got named s kids e ↦
        rw (e, delete_at-config ua c env nm name idx)
          (no_children-remove_at nm.config.nodes nm.config.nodes idx idx def got (rw named kids) p)
  ],
)

-- No delete removes the simulation switch.
pub delete-has_switch :
    (ua : UaServer) (c : CJson) (env : Env) (nm : Manager ua) (name : CString)
    → has_switch (delete ua c env nm name).0.config.nodes ≡ has_switch nm.config.nodes
delete-has_switch ua c env nm name = elim (delete_cases ua c env nm name) [
  | refused same _ ↦ rw same
  | deleted idx def got named s kids e ↦
      rw (e, delete_at-config ua c env nm name idx)
        (has_switch-remove_at nm.config.nodes idx def got s)
]
