-- ===== src/Nodes/Edit/Names.antt =====
-- The names of a list of nodes, under the changes of an edit.
use bo_smart_factory_opcua_t.Base.{
  ℕ, zero, suc, ◌≡◌, refl, Bool, true, false, inl, inr, List, [], ◌∷◌, ◌++◌, none, some, arith,
  CString, str_eq, str_eq_iff, non_empty, if◌then◌else◌, get_elem?, remove_at, All, Bool-cases,
  and_then, and_then-eq-some,
}
use bo_smart_factory_opcua_t.Config.{ServerNodeDef}
use bo_smart_factory_opcua_t.Nodes.Manager.{is_simulation_switch}
use bo_smart_factory_opcua_t.Nodes.Edit.{config_has_browse, has_children_in_config, find_node_index}

-- No two nodes have one name.
abbrev pub Distinct : List ServerNodeDef → Type 0
Distinct [] = Unit {0}
Distinct (n ∷ ns) = (config_has_browse ns n.browse_name ≡ false) × Distinct ns

pub config_has_browse-snoc :
    (ns : List ServerNodeDef) (d : ServerNodeDef) (q : CString)
    → config_has_browse (ns ++ d ∷ []) q
      ≡ (if str_eq d.browse_name q then true else config_has_browse ns q)
unfolding config_has_browse
config_has_browse-snoc [] d q = refl
config_has_browse-snoc (n ∷ ns) d q = ground (arith, config_has_browse-snoc ns d q)

pub Distinct-snoc :
    (ns : List ServerNodeDef) (d : ServerNodeDef)
    → Distinct ns
    → config_has_browse ns d.browse_name ≡ false
    → Distinct (ns ++ d ∷ [])
unfolding config_has_browse
Distinct-snoc [] d h new = (refl, tt)
Distinct-snoc (n ∷ ns) d h new = (
  ground (
    arith,
    config_has_browse-snoc ns d n.browse_name,
    str_eq_iff d.browse_name n.browse_name,
    str_eq_iff n.browse_name d.browse_name,
  ),
  Distinct-snoc ns d h.1 (ground arith),
)

pub config_has_browse-remove_at :
    (ns : List ServerNodeDef) (i : ℕ) (def : ServerNodeDef) (q : CString)
    → get_elem? ns i ≡ some def
    → str_eq def.browse_name q ≡ false
    → config_has_browse (remove_at i ns) q ≡ config_has_browse ns q
unfolding config_has_browse
config_has_browse-remove_at [] i def q g ne = refl
config_has_browse-remove_at (n ∷ ns) zero def q g ne = ground arith
config_has_browse-remove_at (n ∷ ns) (suc i) def q g ne =
    rw (config_has_browse-remove_at ns i def q g ne)

config_has_browse_gone :
    (ns : List ServerNodeDef) (i : ℕ) (q : CString)
    → config_has_browse ns q ≡ false
    → config_has_browse (remove_at i ns) q ≡ false
unfolding config_has_browse
config_has_browse_gone [] i q h = h
config_has_browse_gone (n ∷ ns) zero q h = ground arith
config_has_browse_gone (n ∷ ns) (suc i) q h = ground (arith, config_has_browse_gone ns i q)

pub Distinct-remove_at : (ns : List ServerNodeDef) (i : ℕ) → Distinct ns → Distinct (remove_at i ns)
Distinct-remove_at [] i h = h
Distinct-remove_at (n ∷ ns) zero h = h.1
Distinct-remove_at (n ∷ ns) (suc i) h =
    (config_has_browse_gone ns i n.browse_name h.0, Distinct-remove_at ns i h.1)

config_has_browse-get_elem :
    (ns : List ServerNodeDef) (i : ℕ) (def : ServerNodeDef)
    → get_elem? ns i ≡ some def
    → config_has_browse ns def.browse_name ≡ true
unfolding config_has_browse
config_has_browse-get_elem [] i def g = cc
config_has_browse-get_elem (n ∷ ns) zero def g =
    ground (arith, str_eq_iff n.browse_name def.browse_name)
config_has_browse-get_elem (n ∷ ns) (suc i) def g =
    ground (arith, config_has_browse-get_elem ns i def g)

-- Where names are distinct, the removed name is gone.
pub config_has_browse-remove_at_self :
    (ns : List ServerNodeDef) (i : ℕ) (def : ServerNodeDef)
    → get_elem? ns i ≡ some def
    → Distinct ns
    → config_has_browse (remove_at i ns) def.browse_name ≡ false
unfolding config_has_browse
config_has_browse-remove_at_self [] i def g h = cc
config_has_browse-remove_at_self (n ∷ ns) zero def g h = ground arith
config_has_browse-remove_at_self (n ∷ ns) (suc i) def g h = ground (
  arith,
  config_has_browse-get_elem ns i def g,
  config_has_browse-remove_at_self ns i def g h.1,
  str_eq_iff n.browse_name def.browse_name,
)

pub find_node_index-get_elem :
    (ns : List ServerNodeDef) (name : CString) (i : ℕ)
    → find_node_index ns name ≡ some i
    → (def : ServerNodeDef) × (get_elem? ns i ≡ some def) × (def.browse_name ≡ name)
unfolding find_node_index
find_node_index-get_elem [] name i h = cc
find_node_index-get_elem (n ∷ ns) name i h = elim (Bool-cases (str_eq n.browse_name name)) [
  | inl e ↦
      let h' : some 0 ≡ some i = rw (e, find_node_index) at h in
      let p : 0 ≡ i = cc in (n, rw (← p), (str_eq_iff n.browse_name name).0 e)
  | inr e ↦
      let h' : and_then (find_node_index ns name) (λ k. some (suc k)) ≡ some i =
        rw (e, find_node_index) at h in
      let (k, found, q) = and_then-eq-some (find_node_index ns name) (λ k. some (suc k)) h' in
      let p : suc k ≡ i = cc in
      let (def, got, named) = find_node_index-get_elem ns name k found in (def, rw (← p) got, named)
]

-- The name is found exactly when some node has it.
pub find_node_index-config_has_browse :
    (ns : List ServerNodeDef) (name : CString)
    → config_has_browse ns name ≡ elim (find_node_index ns name) [ none ↦ false | some i ↦ true ]
unfolding find_node_index config_has_browse
find_node_index-config_has_browse [] name = refl
find_node_index-config_has_browse (n ∷ ns) name =
    ground (arith, find_node_index-config_has_browse ns name)

-- A parent that is named is a node of the list.
abbrev pub parent_known : List ServerNodeDef → ServerNodeDef → Bool
parent_known nodes n =
    if non_empty n.parent_browse_name then config_has_browse nodes n.parent_browse_name else true

abbrev pub ParentsKnown : List ServerNodeDef → Type 0
ParentsKnown nodes = All (λ n. parent_known nodes n ≡ true) nodes

parent_known_kept :
    (all : List ServerNodeDef) (n : ServerNodeDef) (i : ℕ) (def : ServerNodeDef)
    → get_elem? all i ≡ some def
    → str_eq n.parent_browse_name def.browse_name ≡ false
    → parent_known all n ≡ true
    → parent_known (remove_at i all) n ≡ true
parent_known_kept all n i def g ne k = ground (
  arith,
  config_has_browse-remove_at all i def n.parent_browse_name g,
  str_eq_iff def.browse_name n.parent_browse_name,
  str_eq_iff n.parent_browse_name def.browse_name,
)

no_children_kept :
    (all ns : List ServerNodeDef) (i : ℕ) (def : ServerNodeDef)
    → get_elem? all i ≡ some def
    → has_children_in_config ns def.browse_name ≡ false
    → All (λ n. parent_known all n ≡ true) ns
    → All (λ n. parent_known (remove_at i all) n ≡ true) ns
unfolding has_children_in_config
no_children_kept all [] i def g h k = tt
no_children_kept all (n ∷ ns) i def g h k = (
  parent_known_kept all n i def g (ground arith) k.0,
  no_children_kept all ns i def g (ground arith) k.1,
)

-- Without the node at i, which is nobody's parent, every parent is still known.
pub no_children-remove_at :
    (all ns : List ServerNodeDef) (i j : ℕ) (def : ServerNodeDef)
    → get_elem? all i ≡ some def
    → has_children_in_config ns def.browse_name ≡ false
    → All (λ n. parent_known all n ≡ true) ns
    → All (λ n. parent_known (remove_at i all) n ≡ true) (remove_at j ns)
unfolding has_children_in_config
no_children-remove_at all [] i j def g h k = tt
no_children-remove_at all (n ∷ ns) i zero def g h k =
    no_children_kept all ns i def g (ground arith) k.1
no_children-remove_at all (n ∷ ns) i (suc j) def g h k = (
  parent_known_kept all n i def g (ground arith) k.0,
  no_children-remove_at all ns i j def g (ground arith) k.1,
)

pub has_switch : List ServerNodeDef → Bool
has_switch [] = false
has_switch (n ∷ ns) = if is_simulation_switch n then true else has_switch ns

pub has_switch-remove_at :
    (ns : List ServerNodeDef) (i : ℕ) (def : ServerNodeDef)
    → get_elem? ns i ≡ some def
    → is_simulation_switch def ≡ false
    → has_switch (remove_at i ns) ≡ has_switch ns
unfolding has_switch
has_switch-remove_at [] i def g h = refl
has_switch-remove_at (n ∷ ns) zero def g h = ground arith
has_switch-remove_at (n ∷ ns) (suc i) def g h = rw (has_switch-remove_at ns i def g h)
