-- ===== src/Nodes/Depth.antt =====
-- node_depth of src/node_manager.c, against the depth of a node in the forest that the parents'
-- names describe.
use mathlib.Core.List.{Mem, mem-cons_self, mem-cons_of_mem}
use bo_smart_factory_opcua_t.Base.{
  ℕ, zero, suc, ◌+◌, ◌≤◌, ◌<◌, ◌≡◌, ◌↔◌, refl, subst, ◌∙◌, true, false, inl, inr, List, [], ◌∷◌,
  Option, none, some, arith, CString, str_eq, fit, fit_of_short, length, non_empty, if◌then◌else◌,
  Bool-cases, Option-cases, subst-some,
}
use bo_smart_factory_opcua_t.Config.{ServerNodeDef, browse_name_max}

-- The parent's name of the first node with this name: the inner loop.
unfoldable pub parent_of : List ServerNodeDef → CString → Option CString
parent_of [] name = none
parent_of (n ∷ ns) name =
    if str_eq n.browse_name name then some n.parent_browse_name else parent_of ns name

-- for(int guard = 0; guard < 32; ++guard), with the rounds left.
unfoldable pub depth_loop : ℕ → List ServerNodeDef → CString → ℕ → ℕ
depth_loop zero nodes parent depth = depth
depth_loop (suc guard) nodes parent depth = elim (non_empty parent) [
  | false ↦ depth
  | true ↦ elim (parent_of nodes parent) [
    | none ↦ depth
    | some p ↦ depth_loop guard nodes (fit browse_name_max p) (depth + 1)
  ]
]

abbrev pub max_depth : ℕ
max_depth = 32

unfoldable pub node_depth : List ServerNodeDef → ServerNodeDef → ℕ
unfolding depth_loop
node_depth nodes node = depth_loop max_depth nodes (fit browse_name_max node.parent_browse_name) 0

-- The number of ancestors in the configuration of a node with this parent's name.
pub data Depth (nodes : List ServerNodeDef) : CString → ℕ → Type 0 where
  top : {parent : CString} → non_empty parent ≡ false → Depth nodes parent 0
  orphan :
      {parent : CString}
      → non_empty parent ≡ true
      → parent_of nodes parent ≡ none
      → Depth nodes parent 0
  below :
      {parent : CString} {d : ℕ} (p : CString)
      → non_empty parent ≡ true
      → parent_of nodes parent ≡ some p
      → Depth nodes (fit browse_name_max p) d
      → Depth nodes parent (suc d)

depth_loop-Depth :
    (guard : ℕ) (nodes : List ServerNodeDef) (parent : CString) (acc d : ℕ)
    → Depth nodes parent d
    → d ≤ guard
    → depth_loop guard nodes parent acc ≡ acc + d
unfolding depth_loop
depth_loop-Depth zero nodes parent acc d dep h = omega arith
depth_loop-Depth (suc guard) nodes parent acc d (top e) h = rw (e, depth_loop) (omega arith)
depth_loop-Depth (suc guard) nodes parent acc d (orphan e o) h = rw (e, depth_loop, o) (omega arith)
depth_loop-Depth (suc guard) nodes parent acc d (below {d = k} p e o dep) h =
    rw (e, depth_loop, o)
      (depth_loop-Depth guard nodes (fit browse_name_max p) (acc + 1) k dep (omega arith)
        ∙ omega arith)

Depth-depth_loop :
    (guard : ℕ) (nodes : List ServerNodeDef) (parent : CString) (acc : ℕ)
    → depth_loop guard nodes parent acc < acc + guard
    → (d : ℕ) × (depth_loop guard nodes parent acc ≡ acc + d) × Depth nodes parent d
unfolding depth_loop
Depth-depth_loop zero nodes parent acc h = absurd (omega arith)
Depth-depth_loop (suc guard) nodes parent acc h = elim (Bool-cases (non_empty parent)) [
  | inr e ↦ (0, rw (e, depth_loop) (omega arith), top e)
  | inl e ↦ elim (Option-cases (parent_of nodes parent)) [
    | inl o ↦ (0, rw (e, depth_loop, o) (omega arith), orphan e o)
    | inr (p, o) ↦
        let (d, same, dep) =
          Depth-depth_loop guard nodes (fit browse_name_max p) (acc + 1) (ground arith) in
        (suc d, rw (e, depth_loop, o) (same ∙ omega arith), below p e o dep)
  ]
]

-- node_depth returns the number of a node's ancestors exactly when it returns less than 32: below
-- that bound the two agree, and the bound stops a longer chain or a cycle.
pub node_depth_iff :
    (nodes : List ServerNodeDef) (node : ServerNodeDef) (d : ℕ)
    → ((node_depth nodes node ≡ d) × (d < 32))
      ↔ (Depth nodes (fit browse_name_max node.parent_browse_name) d × (d < 32))
unfolding node_depth
node_depth_iff nodes node d = (
  λ (e, h). (
    let (k, same, dep) =
          Depth-depth_loop max_depth nodes (fit browse_name_max node.parent_browse_name) 0
            (omega arith) in
        let p : k ≡ d = omega arith in
        subst (λ n. Depth nodes (fit browse_name_max node.parent_browse_name) n) p dep,
    h,
  ),
  λ (dep, h). (
    depth_loop-Depth max_depth nodes (fit browse_name_max node.parent_browse_name) 0 d dep
          (omega arith)
        ∙ omega arith,
    h,
  ),
)

-- The first node with a name.
unfoldable pub find_node : List ServerNodeDef → CString → Option ServerNodeDef
find_node [] name = none
find_node (n ∷ ns) name = if str_eq n.browse_name name then some n else find_node ns name

parent_of-find_node :
    (nodes : List ServerNodeDef) (name : CString) (m : ServerNodeDef)
    → find_node nodes name ≡ some m
    → parent_of nodes name ≡ some m.parent_browse_name
unfolding find_node parent_of
parent_of-find_node [] name m h = cc
parent_of-find_node (n ∷ ns) name m h = ground (arith, parent_of-find_node ns name m)

Depth-parent :
    (nodes : List ServerNodeDef) {parent : CString} (p : CString) {d : ℕ}
    → non_empty parent ≡ true
    → parent_of nodes parent ≡ some p
    → Depth nodes parent d
    → (k : ℕ) × (d ≡ suc k) × Depth nodes (fit browse_name_max p) k
Depth-parent nodes p e o (top h) = cc
Depth-parent nodes p e o (orphan h h') = cc
Depth-parent nodes p e o (below {d = k} q h h' dep) =
    (k, refl, subst (λ r. Depth nodes (fit browse_name_max r) k) (cc) dep)

-- Below the bound a node is one deeper than its parent.
pub node_depth-parent :
    (nodes : List ServerNodeDef) (n m : ServerNodeDef)
    → length n.parent_browse_name < browse_name_max
    → non_empty n.parent_browse_name ≡ true
    → find_node nodes n.parent_browse_name ≡ some m
    → node_depth nodes n < 32
    → node_depth nodes n ≡ suc (node_depth nodes m)
node_depth-parent nodes n m l e f h =
    let same = fit_of_short browse_name_max n.parent_browse_name l in
    let dep = ((node_depth_iff nodes n (node_depth nodes n)).0 (refl, h)).0 in
    let (k, suc_k, dep') =
      Depth-parent nodes m.parent_browse_name (rw same e)
        (rw same (parent_of-find_node nodes n.parent_browse_name m f)) dep in
    let back = ((node_depth_iff nodes m k).1 (dep', omega arith)).0 in omega arith

pub find_node-mem :
    (nodes : List ServerNodeDef) (name : CString) (m : ServerNodeDef)
    → find_node nodes name ≡ some m
    → Mem m nodes
unfolding find_node
find_node-mem [] name m h = cc
find_node-mem (n ∷ ns) name m h = elim (Bool-cases (str_eq n.browse_name name)) [
  | inl e ↦ subst-some (λ k. Mem k (n ∷ ns)) (rw (e, find_node) at h) mem-cons_self
  | inr e ↦ mem-cons_of_mem n (find_node-mem ns name m (rw (e, find_node) at h))
]
