-- ===== src/Nodes/Sort/Parents.antt =====
-- The order in which node_manager_build creates the nodes.
use mathlib.Core.List.{Mem}
use mathlib.Core.List.Perm
use bo_smart_factory_opcua_t.Base.{
  ◌<◌, ◌≡◌, sym, subst, true, List, ◌∷◌, ◌++◌, some, arith, length, take_of_length-le, non_empty,
}
use bo_smart_factory_opcua_t.Config.{ServerNodeDef, browse_name_max}
use bo_smart_factory_opcua_t.Nodes.Depth.{node_depth, find_node, node_depth-parent, find_node-mem}
use bo_smart_factory_opcua_t.Nodes.Sort.{
  sort_nodes_by_depth, sort_nodes_by_depth-perm, sort_nodes_by_depth-IsSorted, IsSorted,
  IsSorted-before,
}

-- Wherever a node stands in the sorted list, the node that its parent's name denotes stands before
-- it, if the node has fewer than 32 ancestors and its parent's name fits its buffer. On a cycle, or
-- deeper, nothing is claimed, and nothing of which of the two is built.
pub sort_nodes_by_depth_parent_before :
    (nodes before after : List ServerNodeDef) (n m : ServerNodeDef)
    → sort_nodes_by_depth nodes (length nodes) ≡ before ++ n ∷ after
    → length n.parent_browse_name < browse_name_max
    → non_empty n.parent_browse_name ≡ true
    → find_node nodes n.parent_browse_name ≡ some m
    → node_depth nodes n < 32
    → Mem m before
sort_nodes_by_depth_parent_before nodes before after n m e l p f h =
    IsSorted-before (node_depth nodes) before n m after
      (subst (IsSorted (node_depth nodes)) e (sort_nodes_by_depth-IsSorted nodes (length nodes)))
      (omega (arith, node_depth-parent nodes n m l p f h))
      (subst (Mem m) e (
        (Perm.mem_iff (sort_nodes_by_depth-perm nodes (length nodes))).1 (
          subst (Mem m) (sym (take_of_length-le (length nodes) nodes (omega arith)))
            (find_node-mem nodes n.parent_browse_name m f))))
