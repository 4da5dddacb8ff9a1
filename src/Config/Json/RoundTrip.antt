-- ===== src/Config/Json/RoundTrip.antt =====
-- node_to_json followed by parse_node, and the same for a list with the loop of server_config_load.
use bo_smart_factory_opcua_t.Base.{
  ◌+◌, ◌≤◌, ◌≡◌, ◌⊎◌, refl, sym, true, inl, inr, List, [], ◌∷◌, ◌++◌, none, some, arith, CString,
  codes, str_eq, fit, fit_of_short, non_empty, and_then, if◌then◌else◌, map, length, All,
  length-append, Bool-cases,
}
use mathlib.Core.List.{append_assoc, append-nil}
use bo_smart_factory_opcua_t.Config.{
  ServerNodeDef, dt_boolean, kind_variable, kind_size, browse_name_max, display_name_max, role_size,
  max_nodes, FitsBuffers,
}
use bo_smart_factory_opcua_t.Config.DataTypes.{
  data_type_to_string, data_type_from_string, data_type_from_string_iff,
}
use bo_smart_factory_opcua_t.Config.Json.{
  CJson, CJsonLaws, first_field, parse_node, node_to_json, node_fields, load_nodes, string_field,
  true_field, fit_or_empty, or_default,
}

-- Only the data type of a variable is written.
abbrev pub HasWrittenType : ServerNodeDef → Type 0
HasWrittenType n = (str_eq n.kind kind_variable ≡ true) ⊎ (n.data_type ≡ dt_boolean)

module _ (c : CJson) (laws : CJsonLaws c) where
  string_field-node_to_json :
      (n : ServerNodeDef) (key : CString)
      → string_field c (node_to_json c n) key
        ≡ and_then (first_field (node_fields c n) key) c.string_value
  unfolding node_to_json
  string_field-node_to_json n key = rw (laws.get_object_item-object (node_fields c n) key)

  kind_lem : (n : ServerNodeDef) → string_field c (node_to_json c n) (codes "kind") ≡ some n.kind
  unfolding node_fields first_field str_eq
  kind_lem n = rw string_field-node_to_json (laws.string_value-string n.kind)

  browse_lem :
      (n : ServerNodeDef)
      → string_field c (node_to_json c n) (codes "browseName") ≡ some n.browse_name
  unfolding node_fields first_field str_eq
  browse_lem n = rw string_field-node_to_json (laws.string_value-string n.browse_name)

  display_lem :
      (n : ServerNodeDef)
      → string_field c (node_to_json c n) (codes "displayName") ≡ some n.display_name
  unfolding node_fields first_field str_eq
  display_lem n = rw string_field-node_to_json (laws.string_value-string n.display_name)

  parent_lem :
      (n : ServerNodeDef)
      → string_field c (node_to_json c n) (codes "parentBrowseName") ≡ some n.parent_browse_name
  unfolding node_fields first_field str_eq
  parent_lem n = rw string_field-node_to_json (laws.string_value-string n.parent_browse_name)

  role_first :
      (n : ServerNodeDef)
      → first_field (node_fields c n) (codes "role")
        ≡ (if non_empty n.role then some (c.string n.role) else none)
  unfolding node_fields first_field str_eq
  role_first n = ground arith

  type_first :
      (n : ServerNodeDef)
      → first_field (node_fields c n) (codes "dataType") ≡ (
          if str_eq n.kind kind_variable
          then some (c.string (data_type_to_string n.data_type))
          else none)
  unfolding node_fields first_field str_eq
  type_first n = ground arith

  simulation_first :
      (n : ServerNodeDef)
      → first_field (node_fields c n) (codes "simulation")
        ≡ (if n.simulation then some (c.bool true) else none)
  unfolding node_fields first_field str_eq
  simulation_first n = ground arith

  role_lem :
      (n : ServerNodeDef)
      → fit_or_empty role_size (string_field c (node_to_json c n) (codes "role"))
        ≡ fit role_size n.role
  role_lem n =
      rw (string_field-node_to_json n (codes "role"), role_first n)
        (ground (arith, laws.string_value-string n.role))

  type_lem :
      (n : ServerNodeDef)
      → HasWrittenType n
      → or_default dt_boolean
          (and_then (string_field c (node_to_json c n) (codes "dataType")) data_type_from_string)
        ≡ n.data_type
  type_lem n w =
      rw (string_field-node_to_json n (codes "dataType"), type_first n)
        (elim (Bool-cases (str_eq n.kind kind_variable)) [
          | inl v ↦ rw (
            v,
            laws.string_value-string (data_type_to_string n.data_type),
            (data_type_from_string_iff _ n.data_type).1 refl,
          )
          | inr v ↦ rw v (ground (arith, w))
        ])

  simulation_lem :
      (n : ServerNodeDef) → true_field c (node_to_json c n) (codes "simulation") ≡ n.simulation
  unfolding node_to_json
  simulation_lem n = ground (
    arith,
    laws.get_object_item-object (node_fields c n) (codes "simulation"),
    simulation_first n,
    laws.is_true-bool true,
  )

  -- Reading what was written for a definition gives the definition back, if its strings fit their
  -- buffers and a node that is no variable has the default data type.
  pub parse_node-node_to_json :
      (n : ServerNodeDef)
      → FitsBuffers n
      → HasWrittenType n
      → parse_node c (node_to_json c n) ≡ some n
  unfolding parse_node
  parse_node-node_to_json n f w = rw (
    kind_lem n,
    browse_lem n,
    display_lem n,
    parent_lem n,
    role_lem n,
    type_lem n w,
    simulation_lem n,
    fit_of_short kind_size n.kind f.kind_fits,
    fit_of_short browse_name_max n.browse_name f.browse_name_fits,
    fit_of_short display_name_max n.display_name f.display_name_fits,
    fit_of_short browse_name_max n.parent_browse_name f.parent_fits,
    fit_of_short role_size n.role f.role_fits,
  )

  pub load_nodes-map :
      (before nodes : List ServerNodeDef)
      → length before + length nodes ≤ max_nodes
      → All FitsBuffers nodes
      → All HasWrittenType nodes
      → load_nodes c before (map (node_to_json c) nodes) ≡ before ++ nodes
  unfolding load_nodes
  load_nodes-map before [] h f w = sym (append-nil before)
  load_nodes-map before (n ∷ nodes) h f w = ground (
    arith,
    parse_node-node_to_json n f.0 w.0,
    load_nodes-map (before ++ n ∷ []) nodes (omega (arith, length-append before (n ∷ []))) f.1 w.1,
    append_assoc before (n ∷ []) nodes,
  )
