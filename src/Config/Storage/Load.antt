-- ===== src/Config/Storage/Load.antt =====
-- The configuration that server_config_load leaves, against the sizes of its buffers.
use bo_smart_factory_opcua_t.Base.{
  ℕ, ◌+◌, ◌≤◌, ◌<◌, ◌≡◌, Bool, not, inl, inr, List, [], ◌∷◌, ◌++◌, Option, none, some, arith,
  CString, codes, fit_short, and_then, until_nul, length, length-append, and_then-eq-some,
  subst-some, if-either, ◌==◌, Bool-cases, Option-cases, All, All-append, leb, leb-false→lt,
}
use bo_smart_factory_opcua_t.Config.{
  ServerConfig, ServerNodeDef, FitsBuffers, IsBounded, config_path_max, namespace_max, max_nodes,
  kind_size, browse_name_max, display_name_max, role_size,
}
use bo_smart_factory_opcua_t.Config.Seed.{seed_defaults, seed_defaults-IsBounded}
use bo_smart_factory_opcua_t.Config.Json.{CJson, load_nodes, parse_node, string_field, fit_or_empty}
use bo_smart_factory_opcua_t.Config.Storage.{
  Storage, Env, init_path, config_of_json, read_config, load, finish_load, fit_or, nodes_or,
  read_parsed,
}

fit_or_empty_short :
    (size : ℕ) (o : Option CString) → 0 < size → length (fit_or_empty size o) < size
fit_or_empty_short size none h = h
fit_or_empty_short size (some s) h = fit_short size s h

parse_node-FitsBuffers :
    (c : CJson) (item : c.Json) (n : ServerNodeDef) → parse_node c item ≡ some n → FitsBuffers n
unfolding parse_node
parse_node-FitsBuffers c item n e =
    let (kind, _, e₁) = and_then-eq-some (string_field c item (codes "kind")) _ e in
    let (browse, _, e₂) = and_then-eq-some (string_field c item (codes "browseName")) _ e₁ in
    let (display, _, e₃) = and_then-eq-some (string_field c item (codes "displayName")) _ e₂ in
    subst-some FitsBuffers e₃ (record {
      kind_fits = fit_short kind_size kind (omega arith);
      browse_name_fits = fit_short browse_name_max browse (omega arith);
      display_name_fits = fit_short display_name_max display (omega arith);
      parent_fits =
          fit_or_empty_short browse_name_max (string_field c item (codes "parentBrowseName"))
            (omega arith);
      role_fits = fit_or_empty_short role_size (string_field c item (codes "role")) (omega arith);
    })

load_nodes-bounded :
    (c : CJson) (nodes : List ServerNodeDef) (items : List c.Json)
    → length nodes ≤ max_nodes
    → All FitsBuffers nodes
    → (length (load_nodes c nodes items) ≤ max_nodes) × All FitsBuffers (load_nodes c nodes items)
unfolding load_nodes
load_nodes-bounded c nodes [] h f = (h, f)
load_nodes-bounded c nodes (item ∷ items) h f = elim (Bool-cases (leb max_nodes (length nodes))) [
  | inl full ↦ rw (full, load_nodes) (h, f)
  | inr room ↦ elim (Option-cases (parse_node c item)) [
    | inl e ↦ rw (room, load_nodes, e) (load_nodes-bounded c nodes items h f)
    | inr (n, e) ↦
        rw (room, load_nodes, e)
          (load_nodes-bounded c (nodes ++ n ∷ []) items
            (omega (arith, length-append nodes (n ∷ []), leb-false→lt _ _ room))
            (All-append FitsBuffers nodes _ f (parse_node-FitsBuffers c item n e, tt)))
  ]
]

finish_load-IsBounded :
    (path uri : CString) (nodes : List ServerNodeDef)
    → length uri < namespace_max
    → length nodes ≤ max_nodes
    → All FitsBuffers nodes
    → IsBounded (finish_load path uri nodes)
unfolding finish_load
finish_load-IsBounded path uri [] u n f = seed_defaults-IsBounded path
finish_load-IsBounded path uri (d ∷ ds) u n f = record {
  namespace_fits = u;
  count_fits = n;
  nodes_fit = f;
  path_fits = fit_short config_path_max path (omega arith);
}

fit_or_short :
    (old : CString) (size : ℕ) (o : Option CString)
    → length old < size
    → length (fit_or old size o) < size
fit_or_short old size none h = h
fit_or_short old size (some s) h = fit_short size s (omega arith)

nodes_or-bounded :
    (c : CJson) (nodes : List ServerNodeDef) (o : Option (List c.Json))
    → length nodes ≤ max_nodes
    → All FitsBuffers nodes
    → (length (nodes_or c nodes o) ≤ max_nodes) × All FitsBuffers (nodes_or c nodes o)
nodes_or-bounded c nodes none n f = (n, f)
nodes_or-bounded c nodes (some items) n f = load_nodes-bounded c [] items (omega arith) tt

config_of_json-IsBounded :
    (c : CJson) (path : CString) (cfg : ServerConfig) (root : c.Json)
    → IsBounded cfg
    → IsBounded (config_of_json c path cfg root)
unfolding config_of_json
config_of_json-IsBounded c path cfg root b =
    let items = and_then (c.get_object_item root (codes "nodes")) c.array_items in
    let (n, f) = nodes_or-bounded c cfg.nodes items b.count_fits b.nodes_fit in
    finish_load-IsBounded path _ _
      (fit_or_short cfg.namespace_uri namespace_max (string_field c root (codes "namespaceUri"))
        b.namespace_fits)
      n f

read_config-IsBounded :
    (c : CJson) (env : Env) (st : Storage) (cfg : ServerConfig) (contents : CString)
    → IsBounded cfg
    → IsBounded (read_config c env st cfg contents).1
unfolding read_config
read_config-IsBounded c env st cfg contents b =
    let P : Bool × ServerConfig × Storage → Type 0 = λ r. IsBounded r.1 in
    if-either P (length contents == 0) b (
      if-either P (not (env.malloc (length contents + 1))) b (
        if-either P (not (env.fread (length contents) == length contents)) b
          (parsed (c.parse (until_nul contents)))))
  where
    parsed : (o : Option c.Json) → IsBounded (read_parsed c st cfg o).1
    parsed none = b
    parsed (some root) = config_of_json-IsBounded c st.g_config_path cfg root b

-- Whatever the file holds and whatever fails, the configuration that a load leaves fits its buffers
-- and arrays: at most 256 nodes, and every string shorter than its buffer.
pub load-IsBounded : (c : CJson) (env : Env) (st : Storage) → IsBounded (load c env st).1
unfolding load
load-IsBounded c env st0 =
    let st = init_path env st0 in
    let b = seed_defaults-IsBounded st.g_config_path in
    elim (Option-cases (st.files st.g_config_path)) [
      | inl e ↦ rw (e, load) b
      | inr (contents, e) ↦
          rw (e, load) (read_config-IsBounded c env st (seed_defaults st.g_config_path) contents b)
    ]
