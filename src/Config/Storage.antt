-- ===== src/Config/Storage.antt =====
-- server_config_init_path, server_config_resolve_namespace_uri, server_config_load and
-- server_config_save of src/server_config.c, over the files and the C library's answers.
pub mod Save
pub mod Load
pub mod Restore
use bo_smart_factory_opcua_t.Base.{
  ℕ, suc, ◌+◌, ◌≡◌, Bool, true, false, not, List, [], ◌∷◌, ◌++◌, Option, none, some, CString, codes,
  str_eq, fit, non_empty, until_nul, and_then, if◌then◌else◌, length, take, ◌==◌,
}
use bo_smart_factory_opcua_t.Config.{ServerConfig, ServerNodeDef, namespace_max, config_path_max}
use bo_smart_factory_opcua_t.Config.Seed.{seed_defaults}
use bo_smart_factory_opcua_t.Config.Json.{CJson, config_to_json, load_nodes, string_field}

-- The global g_configPath, and the contents of the files.
pub record Storage : Type 0 where
  pub g_config_path : CString
  pub files : CString → Option CString

-- What the C library and the system answer.
pub record Env : Type 0 where
  pub getenv : CString → Option CString
  pub malloc : ℕ → Bool
  -- the bytes that fread reads, of those asked for
  pub fread : ℕ → ℕ
  -- whether fopen(path, "wb") succeeds; it empties the file
  pub fopen_write : CString → Bool
  -- the bytes that fwrite takes, of those given
  pub fwrite : ℕ → ℕ
  -- the bytes that are in the file after fclose, of those that fwrite took
  pub fclose : ℕ → ℕ
  pub rename : Bool

abbrev pub update : (CString → Option CString) → CString → Option CString → CString → Option CString
update files p v q = if str_eq p q then v else files q

abbrev pub path_variable : CString
path_variable = codes "OPCUA_SERVER_CONFIG_PATH"

abbrev pub default_path : CString
default_path = codes "./server-config.json"

abbrev pub default_namespace : CString
default_namespace = codes "urn:binary-sensors-demo"

-- A variable that is set and not empty.
abbrev pub set_variable : Env → CString → Option CString
set_variable env name = and_then (env.getenv name) λ s. if non_empty s then some s else none

unfoldable pub init_path : Env → Storage → Storage
init_path env st = elim (set_variable env path_variable) [
  | none ↦ st
  | some s ↦ record st { g_config_path = fit config_path_max s }
]

unfoldable pub resolve_namespace_uri : Env → Option ServerConfig → CString
resolve_namespace_uri env cfg = elim (set_variable env (codes "OPCUA_NAMESPACE_URI")) [
  | some s ↦ s
  | none ↦ elim cfg [
    | none ↦ default_namespace
    | some c ↦ if non_empty c.namespace_uri then c.namespace_uri else default_namespace
  ]
]

abbrev pub tmp_path : Storage → CString
tmp_path st = fit (config_path_max + 8) (st.g_config_path ++ codes ".tmp")

-- The file work of server_config_save. The result of fclose is not looked at.
unfoldable pub write_file : Env → Storage → CString → Bool × Storage
write_file env st text =
    if not (env.fopen_write (tmp_path st))
    then (false, st)
    else let len = length text in
      let written = env.fwrite len in
      let st' : Storage = record st {
        files =
            update st.files (tmp_path st) (some (take (env.fclose written) (take written text)));
      } in
      if not (written == len) then (false, st') else if not env.rename then (false, st') else (
        true,
        record st' {
          files =
              update (update st'.files st.g_config_path (st'.files (tmp_path st))) (tmp_path st)
                none;
        },
      )

abbrev pub fit_or : CString → ℕ → Option CString → CString
fit_or old size none = old
fit_or old size (some s) = fit size s

-- The end of server_config_load: an empty node list is replaced by the seed, the namespace too.
unfoldable pub finish_load : CString → CString → List ServerNodeDef → ServerConfig
finish_load path uri [] = seed_defaults path
finish_load path uri (n ∷ ns) = record {
  namespace_uri = uri;
  nodes = n ∷ ns;
  config_path = fit config_path_max path;
}

module _ (c : CJson) where
  unfoldable pub save : Env → Storage → ServerConfig → Bool × Storage
  unfolding write_file
  save env st cfg = elim (c.print (config_to_json c cfg)) [
    | none ↦ (false, st)
    | some text ↦ write_file env st text
  ]

  abbrev pub namespace_of_json : ServerConfig → c.Json → CString
  namespace_of_json cfg root =
      fit_or cfg.namespace_uri namespace_max (string_field c root (codes "namespaceUri"))

  abbrev pub nodes_or : List ServerNodeDef → Option (List c.Json) → List ServerNodeDef
  nodes_or nodes none = nodes
  nodes_or nodes (some items) = load_nodes c [] items

  abbrev pub nodes_of_json : ServerConfig → c.Json → List ServerNodeDef
  nodes_of_json cfg root =
      nodes_or cfg.nodes (and_then (c.get_object_item root (codes "nodes")) c.array_items)

  -- From the parsed document to the configuration, over the seeded one.
  unfoldable pub config_of_json : CString → ServerConfig → c.Json → ServerConfig
  unfolding finish_load
  config_of_json path cfg root =
      finish_load path (namespace_of_json cfg root) (nodes_of_json cfg root)

  unfoldable pub read_parsed :
      Storage → ServerConfig → Option c.Json → Bool × ServerConfig × Storage
  unfolding config_of_json
  read_parsed st cfg none = (false, cfg, st)
  read_parsed st cfg (some root) = (true, config_of_json st.g_config_path cfg root, st)

  -- The part of server_config_load behind a successful fopen.
  unfoldable pub read_config :
      Env → Storage → ServerConfig → CString → Bool × ServerConfig × Storage
  unfolding save read_parsed
  read_config env st cfg contents =
      let sz = length contents in
      if sz == 0
      then (true, cfg, (save env st cfg).1)
      else if not (env.malloc (sz + 1))
      then (false, cfg, st)
      else if not (env.fread sz == sz)
      then (false, cfg, st)
      else read_parsed st cfg (c.parse (until_nul contents))

  -- The result, the configuration that it leaves, and the state.
  unfoldable pub load : Env → Storage → Bool × ServerConfig × Storage
  unfolding init_path read_config
  load env st0 =
      let st = init_path env st0 in
      let cfg = seed_defaults st.g_config_path in
      elim (st.files st.g_config_path) [
        | none ↦ (true, cfg, (save env st cfg).1)
        | some contents ↦ read_config env st cfg contents
      ]
