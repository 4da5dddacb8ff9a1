-- ===== src/Config/Storage/Restore.antt =====
-- server_config_load of what server_config_save has written.
use bo_smart_factory_opcua_t.Base.{
  ℕ, ◌+◌, ◌<◌, ◌≡◌, ◌≢◌, refl, true, List, [], ◌∷◌, none, some, arith, CString, codes, str_eq,
  fit_of_short, until_nul, until_nul_of_NoNul, NoNul, length, take_of_length-le, ◌∙◌, All, map,
}
use bo_smart_factory_opcua_t.Config.{
  ServerConfig, ServerNodeDef, IsBounded, config_path_max, namespace_max,
}
use bo_smart_factory_opcua_t.Config.Seed.{seed_defaults}
use bo_smart_factory_opcua_t.Config.Json.{
  CJson, CJsonLaws, config_to_json, node_to_json, string_field, first_field,
}
use bo_smart_factory_opcua_t.Config.Json.RoundTrip.{HasWrittenType, load_nodes-map}
use bo_smart_factory_opcua_t.Config.Storage.{
  Storage, Env, set_variable, path_variable, tmp_path, save, config_of_json, load, finish_load,
}
use bo_smart_factory_opcua_t.Config.Storage.Save.{save_ok, saved_files, saved_files-path}

-- The load of a file that can be read in full and parsed.
pub load_parsed :
    (c : CJson) (env : Env) (st : Storage) (contents : CString) (root : c.Json)
    → set_variable env path_variable ≡ none
    → st.files st.g_config_path ≡ some contents
    → 0 < length contents
    → env.malloc (length contents + 1) ≡ true
    → env.fread (length contents) ≡ length contents
    → c.parse (until_nul contents) ≡ some root
    → load c env st
      ≡ (true, config_of_json c st.g_config_path (seed_defaults st.g_config_path) root, st)
unfolding load
load_parsed c env st contents root v f l m r p = ground arith

string_field-config_to_json :
    (c : CJson) (laws : CJsonLaws c) (cfg : ServerConfig)
    → string_field c (config_to_json c cfg) (codes "namespaceUri") ≡ some cfg.namespace_uri
unfolding config_to_json first_field str_eq
string_field-config_to_json c laws cfg =
    rw laws.get_object_item-object (laws.string_value-string cfg.namespace_uri)

nodes-config_to_json :
    (c : CJson) (laws : CJsonLaws c) (cfg : ServerConfig)
    → c.get_object_item (config_to_json c cfg) (codes "nodes")
      ≡ some (c.array (map (node_to_json c) cfg.nodes))
unfolding config_to_json first_field str_eq
nodes-config_to_json c laws cfg = rw laws.get_object_item-object

finish_load_lem :
    (path uri : CString) (nodes : List ServerNodeDef)
    → nodes ≢ []
    → length path < config_path_max
    → finish_load path uri nodes ≡ record { namespace_uri = uri; nodes = nodes; config_path = path }
unfolding finish_load
finish_load_lem path uri [] e l = absurd (e refl)
finish_load_lem path uri (n ∷ ns) e l = rw (fit_of_short config_path_max path l)

-- Nothing fails, and no variable sets the path.
pub record NoFaults (env : Env) : Type 0 where
  pub no_variable : set_variable env path_variable ≡ none
  pub malloc_gives : (n : ℕ) → env.malloc n ≡ true
  pub fread_reads : (n : ℕ) → env.fread n ≡ n
  pub fopen_opens : (p : CString) → env.fopen_write p ≡ true
  pub fwrite_takes : (n : ℕ) → env.fwrite n ≡ n
  pub fclose_keeps : (n : ℕ) → env.fclose n ≡ n
  pub rename_renames : env.rename ≡ true

config_of_json-config_to_json :
    (c : CJson) (laws : CJsonLaws c) (path : CString) (seeded cfg : ServerConfig)
    → IsBounded cfg
    → All HasWrittenType cfg.nodes
    → cfg.nodes ≢ []
    → length path < config_path_max
    → config_of_json c path seeded (config_to_json c cfg) ≡ record cfg { config_path = path }
unfolding config_of_json
config_of_json-config_to_json c laws path seeded cfg b w e l =
    rw
      (
        string_field-config_to_json c laws cfg,
        nodes-config_to_json c laws cfg,
        laws.array_items-array (map (node_to_json c) cfg.nodes),
        load_nodes-map c laws [] cfg.nodes (omega (arith, b.count_fits)) b.nodes_fit w,
        fit_of_short namespace_max cfg.namespace_uri b.namespace_fits,
      )
      (finish_load_lem path cfg.namespace_uri cfg.nodes e l)

-- A configuration that is saved and then loaded by a process with the same path, with no fault on
-- the way, comes back as it was, with `configPath` set to the path: namespace, nodes and order. It
-- is asked to fit its buffers, to have a node, and to give a node that is no variable the default
-- data type; cJSON is asked to print the document as a non-empty C string that parses to it.
pub load-save :
    (c : CJson) (laws : CJsonLaws c) (env : Env) (st : Storage) (cfg : ServerConfig)
    (text : CString)
    → IsBounded cfg
    → All HasWrittenType cfg.nodes
    → cfg.nodes ≢ []
    → length st.g_config_path < config_path_max
    → NoFaults env
    → c.print (config_to_json c cfg) ≡ some text
    → c.parse text ≡ some (config_to_json c cfg)
    → NoNul text
    → 0 < length text
    → (st' : Storage) × (save c env st cfg ≡ (true, st'))
      × (load c env st' ≡ (true, record cfg { config_path = st.g_config_path }, st'))
load-save c laws env st cfg text b w e l ok printed parsed nul pos =
    let st' : Storage = record st { files = saved_files env st text } in
    let kept = ok.fclose_keeps (length text) in
    let stored : st'.files st.g_config_path ≡ some text =
      saved_files-path env st text l
      ∙ rw (kept, take_of_length-le (length text) text (omega arith)) in
    (
      st',
      save_ok c env st cfg text printed (ok.fopen_opens (tmp_path st))
          (ok.fwrite_takes (length text)) ok.rename_renames,
      load_parsed c env st' text (config_to_json c cfg) ok.no_variable stored pos
            (ok.malloc_gives (length text + 1)) (ok.fread_reads (length text))
            (rw (until_nul_of_NoNul text nul) parsed)
          ∙ rw (config_of_json-config_to_json c laws st.g_config_path _ cfg b w e l),
    )
