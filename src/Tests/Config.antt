-- ===== src/Tests/Config.antt =====
-- The theorems about the configuration at concrete inputs.
use bo_smart_factory_opcua_t.Base.{
  ◌≡◌, ◌≢◌, ◌⊎◌, refl, sym, ap, inl, inr, true, false, [], ◌∷◌, none, some, arith, CString, codes,
  take, str_eq,
}
use bo_smart_factory_opcua_t.Config.{
  ServerConfig, ServerNodeDef, dt_boolean, dt_int32, kind_folder, kind_variable, IsBounded,
}
use bo_smart_factory_opcua_t.Config.Json.{CJson, config_to_json, node_to_json}
use bo_smart_factory_opcua_t.Config.Storage.{Storage, Env, save, load}
use bo_smart_factory_opcua_t.Config.Storage.Save.{save_atomic, save_truncates}
use bo_smart_factory_opcua_t.Config.Storage.Load.{load-IsBounded}
use bo_smart_factory_opcua_t.Config.Storage.Restore.{load-save}
use bo_smart_factory_opcua_t.Tests.Json.{Value, flag, tiny_json, tiny_laws}

abbrev pub no_faults : Env
no_faults = record {
  getenv = λ _. none;
  malloc = λ _. true;
  fread = λ n. n;
  fopen_write = λ _. true;
  fwrite = λ n. n;
  fclose = λ n. n;
  rename = true;
}

-- The disk takes one byte.
abbrev full_disk : Env
full_disk = record no_faults { fclose = λ _. 1 }

abbrev pub no_files : Storage
no_files = record { g_config_path = codes "cfg.json"; files = λ _. none }

abbrev pub folder : ServerNodeDef
folder = record {
  kind = kind_folder;
  browse_name = codes "Sensors";
  display_name = codes "Sensors";
  parent_browse_name = [];
  data_type = dt_boolean;
  simulation = false;
  role = [];
}

abbrev pub counter : ServerNodeDef
counter = record {
  kind = kind_variable;
  browse_name = codes "Count";
  display_name = codes "Parts";
  parent_browse_name = codes "Sensors";
  data_type = dt_int32;
  simulation = false;
  role = [];
}

abbrev pub plant : ServerConfig
plant = record {
  namespace_uri = codes "urn:plant";
  nodes = folder ∷ counter ∷ [];
  config_path = codes "cfg.json";
}

abbrev printed : CString
printed = codes "{}"

pub document : Value
unfolding config_to_json
document = config_to_json (tiny_json printed (flag true)) plant

abbrev pub plant_json : CJson
plant_json = tiny_json printed document

document_lem : config_to_json plant_json plant ≡ document
unfolding document config_to_json node_to_json
document_lem = refl

load-save_example :
    (st' : Storage) × (save plant_json no_faults no_files plant ≡ (true, st'))
    × (load plant_json no_faults st' ≡ (true, record plant { config_path = codes "cfg.json" }, st'))
unfolding str_eq
load-save_example =
    load-save plant_json (tiny_laws printed document) no_faults no_files plant printed (omega arith)
      (inr refl, (inl refl, tt)) (λ h. cc) (omega arith)
      (record {
        no_variable = refl;
        malloc_gives = λ _. refl;
        fread_reads = λ _. refl;
        fopen_opens = λ _. refl;
        fwrite_takes = λ _. refl;
        fclose_keeps = λ _. refl;
        rename_renames = refl;
      })
      refl (ap some (sym document_lem)) (omega arith) (omega arith)

save_atomic_example :
    let r = save plant_json no_faults no_files plant in
    ((text : CString) × (r.0 ≡ true)
      × (plant_json.print (config_to_json plant_json plant) ≡ some text)
      × (r.1.files (codes "cfg.json") ≡ some text))
    ⊎ ((r.0 ≡ false) × (r.1.files (codes "cfg.json") ≡ none))
save_atomic_example = save_atomic plant_json no_faults no_files plant (omega arith) (λ _. refl)

save_truncates_example :
    let r = save plant_json full_disk no_files plant in
    (r.0 ≡ true)
    × (r.1.files (codes "cfg.json") ≡ some (take 1 printed))
    × (take 1 printed ≢ printed)
save_truncates_example =
    save_truncates plant_json full_disk no_files plant printed (omega arith) refl refl refl refl
      (omega arith)

load-IsBounded_example : IsBounded (load plant_json no_faults no_files).1
load-IsBounded_example = load-IsBounded plant_json no_faults no_files
