-- ===== src/Gui/Window/Files.antt =====
-- The configuration files of src/gui/MainWindow.cpp: saving, loading, and both without asking.
use bo_smart_factory_opcua_t.Base.{
  ℕ, ◌^◌, Bool, true, false, not, ◌&&◌, List, [], ◌∷◌, Option, none, some, codes, if◌then◌else◌,
  non_empty, map, str_eq, leb, ltb, and_then,
}
use bo_smart_factory_opcua_t.Gui.Qt.{Text, Qt, QtJson}
use bo_smart_factory_opcua_t.Gui.Mapping.{SensorMapping, to_json, from_json}
use bo_smart_factory_opcua_t.Gui.Window.{MainWindow, mappings_from_table, show_mappings_in_table}

-- The contents of the files.
abbrev pub Files : Type 0
Files = Text → Option (List ℕ)

-- A write that puts out all.
abbrev pub complete : List ℕ → List ℕ
complete bytes = bytes

abbrev pub overwrite : Files → Text → List ℕ → Files
overwrite files path bytes other = if str_eq path other then some bytes else files other

pub data Warning : Type 0 where
  could_not_write could_not_open invalid_json : Warning

-- QSpinBox::setValue in the range 1 to 65535, for an int as its pattern of 32 bits.
unfoldable pub set_port : ℕ → ℕ
set_port value =
    if leb (2 ^ 31) value
    then 1
    else if ltb value 1
    then 1
    else if ltb 65535 value
    then 65535
    else value

abbrev pub has_mappings : List SensorMapping → Bool
has_mappings [] = false
has_mappings (m ∷ ms) = true

module _ (qt : Qt) (js : QtJson) where
  unfoldable pub config_root : MainWindow → js.Json
  config_root w = js.object (
      (codes "endpointUrl", js.string (qt.trimmed w.endpoint))
      ∷ (codes "namespaceUri", js.string (qt.trimmed w.namespace))
      ∷ (codes "tcpPort", js.int w.port)
      ∷ (codes "mappings", js.array (map (to_json js) (mappings_from_table qt w.rows)))
      ∷ [])

  unfoldable pub config_document : MainWindow → List ℕ
  unfolding config_root
  config_document w = js.to_json (config_root w)

  -- onSaveConfig, with the path that was chosen, whether it can be opened, and what write() gets out
  -- of the document, which is not looked at.
  unfoldable pub on_save_config :
      Text → Bool → (List ℕ → List ℕ) → MainWindow → Files → Files × Option Warning
  unfolding config_document
  on_save_config path opens write w files =
      if not (non_empty path)
      then (files, none)
      else if not opens
      then (files, some could_not_write)
      else (overwrite files path (write (config_document w)), none)

  abbrev pub mappings_of : js.Json → List SensorMapping
  mappings_of root = map (from_json js) (js.to_array (js.item root (codes "mappings")))

  -- onLoadConfig behind the parser.
  unfoldable pub load_root : js.Json → MainWindow → MainWindow
  load_root root w = record w {
    endpoint = js.to_string (js.item root (codes "endpointUrl")) [];
    namespace = js.to_string (js.item root (codes "namespaceUri")) [];
    port = set_port (js.to_int (js.item root (codes "tcpPort")) 9000);
    rows = show_mappings_in_table qt (mappings_of root);
  }

  unfoldable pub load_parsed : Option js.Json → MainWindow → MainWindow × Option Warning
  unfolding load_root
  load_parsed none w = (w, some invalid_json)
  load_parsed (some root) w = (load_root root w, none)

  -- onLoadConfig behind the dialog, with what the file holds; `none` cannot be opened.
  unfoldable pub load_file : Option (List ℕ) → MainWindow → MainWindow × Option Warning
  unfolding load_parsed
  load_file none w = (w, some could_not_open)
  load_file (some bytes) w = load_parsed (js.from_json bytes) w

  -- onLoadConfig, with the path that was chosen.
  unfoldable pub on_load_config : Text → Files → MainWindow → MainWindow × Option Warning
  unfolding load_file
  on_load_config path files w = if not (non_empty path) then (w, none) else load_file (files path) w

  -- autoSaveConfig, with what autoSaveFilePath returns, and with write() as above.
  unfoldable pub auto_save_config : Text → Bool → (List ℕ → List ℕ) → MainWindow → Files → Files
  unfolding config_document
  auto_save_config path opens write w files =
      if non_empty path && opens then overwrite files path (write (config_document w)) else files

  -- autoLoadConfig behind the parser: what the file does not say stays as it was.
  unfoldable pub auto_load_root : js.Json → MainWindow → MainWindow
  auto_load_root root w = record w {
    endpoint = js.to_string (js.item root (codes "endpointUrl")) w.endpoint;
    namespace = js.to_string (js.item root (codes "namespaceUri")) w.namespace;
    port = set_port (js.to_int (js.item root (codes "tcpPort")) w.port);
    rows =
        if has_mappings (mappings_of root)
        then show_mappings_in_table qt (mappings_of root)
        else w.rows;
  }

  unfoldable pub auto_load_config : Text → Files → MainWindow → MainWindow
  unfolding auto_load_root
  auto_load_config path files w =
      if not (non_empty path) then w else elim (and_then (files path) js.from_json) [
        | none ↦ w
        | some root ↦ auto_load_root root w
      ]

-- autoSaveFilePath, with the location for configurations and QDir::filePath of it: an empty path
-- where there is none. That the folder is made is left out.
unfoldable pub auto_save_file_path : Text → (Text → Text) → Text
auto_save_file_path config_dir file_path =
    if non_empty config_dir then file_path (codes "autosave.json") else []
