-- ===== src/Gui/Window/RoundTrip.antt =====
-- A configuration that src/gui/MainWindow.cpp saves and loads again.
use mathlib.Core.Path.{ap₂}
use bo_smart_factory_opcua_t.Base.{
  ℕ, ◌≡◌, ◌≤◌, ◌<◌, ◌^◌, refl, ap, ◌∙◌, true, List, [], ◌∷◌, Option, none, some, map, arith, str_eq,
  str_eq_refl, non_empty,
}
use bo_smart_factory_opcua_t.Gui.Qt.{Text, Qt, QtLaws, QtJson, QtJsonLaws, first_value}
use bo_smart_factory_opcua_t.Gui.Mapping.{SensorMapping, quint8, to_json, from_json}
use bo_smart_factory_opcua_t.Gui.Mapping.RoundTrip.{from_json-to_json, without_node}
use bo_smart_factory_opcua_t.Gui.Window.{
  MainWindow, Row, mapping_of_row, mappings_from_table, row_of_mapping, show_mappings_in_table,
  type_of_item, trimmed_item, int_or_zero,
}
use bo_smart_factory_opcua_t.Gui.Window.Files.{
  Files, complete, set_port, config_root, on_save_config, load_root, load_parsed, on_load_config,
}

quint8_of_lt : (n : ℕ) → n < 2 ^ 8 → quint8 n ≡ n
quint8_of_lt n h = omega arith

quint8-lt : (n : ℕ) → quint8 n < 2 ^ 8
quint8-lt n = omega arith

type_of_item-lt : (qt : Qt) (o : Option Text) → type_of_item qt o < 2 ^ 8
type_of_item-lt qt none = quint8-lt 0
type_of_item-lt qt (some s) = quint8-lt (int_or_zero (qt.to_int s))

-- A mapping as the table gives it: its texts are trimmed, and it has no node id yet.
record IsRead (qt : Qt) (m : SensorMapping) : Type 0 where
  id_trimmed : qt.trimmed m.message_pack_id ≡ m.message_pack_id
  node_trimmed : qt.trimmed m.node_id_string ≡ m.node_id_string
  code_fits : m.type_code < 2 ^ 8
  no_node : without_node m ≡ m

module _ (qt : Qt) (laws : QtLaws qt) where
  trimmed_item_twice :
      (o : Option Text) → qt.trimmed [] ≡ [] → qt.trimmed (trimmed_item qt o) ≡ trimmed_item qt o
  trimmed_item_twice none e = e
  trimmed_item_twice (some s) e = laws.trimmed-trimmed s

  mapping_of_row-IsRead : (r : Row) → IsRead qt (mapping_of_row qt r)
  unfolding mapping_of_row
  mapping_of_row-IsRead r = record {
    id_trimmed = trimmed_item_twice r.id_item laws.trimmed-nil;
    node_trimmed = trimmed_item_twice r.node_item laws.trimmed-nil;
    code_fits = type_of_item-lt qt r.type_item;
    no_node = refl;
  }

  -- Shown in the table and read back.
  mapping_of_row-row_of_mapping :
      (m : SensorMapping) → IsRead qt m → mapping_of_row qt (row_of_mapping qt m) ≡ m
  unfolding mapping_of_row row_of_mapping
  mapping_of_row-row_of_mapping m h = ground (
    arith,
    h.id_trimmed,
    h.node_trimmed,
    h.no_node,
    laws.to_int-number m.type_code (omega (arith, h.code_fits)),
    quint8_of_lt m.type_code h.code_fits,
  )

  mappings_again :
      (rows : List Row)
      → mappings_from_table qt (show_mappings_in_table qt (mappings_from_table qt rows))
        ≡ mappings_from_table qt rows
  unfolding mappings_from_table show_mappings_in_table
  mappings_again [] = refl
  mappings_again (r ∷ rows) =
      ap₂ ◌∷◌ (mapping_of_row-row_of_mapping (mapping_of_row qt r) (mapping_of_row-IsRead r))
        (mappings_again rows)

  module _ (js : QtJson) (json : QtJsonLaws js) where
    mappings_in_json :
        (rows : List Row)
        → map (from_json js) (map (to_json js) (mappings_from_table qt rows))
          ≡ mappings_from_table qt rows
    unfolding mappings_from_table
    mappings_in_json [] = refl
    mappings_in_json (r ∷ rows) =
        ap₂ ◌∷◌
          (from_json-to_json js json (mapping_of_row qt r) (mapping_of_row-IsRead r).code_fits)
          (mappings_in_json rows)

    set_port_of_port : (n : ℕ) → 1 ≤ n → n ≤ 65535 → set_port n ≡ n
    unfolding set_port
    set_port_of_port n h k = ground arith

    -- What a window that loads the configuration of `w` is to show.
    abbrev pub loaded : MainWindow → MainWindow → MainWindow
    loaded w w0 = record w0 {
      endpoint = qt.trimmed w.endpoint;
      namespace = qt.trimmed w.namespace;
      port = w.port;
      rows = show_mappings_in_table qt (mappings_from_table qt w.rows);
    }

    load_root-config :
        (w w0 : MainWindow)
        → 1 ≤ w.port
        → w.port ≤ 65535
        → load_root qt js (config_root qt js w) w0 ≡ loaded w w0
    unfolding load_root config_root first_value str_eq
    load_root-config w w0 h k =
        simp
          (
            json.item-object,
            json.to_string-string,
            json.to_array-array,
            json.to_int-int w.port 9000 (omega (arith, k)),
            set_port_of_port w.port h k,
            mappings_in_json w.rows,
          )
          refl

    on_load_config-some :
        (path : Text) (files : Files) (w0 : MainWindow) (bytes : List ℕ) (root : js.Json)
        → non_empty path ≡ true
        → files path ≡ some bytes
        → js.from_json bytes ≡ some root
        → on_load_config qt js path files w0 ≡ (load_root qt js root w0, none)
    unfolding on_load_config load_parsed
    on_load_config-some path files w0 bytes root n e f =
        rw n (rw (e, on_load_config) (rw (f, load_parsed) refl))

    saved-file :
        (path : Text) (files : Files) (w : MainWindow)
        → non_empty path ≡ true
        → (on_save_config qt js path true complete w files).0 path
          ≡ some (js.to_json (config_root qt js w))
    unfolding on_save_config
    saved-file path files w n = rw n (rw (str_eq_refl path) refl)

    load-saved :
        (path : Text) (files : Files) (w w0 : MainWindow)
        → non_empty path ≡ true
        → 1 ≤ w.port
        → w.port ≤ 65535
        → js.from_json (js.to_json (config_root qt js w)) ≡ some (config_root qt js w)
        → on_load_config qt js path (on_save_config qt js path true complete w files).0 w0
          ≡ (loaded w w0, none)
    load-saved path files w w0 n h k parsed =
        on_load_config-some path (on_save_config qt js path true complete w files).0 w0
          (js.to_json (config_root qt js w)) (config_root qt js w) n (saved-file path files w n)
          parsed
        ∙ ap (λ (v : MainWindow). (v, none)) (load_root-config w w0 h k)

-- A configuration that is saved and loaded into any window comes back: the endpoint and the namespace
-- are the trimmed ones, the port is the same, and the table yields the same mappings, in order. The
-- file is asked to be writable and to be written whole, the port to be one that the spin box holds, and Qt to trim, to write
-- and read numbers, and to build and look up JSON as its documentation says, and to read the
-- document of this window as what was written.
pub on_load_config-on_save_config :
    (qt : Qt) (laws : QtLaws qt) (js : QtJson) (json : QtJsonLaws js) (path : Text) (files : Files)
    (w w0 : MainWindow)
    → non_empty path ≡ true
    → 1 ≤ w.port
    → w.port ≤ 65535
    → js.from_json (js.to_json (config_root qt js w)) ≡ some (config_root qt js w)
    → let saved = on_save_config qt js path true complete w files in
      let (w', warning) = on_load_config qt js path saved.0 w0 in
      (warning ≡ none)
      × (w'.endpoint ≡ qt.trimmed w.endpoint)
      × (w'.namespace ≡ qt.trimmed w.namespace)
      × (w'.port ≡ w.port)
      × (mappings_from_table qt w'.rows ≡ mappings_from_table qt w.rows)
on_load_config-on_save_config qt laws js json path files w w0 n h k parsed =
    let e = load-saved qt laws js json path files w w0 n h k parsed in
    rw e (refl, refl, refl, refl, mappings_again qt laws w.rows)
