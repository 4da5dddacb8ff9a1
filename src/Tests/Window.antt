-- ===== src/Tests/Window.antt =====
-- The theorems about src/gui's browser, dialog and window, and about the end of main, at concrete
-- inputs.
use mathlib.Core.List.{Memᴰ}
use mathlib.Core.List.Memᴰ
use bo_smart_factory_opcua_t.Base.{
  ℕ, ◌≡◌, ◌↔◌, ◌<◌, refl, true, false, List, [], ◌∷◌, none, some, arith, codes, str_eq,
  if◌then◌else◌, ◌==◌, Bool, subst, sym, ap, ◌∙◌, Bool-cases, inl, inr,
}
use bo_smart_factory_opcua_t.Nodes.BrowseMap.{NodeId, string, numeric}
use bo_smart_factory_opcua_t.Nodes.Server.{good}
use bo_smart_factory_opcua_t.Gui.Browser.{
  AddressSpace, Reference, DiscoveredNode, object, variable, browse_recursive, references_of,
}
use bo_smart_factory_opcua_t.Gui.Browser.Reaching.{Adds, references}
use bo_smart_factory_opcua_t.Gui.Browser.Returning.{browse_recursive-Returns}
use bo_smart_factory_opcua_t.Gui.Browser.Endless.{browse_recursive-endless}
use bo_smart_factory_opcua_t.Gui.Dialog.{
  NodeSelectionDialog, combo_item, selected_browse_name, selected_node_id_string,
}
use bo_smart_factory_opcua_t.Gui.Dialog.Selecting.{find_parenthesis, selected_browse_name_iff}
use bo_smart_factory_opcua_t.Gui.Engine.{Connecting, set_mappings, connect_to_opc_ua, start_bridge}
use bo_smart_factory_opcua_t.Gui.Mapping.{to_json, set_node_id, parse_node_id}
use bo_smart_factory_opcua_t.Gui.Window.{MainWindow, Row, set_up, mappings_from_table}
use bo_smart_factory_opcua_t.Gui.Window.Files.{
  Files, complete, on_save_config, on_load_config, config_root,
}
use bo_smart_factory_opcua_t.Gui.Window.RoundTrip.{on_load_config-on_save_config}
use bo_smart_factory_opcua_t.Gui.Window.Validating.{
  validate_mappings, Distinct, validate_mappings_iff,
}
use bo_smart_factory_opcua_t.Gui.Frame.{enabled_mappings}
use bo_smart_factory_opcua_t.Gui.Window.Buttons.{
  opened, here, next, click_connect, click_start, load, on_connect, on_start_bridge,
  configure_engine,
}
use bo_smart_factory_opcua_t.Gui.Window.Reaching.{IsWindow, Reach-IsWindow}
use bo_smart_factory_opcua_t.Program.Ending.{quiet, restart_request, entering, main_loop}
use bo_smart_factory_opcua_t.Program.Returning.{EndedWithin, main_loop_ends}
use bo_smart_factory_opcua_t.Tests.Json.{Value}
use bo_smart_factory_opcua_t.Tests.Qt.{
  tiny_qt, tiny-QtLaws, tiny_qt_json, tiny-QtJsonLaws, missing, tagged_pack,
}

-- An object with a variable, in the objects folder; the object 9 is its own child.
abbrev sensors : Reference
sensors = record {
  node_class = object;
  node_id = numeric 2 1;
  browse_name = codes "Sensors";
  display_name = [];
}

abbrev sensor : Reference
sensor = record {
  node_class = variable;
  node_id = numeric 2 3;
  browse_name = codes "S (1)";
  display_name = [];
}

abbrev itself : Reference
itself = record {
  node_class = object;
  node_id = numeric 2 9;
  browse_name = codes "Loop";
  display_name = [];
}

abbrev refs_of : NodeId → List Reference
refs_of (numeric ns n) =
    if n == 85
    then sensors ∷ []
    else if n == 1
    then sensor ∷ []
    else if n == 9
    then itself ∷ []
    else []
refs_of (string ns s) = []

abbrev plant : AddressSpace
plant = record {
  browse = λ id. record { service_result = good; results = (good, refs_of id) ∷ [] };
  print = λ id. codes "ns=2;i=1";
}

-- Without the object 9.
abbrev small_refs : NodeId → List Reference
small_refs (numeric ns n) = if n == 85 then sensors ∷ [] else if n == 1 then sensor ∷ [] else []
small_refs (string ns s) = []

abbrev tree : AddressSpace
tree = record plant {
  browse = λ id. record { service_result = good; results = (good, small_refs id) ∷ [] };
}

abbrev rank : NodeId → ℕ
rank (numeric ns n) = if n == 85 then 1 else 0
rank (string ns s) = 0

browse_recursive-endless_example : browse_recursive tiny_qt plant 100 (numeric 2 9) [] ≡ none
unfolding references_of
browse_recursive-endless_example =
    browse_recursive-endless tiny_qt plant (λ id. id ≡ numeric 2 9)
      (λ id p. (
        itself,
        subst (λ i. Memᴰ itself (references tiny_qt plant i)) (sym p) (Memᴰ.head refl),
        refl,
        refl,
      ))
      100 (numeric 2 9) [] refl

variable_ref : variable ≡ object → ⊥
variable_ref e = cc

falls :
    (id : NodeId) (ref : Reference)
    → Memᴰ ref (references tiny_qt tree id)
    → ref.node_class ≡ object
    → rank ref.node_id < rank id
unfolding references_of
falls (numeric ns n) ref m c = elim (Bool-cases (n == 85)) [
  | inl e ↦
      let m' : Memᴰ ref (sensors ∷ []) = rw e at m in rw (e, Memᴰ.eq_of_singleton m') (omega arith)
  | inr e ↦ elim (Bool-cases (n == 1)) [
    | inl f ↦
        let m' : Memᴰ ref (sensor ∷ []) = rw (e, f) at m in
        absurd
          (variable_ref (ap (λ (r : Reference). r.node_class) (sym (Memᴰ.eq_of_singleton m')) ∙ c))
    | inr f ↦ let m' : Memᴰ ref [] = rw (e, f) at m in absurd (Memᴰ.not-nil m')
  ]
]
falls (string ns s) ref m c = absurd (Memᴰ.not-nil m)

browse_recursive-Returns_example :
    (r : Bool × List DiscoveredNode) × (browse_recursive tiny_qt tree 2 (numeric 0 85) [] ≡ some r)
    × Adds tiny_qt tree (references tiny_qt tree (numeric 0 85)) [] r.1
browse_recursive-Returns_example =
    browse_recursive-Returns tiny_qt tree rank falls 2 (numeric 0 85) (omega arith) []

-- The node of the sensor, selected in a dialog.
abbrev node : DiscoveredNode
node = record {
  browse_name = codes "S (1)";
  display_name = codes "S";
  node_id_string = codes "ns=2;i=1";
  node_class = variable;
}

abbrev dialog : NodeSelectionDialog
dialog = record {
  endpoint_url = codes "u";
  namespace_uri = codes "n";
  nodes = node ∷ [];
  filtered_nodes = [];
  combo = combo_item node ∷ [];
  current = some 0;
  ok_enabled = true;
}

selected_browse_name_iff_example :
    (selected_node_id_string dialog ≡ codes "ns=2;i=1")
    × ((selected_browse_name tiny_qt dialog ≡ codes "S (1)")
        ↔ (find_parenthesis (codes "S (1)") ≡ none))
selected_browse_name_iff_example = selected_browse_name_iff tiny_qt dialog node (λ s. refl) refl

abbrev row : Row
row = record {
  check = some false;
  id_item = some (codes "Q1");
  node_item = some (codes "ns=2;s=Sensor1");
  type_item = some (3 ∷ []);
}

abbrev window : MainWindow
window = record set_up { rows = row ∷ row ∷ [] }

abbrev document : Value
document = config_root tiny_qt (tiny_qt_json [] missing) window

abbrev no_files : Files
no_files path = none

on_load_config-on_save_config_example :
    let js = tiny_qt_json (codes "saved") document in
    let saved = on_save_config tiny_qt js (codes "a.json") true complete window no_files in
    let (w', warning) = on_load_config tiny_qt js (codes "a.json") saved.0 set_up in
    (warning ≡ none)
    × (w'.endpoint ≡ codes "opc.tcp://localhost:4840")
    × (w'.namespace ≡ codes "urn:binary-sensors-demo")
    × (w'.port ≡ 9000)
    × (mappings_from_table tiny_qt w'.rows ≡ mappings_from_table tiny_qt (row ∷ row ∷ []))
unfolding config_root str_eq to_json
on_load_config-on_save_config_example =
    on_load_config-on_save_config tiny_qt tiny-QtLaws (tiny_qt_json (codes "saved") document)
      (tiny-QtJsonLaws (codes "saved") document) (codes "a.json") no_files window set_up refl
      (omega arith) (omega arith) refl

validate_mappings_iff_example :
    (validate_mappings tiny_qt (row ∷ row ∷ []) ≡ none)
    ↔ Distinct [] (enabled_mappings (mappings_from_table tiny_qt (row ∷ row ∷ [])))
validate_mappings_iff_example = validate_mappings_iff tiny_qt (row ∷ row ∷ [])

-- The window above, connected and started; then a file is loaded while the bridge runs.
abbrev answers : Connecting
answers = record { created = true; connect = good; namespace_get_index = (good, 2) }

abbrev connected : MainWindow
connected = on_connect tiny_qt answers (opened window)

abbrev started : MainWindow
started = on_start_bridge tiny_qt answers true connected

abbrev loaded : MainWindow
loaded =
    (on_load_config tiny_qt (tiny_qt_json (codes "saved") document) (codes "a.json")
      (λ path. some (codes "saved")) started).0

loaded_runs : loaded.stop_enabled ≡ true
unfolding on_connect on_start_bridge configure_engine connect_to_opc_ua set_mappings
    mappings_from_table set_node_id parse_node_id str_eq on_load_config start_bridge
loaded_runs = refl

Reach-IsWindow_example : IsWindow loaded
unfolding on_connect on_start_bridge configure_engine connect_to_opc_ua set_mappings
    mappings_from_table set_node_id parse_node_id str_eq
Reach-IsWindow_example =
    Reach-IsWindow tagged_pack tiny_qt (tiny_qt_json (codes "saved") document) window refl (
      next (next (next here (click_connect answers refl)) (click_start answers true refl))
        (load (codes "a.json") (λ path. some (codes "saved"))))

main_loop_ends_example : EndedWithin 2 (
    main_loop entering 0 (
      record { before_while = quiet; before_test = quiet }
      ∷ record { before_while = quiet; before_test = restart_request }
      ∷ record { before_while = quiet; before_test = quiet }
      ∷ []))
main_loop_ends_example =
    main_loop_ends (record { before_while = quiet; before_test = quiet } ∷ [])
      (record { before_while = quiet; before_test = restart_request })
      (record { before_while = quiet; before_test = quiet }) [] ((refl, refl), tt) refl
