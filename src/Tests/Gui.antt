-- ===== src/Tests/Gui.antt =====
-- The theorems about src/gui's engine and frames at concrete inputs.
use bo_smart_factory_opcua_t.Base.{
  ◌≡◌, ◌↔◌, refl, true, false, List, [], ◌∷◌, ◌++◌, none, some, arith, codes, length, map, ◌==◌,
}
use bo_smart_factory_opcua_t.Nodes.BrowseMap.{string, numeric}
use bo_smart_factory_opcua_t.Nodes.Server.{good, bad_invalid_argument}
use bo_smart_factory_opcua_t.Bridge.Clients.Accounting.{count}
use bo_smart_factory_opcua_t.Gui.Mapping.{SensorMapping}
use bo_smart_factory_opcua_t.Gui.Frame.{
  ReadValue, boolean, int32, frame_bytes, enabled_mappings, message_id,
}
use bo_smart_factory_opcua_t.Gui.Frame.Items.{read_items, frame_items}
use bo_smart_factory_opcua_t.Gui.Frame.Decode.{read_items-frame_bytes}
use bo_smart_factory_opcua_t.Gui.Engine.{
  Engine, new_engine, Connecting, connect_to_opc_ua, stop_bridge, client_count_changed,
  status_changed, running_on_port, running_with_clients, opc_ua_connected,
}
use bo_smart_factory_opcua_t.Gui.Engine.Events.{
  Tick, Event, configure, connect, start, accept, tick, run,
}
use bo_smart_factory_opcua_t.Gui.Engine.Invariant.{IsEngine, run-IsEngine_new}
use bo_smart_factory_opcua_t.Gui.Engine.Stopping.{
  IsStopped, stop_bridge-IsStopped, stop_bridge_undefined,
}
use bo_smart_factory_opcua_t.Gui.Engine.Resolving.{CanConnect, connected-connect_to_opc_ua}
use bo_smart_factory_opcua_t.Gui.Engine.Losing.{IsLost, SameOutput, run-IsLost}
use bo_smart_factory_opcua_t.Gui.Engine.Serving.{IsServing, sent_to, frames_of, run-ticks}
use bo_smart_factory_opcua_t.Tests.Pack.{tiny_pack, tiny-MsgPackSizes}
use bo_smart_factory_opcua_t.Tests.Qt.{tiny_qt, tagged_pack, tagged_reader, tagged-ReadsItems}

abbrev switch : SensorMapping
switch = record {
  message_pack_id = codes "Q1";
  node_id_string = codes "ns=2;s=Sensor1";
  type_code = 0;
  enabled = true;
  node_id = string 2 (codes "Sensor1");
}

abbrev level : SensorMapping
level = record {
  message_pack_id = [];
  node_id_string = codes "ns=2;s=Level";
  type_code = 1;
  enabled = true;
  node_id = string 2 (codes "Level");
}

abbrev hidden : SensorMapping
hidden = record switch { enabled = false }

abbrev three : List SensorMapping
three = switch ∷ hidden ∷ level ∷ []

-- Numbers cannot be read here, and a string is true.
abbrev read : ReadValue
read (numeric ns n) = (bad_invalid_argument, none)
read (string ns s) = (good, some (boolean true))

-- Minus five, everywhere.
abbrev cold : ReadValue
cold id = (good, some (int32 4294967291))

read_items-frame_bytes_example :
    read_items tagged_reader
      (length (frame_items tiny_qt cold three 7 1000))
      (frame_bytes tagged_pack tiny_qt cold three 7 1000 ++ 9 ∷ [])
    ≡ some (frame_items tiny_qt cold three 7 1000, 9 ∷ [])
unfolding enabled_mappings message_id
read_items-frame_bytes_example =
    read_items-frame_bytes tagged_pack tagged_reader tagged-ReadsItems tiny_qt cold three 7 1000
      (9 ∷ [])
      (
        record { name_fits = omega arith; code_fits = omega arith; value_fits = omega arith },
        (record { name_fits = omega arith; code_fits = omega arith; value_fits = omega arith }, tt),
      )
      (omega arith) (omega arith) (omega arith)

-- An engine with a connection and three TCP clients, two of them connected.
abbrev serving : Engine
serving = record new_engine {
  mappings = three;
  session = some true;
  timer = true;
  listening = some 9000;
  clients = 5 ∷ 6 ∷ 7 ∷ [];
  connected = true;
  running = true;
}

stop_bridge-IsStopped_example :
    (e' : Engine) × (stop_bridge (λ _. false) serving ≡ some e') × IsStopped serving e'
stop_bridge-IsStopped_example =
    stop_bridge-IsStopped (λ _. false) serving (refl, (refl, (refl, tt)))

stop_bridge_undefined_example : stop_bridge (λ _. true) serving ≡ none
stop_bridge_undefined_example = stop_bridge_undefined serving (omega arith)

abbrev answers : Connecting
answers = record { created = true; connect = good; namespace_get_index = (good, 2) }

abbrev configured : Engine
configured = record new_engine { mappings = three }

connected-connect_to_opc_ua_example :
    ((connect_to_opc_ua tiny_qt answers configured).connected ≡ true)
    ↔ CanConnect tiny_qt answers configured
connected-connect_to_opc_ua_example =
    connected-connect_to_opc_ua tiny_qt answers configured (ground arith)

abbrev lively : Tick
lively = record {
  channel_open = true;
  session_activated = true;
  status = good;
  read_value = read;
  timestamp_ms = 1000;
  is_connected = λ s. s == 6;
}

run-ticks_example :
    (e' : Engine) × (run
        (record tagged_pack { base = tiny_pack })
        tiny_qt
        serving
        (map tick (lively ∷ lively ∷ []))
      ≡ some e')
    × IsServing e'
    × (sent_to 6 e'.written
        ≡ frames_of
            (record tagged_pack { base = tiny_pack })
            tiny_qt
            three
            0
            (lively ∷ lively ∷ [])
            (sent_to 6 []))
unfolding count
run-ticks_example =
    run-ticks (record tagged_pack { base = tiny_pack }) tiny-MsgPackSizes tiny_qt 6
      (lively ∷ lively ∷ []) serving
      (record { has_client = refl; holds_connected = refl; is_running = refl; is_ticking = refl })
      ((refl, refl), ((refl, refl), tt)) refl (omega arith)

abbrev lost : Engine
lost = record serving { connected = false }

run-IsLost_example :
    (e' : Engine) × (run tagged_pack tiny_qt lost (tick lively ∷ accept (8 ∷ []) ∷ start true ∷ [])
      ≡ some e')
    × IsLost e'
    × SameOutput lost e'
run-IsLost_example =
    run-IsLost tagged_pack tiny_qt lost (tick lively ∷ accept (8 ∷ []) ∷ start true ∷ [])
      (record { still_running = refl; not_connected = refl }) (tt, (tt, (tt, tt)))

-- Configured, connected, started, and with a client.
abbrev day : List Event
day =
    configure (codes "opc.tcp://x") (codes "urn:x") 9001 []
    ∷ connect answers
    ∷ start true
    ∷ accept (4 ∷ [])
    ∷ []

abbrev after_day : Engine
after_day = record new_engine {
  endpoint_url = codes "opc.tcp://x";
  namespace_uri = codes "urn:x";
  tcp_port = 9001;
  session = some true;
  timer = true;
  listening = some 9001;
  clients = 4 ∷ [];
  connected = true;
  running = true;
  namespace_index = 2;
  emitted =
      client_count_changed 1
      ∷ status_changed (running_on_port 9001)
      ∷ status_changed (running_with_clients 0)
      ∷ status_changed opc_ua_connected
      ∷ [];
}

run-IsEngine_new_example : IsEngine after_day
unfolding run
run-IsEngine_new_example = run-IsEngine_new tagged_pack tiny_qt day after_day refl
