-- ===== src/Tests/Bridge.antt =====
-- The theorems about the bridge at concrete inputs.
use bo_smart_factory_opcua_t.Base.{
  ℕ, ◌≡◌, refl, true, false, List, [], ◌∷◌, ◌++◌, none, some, arith, CString, codes, length,
  if◌then◌else◌, str_eq, until_nul, ◌==◌, map, replicate,
}
use bo_smart_factory_opcua_t.Nodes.BrowseMap.{NodeId, numeric, string}
use bo_smart_factory_opcua_t.Nodes.Server.{good, boolean}
use bo_smart_factory_opcua_t.Bridge.Clients.{Clients, Send, idle, init_clients}
use bo_smart_factory_opcua_t.Bridge.Clients.Accounting.{count}
use mathlib.Core.List.{foldl}
use bo_smart_factory_opcua_t.Bridge.Clients.Bag.{
  TableCall, accept_call, broadcast_call, table_step, Refines,
}
use bo_smart_factory_opcua_t.Bridge.Clients.Bag.Refining.{foldl-Refines}
use bo_smart_factory_opcua_t.Bridge.Frame.{SensorSnapshot, sensor_browse_names}
use bo_smart_factory_opcua_t.Bridge.Frame.Reader.{decode_frames}
use bo_smart_factory_opcua_t.Bridge.Frame.Stream.{frames, document_of, decode_frames-frames}
use bo_smart_factory_opcua_t.Bridge.Link.{
  UaClient, ReferenceDescription, browse_to_node, find_reference, resolve_sensors,
}
use bo_smart_factory_opcua_t.Bridge.Link.Laws.{AllFound, resolve_sensors-AllFound}
use bo_smart_factory_opcua_t.Bridge.Listen.{ListenCalls}
use bo_smart_factory_opcua_t.Bridge.Loop.{Round, ready, failed, loop, run_bridge, init_bridge}
use bo_smart_factory_opcua_t.Bridge.Loop.Laws.{IsBridge, loop-IsBridge_init}
use bo_smart_factory_opcua_t.Bridge.Loop.Sockets.{accepted_in_run, run_bridge-closed}
use bo_smart_factory_opcua_t.Tests.Pack.{tiny_pack, tiny-Reads, tiny-MsgPackSizes, tiny_unpacker}

abbrev snapshot : ℕ → SensorSnapshot
snapshot n = record {
  values = true ∷ false ∷ true ∷ false ∷ true ∷ [];
  seq = n;
  timestamp_ms = 1769516986221;
}

decode_frames-frames_example :
    decode_frames tiny_unpacker 2 (frames tiny_pack (snapshot 1 ∷ snapshot 2 ∷ []) ++ 7 ∷ [])
    ≡ some (document_of (snapshot 1) ∷ document_of (snapshot 2) ∷ [], 7 ∷ [])
decode_frames-frames_example =
    decode_frames-frames tiny_pack tiny-MsgPackSizes tiny_unpacker tiny-Reads
      (snapshot 1 ∷ snapshot 2 ∷ []) (7 ∷ [])
      (
        record { count_fits = refl; seq_fits = omega arith; timestamp_fits = omega arith },
        (record { count_fits = refl; seq_fits = omega arith; timestamp_fits = omega arith }, tt),
      )

-- send() takes everything, except for the socket 8.
abbrev send : Send
send none frame = none
send (some s) frame = if s == 8 then none else some (length frame)

abbrev two_clients : Clients
two_clients = record {
  slots =
      record { socket = some 7; active = true }
      ∷ record { socket = some 8; active = true }
      ∷ replicate 30 idle;
  closed = [];
}

abbrev reference : CString → ReferenceDescription
reference name = record { namespace_index = 2; name = name; node_id = string 2 name }

abbrev client : UaClient
client = record {
  malloc = λ _. true;
  connect = good;
  namespace_get_index = (good, 2);
  browse = λ id c. record {
    service_result = good;
    results =
        record {
          status_code = good;
          references = map reference (codes "Sensors" ∷ sensor_browse_names);
        }
        ∷ [];
  };
  read_value = λ id. (good, some (boolean true));
}

abbrev no_ids : List NodeId
no_ids = replicate 5 (numeric 0 0)

resolve_sensors-AllFound_example :
    AllFound client
      (string 2 (codes "Sensors"))
      2
      sensor_browse_names
      (resolve_sensors client (string 2 (codes "Sensors")) 2 sensor_browse_names no_ids).1
unfolding resolve_sensors browse_to_node find_reference str_eq until_nul
resolve_sensors-AllFound_example =
    resolve_sensors-AllFound client (string 2 (codes "Sensors")) 2 sensor_browse_names no_ids refl
      refl

abbrev bind_fails : ListenCalls
bind_fails = record { socket = some 3; setsockopt = true; bind = false; listen = true }

abbrev busy : Round
busy = record {
  now_ms = 1000;
  client = client;
  connected = true;
  select = ready true (λ _. false);
  accept = some 7;
  peek = λ _. none;
  connected_now = true;
  timestamp_ms = 1769516986221;
  send = send;
}

-- A connection, a frame to it, and an error of select().
abbrev rounds : List Round
rounds =
    busy ∷ record busy { now_ms = 2000; accept = some 8 } ∷ record busy { select = failed } ∷ []

loop-IsBridge_init_example : IsBridge (loop tiny_pack rounds init_bridge)
loop-IsBridge_init_example =
    loop-IsBridge_init tiny_pack tiny-MsgPackSizes rounds (omega arith)
      (omega arith, (omega arith, (omega arith, tt)))

run_bridge-closed_example : count 8 (run_bridge tiny_pack rounds).clients.closed ≡ 1
unfolding accepted_in_run count
run_bridge-closed_example = run_bridge-closed tiny_pack rounds 8

-- Two clients, of which the second fails.
abbrev calls : List TableCall
calls =
    accept_call (some 7)
    ∷ accept_call (some 8)
    ∷ accept_call none
    ∷ broadcast_call send (1 ∷ [])
    ∷ []

foldl-Refines_example : Refines (foldl table_step init_clients calls) (7 ∷ [])
foldl-Refines_example = foldl-Refines calls
