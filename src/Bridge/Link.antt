-- ===== src/Bridge/Link.antt =====
-- The connection of src/opcua_tcp_bridge.c to the OPC UA server: browsing, finding the sensors,
-- the attempts to connect with their backoff, and reading.
pub mod Laws
use bo_smart_factory_opcua_t.Base.{
  ℕ, ◌+◌, ◌-◌, ◌*◌, ◌%◌, ◌^◌, ◌≡◌, Bool, true, false, not, ◌&&◌, ◌||◌, List, [], ◌∷◌, Option, none,
  some, CString, codes, if◌then◌else◌, length, ltb, leb, ◌==◌, str_eq, until_nul, and_then,
  replicate, map,
}
use bo_smart_factory_opcua_t.Nodes.BrowseMap.{NodeId, null_node_id, objects_folder}
use bo_smart_factory_opcua_t.Nodes.Server.{StatusCode, good, is_good, Value, boolean}
use bo_smart_factory_opcua_t.Bridge.Frame.{sensor_browse_names, sensor_count}

pub data NodeClass : Type 0 where
  object variable : NodeClass

-- UA_ReferenceDescription; `name` has its length beside it and may hold any byte.
pub record ReferenceDescription : Type 0 where
  pub namespace_index : ℕ
  pub name : List ℕ
  pub node_id : NodeId

pub record BrowseResult : Type 0 where
  pub status_code : StatusCode
  pub references : List ReferenceDescription

pub record BrowseResponse : Type 0 where
  pub service_result : StatusCode
  pub results : List BrowseResult

-- What the open62541 client and malloc answer during one round of the main loop.
pub record UaClient : Type 0 where
  pub malloc : ℕ → Bool
  pub connect : StatusCode
  pub namespace_get_index : StatusCode × ℕ
  pub browse : NodeId → NodeClass → BrowseResponse
  -- the status, and the variant if it holds data
  pub read_value : NodeId → StatusCode × Option Value

-- The test on one reference; a name is compared up to its first NUL byte.
abbrev pub names_node : (ℕ → Bool) → ℕ → CString → ReferenceDescription → Bool
names_node malloc ns_idx browse_name ref =
    ((ref.namespace_index == ns_idx) && ltb 0 (length ref.name))
    && (malloc (length ref.name + 1) && str_eq (until_nul ref.name) browse_name)

-- The loop over the references.
unfoldable pub find_reference : (ℕ → Bool) → ℕ → CString → List ReferenceDescription → Option NodeId
find_reference malloc ns_idx browse_name [] = none
find_reference malloc ns_idx browse_name (ref ∷ refs) =
    if names_node malloc ns_idx browse_name ref
    then some ref.node_id
    else find_reference malloc ns_idx browse_name refs

-- The references that are looked at: those of the first result, if all went well.
abbrev pub references_of : BrowseResponse → List ReferenceDescription
references_of resp =
    if is_good resp.service_result
    then elim resp.results [
      | [] ↦ []
      | result ∷ _ ↦ if is_good result.status_code then result.references else []
    ]
    else []

-- `none` is UA_STATUSCODE_BADNOTFOUND.
unfoldable pub browse_to_node : UaClient → NodeId → ℕ → CString → NodeClass → Option NodeId
unfolding find_reference
browse_to_node client start ns_idx browse_name node_class =
    find_reference client.malloc ns_idx browse_name (references_of (client.browse start node_class))

unfoldable pub find_sensors_folder : UaClient → ℕ → Option NodeId
unfolding browse_to_node
find_sensors_folder client ns_idx =
    browse_to_node client objects_folder ns_idx (codes "Sensors") object

-- The loop over the sensors, which stops at the first that is not found: whether all were found,
-- and the node ids, where each is cleared before it is looked up.
unfoldable pub resolve_sensors :
    UaClient → NodeId → ℕ → List CString → List NodeId → Bool × List NodeId
unfolding browse_to_node
resolve_sensors client folder ns_idx [] ids = (true, ids)
resolve_sensors client folder ns_idx (name ∷ names) [] = (true, [])
resolve_sensors client folder ns_idx (name ∷ names) (id ∷ ids) =
    let (all, rest) = resolve_sensors client folder ns_idx names ids in
    elim (browse_to_node client folder ns_idx name variable) [
      | none ↦ (false, null_node_id ∷ ids)
      | some found ↦ (all, found ∷ rest)
    ]

-- The variables of main that are about the connection.
pub record Link : Type 0 where
  pub ns_idx : ℕ
  pub sensor_node_ids : List NodeId
  pub sensor_node_ids_resolved : Bool
  pub reconnect_backoff_ms : ℕ
  pub last_reconnect_attempt_ms : ℕ

-- UA_UINT16_MAX
abbrev pub no_namespace : ℕ
no_namespace = 65535

abbrev pub init_link : Link
init_link = record {
  ns_idx = no_namespace;
  sensor_node_ids = replicate sensor_count null_node_id;
  sensor_node_ids_resolved = false;
  reconnect_backoff_ms = 1000;
  last_reconnect_attempt_ms = 0;
}

-- a - b for uint64_t
abbrev pub elapsed : ℕ → ℕ → ℕ
elapsed a b = (a + 2 ^ 64 - b) % 2 ^ 64

unfoldable pub next_backoff : ℕ → ℕ
next_backoff ms = if ltb ms 10000 then ms * 2 else 10000

-- An attempt that did not find everything.
abbrev pub back_off : Link → Link
back_off l = record l { reconnect_backoff_ms = next_backoff l.reconnect_backoff_ms }

-- Behind findSensorsFolder.
abbrev pub resolve : UaClient → Link → Option NodeId → Link
resolve client l none = back_off l
resolve client l (some folder) =
    let (all, ids) = resolve_sensors client folder l.ns_idx sensor_browse_names l.sensor_node_ids in
    let l' = record l { sensor_node_ids = ids; sensor_node_ids_resolved = all } in
    if all then record l' { reconnect_backoff_ms = 1000 } else back_off l'

-- One attempt to connect, from UA_Client_disconnect on.
unfoldable pub attempt : UaClient → Link → Link
unfolding resolve_sensors find_sensors_folder next_backoff
attempt client l =
    if not (is_good client.connect)
    then back_off l
    else if not (is_good client.namespace_get_index.0)
    then back_off l
    else let l' = record l { ns_idx = client.namespace_get_index.1 } in
      resolve client l' (find_sensors_folder client l'.ns_idx)

-- The two tests in front of an attempt: something is missing, and the backoff is over.
abbrev pub is_incomplete : Link → Bool → Bool
is_incomplete l is_connected =
    ((l.ns_idx == no_namespace) || not is_connected) || not l.sensor_node_ids_resolved

abbrev pub is_backoff_over : Link → ℕ → Bool
is_backoff_over l now = leb l.reconnect_backoff_ms (elapsed now l.last_reconnect_attempt_ms)

-- The first part of a round.
unfoldable pub reconnect : UaClient → Bool → ℕ → Link → Link
unfolding attempt
reconnect client is_connected now l =
    if is_incomplete l is_connected
    then if is_backoff_over l now
      then record (attempt client l) { last_reconnect_attempt_ms = now }
      else l
    else l

-- The loop body of readSensors: what is not a Boolean reads as false.
abbrev pub sensor_value : StatusCode × Option Value → Bool
sensor_value (rc, v) =
    if not (is_good rc) then false else elim v [ some (boolean b) ↦ b | _ ↦ false ]

unfoldable pub read_values : UaClient → List NodeId → List Bool
read_values client ids = map (λ id. sensor_value (client.read_value id)) ids
