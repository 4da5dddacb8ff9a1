-- ===== src/Nodes/Server.antt =====
-- What src/node_manager.c uses of open62541: the calls as functions of a server's state.
use bo_smart_factory_opcua_t.Base.{ℕ, Bool, true, false, [], Option, CString}
use bo_smart_factory_opcua_t.Config.{ServerDataType, dt_boolean, dt_int32, dt_double, dt_string}
use bo_smart_factory_opcua_t.Nodes.BrowseMap.{NodeId}

-- The codes that the program names, and every other.
pub data StatusCode : Type 0 where
  good bad_invalid_argument bad_node_id_exists bad_node_id_unknown : StatusCode
  bad_user_access_denied bad_not_implemented : StatusCode
  other : ℕ → StatusCode

-- rc == UA_STATUSCODE_GOOD
abbrev pub is_good : StatusCode → Bool
is_good good = true
is_good rc = false

-- A scalar of UA_TYPES; numbers by their bit patterns.
pub data Value : Type 0 where
  boolean : Bool → Value
  int32 double : ℕ → Value
  text : CString → Value

pub data UaType : Type 0 where
  ua_boolean ua_int32 ua_double ua_string : UaType

-- UA_DataValue: `hasValue`, and the variant, which may hold no data.
pub record DataValue : Type 0 where
  pub has_value : Bool
  pub value : Option Value

unfoldable pub data_type_for : ServerDataType → UaType
data_type_for dt_int32 = ua_int32
data_type_for dt_double = ua_double
data_type_for dt_string = ua_string
data_type_for dt_boolean = ua_boolean

-- bInit, iInit, dInit and sInit.
unfoldable pub initial_value : ServerDataType → Value
initial_value dt_boolean = boolean false
initial_value dt_int32 = int32 0
initial_value dt_double = double 0
initial_value dt_string = text []

-- A pointer into the array of sensors: the allocation and the index. Block 0 is NULL.
pub record SensorPointer : Type 0 where
  pub block : ℕ
  pub index : ℕ

pub data Callback : Type 0 where
  sensor_write simulation_enabled_write : Callback

pub record ObjectRequest : Type 0 where
  pub node_id : NodeId
  pub parent : NodeId
  pub browse_name : CString
  pub display_name : CString

pub record VariableRequest : Type 0 where
  pub node_id : NodeId
  pub parent : NodeId
  pub browse_name : CString
  pub display_name : CString
  pub data_type : UaType
  pub value : Value

pub record UaServer : Type 1 where
  pub Server : Type 0
  pub add_object_node : Server → ObjectRequest → Server × StatusCode × NodeId
  pub add_variable_node : Server → VariableRequest → Server × StatusCode × NodeId
  -- UA_Server_setVariableNode_valueCallback, with the onWrite callback
  pub set_value_callback : Server → NodeId → Callback → Server
  pub set_node_context : Server → NodeId → SensorPointer → Server
  pub write_value : Server → NodeId → Value → Server
  pub delete_node : Server → NodeId → Server
  -- what the server hands to callbacks: the onWrite callback and the context of a node
  pub on_write : Server → NodeId → Option Callback
  pub node_context : Server → NodeId → Option SensorPointer
