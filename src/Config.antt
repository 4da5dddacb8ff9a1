-- ===== src/Config.antt =====
-- src/server_config.h: the node definitions, the configuration and their buffer sizes.
pub mod Names
pub mod DataTypes
pub mod Seed
pub mod Json
pub mod Storage
use bo_smart_factory_opcua_t.Base.{ℕ, ◌<◌, ◌≤◌, Bool, List, length, All, CString, codes}

abbrev pub kind_folder : CString
kind_folder = codes "folder"

abbrev pub kind_variable : CString
kind_variable = codes "variable"

abbrev pub role_simulation_enabled : CString
role_simulation_enabled = codes "simulationEnabled"

abbrev pub max_nodes : ℕ
max_nodes = 256

abbrev pub kind_size : ℕ
kind_size = 16

abbrev pub browse_name_max : ℕ
browse_name_max = 64

abbrev pub display_name_max : ℕ
display_name_max = 128

abbrev pub role_size : ℕ
role_size = 32

abbrev pub namespace_max : ℕ
namespace_max = 256

abbrev pub config_path_max : ℕ
config_path_max = 512

pub data ServerDataType : Type 0 where
  dt_boolean dt_int32 dt_double dt_string : ServerDataType

pub record ServerNodeDef : Type 0 where
  pub kind : CString
  pub browse_name : CString
  pub display_name : CString
  pub parent_browse_name : CString
  pub data_type : ServerDataType
  pub simulation : Bool
  pub role : CString

-- `nodes` holds the first `nodeCount` cells of the array.
pub record ServerConfig : Type 0 where
  pub namespace_uri : CString
  pub nodes : List ServerNodeDef
  pub config_path : CString

-- The strings of a definition fit their buffers.
pub record FitsBuffers (n : ServerNodeDef) : Type 0 where
  pub kind_fits : length n.kind < kind_size
  pub browse_name_fits : length n.browse_name < browse_name_max
  pub display_name_fits : length n.display_name < display_name_max
  pub parent_fits : length n.parent_browse_name < browse_name_max
  pub role_fits : length n.role < role_size

-- The configuration fits its arrays.
pub record IsBounded (cfg : ServerConfig) : Type 0 where
  pub namespace_fits : length cfg.namespace_uri < namespace_max
  pub count_fits : length cfg.nodes ≤ max_nodes
  pub nodes_fit : All FitsBuffers cfg.nodes
  pub path_fits : length cfg.config_path < config_path_max
