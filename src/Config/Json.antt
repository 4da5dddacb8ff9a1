-- ===== src/Config/Json.antt =====
-- parse_node and node_to_json of src/server_config.c, and the writer of server_config_save. The
-- library cJSON is a parameter.
mod Library
mod Nodes
pub mod RoundTrip
unfoldable pub use Library.*
unfoldable pub use Nodes.*
