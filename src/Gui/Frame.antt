-- ===== src/Gui/Frame.antt =====
-- The body of BridgeEngine::encodeFrame in src/gui/BridgeEngine.cpp, over what it uses of msgpack-c
-- and of the open62541 client.
pub mod Items
pub mod Decode
use bo_smart_factory_opcua_t.Base.{
  ℕ, ◌%◌, ◌^◌, Bool, true, false, ◌&&◌, List, [], ◌∷◌, ◌++◌, Option, none, some, codes, non_empty,
  if◌then◌else◌, length,
}
use bo_smart_factory_opcua_t.Nodes.BrowseMap.{NodeId}
use bo_smart_factory_opcua_t.Nodes.Server.{StatusCode, is_good}
use bo_smart_factory_opcua_t.Bridge.Frame.{MsgPack, pack_text, pack_bool}
use bo_smart_factory_opcua_t.Gui.Qt.{Qt}
use bo_smart_factory_opcua_t.Gui.Mapping.{SensorMapping}

-- The numbers and floats are bit patterns.
pub record GuiPack : Type 0 where
  pub base : MsgPack
  pub pack_int32 : ℕ → List ℕ
  pub pack_int64 : ℕ → List ℕ
  pub pack_float : ℕ → List ℕ
  pub pack_double : ℕ → List ℕ

-- A UA_Variant with data and a type: a value of the five types that are looked at, or another.
pub data Variant : Type 0 where
  boolean : Bool → Variant
  int32 int64 float double : ℕ → Variant
  other : Variant

-- UA_Client_readValueAttribute: the status, and the variant if it holds data.
abbrev pub ReadValue : Type 0
ReadValue = NodeId → StatusCode × Option Variant

abbrev pub protocol_version : ℕ
protocol_version = 1

abbrev pub is_sent : SensorMapping → Bool
is_sent m = m.enabled && non_empty m.node_id_string

-- The loop that fills `enabled`.
unfoldable pub enabled_mappings : List SensorMapping → List SensorMapping
enabled_mappings [] = []
enabled_mappings (m ∷ ms) = let rest = enabled_mappings ms in if is_sent m then m ∷ rest else rest

unfoldable pub message_id : Qt → SensorMapping → List ℕ
message_id qt m =
    qt.to_utf8 (if non_empty m.message_pack_id then m.message_pack_id else m.node_id_string)

-- static_cast<uint32_t>
abbrev pub uint32 : ℕ → ℕ
uint32 n = n % 2 ^ 32

module _ (gp : GuiPack) where
  abbrev pub pack_variant : Variant → List ℕ
  pack_variant (boolean b) = pack_bool gp.base b
  pack_variant (int32 w) = gp.pack_int32 w
  pack_variant (int64 w) = gp.pack_int64 w
  pack_variant (float w) = gp.pack_float w
  pack_variant (double w) = gp.pack_double w
  pack_variant other = gp.base.pack_false

  unfoldable pub pack_value : StatusCode × Option Variant → List ℕ
  pack_value (ret, none) = gp.base.pack_false
  pack_value (ret, some v) = if is_good ret then pack_variant v else gp.base.pack_false

  -- The body of the loop over `enabled`.
  unfoldable pub pack_mapping : Qt → ReadValue → SensorMapping → List ℕ
  unfolding pack_value message_id
  pack_mapping qt read_value m =
      let msg_id = message_id qt m in
      gp.base.pack_map 3
      ++ (pack_text gp.base 2 (codes "id")
          ++ ((gp.base.pack_str (uint32 (length msg_id))
                ++ gp.base.pack_str_body msg_id (length msg_id))
              ++ (pack_text gp.base 4 (codes "type")
                  ++ (gp.base.pack_uint8 m.type_code
                      ++ (pack_text gp.base 5 (codes "value")
                          ++ pack_value (read_value m.node_id))))))

  unfoldable pub pack_mappings : Qt → ReadValue → List SensorMapping → List ℕ
  unfolding pack_mapping
  pack_mappings qt read_value [] = []
  pack_mappings qt read_value (m ∷ ms) =
      pack_mapping qt read_value m ++ pack_mappings qt read_value ms

  -- The bytes of a frame with the sequence number and the timestamp.
  unfoldable pub frame_bytes : Qt → ReadValue → List SensorMapping → ℕ → ℕ → List ℕ
  unfolding pack_mappings enabled_mappings
  frame_bytes qt read_value mappings sequence timestamp =
      let enabled = enabled_mappings mappings in
      gp.base.pack_map 4
      ++ (pack_text gp.base 7 (codes "version")
          ++ (gp.base.pack_uint8 protocol_version
              ++ (pack_text gp.base 8 (codes "sequence")
                  ++ (gp.base.pack_uint64 sequence
                      ++ (pack_text gp.base 11 (codes "timestampMs")
                          ++ (gp.base.pack_uint64 timestamp
                              ++ (pack_text gp.base 7 (codes "sensors")
                                  ++ (gp.base.pack_array (uint32 (length enabled))
                                      ++ pack_mappings qt read_value enabled))))))))
