-- ===== src/Gui/Frame/Items.antt =====
-- The frames of src/gui/BridgeEngine.cpp, read item by item by a MessagePack reader.
use mathlib.Core.List.{append_assoc}
use bo_smart_factory_opcua_t.Base.{
  ℕ, zero, suc, ◌≡◌, ◌<◌, ◌^◌, refl, ◌-◌, Bool, ltb, true, false, List, [], ◌∷◌, ◌++◌, Option, none,
  some, if◌then◌else◌, codes, length, and_then, All,
}
use bo_smart_factory_opcua_t.Nodes.Server.{StatusCode, is_good}
use bo_smart_factory_opcua_t.Gui.Qt.{Qt}
use bo_smart_factory_opcua_t.Gui.Mapping.{SensorMapping}
use bo_smart_factory_opcua_t.Gui.Frame.{
  GuiPack, Variant, boolean, int32, int64, float, double, other, ReadValue, enabled_mappings,
  message_id, protocol_version,
}

-- What stands at the front of a MessagePack stream. Of an integer only the value can be read, since
-- the shortest format is written whatever its type: `negative n` is minus n. A floating-point number
-- is the pattern of its bits.
pub data Item : Type 0 where
  map_head array_head : ℕ → Item
  text : List ℕ → Item
  number negative : ℕ → Item
  truth : Bool → Item
  float32 float64 : ℕ → Item

-- The value of a pattern of some bits in two's complement.
abbrev pub whole : ℕ → ℕ → Item
whole bits w = if ltb w (2 ^ (bits - 1)) then number w else negative (2 ^ bits - w)

pub record ItemReader : Type 0 where
  pub next : List ℕ → Option (Item × List ℕ)

-- The bytes are read as the item, whatever stands behind them.
abbrev pub Shows : ItemReader → List ℕ → Item → Type 0
Shows un bytes item = (r : List ℕ) → un.next (bytes ++ r) ≡ some (item, r)

-- The reader reads what msgpack_pack_*() writes.
pub record ReadsItems (gp : GuiPack) (un : ItemReader) : Type 0 where
  pub shows_map : (n : ℕ) → n < 2 ^ 32 → Shows un (gp.base.pack_map n) (map_head n)
  pub shows_array : (n : ℕ) → n < 2 ^ 32 → Shows un (gp.base.pack_array n) (array_head n)
  pub shows_text :
      (s : List ℕ)
      → length s < 2 ^ 32
      → Shows un (gp.base.pack_str (length s) ++ gp.base.pack_str_body s (length s)) (text s)
  pub shows_uint8 : (n : ℕ) → n < 2 ^ 8 → Shows un (gp.base.pack_uint8 n) (number n)
  pub shows_uint64 : (n : ℕ) → n < 2 ^ 64 → Shows un (gp.base.pack_uint64 n) (number n)
  pub shows_true : Shows un gp.base.pack_true (truth true)
  pub shows_false : Shows un gp.base.pack_false (truth false)
  pub shows_int32 : (w : ℕ) → w < 2 ^ 32 → Shows un (gp.pack_int32 w) (whole 32 w)
  pub shows_int64 : (w : ℕ) → w < 2 ^ 64 → Shows un (gp.pack_int64 w) (whole 64 w)
  pub shows_float : (w : ℕ) → w < 2 ^ 32 → Shows un (gp.pack_float w) (float32 w)
  pub shows_double : (w : ℕ) → w < 2 ^ 64 → Shows un (gp.pack_double w) (float64 w)

unfoldable pub read_items : ItemReader → ℕ → List ℕ → Option (List Item × List ℕ)
read_items un zero bytes = some ([], bytes)
read_items un (suc n) bytes =
    and_then (un.next bytes) λ i. and_then (read_items un n i.1) λ rest. some (i.0 ∷ rest.0, rest.1)

-- Pieces of a stream, with the item that each one is.
abbrev pub Pieces : Type 0
Pieces = List (List ℕ × Item)

unfoldable pub bytes_of : Pieces → List ℕ
bytes_of [] = []
bytes_of ((b, i) ∷ ps) = b ++ bytes_of ps

unfoldable pub items_of : Pieces → List Item
items_of [] = []
items_of ((b, i) ∷ ps) = i ∷ items_of ps

pub read_items-bytes_of :
    (un : ItemReader) (ps : Pieces) (r : List ℕ)
    → All (λ p. Shows un p.0 p.1) ps
    → read_items un (length (items_of ps)) (bytes_of ps ++ r) ≡ some (items_of ps, r)
unfolding read_items bytes_of items_of
read_items-bytes_of un [] r h = refl
read_items-bytes_of un ((b, i) ∷ ps) r h =
    rw (append_assoc b (bytes_of ps) r, h.0 (bytes_of ps ++ r), read_items-bytes_of un ps r h.1)
      refl

-- The item that a frame shows for a node: the value of a read that went well, and false otherwise.
abbrev pub plain : Variant → Item
plain (boolean b) = truth b
plain (int32 w) = whole 32 w
plain (int64 w) = whole 64 w
plain (float w) = float32 w
plain (double w) = float64 w
plain other = truth false

abbrev pub shown : StatusCode × Option Variant → Item
shown (ret, none) = truth false
shown (ret, some v) = if is_good ret then plain v else truth false

-- PROTOCOL.md: the items of a sensor, and of a frame.
abbrev pub sensor_items : Qt → ReadValue → SensorMapping → List Item
sensor_items qt read_value m =
    map_head 3
    ∷ text (codes "id")
    ∷ text (message_id qt m)
    ∷ text (codes "type")
    ∷ number m.type_code
    ∷ text (codes "value")
    ∷ shown (read_value m.node_id)
    ∷ []

abbrev pub sensors_items : Qt → ReadValue → List SensorMapping → List Item
sensors_items qt read_value [] = []
sensors_items qt read_value (m ∷ ms) =
    sensor_items qt read_value m ++ sensors_items qt read_value ms

abbrev pub frame_items : Qt → ReadValue → List SensorMapping → ℕ → ℕ → List Item
frame_items qt read_value mappings sequence timestamp =
    map_head 4
    ∷ text (codes "version")
    ∷ number protocol_version
    ∷ text (codes "sequence")
    ∷ number sequence
    ∷ text (codes "timestampMs")
    ∷ number timestamp
    ∷ text (codes "sensors")
    ∷ array_head (length (enabled_mappings mappings))
    ∷ sensors_items qt read_value (enabled_mappings mappings)
