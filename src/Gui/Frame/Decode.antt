-- ===== src/Gui/Frame/Decode.antt =====
-- A frame of src/gui/BridgeEngine.cpp as pieces, each of which a MessagePack reader reads.
use mathlib.Core.List.{append_assoc}
use bo_smart_factory_opcua_t.Base.{
  ℕ, ◌≡◌, ◌<◌, ◌^◌, refl, true, false, Option, List, [], ◌∷◌, ◌++◌, none, some, codes, length, All,
  arith, Bool-cases, inl, inr,
}
use bo_smart_factory_opcua_t.Nodes.Server.{StatusCode, is_good}
use bo_smart_factory_opcua_t.Bridge.Frame.{pack_text}
use bo_smart_factory_opcua_t.Gui.Qt.{Qt}
use bo_smart_factory_opcua_t.Gui.Mapping.{SensorMapping}
use bo_smart_factory_opcua_t.Gui.Frame.{
  GuiPack, boolean, int32, int64, float, double, other, Variant, ReadValue, enabled_mappings,
  message_id, pack_value, pack_variant, pack_mappings, frame_bytes, protocol_version, uint32,
}
use bo_smart_factory_opcua_t.Gui.Frame.Items.{
  map_head, array_head, text, number, ItemReader, Shows, ReadsItems, read_items, Pieces, bytes_of,
  items_of, read_items-bytes_of, shown, plain, sensors_items, frame_items,
}

uint32_of_lt : (n : ℕ) → n < 2 ^ 32 → uint32 n ≡ n
uint32_of_lt n h = omega arith

-- A pattern has the bits of its type.
abbrev pub Fits : StatusCode × Option Variant → Type 0
Fits (ret, some (int32 w)) = w < 2 ^ 32
Fits (ret, some (int64 w)) = w < 2 ^ 64
Fits (ret, some (float w)) = w < 2 ^ 32
Fits (ret, some (double w)) = w < 2 ^ 64
Fits o = Unit {0}

-- What a mapping that is sent is asked to be: its name is no longer than MessagePack allows, and its
-- type code and the value that is read fit their types.
pub record IsSendable (qt : Qt) (read_value : ReadValue) (m : SensorMapping) : Type 0 where
  pub name_fits : length (message_id qt m) < 2 ^ 32
  pub code_fits : m.type_code < 2 ^ 8
  pub value_fits : Fits (read_value m.node_id)

module _ (gp : GuiPack) (un : ItemReader) (reads : ReadsItems gp un) where
  pack_text-Shows :
      (n : ℕ) (s : List ℕ) → length s ≡ n → n < 2 ^ 32 → Shows un (pack_text gp.base n s) (text s)
  unfolding pack_text
  pack_text-Shows n s e h r = rw (← e) (reads.shows_text s (omega (arith, e)) r)

  pack_variant-Shows :
      (ret : StatusCode) (v : Variant) → Fits (ret, some v) → Shows un (pack_variant gp v) (plain v)
  pack_variant-Shows ret (boolean true) h = reads.shows_true
  pack_variant-Shows ret (boolean false) h = reads.shows_false
  pack_variant-Shows ret (int32 w) h = reads.shows_int32 w h
  pack_variant-Shows ret (int64 w) h = reads.shows_int64 w h
  pack_variant-Shows ret (float w) h = reads.shows_float w h
  pack_variant-Shows ret (double w) h = reads.shows_double w h
  pack_variant-Shows ret other h = reads.shows_false

  pack_value-Shows :
      (o : StatusCode × Option Variant) → Fits o → Shows un (pack_value gp o) (shown o)
  unfolding pack_value
  pack_value-Shows (ret, none) h = reads.shows_false
  pack_value-Shows (ret, some v) h = elim (Bool-cases (is_good ret)) [
    | inl e ↦ rw e (pack_variant-Shows ret v h)
    | inr e ↦ rw e reads.shows_false
  ]

  sensor_pieces : Qt → ReadValue → SensorMapping → Pieces → Pieces
  sensor_pieces qt read_value m rest =
      (gp.base.pack_map 3, map_head 3)
      ∷ (pack_text gp.base 2 (codes "id"), text (codes "id"))
      ∷ (pack_text gp.base (length (message_id qt m)) (message_id qt m), text (message_id qt m))
      ∷ (pack_text gp.base 4 (codes "type"), text (codes "type"))
      ∷ (gp.base.pack_uint8 m.type_code, number m.type_code)
      ∷ (pack_text gp.base 5 (codes "value"), text (codes "value"))
      ∷ (pack_value gp (read_value m.node_id), shown (read_value m.node_id))
      ∷ rest

  sensors_pieces : Qt → ReadValue → List SensorMapping → Pieces
  sensors_pieces qt read_value [] = []
  sensors_pieces qt read_value (m ∷ ms) =
      sensor_pieces qt read_value m (sensors_pieces qt read_value ms)

  frame_pieces : Qt → ReadValue → List SensorMapping → ℕ → ℕ → Pieces
  frame_pieces qt read_value mappings sequence timestamp =
      let enabled = enabled_mappings mappings in
      (gp.base.pack_map 4, map_head 4)
      ∷ (pack_text gp.base 7 (codes "version"), text (codes "version"))
      ∷ (gp.base.pack_uint8 protocol_version, number protocol_version)
      ∷ (pack_text gp.base 8 (codes "sequence"), text (codes "sequence"))
      ∷ (gp.base.pack_uint64 sequence, number sequence)
      ∷ (pack_text gp.base 11 (codes "timestampMs"), text (codes "timestampMs"))
      ∷ (gp.base.pack_uint64 timestamp, number timestamp)
      ∷ (pack_text gp.base 7 (codes "sensors"), text (codes "sensors"))
      ∷ (gp.base.pack_array (length enabled), array_head (length enabled))
      ∷ sensors_pieces qt read_value enabled

  items_of-sensors_pieces :
      (qt : Qt) (read_value : ReadValue) (ms : List SensorMapping)
      → items_of (sensors_pieces qt read_value ms) ≡ sensors_items qt read_value ms
  unfolding items_of sensors_pieces sensor_pieces
  items_of-sensors_pieces qt read_value [] = refl
  items_of-sensors_pieces qt read_value (m ∷ ms) = rw (items_of-sensors_pieces qt read_value ms)

  bytes_of-sensors_pieces :
      (qt : Qt) (read_value : ReadValue) (ms : List SensorMapping)
      → All (IsSendable qt read_value) ms
      → bytes_of (sensors_pieces qt read_value ms) ≡ pack_mappings gp qt read_value ms
  unfolding bytes_of sensors_pieces sensor_pieces pack_mappings pack_text
  bytes_of-sensors_pieces qt read_value [] h = refl
  bytes_of-sensors_pieces qt read_value (m ∷ ms) h =
      simp
        (
          append_assoc,
          bytes_of-sensors_pieces qt read_value ms h.1,
          uint32_of_lt (length (message_id qt m)) h.0.name_fits,
        )
        refl

  sensors_pieces-Shows :
      (qt : Qt) (read_value : ReadValue) (ms : List SensorMapping)
      → All (IsSendable qt read_value) ms
      → All (λ p. Shows un p.0 p.1) (sensors_pieces qt read_value ms)
  unfolding sensors_pieces sensor_pieces
  sensors_pieces-Shows qt read_value [] h = tt
  sensors_pieces-Shows qt read_value (m ∷ ms) h = (
    reads.shows_map 3 (omega arith),
    (
      pack_text-Shows 2 (codes "id") refl (omega arith),
      (
        pack_text-Shows (length (message_id qt m)) (message_id qt m) refl h.0.name_fits,
        (
          pack_text-Shows 4 (codes "type") refl (omega arith),
          (
            reads.shows_uint8 m.type_code h.0.code_fits,
            (
              pack_text-Shows 5 (codes "value") refl (omega arith),
              (
                pack_value-Shows (read_value m.node_id) h.0.value_fits,
                (sensors_pieces-Shows qt read_value ms h.1),
              ),
            ),
          ),
        ),
      ),
    ),
  )

  frame_pieces-Shows :
      (qt : Qt) (read_value : ReadValue) (ms : List SensorMapping) (sequence timestamp : ℕ)
      → All (IsSendable qt read_value) (enabled_mappings ms)
      → length (enabled_mappings ms) < 2 ^ 32
      → sequence < 2 ^ 64
      → timestamp < 2 ^ 64
      → All (λ p. Shows un p.0 p.1) (frame_pieces qt read_value ms sequence timestamp)
  unfolding frame_pieces
  frame_pieces-Shows qt read_value ms sequence timestamp h n s t = (
    reads.shows_map 4 (omega arith),
    (
      pack_text-Shows 7 (codes "version") refl (omega arith),
      (
        reads.shows_uint8 protocol_version (omega arith),
        (
          pack_text-Shows 8 (codes "sequence") refl (omega arith),
          (
            reads.shows_uint64 sequence s,
            (
              pack_text-Shows 11 (codes "timestampMs") refl (omega arith),
              (
                reads.shows_uint64 timestamp t,
                (
                  pack_text-Shows 7 (codes "sensors") refl (omega arith),
                  (
                    reads.shows_array (length (enabled_mappings ms)) n,
                    (sensors_pieces-Shows qt read_value (enabled_mappings ms) h),
                  ),
                ),
              ),
            ),
          ),
        ),
      ),
    ),
  )

  bytes_of-frame_pieces :
      (qt : Qt) (read_value : ReadValue) (ms : List SensorMapping) (sequence timestamp : ℕ)
      → All (IsSendable qt read_value) (enabled_mappings ms)
      → length (enabled_mappings ms) < 2 ^ 32
      → bytes_of (frame_pieces qt read_value ms sequence timestamp)
        ≡ frame_bytes gp qt read_value ms sequence timestamp
  unfolding bytes_of frame_pieces frame_bytes
  bytes_of-frame_pieces qt read_value ms sequence timestamp h n =
      rw
        (
          bytes_of-sensors_pieces qt read_value (enabled_mappings ms) h,
          uint32_of_lt (length (enabled_mappings ms)) n,
        )
        refl

-- Read item by item, a frame is a map of the version 1, the sequence number, the timestamp and the
-- sensors, and these are the mappings that are enabled and have a node id, in their order, each
-- with its name (the node id where it has none), its type code, and the value that was read, or
-- false if the read failed or the value has another type; of an integer it is the value alone,
-- whatever its width. What stands behind the frame is left over. The sequence number and the
-- timestamp are asked to have 64 bits, the names and the number of sensors 32 bits, the type codes 8
-- bits, the values the bits of their types, and the reader to read what msgpack-c writes.
pub read_items-frame_bytes :
    (gp : GuiPack) (un : ItemReader) (reads : ReadsItems gp un) (qt : Qt) (read_value : ReadValue)
    (ms : List SensorMapping) (sequence timestamp : ℕ) (r : List ℕ)
    → All (IsSendable qt read_value) (enabled_mappings ms)
    → length (enabled_mappings ms) < 2 ^ 32
    → sequence < 2 ^ 64
    → timestamp < 2 ^ 64
    → let items = frame_items qt read_value ms sequence timestamp in
      read_items un (length items) (frame_bytes gp qt read_value ms sequence timestamp ++ r)
      ≡ some (items, r)
unfolding items_of frame_pieces
read_items-frame_bytes gp un reads qt read_value ms sequence timestamp r h n s t =
    rw
      (
        ← bytes_of-frame_pieces gp un reads qt read_value ms sequence timestamp h n,
        ← items_of-sensors_pieces gp un reads qt read_value (enabled_mappings ms),
      )
      (read_items-bytes_of un (frame_pieces gp un reads qt read_value ms sequence timestamp) r
        (frame_pieces-Shows gp un reads qt read_value ms sequence timestamp h n s t))
