-- ===== src/Bridge/Frame.antt =====
-- encodeFrame of src/opcua_tcp_bridge.c, over what it uses of msgpack-c.
pub mod Reader
pub mod Sizes
pub mod Stream
use bo_smart_factory_opcua_t.Base.{
  ℕ, ◌+◌, ◌≡◌, ◌≤◌, ◌<◌, Bool, true, false, List, [], ◌∷◌, ◌++◌, CString, codes, if◌then◌else◌,
  length, leb,
}

-- The bytes that msgpack_pack_*() appends to the buffer. An append that finds no memory is not
-- looked at by the source, and is left out.
pub record MsgPack : Type 0 where
  pub pack_map : ℕ → List ℕ
  pub pack_array : ℕ → List ℕ
  pub pack_str : ℕ → List ℕ
  pub pack_str_body : CString → ℕ → List ℕ
  pub pack_uint8 : ℕ → List ℕ
  pub pack_uint64 : ℕ → List ℕ
  pub pack_true : List ℕ
  pub pack_false : List ℕ

abbrev pub sensor_browse_names : List CString
sensor_browse_names =
    codes "Sensor1"
    ∷ codes "Sensor2"
    ∷ codes "Sensor3"
    ∷ codes "Sensor4"
    ∷ codes "Pi1_InductionSwitch1"
    ∷ []

abbrev pub sensor_count : ℕ
sensor_count = 5

abbrev pub protocol_version : ℕ
protocol_version = 1

-- `values` has a cell for each sensor.
pub record SensorSnapshot : Type 0 where
  pub values : List Bool
  pub seq : ℕ
  pub timestamp_ms : ℕ

module _ (mp : MsgPack) where
  open mp use {pack_map, pack_array, pack_str, pack_str_body, pack_uint8, pack_uint64}

  -- msgpack_pack_str with msgpack_pack_str_body
  unfoldable pub pack_text : ℕ → CString → List ℕ
  pack_text n s = pack_str n ++ pack_str_body s n

  abbrev pub pack_bool : Bool → List ℕ
  pack_bool b = if b then mp.pack_true else mp.pack_false

  -- The body of the loop over the sensors.
  unfoldable pub pack_sensor : CString → Bool → List ℕ
  pack_sensor name value =
      pack_map 3
      ++ (pack_text 2 (codes "id")
          ++ (pack_text (length name) name
              ++ (pack_text 4 (codes "type")
                  ++ (pack_uint8 0 ++ (pack_text 5 (codes "value") ++ pack_bool value)))))

  unfoldable pub pack_sensors : List CString → List Bool → List ℕ
  pack_sensors [] values = []
  pack_sensors (name ∷ names) [] = []
  pack_sensors (name ∷ names) (v ∷ values) = pack_sensor name v ++ pack_sensors names values

  -- What stands in `sbuf`.
  unfoldable pub frame_bytes : SensorSnapshot → List ℕ
  frame_bytes snap =
      pack_map 4
      ++ (pack_text 7 (codes "version")
          ++ (pack_uint8 protocol_version
              ++ (pack_text 8 (codes "sequence")
                  ++ (pack_uint64 snap.seq
                      ++ (pack_text 11 (codes "timestampMs")
                          ++ (pack_uint64 snap.timestamp_ms
                              ++ (pack_text 7 (codes "sensors")
                                  ++ (pack_array sensor_count
                                      ++ pack_sensors sensor_browse_names snap.values))))))))

  -- The bytes that are left in `buf`; [] is the result 0.
  unfoldable pub encode_frame : SensorSnapshot → ℕ → List ℕ
  unfolding frame_bytes
  encode_frame snap buf_size =
      let sbuf = frame_bytes snap in if leb (length sbuf) buf_size then sbuf else []

-- The sizes that the MessagePack specification gives, for the short formats.
pub record MsgPackSizes (mp : MsgPack) : Type 0 where
  pub length-pack_map : (n : ℕ) → n < 16 → length (mp.pack_map n) ≡ 1
  pub length-pack_array : (n : ℕ) → n < 16 → length (mp.pack_array n) ≡ 1
  pub length-pack_str : (n : ℕ) → n < 32 → length (mp.pack_str n) ≡ 1
  pub length-pack_str_body : (s : CString) → length (mp.pack_str_body s (length s)) ≡ length s
  pub length-pack_uint8 : (n : ℕ) → n < 128 → length (mp.pack_uint8 n) ≡ 1
  pub length-pack_uint64 : (n : ℕ) → 1 ≤ length (mp.pack_uint64 n)
  pub length-pack_uint64-le : (n : ℕ) → length (mp.pack_uint64 n) ≤ 9
  pub length-pack_true : length mp.pack_true ≡ 1
  pub length-pack_false : length mp.pack_false ≡ 1

-- The buffer of main.
abbrev pub frame_size : ℕ
frame_size = 512
