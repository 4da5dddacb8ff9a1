-- ===== src/Bridge/Frame/Sizes.antt =====
-- The sizes of the frames, against that of their buffer.
use bo_smart_factory_opcua_t.Base.{
  ℕ, ◌+◌, ◌≡◌, ◌≤◌, ◌<◌, ◌*◌, refl, Bool, true, false, List, [], ◌∷◌, CString, codes, length,
  length-append, le→leb, All, arith,
}
use bo_smart_factory_opcua_t.Bridge.Frame.{
  MsgPack, MsgPackSizes, SensorSnapshot, sensor_browse_names, sensor_count, protocol_version,
  pack_text, pack_bool, pack_sensor, pack_sensors, frame_bytes, encode_frame, frame_size,
}

pub short_names : All (λ name. length name < 32) sensor_browse_names
short_names = (omega arith, (omega arith, (omega arith, (omega arith, (omega arith, tt)))))

module _ (mp : MsgPack) (sizes : MsgPackSizes mp) where
  length-pack_text :
      (n : ℕ) (s : CString) → length s ≡ n → n < 32 → length (pack_text mp n s) ≡ 1 + n
  unfolding pack_text
  length-pack_text n s e h = rw (← e) (
      omega (
        arith,
        length-append (mp.pack_str (length s)) (mp.pack_str_body s (length s)),
        sizes.length-pack_str (length s) (omega (arith, e)),
        sizes.length-pack_str_body s,
      ))

  length-pack_bool : (b : Bool) → length (pack_bool mp b) ≡ 1
  length-pack_bool true = sizes.length-pack_true
  length-pack_bool false = sizes.length-pack_false

  length-pack_sensor :
      (name : CString) (v : Bool)
      → length name < 32
      → length (pack_sensor mp name v) ≡ 18 + length name
  unfolding pack_sensor
  length-pack_sensor name v h = simp length-append (
      omega (
        arith,
        sizes.length-pack_map 3 (omega arith),
        length-pack_text 2 (codes "id") refl (omega arith),
        length-pack_text (length name) name refl h,
        length-pack_text 4 (codes "type") refl (omega arith),
        sizes.length-pack_uint8 0 (omega arith),
        length-pack_text 5 (codes "value") refl (omega arith),
        length-pack_bool v,
      ))

  length-pack_sensors-le :
      (names : List CString) (values : List Bool)
      → All (λ name. length name < 32) names
      → length (pack_sensors mp names values) ≤ 50 * length names
  unfolding pack_sensors
  length-pack_sensors-le [] values h = omega arith
  length-pack_sensors-le (name ∷ names) [] h = omega arith
  length-pack_sensors-le (name ∷ names) (v ∷ values) h = omega (
    arith,
    length-append (pack_sensor mp name v) (pack_sensors mp names values),
    length-pack_sensor name v h.0,
    length-pack_sensors-le names values h.1,
  )

  -- The buffer of 512 bytes is never too short.
  length-frame_bytes-le : (snap : SensorSnapshot) → length (frame_bytes mp snap) ≤ frame_size
  unfolding frame_bytes
  length-frame_bytes-le snap = simp length-append (
      omega (
        arith,
        sizes.length-pack_map 4 (omega arith),
        length-pack_text 7 (codes "version") refl (omega arith),
        sizes.length-pack_uint8 protocol_version (omega arith),
        length-pack_text 8 (codes "sequence") refl (omega arith),
        sizes.length-pack_uint64-le snap.seq,
        length-pack_text 11 (codes "timestampMs") refl (omega arith),
        sizes.length-pack_uint64-le snap.timestamp_ms,
        length-pack_text 7 (codes "sensors") refl (omega arith),
        sizes.length-pack_array sensor_count (omega arith),
        length-pack_sensors-le sensor_browse_names snap.values short_names,
      ))

  pub encode_frame_lem :
      (snap : SensorSnapshot) → encode_frame mp snap frame_size ≡ frame_bytes mp snap
  unfolding encode_frame
  encode_frame_lem snap =
      rw (le→leb (length (frame_bytes mp snap)) frame_size (length-frame_bytes-le snap))

  -- A frame is never empty.
  pub length-encode_frame : (snap : SensorSnapshot) → 0 < length (encode_frame mp snap frame_size)
  unfolding frame_bytes
  length-encode_frame snap =
      rw (encode_frame_lem snap)
        (simp length-append (omega (arith, sizes.length-pack_map 4 (omega arith))))
