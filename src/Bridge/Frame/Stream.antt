-- ===== src/Bridge/Frame/Stream.antt =====
-- The frames that the bridge sends, read back by a client that follows PROTOCOL.md.
use mathlib.Core.List.{append_assoc}
use bo_smart_factory_opcua_t.Base.{
  ℕ, suc, ◌≡◌, ◌<◌, ◌^◌, map, refl, Bool, true, false, List, [], ◌∷◌, ◌++◌, some, CString, codes,
  str_eq, length, and_then, All, arith,
}
use bo_smart_factory_opcua_t.Bridge.Frame.{
  MsgPack, MsgPackSizes, SensorSnapshot, sensor_browse_names, sensor_count, protocol_version,
  pack_text, pack_bool, pack_sensor, pack_sensors, frame_bytes, encode_frame, frame_size,
}
use bo_smart_factory_opcua_t.Bridge.Frame.Sizes.{short_names, encode_frame_lem}
use bo_smart_factory_opcua_t.Bridge.Frame.Reader.{
  Unpacker, Reads, text, boolean, Entry, Document, read_entries, decode_frame, decode_frames,
}

-- What a frame says of a snapshot.
abbrev pub entry_of : CString → Bool → Entry
entry_of name value = record { id = some name; type_code = some 0; value = some value }

abbrev pub entries_of : List CString → List Bool → List Entry
entries_of [] values = []
entries_of (name ∷ names) [] = []
entries_of (name ∷ names) (v ∷ values) = entry_of name v ∷ entries_of names values

abbrev pub document_of : SensorSnapshot → Document
document_of snap = record {
  version = some protocol_version;
  sequence = some snap.seq;
  timestamp_ms = some snap.timestamp_ms;
  sensors = entries_of sensor_browse_names snap.values;
}

-- A snapshot has a value for each sensor, and its counters are 64 bits wide.
pub record IsSnapshot (snap : SensorSnapshot) : Type 0 where
  pub count_fits : length snap.values ≡ sensor_count
  pub seq_fits : snap.seq < 2 ^ 64
  pub timestamp_fits : snap.timestamp_ms < 2 ^ 64

module _ (mp : MsgPack) (un : Unpacker) (reads : Reads mp un) where
  next-pack_text :
      (n : ℕ) (s : CString) (r : List ℕ)
      → length s ≡ n
      → n < 32
      → un.next (pack_text mp n s ++ r) ≡ some (text s, r)
  unfolding pack_text
  next-pack_text n s r e h =
      rw (← e, append_assoc (mp.pack_str (length s)) (mp.pack_str_body s (length s)) r)
        (reads.next-pack_str s r (omega (arith, e)))

  next-pack_bool : (b : Bool) (r : List ℕ) → un.next (pack_bool mp b ++ r) ≡ some (boolean b, r)
  next-pack_bool true r = reads.next-pack_true r
  next-pack_bool false r = reads.next-pack_false r

  pack_sensor-append :
      (name : CString) (v : Bool) (r : List ℕ)
      → pack_sensor mp name v ++ r
        ≡ mp.pack_map 3
          ++ (pack_text mp 2 (codes "id")
              ++ (pack_text mp (length name) name
                  ++ (pack_text mp 4 (codes "type")
                      ++ (mp.pack_uint8 0
                          ++ (pack_text mp 5 (codes "value") ++ (pack_bool mp v ++ r))))))
  unfolding pack_sensor
  pack_sensor-append name v r = simp append_assoc refl

  read_pack_sensor :
      (n : ℕ) (name : CString) (v : Bool) (r : List ℕ)
      → length name < 32
      → read_entries un (suc n) (pack_sensor mp name v ++ r)
        ≡ and_then (read_entries un n r) λ es. some (entry_of name v ∷ es.0, es.1)
  unfolding str_eq
  read_pack_sensor n name v r h =
      rw
        (
          pack_sensor-append name v r,
          reads.next-pack_map 3
              (pack_text mp 2 (codes "id")
                ++ (pack_text mp (length name) name
                    ++ (pack_text mp 4 (codes "type")
                        ++ (mp.pack_uint8 0
                            ++ (pack_text mp 5 (codes "value") ++ (pack_bool mp v ++ r))))))
              (omega arith),
          next-pack_text 2 (codes "id")
              (pack_text mp (length name) name
                ++ (pack_text mp 4 (codes "type")
                    ++ (mp.pack_uint8 0
                        ++ (pack_text mp 5 (codes "value") ++ (pack_bool mp v ++ r)))))
              refl (omega arith),
          next-pack_text (length name) name
              (pack_text mp 4 (codes "type")
                ++ (mp.pack_uint8 0 ++ (pack_text mp 5 (codes "value") ++ (pack_bool mp v ++ r))))
              refl h,
          next-pack_text 4 (codes "type")
              (mp.pack_uint8 0 ++ (pack_text mp 5 (codes "value") ++ (pack_bool mp v ++ r))) refl
              (omega arith),
          reads.next-pack_uint8 0 (pack_text mp 5 (codes "value") ++ (pack_bool mp v ++ r))
              (omega arith),
          next-pack_text 5 (codes "value") (pack_bool mp v ++ r) refl (omega arith),
          next-pack_bool v r,
        )
        refl

  read_pack_sensors :
      (names : List CString) (values : List Bool) (r : List ℕ)
      → length values ≡ length names
      → All (λ name. length name < 32) names
      → read_entries un (length names) (pack_sensors mp names values ++ r)
        ≡ some (entries_of names values, r)
  unfolding pack_sensors
  read_pack_sensors [] [] r e h = refl
  read_pack_sensors [] (v ∷ values) r e h = absurd (omega (arith, e))
  read_pack_sensors (name ∷ names) [] r e h = absurd (omega (arith, e))
  read_pack_sensors (name ∷ names) (v ∷ values) r e h =
      rw
        (
          append_assoc (pack_sensor mp name v) (pack_sensors mp names values) r,
          read_pack_sensor (length names) name v (pack_sensors mp names values ++ r) h.0,
          read_pack_sensors names values r (omega (arith, e)) h.1,
        )
        refl

  decode-frame_bytes :
      (snap : SensorSnapshot) (r : List ℕ)
      → IsSnapshot snap
      → decode_frame un (frame_bytes mp snap ++ r) ≡ some (document_of snap, r)
  unfolding decode_frame frame_bytes str_eq
  decode-frame_bytes snap r h =
      let sensors = pack_sensors mp sensor_browse_names snap.values in
      let tail = mp.pack_array sensor_count ++ (sensors ++ r) in
      let stamp = mp.pack_uint64 snap.timestamp_ms ++ (pack_text mp 7 (codes "sensors") ++ tail) in
      let sequence = mp.pack_uint64 snap.seq ++ (pack_text mp 11 (codes "timestampMs") ++ stamp) in
      let version =
        mp.pack_uint8 protocol_version ++ (pack_text mp 8 (codes "sequence") ++ sequence) in
      let whole : frame_bytes mp snap ++ r
          ≡ mp.pack_map 4 ++ (pack_text mp 7 (codes "version") ++ version) =
        simp append_assoc refl in
      rw
        (
          whole,
          reads.next-pack_map 4 (pack_text mp 7 (codes "version") ++ version) (omega arith),
          next-pack_text 7 (codes "version") version refl (omega arith),
          reads.next-pack_uint8 protocol_version (pack_text mp 8 (codes "sequence") ++ sequence)
              (omega arith),
          next-pack_text 8 (codes "sequence") sequence refl (omega arith),
          reads.next-pack_uint64 snap.seq (pack_text mp 11 (codes "timestampMs") ++ stamp)
              h.seq_fits,
          next-pack_text 11 (codes "timestampMs") stamp refl (omega arith),
          reads.next-pack_uint64 snap.timestamp_ms (pack_text mp 7 (codes "sensors") ++ tail)
              h.timestamp_fits,
          next-pack_text 7 (codes "sensors") tail refl (omega arith),
          reads.next-pack_array sensor_count (sensors ++ r) (omega arith),
          read_pack_sensors sensor_browse_names snap.values r h.count_fits short_names,
        )
        refl

-- The bytes that go to a client for a list of snapshots.
abbrev pub frames : MsgPack → List SensorSnapshot → List ℕ
frames mp [] = []
frames mp (snap ∷ snaps) = encode_frame mp snap frame_size ++ frames mp snaps

-- A client that reads the frames one after another, with nothing between them, finds exactly the
-- version, the counters and the names and values of the snapshots, in order, and what is behind the
-- last frame is left over. No frame is dropped for want of room in its 512 bytes. The snapshots are
-- asked to have five values and counters of 64 bits, msgpack-c to write the sizes of the MessagePack
-- specification, and the client's reader to read what msgpack-c writes in the short formats.
pub decode_frames-frames :
    (mp : MsgPack) (sizes : MsgPackSizes mp) (un : Unpacker) (reads : Reads mp un)
    (snaps : List SensorSnapshot) (r : List ℕ)
    → All IsSnapshot snaps
    → decode_frames un (length snaps) (frames mp snaps ++ r) ≡ some (map document_of snaps, r)
unfolding decode_frames
decode_frames-frames mp sizes un reads [] r h = refl
decode_frames-frames mp sizes un reads (snap ∷ snaps) r h =
    rw
      (
        encode_frame_lem mp sizes snap,
        append_assoc (frame_bytes mp snap) (frames mp snaps) r,
        decode-frame_bytes mp un reads snap (frames mp snaps ++ r) h.0,
        decode_frames-frames mp sizes un reads snaps r h.1,
      )
      refl
