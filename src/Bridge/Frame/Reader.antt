-- ===== src/Bridge/Frame/Reader.antt =====
-- A reader of the frames that PROTOCOL.md describes, over a MessagePack reader: a frame is a map
-- with four fields, in any order, and a sensor a map with three.
use bo_smart_factory_opcua_t.Base.{
  ℕ, zero, suc, ◌≡◌, ◌<◌, ◌^◌, Bool, true, false, List, [], ◌∷◌, ◌++◌, Option, none, some, CString,
  codes, str_eq, if◌then◌else◌, length, and_then,
}
use bo_smart_factory_opcua_t.Bridge.Frame.{MsgPack}

-- What stands at the front of a MessagePack stream: the head of a map or an array, or a scalar.
pub data Item : Type 0 where
  map_head array_head : ℕ → Item
  text : CString → Item
  number : ℕ → Item
  boolean : Bool → Item

-- A client's MessagePack reader.
pub record Unpacker : Type 0 where
  pub next : List ℕ → Option (Item × List ℕ)

-- It reads what msgpack_pack_*() writes, in the short formats.
pub record Reads (mp : MsgPack) (un : Unpacker) : Type 0 where
  pub next-pack_map :
      (n : ℕ) (r : List ℕ) → n < 16 → un.next (mp.pack_map n ++ r) ≡ some (map_head n, r)
  pub next-pack_array :
      (n : ℕ) (r : List ℕ) → n < 16 → un.next (mp.pack_array n ++ r) ≡ some (array_head n, r)
  pub next-pack_str :
      (s : CString) (r : List ℕ)
      → length s < 32
      → un.next (mp.pack_str (length s) ++ (mp.pack_str_body s (length s) ++ r)) ≡ some (text s, r)
  pub next-pack_uint8 :
      (n : ℕ) (r : List ℕ) → n < 256 → un.next (mp.pack_uint8 n ++ r) ≡ some (number n, r)
  pub next-pack_uint64 :
      (n : ℕ) (r : List ℕ) → n < 2 ^ 64 → un.next (mp.pack_uint64 n ++ r) ≡ some (number n, r)
  pub next-pack_true : (r : List ℕ) → un.next (mp.pack_true ++ r) ≡ some (boolean true, r)
  pub next-pack_false : (r : List ℕ) → un.next (mp.pack_false ++ r) ≡ some (boolean false, r)

pub record Entry : Type 0 where
  pub id : Option CString
  pub type_code : Option ℕ
  pub value : Option Bool

pub record Document : Type 0 where
  pub version : Option ℕ
  pub sequence : Option ℕ
  pub timestamp_ms : Option ℕ
  pub sensors : List Entry

abbrev pub empty_entry : Entry
empty_entry = record { id = none; type_code = none; value = none }

abbrev pub empty_document : Document
empty_document = record { version = none; sequence = none; timestamp_ms = none; sensors = [] }

abbrev pub as_text : Item → Option CString
as_text (text s) = some s
as_text _ = none

abbrev pub as_number : Item → Option ℕ
as_number (number n) = some n
as_number _ = none

abbrev pub as_boolean : Item → Option Bool
as_boolean (boolean b) = some b
as_boolean _ = none

abbrev pub as_map : Item → Option ℕ
as_map (map_head n) = some n
as_map _ = none

abbrev pub as_array : Item → Option ℕ
as_array (array_head n) = some n
as_array _ = none

abbrev pub entry_field : CString → Item → Entry → Option Entry
entry_field key v e =
    if str_eq key (codes "id")
    then and_then (as_text v) (λ s. some (record e { id = some s }))
    else if str_eq key (codes "type")
    then and_then (as_number v) (λ n. some (record e { type_code = some n }))
    else if str_eq key (codes "value")
    then and_then (as_boolean v) (λ b. some (record e { value = some b }))
    else none

abbrev pub scalar_field : CString → Item → Document → Option Document
scalar_field key v d =
    if str_eq key (codes "version")
    then and_then (as_number v) (λ n. some (record d { version = some n }))
    else if str_eq key (codes "sequence")
    then and_then (as_number v) (λ n. some (record d { sequence = some n }))
    else if str_eq key (codes "timestampMs")
    then and_then (as_number v) (λ n. some (record d { timestamp_ms = some n }))
    else none

module _ (un : Unpacker) where
  abbrev pub read_entry : ℕ → List ℕ → Entry → Option (Entry × List ℕ)
  read_entry zero bytes e = some (e, bytes)
  read_entry (suc n) bytes e = and_then (un.next bytes) λ k.
      and_then (as_text k.0) λ key.
        and_then (un.next k.1) λ v. and_then (entry_field key v.0 e) λ e'. read_entry n v.1 e'

  abbrev pub read_entries : ℕ → List ℕ → Option (List Entry × List ℕ)
  read_entries zero bytes = some ([], bytes)
  read_entries (suc n) bytes = and_then (un.next bytes) λ m. and_then (as_map m.0) λ k.
      and_then (read_entry k m.1 empty_entry)
        λ e. and_then (read_entries n e.1) λ es. some (e.0 ∷ es.0, es.1)

  abbrev pub read_field : CString → List ℕ → Document → Option (Document × List ℕ)
  read_field key bytes d = and_then (un.next bytes) λ v.
      if str_eq key (codes "sensors")
      then and_then (and_then (as_array v.0) (λ n. read_entries n v.1))
          (λ es. some (record d { sensors = es.0 }, es.1))
      else and_then (scalar_field key v.0 d) λ d'. some (d', v.1)

  abbrev pub read_fields : ℕ → List ℕ → Document → Option (Document × List ℕ)
  read_fields zero bytes d = some (d, bytes)
  read_fields (suc n) bytes d =
      and_then (un.next bytes) λ k.
        and_then (as_text k.0) λ key. and_then (read_field key k.1 d) λ r. read_fields n r.1 r.0

  -- One frame, and the bytes behind it.
  unfoldable pub decode_frame : List ℕ → Option (Document × List ℕ)
  decode_frame bytes =
      and_then (un.next bytes) λ m. and_then (as_map m.0) λ n. read_fields n m.1 empty_document

  -- n frames, one after another.
  unfoldable pub decode_frames : ℕ → List ℕ → Option (List Document × List ℕ)
  unfolding decode_frame
  decode_frames zero bytes = some ([], bytes)
  decode_frames (suc n) bytes =
      and_then (decode_frame bytes)
        λ d. and_then (decode_frames n d.1) λ ds. some (d.0 ∷ ds.0, ds.1)
