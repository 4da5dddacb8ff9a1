-- ===== src/Tests/Qt.antt =====
-- Small stand-ins for what src/gui uses of Qt and of msgpack-c, with a reader.
use bo_smart_factory_opcua_t.Base.{
  ℕ, ◌-◌, ◌≡◌, refl, ap, Bool, true, false, List, [], ◌∷◌, ◌++◌, Option, none, some, if◌then◌else◌,
  length, take, ◌==◌, str_eq, ◌&&◌, ◌^◌, ltb, Bool-cases, inl, inr,
}
use bo_smart_factory_opcua_t.Gui.Qt.{Text, Captures, Qt, QtLaws, QtJson, QtJsonLaws, first_value}
use bo_smart_factory_opcua_t.Gui.Frame.{GuiPack}
use bo_smart_factory_opcua_t.Gui.Frame.Items.{
  Item, map_head, array_head, text, number, negative, truth, float32, float64, whole, ItemReader,
  ReadsItems, Shows,
}
use bo_smart_factory_opcua_t.Gui.Dialog.Selecting.{find_parenthesis}
use bo_smart_factory_opcua_t.Tests.Json.{
  Value, str, flag, num, arr, obj, nil, to_items, of_items, of_items-to_items, to_fields, of_fields,
  of_fields-to_fields,
}
use bo_smart_factory_opcua_t.Tests.Pack.{drop, take_self, take-append_self, drop-append_self}

-- A number is a text of one unit.
abbrev one_unit : Text → Option ℕ
one_unit (c ∷ []) = some c
one_unit s = none

-- `ns=N;T=value`, at the start of the text only.
abbrev captures : Text → Option Captures
captures (a ∷ b ∷ c ∷ n ∷ d ∷ t ∷ e ∷ v ∷ vs) =
    if (c == b'=') && (e == b'=')
    then some (record { namespace = (n - 48) ∷ []; id_type = t ∷ []; id_value = v ∷ vs })
    else none
captures s = none

abbrev starts_with : Text → Text → Bool
starts_with s [] = true
starts_with [] (d ∷ p) = false
starts_with (c ∷ s) (d ∷ p) = if c == d then starts_with s p else false

abbrev holds : Text → Text → Bool
holds [] p = starts_with [] p
holds (c ∷ s) p = if starts_with (c ∷ s) p then true else holds s p

abbrev pub tiny_qt : Qt
tiny_qt = record {
  trimmed = λ s. s;
  to_lower = λ s. s;
  to_utf8 = λ s. s;
  from_utf8 = λ s. s;
  contains = holds;
  index_of = λ s p. find_parenthesis s;
  to_int = one_unit;
  to_ushort = one_unit;
  number = λ n. n ∷ [];
  match_node_id = captures;
}

pub tiny-QtLaws : QtLaws tiny_qt
tiny-QtLaws = record {
  trimmed-nil = refl;
  trimmed-trimmed = λ s. refl;
  to_int-number = λ n h. refl;
}

abbrev pub missing : Value
missing = arr nil

abbrev item_at : Value → Text → Value
item_at (obj fs) k = first_value missing (of_fields fs) k
item_at v k = missing

abbrev text_or : Value → Text → Text
text_or (str s) d = s
text_or v d = d

abbrev number_or : Value → ℕ → ℕ
number_or (num n) d = n
number_or v d = d

abbrev flag_or : Value → Bool → Bool
flag_or (flag b) d = b
flag_or v d = d

abbrev array_or_nil : Value → List Value
array_or_nil (arr vs) = of_items vs
array_or_nil v = []

-- Every document is written as `printed`, which is read as `document`.
abbrev pub tiny_qt_json : List ℕ → Value → QtJson
tiny_qt_json printed document = record {
  Json = Value;
  item = item_at;
  to_string = text_or;
  to_int = number_or;
  to_bool = flag_or;
  to_array = array_or_nil;
  string = str;
  int = num;
  bool = flag;
  array = λ vs. arr (to_items vs);
  object = λ fs. obj (to_fields fs);
  to_json = λ v. printed;
  from_json = λ bytes. if str_eq bytes printed then some document else none;
}

pub tiny-QtJsonLaws :
    (printed : List ℕ) (document : Value) → QtJsonLaws (tiny_qt_json printed document)
tiny-QtJsonLaws printed document = record {
  absent = missing;
  item-object = λ fs k. ap (λ l. first_value missing l k) (of_fields-to_fields fs);
  to_string-string = λ s d. refl;
  to_int-int = λ n d h. refl;
  to_bool-bool = λ b d. refl;
  to_array-array = of_items-to_items;
}

-- Every item has a tag in front, and an integer is written by its value alone.
abbrev tagged_whole : ℕ → ℕ → List ℕ
tagged_whole bits w = if ltb w (2 ^ (bits - 1)) then 4 ∷ w ∷ [] else 6 ∷ (2 ^ bits - w) ∷ []

abbrev pub tagged_pack : GuiPack
tagged_pack = record {
  base = record {
    pack_map = λ n. 1 ∷ n ∷ [];
    pack_array = λ n. 2 ∷ n ∷ [];
    pack_str = λ n. 3 ∷ n ∷ [];
    pack_str_body = λ s n. take n s;
    pack_uint8 = λ n. 4 ∷ n ∷ [];
    pack_uint64 = λ n. 4 ∷ n ∷ [];
    pack_true = 5 ∷ 1 ∷ [];
    pack_false = 5 ∷ 0 ∷ [];
  };
  pack_int32 = tagged_whole 32;
  pack_int64 = tagged_whole 64;
  pack_float = λ w. 8 ∷ w ∷ [];
  pack_double = λ w. 9 ∷ w ∷ [];
}

abbrev tagged_item : ℕ → ℕ → List ℕ → Option (Item × List ℕ)
tagged_item tag n r =
    if tag == 1
    then some (map_head n, r)
    else if tag == 2
    then some (array_head n, r)
    else if tag == 3
    then some (text (take n r), drop n r)
    else if tag == 4
    then some (number n, r)
    else if tag == 5
    then some (truth (n == 1), r)
    else if tag == 6
    then some (negative n, r)
    else if tag == 8
    then some (float32 n, r)
    else some (float64 n, r)

abbrev next_tagged : List ℕ → Option (Item × List ℕ)
next_tagged (tag ∷ n ∷ r) = tagged_item tag n r
next_tagged bytes = none

abbrev pub tagged_reader : ItemReader
tagged_reader = record { next = next_tagged }

pub tagged-ReadsItems : ReadsItems tagged_pack tagged_reader
tagged-ReadsItems = record {
  shows_map = λ n h r. refl;
  shows_array = λ n h r. refl;
  shows_text = λ s h r. shows_text s r;
  shows_uint8 = λ n h r. refl;
  shows_uint64 = λ n h r. refl;
  shows_true = λ r. refl;
  shows_false = λ r. refl;
  shows_int32 = λ w h r. shows_whole 32 w r;
  shows_int64 = λ w h r. shows_whole 64 w r;
  shows_float = λ w h r. refl;
  shows_double = λ w h r. refl;
}
  where
    shows_whole : (bits w : ℕ) → Shows tagged_reader (tagged_whole bits w) (whole bits w)
    shows_whole bits w r = elim (Bool-cases (ltb w (2 ^ (bits - 1)))) [
      | inl e ↦ rw e refl
      | inr e ↦ rw e refl
    ]

    shows_text :
        (s r : List ℕ)
        → next_tagged ((3 ∷ length s ∷ []) ++ take (length s) s ++ r) ≡ some (text s, r)
    shows_text s r = rw (take_self s, take-append_self s r, drop-append_self s r) refl
