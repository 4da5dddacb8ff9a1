-- ===== src/Tests/Json.antt =====
-- A small stand-in for cJSON.
use bo_smart_factory_opcua_t.Base.{
  ℕ, ◌≡◌, refl, ap, Bool, true, false, List, [], ◌∷◌, Option, none, some, CString,
}
use bo_smart_factory_opcua_t.Config.Json.{CJson, CJsonLaws, first_field}

mutual
  pub data Value : Type 0 where
    str : CString → Value
    flag : Bool → Value
    num : ℕ → Value
    arr : Items → Value
    obj : Fields → Value

  pub data Items : Type 0 where
    nil : Items
    cons : Value → Items → Items

  pub data Fields : Type 0 where
    end : Fields
    field : CString → Value → Fields → Fields

abbrev pub to_items : List Value → Items
to_items [] = nil
to_items (v ∷ vs) = cons v (to_items vs)

abbrev pub of_items : Items → List Value
of_items nil = []
of_items (cons v vs) = v ∷ of_items vs

abbrev pub to_fields : List (CString × Value) → Fields
to_fields [] = end
to_fields ((k, v) ∷ fs) = field k v (to_fields fs)

abbrev pub of_fields : Fields → List (CString × Value)
of_fields end = []
of_fields (field k v fs) = (k, v) ∷ of_fields fs

abbrev get : Value → CString → Option Value
get (obj fs) k = first_field (of_fields fs) k
get v k = none

abbrev str_of : Value → Option CString
str_of (str s) = some s
str_of v = none

abbrev is_flag : Value → Bool
is_flag (flag true) = true
is_flag v = false

abbrev is_any_flag : Value → Bool
is_any_flag (flag b) = true
is_any_flag v = false

abbrev items_of : Value → Option (List Value)
items_of (arr vs) = some (of_items vs)
items_of v = none

-- Every document prints as `text` and every text parses to `document`.
abbrev pub tiny_json : CString → Value → CJson
tiny_json text document = record {
  Json = Value;
  parse = λ _. some document;
  print = λ _. some text;
  print_unformatted = λ _. some text;
  get_object_item = get;
  string_value = str_of;
  is_true = is_flag;
  is_bool = is_any_flag;
  array_items = items_of;
  string = str;
  bool = flag;
  number = num;
  array = λ vs. arr (to_items vs);
  object = λ fs. obj (to_fields fs);
}

pub of_items-to_items : (vs : List Value) → of_items (to_items vs) ≡ vs
of_items-to_items [] = refl
of_items-to_items (v ∷ vs) = ap (◌∷◌ v) (of_items-to_items vs)

pub of_fields-to_fields : (fs : List (CString × Value)) → of_fields (to_fields fs) ≡ fs
of_fields-to_fields [] = refl
of_fields-to_fields ((k, v) ∷ fs) = ap (◌∷◌ (k, v)) (of_fields-to_fields fs)

is_true-flag : (b : Bool) → is_flag (flag b) ≡ b
is_true-flag true = refl
is_true-flag false = refl

pub tiny_laws : (text : CString) (document : Value) → CJsonLaws (tiny_json text document)
tiny_laws text document = record {
  get_object_item-object = λ fs k. ap (λ l. first_field l k) (of_fields-to_fields fs);
  string_value-string = λ s. refl;
  is_true-bool = is_true-flag;
  array_items-array = λ vs. ap some (of_items-to_items vs);
}
