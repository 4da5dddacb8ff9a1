-- ===== src/Gui/Qt.antt =====
-- What src/gui uses of Qt's texts, numbers and JSON, and what the documentation of Qt says of that.
use bo_smart_factory_opcua_t.Base.{
  ℕ, ◌≡◌, ◌<◌, ◌^◌, Bool, List, [], ◌∷◌, Option, some, str_eq, if◌then◌else◌,
}

-- QString, as its UTF-16 units.
abbrev pub Text : Type 0
Text = List ℕ

-- The groups of the regular expression `ns=(\d+);(s|i|g|b)=(.+)`.
pub record Captures : Type 0 where
  pub namespace : Text
  pub id_type : Text
  pub id_value : Text

-- An int is its pattern of 32 bits, and `none` a conversion that fails.
pub record Qt : Type 0 where
  pub trimmed : Text → Text
  pub to_lower : Text → Text
  pub to_utf8 : Text → List ℕ
  pub from_utf8 : List ℕ → Text
  pub contains : Text → Text → Bool
  -- `none` is -1
  pub index_of : Text → Text → Option ℕ
  pub to_int : Text → Option ℕ
  pub to_ushort : Text → Option ℕ
  -- QString::number
  pub number : ℕ → Text
  -- QRegularExpression::match, anywhere in the text
  pub match_node_id : Text → Option Captures

pub record QtLaws (qt : Qt) : Type 0 where
  pub trimmed-nil : qt.trimmed [] ≡ []
  pub trimmed-trimmed : (s : Text) → qt.trimmed (qt.trimmed s) ≡ qt.trimmed s
  pub to_int-number : (n : ℕ) → n < 2 ^ 31 → qt.to_int (qt.number n) ≡ some n

-- QJsonValue, with the objects and arrays in it.
pub record QtJson : Type 1 where
  pub Json : Type 0
  -- `v.toObject()[key]`
  pub item : Json → Text → Json
  -- toString, toInt and toBool with their default
  pub to_string : Json → Text → Text
  pub to_int : Json → ℕ → ℕ
  pub to_bool : Json → Bool → Bool
  pub to_array : Json → List Json
  pub string : Text → Json
  pub int : ℕ → Json
  pub bool : Bool → Json
  pub array : List Json → Json
  -- an object, by its assignments `obj[key] = value` to different keys
  pub object : List (Text × Json) → Json
  -- QJsonDocument::toJson, and QJsonDocument::fromJson with object(); `none` is an error
  pub to_json : Json → List ℕ
  pub from_json : List ℕ → Option Json

-- The value under a key of an object, or `d`.
unfoldable pub first_value {ℓ} : {A : Type ℓ} → A → List (Text × A) → Text → A
first_value d [] k = d
first_value d ((j, v) ∷ fs) k = if str_eq j k then v else first_value d fs k

-- `absent` is the undefined value.
pub record QtJsonLaws (js : QtJson) : Type 0 where
  pub absent : js.Json
  pub item-object :
      (fs : List (Text × js.Json)) (k : Text) → js.item (js.object fs) k ≡ first_value absent fs k
  pub to_string-string : (s d : Text) → js.to_string (js.string s) d ≡ s
  pub to_int-int : (n d : ℕ) → n < 2 ^ 32 → js.to_int (js.int n) d ≡ n
  pub to_bool-bool : (b d : Bool) → js.to_bool (js.bool b) d ≡ b
  pub to_array-array : (vs : List js.Json) → js.to_array (js.array vs) ≡ vs
