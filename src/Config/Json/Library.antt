-- ===== src/Config/Json/Library.antt =====
-- What src/server_config.c and src/http_server.c use of cJSON, and what its documentation says of
-- that.
use bo_smart_factory_opcua_t.Base.{
  ℕ, ◌≡◌, Bool, List, [], ◌∷◌, Option, none, some, CString, str_eq, if◌then◌else◌,
}

-- A reader takes a pointer that may be NULL through `and_then`, or answers `false` for NULL.
pub record CJson : Type 1 where
  pub Json : Type 0
  -- cJSON_Parse, cJSON_Print, cJSON_PrintUnformatted; `none` is NULL
  pub parse : CString → Option Json
  pub print : Json → Option CString
  pub print_unformatted : Json → Option CString
  -- cJSON_GetObjectItemCaseSensitive
  pub get_object_item : Json → CString → Option Json
  -- `valuestring`, where cJSON_IsString holds
  pub string_value : Json → Option CString
  -- cJSON_IsTrue, cJSON_IsBool
  pub is_true : Json → Bool
  pub is_bool : Json → Bool
  -- the children, where cJSON_IsArray holds
  pub array_items : Json → Option (List Json)
  pub string : CString → Json
  pub bool : Bool → Json
  pub number : ℕ → Json
  -- cJSON_CreateArray with cJSON_AddItemToArray for each element
  pub array : List Json → Json
  -- cJSON_CreateObject with cJSON_AddItemToObject for each field
  pub object : List (CString × Json) → Json

unfoldable pub first_field {ℓ} : {A : Type ℓ} → List (CString × A) → CString → Option A
first_field [] k = none
first_field ((j, v) ∷ fs) k = if str_eq j k then some v else first_field fs k

pub record CJsonLaws (c : CJson) : Type 0 where
  pub get_object_item-object :
      (fs : List (CString × c.Json)) (k : CString)
      → c.get_object_item (c.object fs) k ≡ first_field fs k
  pub string_value-string : (s : CString) → c.string_value (c.string s) ≡ some s
  pub is_true-bool : (b : Bool) → c.is_true (c.bool b) ≡ b
  pub array_items-array : (js : List c.Json) → c.array_items (c.array js) ≡ some js
