-- ===== src/Config/DataTypes.antt =====
-- server_data_type_to_string and server_data_type_from_string of src/server_config.c.
use bo_smart_factory_opcua_t.Base.{
  ◌≡◌, refl, Option, none, some, CString, codes, str_eq, if◌then◌else◌, arith, str_eq_iff, ◌↔◌,
}
use bo_smart_factory_opcua_t.Config.{ServerDataType, dt_boolean, dt_int32, dt_double, dt_string}

unfoldable pub data_type_to_string : ServerDataType → CString
data_type_to_string dt_boolean = codes "Boolean"
data_type_to_string dt_int32 = codes "Int32"
data_type_to_string dt_double = codes "Double"
data_type_to_string dt_string = codes "String"

-- `none` is `false`, with `*out` left alone.
unfoldable pub data_type_from_string : CString → Option ServerDataType
data_type_from_string s =
    if str_eq s (codes "Boolean")
    then some dt_boolean
    else if str_eq s (codes "Int32")
    then some dt_int32
    else if str_eq s (codes "Double")
    then some dt_double
    else if str_eq s (codes "String")
    then some dt_string
    else none

from_string-to_string :
    (dt : ServerDataType) → data_type_from_string (data_type_to_string dt) ≡ some dt
unfolding data_type_from_string data_type_to_string str_eq
from_string-to_string dt_boolean = refl
from_string-to_string dt_int32 = refl
from_string-to_string dt_double = refl
from_string-to_string dt_string = refl

to_string-from_string :
    (s : CString) (dt : ServerDataType)
    → data_type_from_string s ≡ some dt
    → s ≡ data_type_to_string dt
unfolding data_type_from_string data_type_to_string
to_string-from_string s dt h = ground (
  arith,
  str_eq_iff s (codes "Boolean"),
  str_eq_iff s (codes "Int32"),
  str_eq_iff s (codes "Double"),
  str_eq_iff s (codes "String"),
)

-- A string is read as a data type exactly when it is the string that the data type prints as: the
-- two functions are inverse, and every other string is refused.
pub data_type_from_string_iff :
    (s : CString) (dt : ServerDataType)
    → (data_type_from_string s ≡ some dt) ↔ (s ≡ data_type_to_string dt)
data_type_from_string_iff s dt = (to_string-from_string s dt, λ e. rw e (from_string-to_string dt))
