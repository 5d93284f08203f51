-- ===== src/Json.antt =====
-- `serde_json::Value`. A number is an integer, or the text of a number that is none.
use xray_bridge.Prelude.{ℕ, Bool, String, Option, none, some, List, [], ◌∷◌, if◌then◌else◌}
use xray_bridge.Text.{Str, utf8, str_eq}

-- `negsuc n` is -(n + 1).
pub data ℤ : Type 0 where
  pos : ℕ → ℤ
  negsuc : ℕ → ℤ

mutual
  pub data Json : Type 0 where
    null : Json
    bool : Bool → Json
    int : ℤ → Json
    float : Str → Json
    str : Str → Json
    array : Items → Json
    object : Fields → Json

  pub data Items : Type 0 where
    nil : Items
    cons : Json → Items → Items

  pub data Fields : Type 0 where
    end : Fields
    field : Str → Json → Fields → Fields

find_field : Str → Fields → Option Json
find_field key end = none
find_field key (field k v fs) = if str_eq k key then some v else find_field key fs

-- `v.get(key)`: anything but an object has no fields.
unfoldable pub get : Json → Str → Option Json
unfolding find_field
get (object fs) key = find_field key fs
get _ key = none

-- `v.as_str()`
unfoldable pub as_str : Json → Option Str
as_str (str s) = some s
as_str _ = none

abbrev pub items : List Json → Items
items [] = nil
items (v ∷ vs) = cons v (items vs)

abbrev fields : List (String × Json) → Fields
fields [] = end
fields ((k, v) ∷ fs) = field (utf8 k) v (fields fs)

-- `json!({...})` and `json!([...])`
abbrev pub object! : List (String × Json) → Json
object! fs = object (fields fs)

abbrev pub array! : List Json → Json
array! vs = array (items vs)
