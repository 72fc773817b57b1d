-- ===== src/Json.antt =====
-- `serde_json::Value` as the program reads it. An object is the list of its entries.
use Prim.Native.String.{String}
use text.Mathlib.Text.{◌==◌ as str_eq}
use rust_pois.Prelude.{Bool, Option, none, some, if◌then◌else◌, Text, bind_option}

mutual
  pub data Value : Type 0 where
    null : Value
    boolean : Bool → Value
    number : Text → Value
    string : Text → Value
    array : Items → Value
    object : Fields → Value

  pub data Items : Type 0 where
    nil : Items
    cons : Value → Items → Items

  pub data Fields : Type 0 where
    end : Fields
    field : String → Value → Fields → Fields

-- `Map::get`
unfoldable pub lookup : String → Fields → Option Value
lookup key end = none
lookup key (field k v rest) = if str_eq k key then some v else lookup key rest

-- `Value::get`: only an object has entries.
unfoldable pub get : String → Value → Option Value
unfolding lookup
get key (object fields) = lookup key fields
get key _ = none

unfoldable pub as_str : Value → Option Text
as_str (string s) = some s
as_str _ = none

unfoldable pub as_array : Value → Option Items
as_array (array xs) = some xs
as_array _ = none

unfoldable pub as_object : Value → Option Fields
as_object (object fields) = some fields
as_object _ = none

-- `.get(key).and_then(|v| v.as_str())`
unfoldable pub get_str : String → Value → Option Text
unfolding get as_str
get_str key v = bind_option (get key v) as_str
