-- ===== src/Api/Json.antt =====
-- `serde_json::Value`, as far as the validators look into it. An object lists each of its keys once.
use text.Mathlib.Text.{◌==◌ as str_eq}
use honey.Prelude.{ℕ, String, Bool, true, false, Option, none, some, if◌then◌else◌}

mutual
  pub data Json : Type 0 where
    null : Json
    boolean : Bool → Json
    unsigned : ℕ → Json
    negative : ℕ → Json
    float : ℕ → Json
    string : String → Json
    array : Elements → Json
    object : Fields → Json

  pub data Elements : Type 0 where
    nil : Elements
    cons : Json → Elements → Elements

  pub data Fields : Type 0 where
    end : Fields
    field : String → Json → Fields → Fields

unfoldable pub get_field : String → Fields → Option Json
get_field key end = none
get_field key (field k v rest) =
    let later = get_field key rest in if str_eq k key then some v else later

abbrev pub as_object : Json → Option Fields
as_object (object fs) = some fs
as_object _ = none

abbrev pub as_str : Json → Option String
as_str (string s) = some s
as_str _ = none

abbrev pub as_bool : Json → Option Bool
as_bool (boolean b) = some b
as_bool _ = none

abbrev pub as_u64 : Json → Option ℕ
as_u64 (unsigned n) = some n
as_u64 _ = none

abbrev pub is_object : Json → Bool
is_object (object fs) = true
is_object _ = false

-- `Value::get` with a key
abbrev pub get_key : String → Json → Option Json
get_key key (object fs) = get_field key fs
get_key key _ = none
