-- ===== src/Runtime/Values.antt =====
-- `serde_json::Value`, as far as the SDK builds and reads it.
use aegis_sdk.Prelude.{ℕ, String, Bool, Option, some, List, ◌≡◌, HashMap}

pub record Json (V : Type 0) : Type 0 where
  -- `Value::String`, `Bool`, `Number`, `Array`, `Object`
  pub string : String → V
  pub bool : Bool → V
  pub number : ℕ → V
  pub array : List V → V
  pub object : HashMap V → V
  pub as_str : V → Option String
  pub as_bool : V → Option Bool
  pub as_array : V → Option (List V)
  pub as_str-string : (s : String) → as_str (string s) ≡ some s
  pub as_bool-bool : (b : Bool) → as_bool (bool b) ≡ some b
  pub as_array-array : (vs : List V) → as_array (array vs) ≡ some vs
