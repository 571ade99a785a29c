-- ===== src/ResponseParser/External.antt =====
-- What the parser uses of code that is not in the repository: cJSON, and the platform's doubles and
-- local time.
use bkk_api.Common.{ℕ, ℤ, Bytes, Option, Bool}

-- cJSON (the submodule submodules/cJSON): a tree of nodes. A call on NULL is answered by the callers
-- in the model, as cJSON documents it: NULL is of no type and has no items.
pub record Json : Type 1 where
  pub Node : Type 0
  pub Double : Type 0
  -- `cJSON_Parse`; `none` is NULL.
  pub parse : Bytes → Option Node
  pub is_object : Node → Bool
  pub is_array : Node → Bool
  pub is_string : Node → Bool
  pub is_number : Node → Bool
  -- `cJSON_GetObjectItemCaseSensitive`.
  pub get_object_item : Node → Bytes → Option Node
  pub valuestring : Node → Option Bytes
  pub number_value : Node → Double
  pub array_size : Node → ℕ
  pub array_item : Node → ℕ → Option Node

pub record Platform (j : Json) : Type 0 where
  pub from_int : ℤ → j.Double
  pub sub : j.Double → j.Double → j.Double
  pub div : j.Double → j.Double → j.Double
  -- `std::round`, and the casts to `int` and `long long`.
  pub round : j.Double → j.Double
  pub to_int : j.Double → ℤ
  pub to_long_long : j.Double → ℤ
  -- `std::localtime`: the hour and the minute; `none` is NULL.
  pub localtime : ℤ → Option (ℕ × ℕ)
