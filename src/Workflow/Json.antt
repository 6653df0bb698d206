-- ===== src/Workflow/Json.antt =====
-- The values of Go's `any` after `json.Unmarshal`, and what the workflow executor
-- (backend/internal/workflow/executor.go) asks of `encoding/json` and `fmt`, which are parameters.
-- An object is the list of its fields, each key once; a number is the text that `fmt.Sprint` prints.
use adbcops.Common.{String, Bool, Option, List}

mutual
  pub data Json : Type 0 where
    null : Json
    boolean : Bool → Json
    number string : String → Json
    array : Items → Json
    object : Fields → Json

  pub data Items : Type 0 where
    no_items : Items
    item : Json → Items → Items

  pub data Fields : Type 0 where
    no_fields : Fields
    field : String → Json → Fields → Fields

-- The field `condition` of a node's configuration.
pub record Condition : Type 0 where
  pub path : String
  pub operator : String
  pub value : Json
  pub required : Bool

-- `json.Valid`, and `json.Unmarshal` into each of the types that the executor declares.
pub record Codec : Type 0 where
  pub valid : String → Bool
  pub decode : String → Option Json
  pub decode_fields : String → Option Fields
  pub decode_raw : String → Option (List (String × String))
  pub decode_texts : String → Option (List (String × String))
  pub decode_condition : String → Option Condition
  pub decode_partial : String → Option Bool
  pub encode : Json → String
  pub encode_envelope : String → List (String × String) → String
  pub sprint : Json → String
  pub is_zero : String → Bool
