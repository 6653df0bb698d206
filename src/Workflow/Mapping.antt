-- ===== src/Workflow/Mapping.antt =====
-- The input of a workflow node (backend/internal/workflow/executor.go): paths into the results so
-- far, the mapping of a node's configuration, and the conditions.
pub mod Paths
use Prim.Native.Char.{code, Char}
use Prim.Native.String.{[], ◌∷◌, ◌++◌ as concat}
use text.Mathlib.Text.{◌==◌ as str_eq}
use adbcops.Common.{
  ℕ, ◌+◌, String, Bool, true, false, not, ◌&&◌, ◌||◌, Option, none, some, List, [], ◌∷◌, ◌++◌,
  length, if◌then◌else◌, ◌==◌, ltb, leb, Result, ok, err,
}
use adbcops.Common.Text.{trim_space, lowers_to, byte_count}
use adbcops.Workflow.Json.{
  Json, null, boolean, number, string, array, object, Items, no_items, item, Fields, no_fields,
  field, Condition, Codec,
}
use adbcops.Workflow.Faults.{Fault, invalid_definition}
use adbcops.Workflow.Definition.{Node}

-- The characters that `safeMappingKey` accepts.
abbrev pub key_code : ℕ → Bool
key_code c =
    c == b'_'
    || c == b'-'
    || (leb b'a' c && leb c b'z')
    || (leb b'A' c && leb c b'Z')
    || (leb b'0' c && leb c b'9')

unfoldable pub key_codes : String → Bool
key_codes [] = true
key_codes (c ∷ s) = key_code (code c) && key_codes s

unfoldable pub safe_mapping_key : String → Bool
unfolding key_codes byte_count
safe_mapping_key s = not (str_eq s "" || ltb 80 (byte_count s)) && key_codes s

-- A character joins the first part.
abbrev pub push_char : Char → List String → List String
push_char c [] = (c ∷ "") ∷ []
push_char c (p ∷ ps) = (c ∷ p) ∷ ps

-- `strings.Split(s, ".")`.
unfoldable pub split_dots : String → List String
split_dots [] = "" ∷ []
split_dots (c ∷ s) =
    let rest = split_dots s in if code c == b'.' then "" ∷ rest else push_char c rest

-- What stands behind the prefix "$.", if it is there.
unfoldable pub after_dollar : String → Option String
after_dollar (c ∷ d ∷ s) = if code c == b'$' && code d == b'.' then some s else none
after_dollar _ = none

abbrev pub get_field : String → Fields → Option Json
get_field key no_fields = none
get_field key (field k v fs) = let rest = get_field key fs in if str_eq key k then some v else rest

-- A text that is valid JSON stands for its value.
abbrev pub opened : Codec → Json → Json
opened c (string raw) =
    if c.valid raw then (elim (c.decode raw) [ some v ↦ v | none ↦ string raw ]) else string raw
opened c v = v

unfoldable pub follow : Codec → Json → List String → Option Json
unfolding safe_mapping_key
follow c v [] = some v
follow c (object fields) (part ∷ parts) =
    if safe_mapping_key part
    then elim (get_field part fields) [ some v ↦ follow c (opened c v) parts | none ↦ none ]
    else none
follow c _ (part ∷ parts) = none

abbrev pub is_root : List String → Bool
is_root (part ∷ _ ∷ _) = str_eq part "workflowInput" || str_eq part "previous"
is_root _ = false

-- What follows the prefix of a path, given its length in bytes.
unfoldable pub resolve_parts : Codec → Fields → ℕ → Option String → Option Json
unfolding split_dots follow
resolve_parts c root size none = none
resolve_parts c root size (some rest) =
    if ltb 256 size || not (is_root (split_dots rest))
    then none
    else follow c (object root) (split_dots rest)

unfoldable pub resolve_workflow_path : Codec → Fields → String → Option Json
unfolding trim_space byte_count after_dollar resolve_parts
resolve_workflow_path c root path =
    resolve_parts c root (byte_count (trim_space path)) (after_dollar (trim_space path))

abbrev pub workflow_zero_value : Codec → Json → Bool
workflow_zero_value c null = true
workflow_zero_value c (string s) = str_eq (trim_space s) ""
workflow_zero_value c (number s) = c.is_zero s
workflow_zero_value c (boolean b) = not b
workflow_zero_value c (array no_items) = true
workflow_zero_value c (object no_fields) = true
workflow_zero_value c _ = false

-- The outputs of the nodes so far that decode.
abbrev pub decoded_outputs : Codec → List (String × String) → Fields
decoded_outputs c [] = no_fields
decoded_outputs c ((key, raw) ∷ rest) = elim (c.decode raw) [
  | some v ↦ field key v (decoded_outputs c rest)
  | none ↦ decoded_outputs c rest
]

abbrev pub envelope : Json → Fields → Fields
envelope input previous = field "workflowInput" input (field "previous" (object previous) no_fields)

-- The loop over the targets of a mapping.
unfoldable pub map_fields : Codec → Fields → List (String × String) → Result Fault Fields
unfolding safe_mapping_key resolve_workflow_path
map_fields c root [] = ok no_fields
map_fields c root ((target, path) ∷ rest) =
    if safe_mapping_key target
    then elim (resolve_workflow_path c root path) [
      | none ↦ err (invalid_definition "mapping path not found")
      | some v ↦ elim (map_fields c root rest) [
        | ok fields ↦ ok (field target v fields)
        | err e ↦ err e
      ]
    ]
    else err (invalid_definition "")

abbrev pub limit_mapped : String → Result Fault String
limit_mapped raw =
    if ltb 8192 (byte_count raw) then err (invalid_definition "mapped input too large") else ok raw

-- `resolveWorkflowInputMapping`.
unfoldable pub resolve_input_mapping :
    Codec → String → String → List (String × String) → Result Fault String
unfolding map_fields byte_count
resolve_input_mapping c mapping input previous = elim (c.decode_texts mapping) [
  | none ↦ err (invalid_definition "")
  | some mappings ↦
      if length mappings == 0 || ltb 32 (length mappings)
      then err (invalid_definition "")
      else elim (c.decode input) [
        | none ↦ err (invalid_definition "")
        | some value ↦ elim (map_fields c (envelope value (decoded_outputs c previous)) mappings) [
          | err e ↦ err e
          | ok fields ↦ limit_mapped (c.encode (object fields))
        ]
      ]
]

abbrev pub raw_field : String → List (String × String) → Option String
raw_field key [] = none
raw_field key ((k, raw) ∷ rest) =
    let later = raw_field key rest in if str_eq key k then some raw else later

-- The field of a configuration, if it is there and is valid JSON.
abbrev pub valid_field : Codec → String → List (String × String) → Option String
valid_field c key config = elim (raw_field key config) [
  | none ↦ none
  | some raw ↦ if c.valid raw then some raw else none
]

abbrev pub plain_input : Codec → List (String × String) → String → List (String × String) → String
plain_input c config input previous = elim (valid_field c "input" config) [
  | some raw ↦ raw
  | none ↦ elim (valid_field c "context" config) [
    | some raw ↦ raw
    | none ↦ c.encode_envelope input previous
  ]
]

-- The fields of a node's configuration; an empty one has none.
abbrev pub config_fields : Codec → String → List (String × String)
config_fields c raw =
    if str_eq raw "" then [] else elim (c.decode_raw raw) [ some fields ↦ fields | none ↦ [] ]

-- `nodeInputPayload`.
unfoldable pub node_input_payload :
    Codec → Node → String → List (String × String) → Result Fault String
unfolding resolve_input_mapping
node_input_payload c node input previous =
    elim (raw_field "inputMapping" (config_fields c node.config)) [
      | some mapping ↦ resolve_input_mapping c mapping input previous
      | none ↦ ok (plain_input c (config_fields c node.config) input previous)
    ]

pub record Evaluated : Type 0 where
  pub matched : Bool
  pub detail : String

-- The switch over the operators; `none` is an operator that is not supported. The texts that the
-- code writes into the detail are those of the operators.
abbrev pub compare_condition : Codec → Condition → Option Json → Option (Bool × String)
compare_condition c k value =
    let set : Bool = (elim value [ some v ↦ not (workflow_zero_value c v) | none ↦ false ]) in
    let same : Bool = (elim value [
      | some v ↦ str_eq (c.sprint v) (c.sprint k.value)
      | none ↦ false
    ]) in
    let operator = trim_space k.operator in
    if lowers_to operator "exists"
    then some (set, "exists")
    else if lowers_to operator "not_exists"
    then some (not set, "not_exists")
    else if lowers_to operator "equals"
    then some (same, "equals")
    else if lowers_to operator "not_equals"
    then some (not same, "not_equals")
    else if lowers_to operator "truthy"
    then some (set, "truthy")
    else none

abbrev pub evaluate_at : Codec → Condition → Fields → Result Fault Evaluated
evaluate_at c k root = elim (compare_condition c k (resolve_workflow_path c root k.path)) [
  | none ↦ err (invalid_definition "unsupported condition operator")
  | some (matched, operator) ↦
      ok (record { matched = matched; detail = concat operator (concat ":" k.path) })
]

-- `evaluateWorkflowCondition`.
unfoldable pub evaluate_workflow_condition : Codec → String → String → Result Fault Evaluated
unfolding trim_space resolve_workflow_path lowers_to
evaluate_workflow_condition c config input =
    if str_eq config ""
    then ok (record { matched = true; detail = "legacy_control" })
    else elim (c.decode_condition config) [
      | none ↦ err (invalid_definition "invalid condition config")
      | some k ↦
          if str_eq (trim_space k.path) ""
          then ok (record { matched = true; detail = "legacy_control" })
          else elim (c.decode_fields input) [
            | none ↦ err (invalid_definition "invalid condition input")
            | some root ↦ evaluate_at c k root
          ]
    ]

abbrev pub workflow_condition_required : Codec → String → Bool
workflow_condition_required c config = elim (c.decode_condition config) [
  | some k ↦ k.required
  | none ↦ false
]
