-- ===== src/Rca/Inputs.antt =====
-- What a request to the RCA service holds, and how the service cleans it
-- (backend/internal/rca/service.go). `Env` is what a request meets outside of the service: the
-- time, the sanitizer of backend/internal/auditutil, the data sources that the caller may list,
-- and the evidence service.
use Prim.Native.Nat.{◌*◌, ◌%◌, ◌^◌}
use text.Mathlib.Text.{◌==◌ as str_eq}
use adbcops.Common.{
  ℕ, String, Bool, true, false, ◌&&◌, ◌||◌, Option, none, some, List, [], ◌∷◌, Result, ok, err, leb,
  ltb, ◌==◌, if◌then◌else◌, keep, map, length,
}
use adbcops.Common.Int.{ℤ, pos, negsuc, ltb_ℤ}
use adbcops.Common.Text.{trim_space, rune_count, take_runes}
use adbcops.Common.Members.{ℕ_eq, mem, unique_from}
use adbcops.Rca.Status.{Status}
pub use adbcops.Rca.Store.{Hypothesis, NextAction}
use adbcops.Rca.Store.{Error, invalid_input, forbidden}

pub data Role : Type 0 where
  admin user : Role

abbrev pub is_admin : Role → Bool
is_admin admin = true
is_admin user = false

pub record Actor : Type 0 where
  pub id : ℕ
  pub role : Role

pub record DataSourceView : Type 0 where
  pub id : ℕ
  pub enabled : Bool
  pub read_only : Bool

pub record CreateRunInput : Type 0 where
  pub query : String
  pub scope : String
  pub max_rounds : ℤ
  pub timeout_seconds : ℤ

pub record CompleteRoundInput : Type 0 where
  pub status : Status
  pub new_evidence_ids : List ℕ
  pub rejected_hypotheses : List Hypothesis
  pub next_actions : List NextAction
  pub error_code : String

pub record CreateActionInput : Type 0 where
  pub round_id : ℕ
  pub action_key : String
  pub skill_name : String
  pub input : String
  pub sensitive_read : Bool

pub record CompleteActionInput : Type 0 where
  pub status : Status
  pub output : String
  pub evidence_ids : List ℕ
  pub error_code : String
  pub error_message : String

pub record CreateEvidenceInput : Type 0 where
  pub round_id : ℕ
  pub action_id : Option ℕ
  pub summary : String
  pub evidence_kind : String
  pub source_skill : String
  pub data_source_id : Option ℕ

pub record CreateCandidateInput : Type 0 where
  pub round_id : ℕ
  pub summary : String
  pub confidence : ℤ
  pub evidence_ids : List ℕ
  pub rejected : Bool

pub record CompleteRunInput : Type 0 where
  pub status : Status
  pub error_code : String
  pub error_message : String
  pub stop_reason : String

pub record Env : Type 0 where
  -- The time of the request, in nanoseconds.
  pub now : ℕ
  -- `auditutil.SanitizeJSON(raw, maximum)`; `none` for an invalid document.
  pub sanitize_json_bytes : String → ℕ → Option String
  -- `auditutil.SanitizeText`.
  pub sanitize_text : String → String
  -- The numbers that `explicitDataSourceIDs` meets in a scope, as they stand in the document.
  pub scope_data_source_ids : String → List ℕ
  -- `DataSourceLister.List`; `none` if the service has no lister.
  pub list_data_sources : Option (Actor → Result Error (List DataSourceView))
  -- Whether `EvidenceCreator.Create` takes the record; `none` if the service has no creator.
  pub accept_evidence : Option (CreateEvidenceInput → Result Error (Unit {0}))

unfoldable pub truncate_text : String → ℕ → String
unfolding rune_count take_runes
truncate_text value maximum =
    if leb (rune_count value) maximum then value else take_runes maximum value

-- `uniqueIDs`: the positive ids, each where it first stands.
unfoldable pub unique_ids : List ℕ → List ℕ
unfolding unique_from
unique_ids values = unique_from [] (keep (λ v. ltb 0 v) values)

abbrev pub is_blank : String → Bool
is_blank s = str_eq (trim_space s) ""

-- `len(raw) == 0` stands for the fallback.
unfoldable pub sanitize_json : Env → String → ℕ → Option String
sanitize_json env raw maximum =
    env.sanitize_json_bytes (if str_eq raw "" then "{}" else raw) maximum

unfoldable pub safe_message : String → String
safe_message code =
    if str_eq code "upstream_timeout"
    then "upstream query timed out"
    else if str_eq code "upstream_unavailable"
    then "upstream data source is unavailable"
    else if str_eq code "permission_denied"
    then "upstream query permission was denied"
    else if str_eq code "invalid_response"
    then "upstream returned an invalid response"
    else if str_eq code "resource_limit"
    then "query resource limit was reached"
    else if str_eq code "run_timeout"
    then "RCA run exceeded its configured deadline"
    else if str_eq code "cancelled"
    then "RCA run was cancelled"
    else "internal RCA operation failed"

abbrev pub known_codes : List String
known_codes =
    "upstream_timeout" ∷ "upstream_unavailable" ∷ "permission_denied" ∷ "invalid_response"
    ∷ "resource_limit" ∷ "run_timeout" ∷ "cancelled" ∷ "internal_error" ∷ []

abbrev pub is_known_code : String → List String → Bool
is_known_code code [] = false
is_known_code code (c ∷ cs) =
    let rest = is_known_code code cs in if str_eq code c then true else rest

-- `safeFailure`: the caller's message is dropped, an unknown code becomes `internal_error`.
unfoldable pub safe_failure : String → String → Option String × Option String
unfolding safe_message trim_space
safe_failure code message =
    let trimmed = trim_space code in
    let safe = if is_known_code trimmed known_codes then trimmed else "internal_error" in
    if str_eq trimmed "" then (none, none) else (some safe, some (safe_message safe))

abbrev pub out_of_unit : ℤ → Bool
out_of_unit c = ltb_ℤ c (pos 0) || ltb_ℤ (pos 1000000) c

unfoldable pub normalized_hypothesis : Env → Bool → Hypothesis → Option Hypothesis
unfolding truncate_text unique_ids trim_space
normalized_hypothesis env require_evidence h =
    let summary = truncate_text (env.sanitize_text (trim_space h.summary)) 2048 in
    let ids = unique_ids h.evidence_ids in
    if str_eq summary "" || out_of_unit h.confidence || (require_evidence && length ids == 0)
    then none
    else some (record h { summary = summary; evidence_ids = ids })

abbrev pub cons_ok {ℓ} : {A : Type ℓ} → Option A → Result Error (List A) → Result Error (List A)
cons_ok none rest = err invalid_input
cons_ok (some a) (ok xs) = ok (a ∷ xs)
cons_ok (some a) (err e) = err e

unfoldable pub normalized_hypotheses : Env → List Hypothesis → Bool → Result Error (List Hypothesis)
unfolding normalized_hypothesis
normalized_hypotheses env [] require_evidence = ok []
normalized_hypotheses env (h ∷ hs) require_evidence =
    cons_ok (normalized_hypothesis env require_evidence h)
      (normalized_hypotheses env hs require_evidence)

unfoldable pub normalized_next_action : Env → NextAction → Option NextAction
unfolding truncate_text sanitize_json trim_space
normalized_next_action env a =
    let key = truncate_text (trim_space a.action_key) 160 in
    let skill = truncate_text (trim_space a.skill_name) 120 in
    elim (sanitize_json env a.input (16 * 1024)) [
      | none ↦ none
      | some input ↦
          if str_eq key "" || str_eq skill ""
          then none
          else some (record { action_key = key; skill_name = skill; input = input })
    ]

unfoldable pub normalized_next_actions : Env → List NextAction → Result Error (List NextAction)
unfolding normalized_next_action
normalized_next_actions env [] = ok []
normalized_next_actions env (a ∷ rest) =
    cons_ok (normalized_next_action env a) (normalized_next_actions env rest)

-- `allowedDataSourceSet`: the enabled read-only sources among those that the caller may list.
unfoldable pub allowed_data_sources : Env → Actor → Result Error (List ℕ)
allowed_data_sources env actor = elim env.list_data_sources [
  | none ↦ ok []
  | some list ↦ elim (list actor) [
    | err e ↦ err e
    | ok views ↦ ok (
        map (λ (v : DataSourceView). v.id)
          (keep (λ (v : DataSourceView). v.enabled && v.read_only) views))
  ]
]

-- `dataSourceAllowed`.
unfoldable pub data_source_allowed : Env → Actor → ℕ → Result Error Bool
unfolding allowed_data_sources
data_source_allowed env actor id =
    if is_admin actor.role
    then ok true
    else elim (allowed_data_sources env actor) [ err e ↦ err e | ok allowed ↦ ok (mem id allowed) ]

unfoldable pub all_in : List ℕ → List ℕ → Bool
all_in [] allowed = true
all_in (id ∷ ids) allowed = mem id allowed && all_in ids allowed

-- `authorizeScopeDataSources`; `ok tt` is its nil.
unfoldable pub authorize_scope : Env → Actor → String → Result Error (Unit {0})
unfolding allowed_data_sources unique_ids all_in
authorize_scope env actor scope =
    let ids = unique_ids (env.scope_data_source_ids scope) in
    if length ids == 0 then ok tt else elim (allowed_data_sources env actor) [
      | err e ↦ err e
      | ok allowed ↦ if all_in ids allowed then ok tt else err forbidden
    ]

abbrev pub second : ℕ
second = 1000000000

abbrev pub default_timeout : ℕ
default_timeout = 15 * 60 * second

abbrev pub max_timeout : ℕ
max_timeout = 2 * 3600 * second

-- The timeout of a run in nanoseconds. The product is that of `time.Duration`, which has 64 bits;
-- a product that is negative there is at least 2 ^ 63 here, and above the maximum too.
unfoldable pub timeout_of : ℤ → ℕ
timeout_of (pos seconds) = if ltb 0 seconds then (seconds * second) % (2 ^ 64) else default_timeout
timeout_of (negsuc _) = default_timeout

-- The rounds of a run: 0 stands for three, and what is not from 1 to 10 is refused.
unfoldable pub max_rounds_of : ℤ → Option ℕ
max_rounds_of (pos n) =
    let m = if n == 0 then 3 else n in if leb 1 m && leb m 10 then some m else none
max_rounds_of (negsuc _) = none

-- The elements of a result, none for an error.
abbrev pub answers {ℓ} : {A : Type ℓ} → Result Error (List A) → List A
answers (ok xs) = xs
answers (err e) = []
