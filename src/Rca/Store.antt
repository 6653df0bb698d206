-- ===== src/Rca/Store.antt =====
-- The tables of an RCA (backend/internal/model/rca.go, the rca columns of the evidence table) and
-- the store that holds them. A table is a list of rows, newest first; a row's id is one more than
-- the number of rows before it, as a sequence gives it. Ids are natural numbers: the code refuses
-- a negative id by the same test as 0. A confidence is in millionths. A JSON document of ids,
-- hypotheses or next actions is the list that it holds, other documents are texts; the input and
-- the output of an action and the content of evidence are left out, as are the columns `created_at`
-- and `updated_at`.
use adbcops.Common.{
  ℕ, suc, ◌<◌, String, Bool, Option, none, some, List, [], ◌∷◌, Result, ok, err, ◌==◌,
  if◌then◌else◌,
}
use adbcops.Common.Int.{ℤ}
use adbcops.Rca.Status.{Status}

pub data Error : Type 0 where
  invalid_input forbidden invalid_transition evidence_required round_limit : Error
  not_found conflict upstream : Error

pub record Run : Type 0 where
  pub id : ℕ
  pub user_id : ℕ
  pub status : Status
  pub query : String
  pub scope : String
  pub current_round : ℕ
  pub max_rounds : ℕ
  pub timeout_at : Option ℕ
  pub cancel_requested_at : Option ℕ
  pub error_code : Option String
  pub error_message : Option String
  pub stop_reason : Option String
  pub started_at : Option ℕ
  pub finished_at : Option ℕ

pub record Hypothesis : Type 0 where
  pub summary : String
  pub confidence : ℤ
  pub evidence_ids : List ℕ

pub record NextAction : Type 0 where
  pub action_key : String
  pub skill_name : String
  pub input : String

pub record Round : Type 0 where
  pub id : ℕ
  pub run_id : ℕ
  pub round_number : ℕ
  pub status : Status
  pub input_hypotheses : List Hypothesis
  pub new_evidence_ids : List ℕ
  pub rejected_hypotheses : List Hypothesis
  pub next_actions : List NextAction
  pub error_code : Option String
  pub started_at : Option ℕ
  pub finished_at : Option ℕ

pub record Action : Type 0 where
  pub id : ℕ
  pub run_id : ℕ
  pub round_id : ℕ
  pub action_key : String
  pub skill_name : String
  pub status : Status
  pub evidence_ids : List ℕ
  pub error_code : Option String
  pub error_message : Option String
  pub sensitive_read : Bool
  pub attempt : ℕ
  pub started_at : Option ℕ
  pub finished_at : Option ℕ

pub record Evidence : Type 0 where
  pub id : ℕ
  pub rca_run_id : Option ℕ
  pub rca_round_id : Option ℕ
  pub data_source_id : Option ℕ
  pub owner_user_id : Option ℕ

pub record Candidate : Type 0 where
  pub id : ℕ
  pub run_id : ℕ
  pub round_id : ℕ
  pub summary : String
  pub confidence : ℤ
  pub evidence_ids : List ℕ
  pub rejected : Bool

pub record Store : Type 0 where
  pub runs : List Run
  pub rounds : List Round
  pub actions : List Action
  pub evidence : List Evidence
  pub candidates : List Candidate

abbrev pub empty : Store
empty = record { runs = []; rounds = []; actions = []; evidence = []; candidates = [] }

module _ {A : Type 0} (key : A → ℕ) where
  -- `First(&row, id)`.
  unfoldable pub find : ℕ → List A → Option A
  find k [] = none
  find k (x ∷ xs) = let rest = find k xs in if key x == k then some x else rest

  -- `Where("id = ?", id).Updates(...)`.
  unfoldable pub update : ℕ → (A → A) → List A → List A
  update k f [] = []
  update k f (x ∷ xs) = (if key x == k then f x else x) ∷ update k f xs

  -- The id that the sequence gives to the next row.
  unfoldable pub next_id : List A → ℕ
  next_id [] = 1
  next_id (x ∷ xs) = suc (key x)

  -- The ids fall strictly from `n`, so none occurs twice.
  abbrev pub Below : ℕ → List A → Type 0
  Below n [] = Unit
  Below n (x ∷ xs) = (key x < n) × Below (key x) xs

-- An operation on the store that may fail. What was written before a failure stays written.
abbrev pub Exec : Type 0 → Type 0
Exec A = Store → Result Error A × Store

abbrev pub continue : {A B : Type 0} → Result Error A → (A → Exec B) → Exec B
continue (ok a) f s = f a s
continue (err e) f s = (err e, s)

infixl 5 ◌>>=◌ ◌>>◌
abbrev pub ◌>>=◌ : {A B : Type 0} → Exec A → (A → Exec B) → Exec B
◌>>=◌ m f s = let (r, s') = m s in continue r f s'

abbrev pub ◌>>◌ : {B : Type 0} → Exec (Unit {0}) → Exec B → Exec B
m >> n = m >>= λ _. n

abbrev pub pure : {A : Type 0} → A → Exec A
pure a s = (ok a, s)

abbrev pub raise : {A : Type 0} → Error → Exec A
raise e s = (err e, s)

-- `if !b { return e }`.
abbrev pub require : Bool → Error → Exec (Unit {0})
require b e s = ((if b then ok tt else err e), s)

abbrev pub gets : {A : Type 0} → (Store → A) → Exec A
gets f s = (ok (f s), s)

-- A row that a query found, or `ErrNotFound`.
abbrev pub found : {A : Type 0} → Option A → Result Error A
found none = err not_found
found (some a) = ok a

-- A value, or the error that its absence means.
abbrev pub or_error : {A : Type 0} → Option A → Error → Result Error A
or_error none e = err e
or_error (some a) e = ok a
