-- ===== src/Lib.antt =====
-- The correctness of the core of the AIOps platform in backend/: the service that carries out root
-- cause analyses (RCA), the accounts of the platform and their sign-in, the limit on what runs at
-- once, the validator of workflow definitions with the executor that runs them, and the publication
-- of the versions of documents.
--
-- An RCA is a run. A user creates it (`CreateRun`), and it goes through rounds (`StartRound`,
-- `CompleteRound`). In a round there are actions (`CreateAction`, `StartAction`, `CompleteAction`),
-- evidence (`AddEvidence`) and root cause candidates (`AddRootCauseCandidate`), which rest on
-- evidence of the run. `CompleteRun`, `Cancel` and the deadline end the run, `Recover` takes up one
-- that failed, timed out or ended in part. Each operation first reads the run by `GetRun`, which
-- times out overdue runs (`MarkTimedOutRCARuns`) and checks the caller.
--
-- A workflow is a graph of nodes. `Validate` looks at its nodes, its edges, its start and its end, and
-- then at the whole graph (`validateDAG`, `validateReachability`); `Run` validates a stored
-- definition, creates the run, and lets `execute` run the nodes in rounds: each round runs the nodes
-- whose parents are completed (`ready`), as a batch, and stops after a batch with an error.
--
-- Files:
--   Common, Common/*: tests on numbers, lists, texts, membership, results, the order of a listing.
--   Rca/Status, Rca/Store: the statuses and rows of backend/internal/model/rca.go; a table is a list
--     of rows, the store the five tables; `Exec` is an operation on it that may fail.
--   Rca/Repository: backend/internal/repository/rca_repository.go, one function for each method.
--   Rca/Inputs, Rca/Service, Rca/Lifecycle, Rca/Actions, Rca/Details:
--     backend/internal/rca/service.go. Of an operation `f`, `f_of` is what follows `GetRun`.
--   Rca/Requests: the operations as requests, and a sequence of them (`serve_all`).
--   Rca/Tables, Rca/Effects, Rca/Loops, Rca/Endings, Rca/Writes, Rca/Serving: what they write. Every
--     request is one of a few writes, after the marking of overdue runs or without it, so that an
--     invariant takes one case for each write (`serve_all_induction`).
--   Rca/Rounds, Rca/Order, Rca/Groups, Rca/Backing, Rca/Closed, Rca/Shut, Rca/Cancelled, Rca/Outcomes,
--     Rca/Uniqueness, Rca/Access, Rca/Timeouts, Rca/Recovery, Rca/Normal, Rca/Hypotheses: the
--     properties.
--   Users/Service: backend/internal/user/service.go and
--     backend/internal/repository/user_repository.go; Users/Admins, Users/Fields: its properties.
--   Auth/Service: backend/internal/auth/service.go and backend/internal/auth/token.go over the table
--     of Users/Service; Auth/Audits, Auth/Sessions: its properties.
--   Documents/Publication: backend/internal/repository/document_publication_repository.go;
--     Documents/Gate: backend/internal/document/publication_service.go; Documents/Diff: its
--     `DiffVersions`, with a property. Documents/Lookups, Documents/Published, Documents/Deprecated,
--     Documents/Serving, Documents/Checks, Documents/Released: the other properties.
--   Limiter/Keyed, Limiter/Slots: backend/internal/resourcelimit/limiter.go, KeyedLimiter and
--   Limiter; Limiter/Bounds: the property of the former.
--   Workflow/Definition, Workflow/Dag, Workflow/Reach, Workflow/Validate:
--     backend/internal/workflow/definition.go: the passes up to `validateStartEnd`, `validateDAG`,
--     `validateReachability` and `validate`. Workflow/Graph, Workflow/Dag/*, Workflow/Reach/*,
--     Workflow/Validate/*: their properties.
--   Workflow/Json, Workflow/Faults, Workflow/Mapping, Workflow/Nodes, Workflow/Executor,
--     Workflow/Run: backend/internal/workflow/executor.go: the decoded values and what the code asks
--     of encoding/json, the errors, the input of a node, `executeNode` and `dispatchNode`, `execute`,
--     `Run` and `Cancel`. Workflow/Mapping/Paths, Workflow/Nodes/Recorded, Workflow/Executor/*,
--     Workflow/Run/Endings: their properties.
--   Rca/Samples, Rca/Tests, Users/Tests, Limiter/Tests, Workflow/Tests, Workflow/Examples, Auth/Tests,
--     Documents/Tests: the properties at concrete requests.
--
-- Numbers: ids and times are natural numbers, times in nanoseconds; a negative id, which the code
-- refuses, is the id 0. The timeout of a run is computed modulo 2 ^ 64 as the code does. Confidences
-- are whole millionths. Loops are structural recursion on the rows that were listed; the loops over a
-- queue of nodes and over the rounds of a run have one unit of fuel for each node and one to end,
-- which is enough because each turn takes a node that was not taken before.
--
-- Not modelled: failures of the database other than a missing row or a violated constraint,
-- overlapping requests, logging, metrics, and the orchestrator that drives the service. The
-- sanitisers of backend/internal/auditutil, the data source service, the evidence service, the
-- numbers that a scope names, the hashing of passwords, the library of tokens, encoding/json, and the
-- skills, agents and contexts that a workflow meets are parameters. A document of ids, hypotheses or
-- next actions that a row stores is the list that it holds.

pub mod Common
pub mod Auth
pub mod Documents
pub mod Limiter
pub mod Rca
pub mod Users
pub mod Workflow
