-- ===== src/Workflow/Nodes/Recorded.antt =====
-- What `executeNode` returns agrees with what it wrote.
use adbcops.Common.{
  ℕ, ◌≡◌, ◌≢◌, ◌⊎◌, refl, sym, ap, inl, inr, String, Option, none, some, List, [], ◌∷◌,
  if◌then◌else◌, Result, ok, err,
}
use adbcops.Workflow.Json.{Codec}
use adbcops.Workflow.Faults.{Fault, is_canceled}
use adbcops.Workflow.Definition.{Node}
use adbcops.Workflow.Nodes.{
  success, partial_success, failed, cancelled, node_created, node_updated, Services, Executed,
  is_partial_output, node_status, fault_of, finish_node, execute_created, execute_payload,
  execute_node, dispatch_node,
}

-- A node with an output has its run created and updated as a success, in part or whole; a node with
-- an error has no run, one that was never updated, or one updated as failed or cancelled.
pub record IsRecorded (c : Codec) (node : Node) (x : Executed) : Type 0 where
  pub succeeded :
      (output : String)
      → x.result ≡ ok output
      → (id : ℕ) × (x.writes
          ≡ node_created id node.id
            ∷ node_updated id (if is_partial_output c output then partial_success else success) none
            ∷ [])
  pub faulted :
      (e : Fault)
      → x.result ≡ err e
      → (x.writes ≡ [])
        ⊎ ((id : ℕ) × ((x.writes ≡ node_created id node.id ∷ [])
              ⊎ (x.writes
                  ≡ node_created id node.id
                    ∷ node_updated id (if is_canceled e then cancelled else failed) (some e)
                    ∷ [])))

ok_err : {A : Type 0} (a : A) (e : Fault) → (ok a) ≢ (err e)
ok_err a e q = cc

unwritten :
    (c : Codec) (node : Node) (e : Fault)
    → IsRecorded c node (record { writes = []; result = err e })
unwritten c node e = record {
  succeeded = λ output q. absurd (ok_err output e (sym q));
  faulted = λ f q. inl refl;
}

finish_node-IsRecorded :
    (c : Codec) (id : ℕ) (node : Node) (outcome : Result Fault String) (u : Option Fault)
    → IsRecorded c node (finish_node c id node outcome u)
finish_node-IsRecorded c id node outcome (some e) = record {
  succeeded = λ output q. absurd (ok_err output e (sym q));
  faulted = λ f q. inr (id, inl refl);
}
finish_node-IsRecorded c id node (ok output) none = record {
  succeeded = λ o q. (
    id,
    ap (λ r. node_created id node.id ∷ node_updated id (node_status c r) (fault_of r) ∷ []) q,
  );
  faulted = λ f q. absurd (ok_err output f q);
}
finish_node-IsRecorded c id node (err e) none = record {
  succeeded = λ output q. absurd (ok_err output e (sym q));
  faulted = λ f q. inr (
    id,
    inr (ap (λ r. node_created id node.id ∷ node_updated id (node_status c r) (fault_of r) ∷ []) q),
  );
}

execute_created-IsRecorded :
    (s : Services) (node : Node) (payload : String) (r : Result Fault ℕ)
    → IsRecorded s.codec node (execute_created s node payload r)
execute_created-IsRecorded s node payload (err e) = unwritten s.codec node e
execute_created-IsRecorded s node payload (ok id) =
    finish_node-IsRecorded s.codec id node (dispatch_node s id node payload) _

execute_payload-IsRecorded :
    (s : Services) (node : Node) (r : Result Fault String)
    → IsRecorded s.codec node (execute_payload s node r)
execute_payload-IsRecorded s node (err e) = unwritten s.codec node e
execute_payload-IsRecorded s node (ok payload) = execute_created-IsRecorded s node payload _

-- `executeNode` returns an output only with the run of the node created and then updated as a
-- success, or as a success in part when the output says so; an error it returns either before the
-- run is created, or with a run that was created and not updated, or with a run that was updated
-- with that error as failed, or as cancelled when the context was.
pub execute_node-IsRecorded :
    (s : Services) (node : Node) (input : String) (previous : List (String × String))
    → IsRecorded s.codec node (execute_node s node input previous)
unfolding execute_node
execute_node-IsRecorded s node input previous = execute_payload-IsRecorded s node _
