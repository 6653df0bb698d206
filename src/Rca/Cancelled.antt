-- ===== src/Rca/Cancelled.antt =====
-- A cancelled run stays cancelled.
use adbcops.Common.{
  ℕ, ◌≡◌, ◌≢◌, ◌↔◌, refl, sym, ap, ◌∙◌, true, false, Option, some, List, ok, All, ==_iff,
}
use adbcops.Rca.Status.{Status, pending, running, cancelled, is_open}
use adbcops.Rca.Store.{Run, Round, Action, Store, empty}
use adbcops.Rca.Tables.{All-imp}
use adbcops.Rca.Inputs.{Actor, Env}
use adbcops.Rca.Lifecycle.{cancel}
use adbcops.Rca.Order.{InOrder}
use adbcops.Rca.Closed.{IsShut, run_status}
use adbcops.Rca.Shut.{serve_all-IsShut, cancel-IsShut}
use adbcops.Rca.Requests.{Request, serve_all}

abbrev pub Closed : Status → Type 0
Closed st = (st ≢ pending) × (st ≢ running)

-- The run is cancelled, and none of its rounds and actions is pending or running.
pub record IsCancelled (id : ℕ) (s : Store) : Type 0 where
  pub run : run_status id s.runs ≡ some cancelled
  pub rounds : All (λ (r : Round). r.run_id ≡ id → Closed r.status) s.rounds
  pub actions : All (λ (a : Action). a.run_id ≡ id → Closed a.status) s.actions

closed_test : (st : Status) → is_open st ≡ false → Closed st
closed_test st e = (λ p. t_f (sym (ap is_open p) ∙ e), λ p. t_f (sym (ap is_open p) ∙ e))
  where
    t_f : true ≡ false → ⊥
    t_f q = cc

test_closed : (st : Status) → Closed st → is_open st ≡ false
test_closed pending c = absurd (c.0 refl)
test_closed running c = absurd (c.1 refl)
test_closed _ c = refl

IsCancelled-iff-IsShut : (id : ℕ) (s : Store) → IsCancelled id s ↔ IsShut id s
IsCancelled-iff-IsShut id s = (
  λ h. record {
    run = h.run;
    rounds =
        All-imp _ _ s.rounds (λ r c own. test_closed r.status (c ((==_iff r.run_id id).0 own)))
          h.rounds;
    actions =
        All-imp _ _ s.actions (λ a c own. test_closed a.status (c ((==_iff a.run_id id).0 own)))
          h.actions;
  },
  λ h. record {
    run = h.run;
    rounds =
        All-imp _ _ s.rounds (λ r c own. closed_test r.status (c ((==_iff r.run_id id).1 own)))
          h.rounds;
    actions =
        All-imp _ _ s.actions (λ a c own. closed_test a.status (c ((==_iff a.run_id id).1 own)))
          h.actions;
  },
)

-- No request brings a cancelled run back, nor opens a round or an action under it: its status stays
-- cancelled and none of its rounds and actions is pending or running after any requests, in a
-- store whose ids are in order.
pub serve_all-IsCancelled :
    (id : ℕ) (rs : List Request) (s : Store)
    → InOrder s
    → IsCancelled id s
    → InOrder (serve_all rs s) × IsCancelled id (serve_all rs s)
serve_all-IsCancelled id rs s o h =
    let (ordered, shut) = serve_all-IsShut id rs s o ((IsCancelled-iff-IsShut id s).0 h) in
    (ordered, (IsCancelled-iff-IsShut id (serve_all rs s)).1 shut)

-- Once `Cancel` has answered without an error, the run stays cancelled for good: whatever requests
-- came before and come after, its status is cancelled and nothing under it is pending or running.
pub cancel-IsCancelled :
    (before after : List Request) (env : Env) (actor : Option Actor) (id : ℕ) (answer : Run)
    → (cancel env actor id (serve_all before empty)).0 ≡ ok answer
    → IsCancelled id (serve_all after (cancel env actor id (serve_all before empty)).1)
cancel-IsCancelled before after env actor id answer e =
    let (ordered, shut) = cancel-IsShut before env actor id answer e in
    (serve_all-IsCancelled id after (cancel env actor id (serve_all before empty)).1 ordered
      ((IsCancelled-iff-IsShut id _).1 shut)).1
