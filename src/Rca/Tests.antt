-- ===== src/Rca/Tests.antt =====
-- The RCA service on concrete requests: an analyst takes a run through a round to a success, and
-- starts and cancels a second one.
use adbcops.Common.{inr, inl, ◌≤◌, ◌&&◌, ltb, All, arith, ℕ, ◌≡◌, refl, true, false, some, [], ◌∷◌}
use adbcops.Common.Text.{trim_space, rune_count}
use adbcops.Common.Listing.{sort_by}
use adbcops.Common.Members.{unique_from, ℕ_eq, mem, Nodup, Subset}
use adbcops.Rca.Rounds.{IsBounded, serve_all-IsBounded}
use adbcops.Rca.Backing.{AllBacked, serve_all-AllBacked, evidence_ids_belong-Subset, run_evidence}
use adbcops.Rca.Outcomes.{AllConcluded, serve_all-AllConcluded}
use adbcops.Rca.Uniqueness.{ActionsUnique, serve_all-ActionsUnique}
use adbcops.Rca.Order.{InOrder}
use adbcops.Rca.Cancelled.{IsCancelled, cancel-IsCancelled, serve_all-IsCancelled}
use adbcops.Rca.Closed.{RoundClosed, ActionClosed}
use adbcops.Rca.Access.{NotOverdue, Visible, get_run_lem, accessible_evidence-Visible}
use adbcops.Rca.Details.{IsDetail, get_detail, get_detail-IsDetail}
use adbcops.Rca.Timeouts.{mark_timed_out_lem}
use adbcops.Rca.Recovery.{IsRecovered, recover-IsRecovered}
use adbcops.Rca.Normal.{unique_ids_lem, truncate_text_lem}
use adbcops.Rca.Actions.{accessible_evidence}
use adbcops.Rca.Effects.{run_key}
use adbcops.Rca.Store.{update, find, next_id, empty}
use adbcops.Rca.Repository.{
  list_candidates, list_actions, list_rounds, overdue_ids, evidence_ids_belong, mark_timed_out,
}
use adbcops.Rca.Inputs.{
  authorize_scope, sanitize_json, timeout_of, max_rounds_of, is_admin, unique_ids, truncate_text,
  user,
}
use adbcops.Rca.Service.{create_run, get_run}
use adbcops.Rca.Lifecycle.{cancel_actions, cancel_rounds, cancel_of, cancel, recover}
use adbcops.Rca.Requests.{serve, serve_all}
use adbcops.Rca.Samples.{
  env_at, alice, session, final, second_store, late_store, timed_out_run, creation, cancelled_run,
  cancelled_store, ended_run, later,
}

cancel-IsCancelled_example :
    IsCancelled 1 (serve_all later (cancel (env_at 30) (some alice) 1 (serve_all creation empty)).1)
unfolding cancel sort_by serve_all find mark_timed_out serve create_run trim_space max_rounds_of
    timeout_of sanitize_json authorize_scope next_id cancel_of cancel_rounds cancel_actions update
    truncate_text
cancel-IsCancelled_example =
    cancel-IsCancelled creation later (env_at 30) (some alice) 1 cancelled_run refl

serve_all-IsCancelled_example :
    InOrder (serve_all later cancelled_store) × IsCancelled 1 (serve_all later cancelled_store)
unfolding find next_id
serve_all-IsCancelled_example =
    serve_all-IsCancelled 1 later cancelled_store
      (record { runs = (omega arith, tt); rounds = tt; actions = tt })
      (record { run = refl; rounds = tt; actions = tt })

serve_all-IsBounded_example : IsBounded (serve_all session empty)
serve_all-IsBounded_example = serve_all-IsBounded session

serve_all-AllBacked_example : AllBacked (serve_all session empty)
serve_all-AllBacked_example = serve_all-AllBacked session

serve_all-AllConcluded_example : AllConcluded (serve_all session empty)
serve_all-AllConcluded_example = serve_all-AllConcluded session

serve_all-ActionsUnique_example : ActionsUnique (serve_all session empty)
serve_all-ActionsUnique_example = serve_all-ActionsUnique session

evidence_ids_belong-Subset_example : Subset (1 ∷ 1 ∷ []) (run_evidence 1 final.evidence)
unfolding next_id evidence_ids_belong mem unique_from
evidence_ids_belong-Subset_example =
    evidence_ids_belong-Subset 1 (1 ∷ 1 ∷ []) final (omega arith, tt) refl

recover-IsRecovered_example :
    IsRecovered timed_out_run
      (mark_timed_out 60000000030 late_store)
      (recover (env_at 60000000030) (some alice) 1 late_store)
unfolding find mark_timed_out
recover-IsRecovered_example =
    recover-IsRecovered (env_at 60000000030) alice 1 late_store timed_out_run (omega arith) refl
      (inr refl) (inr (inl refl))

get_run_lem_example :
    (ended_run.id ≡ 1)
    × (find run_key 1 (get_run (env_at 19) (some alice) 1 final).1.runs ≡ some ended_run)
    × (is_admin user ≡ false → ended_run.user_id ≡ 7)
    × NotOverdue 19 ended_run
unfolding get_run find mark_timed_out
get_run_lem_example = get_run_lem (env_at 19) alice 1 final ended_run refl

accessible_evidence-Visible_example : All (Visible (env_at 19) alice 1) final.evidence
unfolding accessible_evidence sort_by
accessible_evidence-Visible_example =
    accessible_evidence-Visible (env_at 19) alice 1 final final.evidence refl

get_detail-IsDetail_example : IsDetail (env_at 19) alice 1 (record {
  run = ended_run;
  rounds = final.rounds;
  actions = final.actions;
  evidence = final.evidence;
  candidates = final.candidates;
})
unfolding get_detail find mark_timed_out list_rounds list_actions list_candidates mem sort_by
get_detail-IsDetail_example =
    get_detail-IsDetail (env_at 19) alice 1 final
      (record {
        run = ended_run;
        rounds = final.rounds;
        actions = final.actions;
        evidence = final.evidence;
        candidates = final.candidates;
      })
      refl

mark_timed_out_lem_example :
    All (NotOverdue 60000000020) (mark_timed_out 60000000020 second_store).runs
    × ((id : ℕ)
        → mem id (overdue_ids 60000000020 second_store) ≡ true
        → All (RoundClosed id) (mark_timed_out 60000000020 second_store).rounds
          × All (ActionClosed id) (mark_timed_out 60000000020 second_store).actions)
    × (overdue_ids 60000000020 second_store ≡ []
        → mark_timed_out 60000000020 second_store ≡ second_store)
mark_timed_out_lem_example = mark_timed_out_lem 60000000020 second_store

unique_ids_lem_example :
    Nodup (unique_ids (3 ∷ 0 ∷ 3 ∷ 1 ∷ []))
    × ((a : ℕ) → mem a (unique_ids (3 ∷ 0 ∷ 3 ∷ 1 ∷ [])) ≡ (ltb 0 a && mem a (3 ∷ 0 ∷ 3 ∷ 1 ∷ [])))
unique_ids_lem_example = unique_ids_lem (3 ∷ 0 ∷ 3 ∷ 1 ∷ [])

truncate_text_lem_example :
    (rune_count (truncate_text "latency" 3) ≤ 3)
    × (rune_count "latency" ≤ 3 → truncate_text "latency" 3 ≡ "latency")
truncate_text_lem_example = truncate_text_lem "latency" 3
