-- ===== src/Runtime/PendingRuns/Postgres.antt =====
-- `PostgresPendingRunRepository` of knowledge/agent_runtime/pending_runs.py.
use its_middle_platform_agen.Prelude.Table.TextKey.{has_key}
use its_middle_platform_agen.Prelude.Table.{update_where, select_one, delete_where}
use its_middle_platform_agen.Prelude.Result.{err, ok, Result}
use its_middle_platform_agen.Runtime.PendingRuns.{
  run_conflict, is_pending, not_completed, run_not_found, as_completed, run_key, completes,
  in_conversation, PendingError, Marked, PendingRun, upsert, PendingRow,
}
use its_middle_platform_agen.Prelude.{not, is_some, if◌then◌else◌, List, String, ℕ, none, some}

module _ {S A : Type 0} where
  unfoldable pub save_pending :
      String → String → S → A → ℕ → List (PendingRow S A) → List (PendingRow S A)
  unfolding upsert
  save_pending run_id conversation_id state approvals now rows =
      upsert run_id conversation_id state approvals now rows

  abbrev pub from_mapping : PendingRow S A → PendingRun S A
  from_mapping r = record {
    run_id = r.run_id;
    conversation_id = r.conversation_id;
    state = r.state;
    approvals = r.approvals;
    status = r.status;
  }

  unfoldable pub get_pending : String → List (PendingRow S A) → Result PendingError (PendingRun S A)
  get_pending run_id rows = elim (select_one (has_key run_key run_id) rows) [
    | none ↦ err run_not_found
    | some r ↦ if not (is_pending r) then err run_conflict else ok (from_mapping r)
  ]

  -- `UPDATE … RETURNING run_id` returns the id of the row that it met.
  unfoldable pub mark_completed : String → ℕ → List (PendingRow S A) → Marked (PendingRow S A)
  mark_completed run_id now rows =
      if is_some (select_one (completes run_id) rows)
      then (ok tt, update_where (completes run_id) (as_completed now) rows)
      else (err (not_completed run_id rows), rows)

  unfoldable pub delete_conversation : String → List (PendingRow S A) → List (PendingRow S A)
  delete_conversation conversation_id rows = delete_where (in_conversation conversation_id) rows
