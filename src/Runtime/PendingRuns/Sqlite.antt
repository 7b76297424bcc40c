-- ===== src/Runtime/PendingRuns/Sqlite.antt =====
-- `PendingRunRepository` of knowledge/agent_runtime/pending_runs.py.
use its_middle_platform_agen.Prelude.Table.TextKey.{has_key}
use its_middle_platform_agen.Prelude.Table.{update_where, count_where, select_one, delete_where}
use its_middle_platform_agen.Prelude.Result.{ok, err, Result}
use its_middle_platform_agen.Runtime.PendingRuns.{
  run_conflict, not_completed, is_pending, as_completed, run_not_found, run_key, completes,
  in_conversation, PendingError, Marked, PendingRun, upsert, PendingRow, JsonCodec,
}
use its_middle_platform_agen.Prelude.{not, eqb, if◌then◌else◌, List, String, ℕ, none, some}

module _ {S A : Type 0} (json : JsonCodec S A) where
  unfoldable pub save_pending :
      String
      → String
      → S
      → A
      → ℕ
      → List (PendingRow String String)
      → List (PendingRow String String)
  unfolding upsert
  save_pending run_id conversation_id state approvals now rows =
      upsert run_id conversation_id (json.dumps_state state) (json.dumps_approvals approvals) now
        rows

  abbrev pub from_row : PendingRow String String → PendingRun S A
  from_row r = record {
    run_id = r.run_id;
    conversation_id = r.conversation_id;
    state = json.loads_state r.state;
    approvals = json.loads_approvals r.approvals;
    status = r.status;
  }

  unfoldable pub get_pending :
      String → List (PendingRow String String) → Result PendingError (PendingRun S A)
  get_pending run_id rows = elim (select_one (has_key run_key run_id) rows) [
    | none ↦ err run_not_found
    | some r ↦ if not (is_pending r) then err run_conflict else ok (from_row r)
  ]

  -- The row count decides; the transaction that completes nothing rolls back.
  unfoldable pub mark_completed :
      String → ℕ → List (PendingRow String String) → Marked (PendingRow String String)
  mark_completed run_id now rows =
      if eqb (count_where (completes run_id) rows) 1
      then (ok tt, update_where (completes run_id) (as_completed now) rows)
      else (err (not_completed run_id rows), rows)

  unfoldable pub delete_conversation :
      String → List (PendingRow String String) → List (PendingRow String String)
  delete_conversation conversation_id rows = delete_where (in_conversation conversation_id) rows
