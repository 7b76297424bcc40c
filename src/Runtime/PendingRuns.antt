-- ===== src/Runtime/PendingRuns.antt =====
-- knowledge/agent_runtime/pending_runs.py: runs that wait for an approval, kept in SQLite as JSON
-- texts and in PostgreSQL as JSON values. `json.dumps` and `json.loads` are parameters, and so are
-- the types of a run's state and approvals.
pub mod Sqlite
pub mod Postgres
pub mod Agreement
use its_middle_platform_agen.Prelude.Table.{update_where, select_one}
use its_middle_platform_agen.Prelude.Table.TextKey.{has_key}
use its_middle_platform_agen.Prelude.Result.{Result}
use its_middle_platform_agen.Prelude.{
  [], ◌∷◌, ◌++◌, is_some, ◌&&◌, if◌then◌else◌, ◌==◌, List, Bool, String, ℕ, ◌≡◌,
}

pub data PendingError : Type 0 where
  run_not_found run_conflict : PendingError

-- A row of `agent_pending_runs`, with the columns in the form that the database keeps.
pub record PendingRow (S A : Type 0) : Type 0 where
  pub run_id : String
  pub conversation_id : String
  pub state : S
  pub approvals : A
  pub status : String
  pub created_at : ℕ
  pub updated_at : ℕ

pub record PendingRun (S A : Type 0) : Type 0 where
  pub run_id : String
  pub conversation_id : String
  pub state : S
  pub approvals : A
  pub status : String

-- What `mark_completed` returns, beside the table.
abbrev pub Marked : Type 0 → Type 0
Marked R = Result {0, 0} PendingError Unit × List R

-- `json.dumps` and `json.loads` at the two types.
pub record JsonCodec (S A : Type 0) : Type 0 where
  pub dumps_state : S → String
  pub loads_state : String → S
  pub dumps_approvals : A → String
  pub loads_approvals : String → A

module _ {S A : Type 0} where
  abbrev pub run_key : PendingRow S A → String
  run_key r = r.run_id

  abbrev pub is_pending : PendingRow S A → Bool
  is_pending r = r.status == "pending"

  abbrev pub in_conversation : String → PendingRow S A → Bool
  in_conversation conversation_id r = r.conversation_id == conversation_id

  -- `DO UPDATE SET state, approvals, status='pending', updated_at`.
  abbrev pub overwrite : S → A → ℕ → PendingRow S A → PendingRow S A
  overwrite state approvals now r = record r {
    state = state;
    approvals = approvals;
    status = "pending";
    updated_at = now;
  }

  -- `INSERT … ON CONFLICT(run_id) DO UPDATE`.
  unfoldable pub upsert :
      String → String → S → A → ℕ → List (PendingRow S A) → List (PendingRow S A)
  upsert run_id conversation_id state approvals now rows =
      if is_some (select_one (has_key run_key run_id) rows)
      then update_where (has_key run_key run_id) (overwrite state approvals now) rows
      else rows
        ++ record {
          run_id = run_id;
          conversation_id = conversation_id;
          state = state;
          approvals = approvals;
          status = "pending";
          created_at = now;
          updated_at = now;
        }
          ∷ []

  abbrev pub as_completed : ℕ → PendingRow S A → PendingRow S A
  as_completed now r = record r { status = "completed"; updated_at = now }

  abbrev pub completes : String → PendingRow S A → Bool
  completes run_id r = has_key run_key run_id r && is_pending r

  -- The exception when no row was completed.
  abbrev pub not_completed : String → List (PendingRow S A) → PendingError
  not_completed run_id rows =
      if is_some (select_one (has_key run_key run_id) rows) then run_conflict else run_not_found
