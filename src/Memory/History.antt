-- ===== src/Memory/History.antt =====
-- The histories of the memory repository over SQLite, in which a transaction is one step
-- (knowledge/memory/repository.py).
use its_middle_platform_agen.Prelude.Strip.{is_empty}
use its_middle_platform_agen.Memory.Notes.{
  is_open_conflict, is_confirmed_id, is_conflict_reason, review_required,
  upsert_conversation_summary, record_memory_conflict, delete_conversation_summary,
}
use its_middle_platform_agen.Memory.Merging.Owners.{merge_user_owner-Rows}
use its_middle_platform_agen.Prelude.Table.TextKey.{has_key}
use its_middle_platform_agen.Memory.Merging.{merge_user_owner}
use its_middle_platform_agen.Prelude.Result.{ok, err, Result}
use its_middle_platform_agen.Prelude.Table.{select_one, count_where, update_where}
use its_middle_platform_agen.Memory.Candidates.Slots.{delete-Rows}
use its_middle_platform_agen.Memory.Candidates.Slots.{
  update-Rows, write_approval-Rows, approve_candidate-Rows, Rows, IsConsistent,
}
use its_middle_platform_agen.Memory.Records.{
  memory_key, ConversationSummary, memory_value_error, is_pending, MemoryError, MemoryCandidate,
  Store, candidate_key, Outcome,
}
use its_middle_platform_agen.Memory.Upkeep.{
  is_terminal_memory, cleanup_terminal_records, soft_delete_memory, expire_memories, removed,
  is_lapsed,
}
use its_middle_platform_agen.Memory.Candidates.{
  get_candidate, write_approval, is_invalid, approve_candidate, is_kept, write_rejection,
  reject_candidate, create_candidate, outdated,
}
use its_middle_platform_agen.Prelude.{
  [], ◌∷◌, ◌++◌, leb, ◌||◌, not, if◌then◌else◌, arith, is_some, eqb, Option, Bool-cases, Bool,
  String, ℕ, ◌≡◌, true, false, inl, inr, refl,
}

-- A call of any of the methods, of whatever result. `approve_candidate` and `reject_candidate` read
-- the candidate before their transaction begins, so that the row that it sees may have changed:
-- `approve_late` and `reject_late` are the transactions of any candidate that was read earlier.
pub data Step (db : Store) : Store → Type 0 where
  create :
      (is_probability : String → Bool) (c : MemoryCandidate) (now : ℕ)
      → Step db (create_candidate is_probability c now db).1
  approve :
      (i actor : String) (v : Option ℕ) (now : ℕ) → Step db (approve_candidate i actor v now db).1
  approve_late :
      (c : MemoryCandidate) (actor : String) (v : Option ℕ) (now : ℕ)
      → Step db (write_approval c actor v now db).1
  reject : (i actor : String) (now : ℕ) → Step db (reject_candidate i actor now db).1
  reject_late : (i actor : String) (now : ℕ) → Step db (write_rejection i actor now db).1
  expire : (now : ℕ) → Step db (expire_memories now db).1
  delete : (i actor : String) (now : ℕ) → Step db (soft_delete_memory i actor now db).1
  cleanup : (apply : Bool) → Step db (cleanup_terminal_records apply db).1
  conflict :
      (i reason : String) (threshold now : ℕ)
      → Step db (record_memory_conflict i reason threshold now db).1
  summarize : (v : ConversationSummary) (now : ℕ) → Step db (upsert_conversation_summary v now db).1
  forget_summary : (c : String) → Step db (delete_conversation_summary c db).1
  merge :
      (new_id : String → String) (source target : String) (now : ℕ)
      → Step db (merge_user_owner new_id source target now db).1

pub data Reach (db : Store) : Store → Type 0 where
  here : Reach db db
  next : {mid db' : Store} → Reach db mid → Step mid db' → Reach db db'

create-memories :
    (is_probability : String → Bool) (c : MemoryCandidate) (now : ℕ) (db : Store)
    → (create_candidate is_probability c now db).1.memories ≡ db.memories
unfolding create_candidate
create-memories is_probability c now db = elim (Bool-cases (is_invalid is_probability c)) [
  | inl bad ↦ rw bad refl
  | inr good ↦ elim (Bool-cases (is_some (select_one (has_key candidate_key c.id) db.candidates))) [
    | inl taken ↦ rw good (rw taken refl)
    | inr free ↦ rw good (rw free refl)
  ]
]

reject-memories :
    (i actor : String) (now : ℕ) (db : Store)
    → (reject_candidate i actor now db).1.memories ≡ db.memories
unfolding reject_candidate write_rejection
reject-memories i actor now db = by_row (get_candidate i db)
  where
    by_row :
        (o : Result {0, 0} MemoryError MemoryCandidate)
        → let out : Outcome MemoryCandidate = elim o [
          | err e ↦ (err e, db)
          | ok c ↦
              if not (is_pending c)
              then (err memory_value_error, db)
              else write_rejection i actor now db
        ] in
          out.1.memories ≡ db.memories
    by_row (err e) = refl
    by_row (ok c) = elim (Bool-cases (not (is_pending c))) [
      | inl late ↦ rw late refl
      | inr open' ↦ rw open' refl
    ]

soft_delete-memories :
    (i actor : String) (now : ℕ) (db : Store)
    → (soft_delete_memory i actor now db).1.memories
      ≡ update_where (is_kept i) (removed now) db.memories
unfolding soft_delete_memory
soft_delete-memories i actor now db =
    elim (Bool-cases (eqb (count_where (is_kept i) db.memories) 0)) [
      | inl nothing ↦ rw nothing refl
      | inr one ↦ rw one refl
    ]

conflict-Rows :
    (i reason : String) (threshold now : ℕ) (db : Store)
    → Rows db.memories
    → Rows (record_memory_conflict i reason threshold now db).1.memories
unfolding record_memory_conflict
conflict-Rows i reason threshold now db r = elim (Bool-cases (not (is_conflict_reason reason))) [
  | inl wrong ↦ rw wrong r
  | inr known ↦ elim (Bool-cases (not (is_some (select_one (is_confirmed_id i) db.memories)))) [
    | inl missing ↦ rw known (rw missing r)
    | inr there ↦ rw known (
        rw there (
          either (
            leb (if leb threshold 1 then 1 else threshold) (
              count_where (is_open_conflict i) (
                db.conflicts
                ++ record {
                  memory_id = i;
                  reason_code = reason;
                  resolved = false;
                  created_at = now;
                }
                  ∷ [])))))
  ]
]
  where
    either :
        (b : Bool)
        → Rows (
            if b
            then update_where (has_key memory_key i) (review_required reason now) db.memories
            else db.memories)
    either true =
        update-Rows (has_key memory_key i) (review_required reason now) db.memories (λ m. refl)
          (λ k m h. h) r
    either false = r

summarize-memories :
    (v : ConversationSummary) (now : ℕ) (db : Store)
    → (upsert_conversation_summary v now db).1.memories ≡ db.memories
unfolding upsert_conversation_summary
summarize-memories v now db =
    elim (Bool-cases (is_empty v.conversation_id || is_empty v.user_id || is_empty v.space_id)) [
      | inl bad ↦ rw bad refl
      | inr good ↦ rw good refl
    ]

Step-Rows : {db db' : Store} → Step db db' → Rows db.memories → Rows db'.memories
unfolding expire_memories cleanup_terminal_records write_rejection delete_conversation_summary
Step-Rows {db} (create is_probability c now) r = rw (create-memories is_probability c now db) r
Step-Rows {db} (approve i actor v now) r = approve_candidate-Rows i actor v now db r
Step-Rows {db} (approve_late c actor v now) r = write_approval-Rows c actor v now db r
Step-Rows {db} (reject i actor now) r = rw (reject-memories i actor now db) r
Step-Rows {db} (reject_late i actor now) r = r
Step-Rows {db} (expire now) r =
    update-Rows (is_lapsed now) (outdated now) db.memories (λ m. refl)
      (λ k m h. absurd (ground arith)) r
Step-Rows {db} (delete i actor now) r = rw (soft_delete-memories i actor now db) (
    update-Rows (is_kept i) (removed now) db.memories (λ m. refl) (λ k m h. absurd (ground arith))
      r)
Step-Rows {db} (cleanup true) r = delete-Rows is_terminal_memory db.memories r
Step-Rows {db} (cleanup false) r = r
Step-Rows {db} (conflict i reason threshold now) r = conflict-Rows i reason threshold now db r
Step-Rows {db} (summarize v now) r = rw (summarize-memories v now db) r
Step-Rows {db} (forget_summary c) r = r
Step-Rows {db} (merge new_id source target now) r =
    merge_user_owner-Rows new_id source target now db r

-- Over SQLite, where BEGIN IMMEDIATE makes each transaction one step: whatever is created, approved,
-- rejected, expired, deleted, disputed, cleaned up and merged, in any order and with approvals of
-- candidates that were read long before, the ids of the memories stay distinct and no scope, owner,
-- space, domain, type and subject have two confirmed memories.
pub memories-IsConsistent : {db db' : Store} → Reach db db' → IsConsistent db → IsConsistent db'
memories-IsConsistent here consistent = consistent
memories-IsConsistent (next {mid} before step) consistent =
    let c = memories-IsConsistent before consistent in
    let r = Step-Rows step (c.ids, c.single) in record { ids = r.0; single = r.1 }
