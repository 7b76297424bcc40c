-- ===== src/Memory/Notes.antt =====
-- The conversation summaries and the conflicts of memories (knowledge/memory/repository.py,
-- knowledge/memory/conflicts.py).
use its_middle_platform_agen.Prelude.Strip.{is_empty}
use its_middle_platform_agen.Prelude.Table.{update_where, delete_where, select_one, count_where}
use its_middle_platform_agen.Prelude.Table.TextKey.{has_key}
use its_middle_platform_agen.Memory.Records.{
  Store, MemoryConflict, Memory, ConversationSummary, Outcome, memory_value_error, memory_key_error,
  is_confirmed, memory_key,
}
use its_middle_platform_agen.Memory.Candidates.{event}
use its_middle_platform_agen.Prelude.Result.{err, ok}
use its_middle_platform_agen.Prelude.{
  not, ◌||◌, leb, is_some, ◌&&◌, if◌then◌else◌, eqb, Option, ◌==◌, ◌++◌, List, Bool, String, ℕ,
  none, some, [], ◌∷◌, false,
}

abbrev pub summary_key : ConversationSummary → String
summary_key s = s.conversation_id

unfoldable pub get_conversation_summary : String → Store → Option ConversationSummary
get_conversation_summary conversation_id db =
    select_one (has_key summary_key conversation_id) db.summaries

-- What `ON CONFLICT(conversation_id) DO UPDATE` writes.
abbrev pub resummarized : ConversationSummary → ℕ → ConversationSummary → ConversationSummary
resummarized v now s = record v {
  conversation_id = s.conversation_id;
  created_at = s.created_at;
  updated_at = now;
}

-- `v` holds the arguments of the call.
unfoldable pub upsert_conversation_summary :
    ConversationSummary → ℕ → Store → Outcome (Option ConversationSummary)
unfolding get_conversation_summary
upsert_conversation_summary v now db =
    let fresh : ConversationSummary = record v { created_at = now; updated_at = now } in
    let rows =
      if is_some (select_one (has_key summary_key v.conversation_id) db.summaries)
      then update_where (has_key summary_key v.conversation_id) (resummarized v now) db.summaries
      else db.summaries ++ fresh ∷ [] in
    let db' : Store = record db { summaries = rows } in
    if is_empty v.conversation_id || is_empty v.user_id || is_empty v.space_id
    then (err memory_value_error, db)
    else (ok (get_conversation_summary v.conversation_id db'), db')

unfoldable pub delete_conversation_summary : String → Store → Bool × Store
delete_conversation_summary conversation_id db = (
  eqb (count_where (has_key summary_key conversation_id) db.summaries) 1,
  record db { summaries = delete_where (has_key summary_key conversation_id) db.summaries },
)

-- `CONFLICT_REASON_CODES`.
abbrev pub is_conflict_reason : String → Bool
is_conflict_reason r =
    r == "branch_mismatch"
    || r == "environment_mismatch"
    || r == "missing_evidence"
    || r == "source_deleted"
    || r == "contract_changed"
    || r == "runtime_contradiction"

abbrev pub is_confirmed_id : String → Memory → Bool
is_confirmed_id memory_id m = has_key memory_key memory_id m && is_confirmed m

abbrev pub is_open_conflict : String → MemoryConflict → Bool
is_open_conflict memory_id c = c.memory_id == memory_id && not c.resolved

abbrev pub review_required : String → ℕ → Memory → Memory
review_required reason now m = record m {
  review_state = "review_required";
  review_reason = some reason;
  updated_at = now;
}

-- The memories after a conflict, when `count` of its conflicts are open.
abbrev pub flagged : String → String → ℕ → ℕ → ℕ → List Memory → List Memory
flagged memory_id reason threshold count now rows =
    if leb (if leb threshold 1 then 1 else threshold) count
    then update_where (has_key memory_key memory_id) (review_required reason now) rows
    else rows

unfoldable pub record_memory_conflict : String → String → ℕ → ℕ → Store → Outcome ℕ
record_memory_conflict memory_id reason threshold now db =
    let new : MemoryConflict = record {
      memory_id = memory_id;
      reason_code = reason;
      resolved = false;
      created_at = now;
    } in
    let conflicts = db.conflicts ++ new ∷ [] in
    let count = count_where (is_open_conflict memory_id) conflicts in
    let db' : Store = record db {
      conflicts = conflicts;
      memories = flagged memory_id reason threshold count now db.memories;
      audit = db.audit ++ event (some memory_id) none "system:conflict" "conflict" now ∷ [];
    } in
    if not (is_conflict_reason reason)
    then (err memory_value_error, db)
    else if not (is_some (select_one (is_confirmed_id memory_id) db.memories))
    then (err memory_key_error, db)
    else (ok count, db')
