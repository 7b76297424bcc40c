-- ===== src/Memory/Merging.antt =====
-- `merge_user_owner` and `preview_user_owner_merge` of the memory repository
-- (knowledge/memory/repository.py). `new_id` gives the `uuid4()` that is drawn for a memory in
-- conflict, by the memory's id.
pub mod Steps
pub mod Owners
use its_middle_platform_agen.Memory.Records.{candidate_key, Outcome}
use its_middle_platform_agen.Prelude.Strip.{strip}
use its_middle_platform_agen.Memory.Upkeep.{removed}
use its_middle_platform_agen.Prelude.Table.TextKey.{has_key}
use its_middle_platform_agen.Prelude.Table.{select_one, update_where, select_all, count_where}
use its_middle_platform_agen.Prelude.Result.{ok, err, Result}
use its_middle_platform_agen.Memory.Extraction.{MemoryExtractionJob}
use its_middle_platform_agen.Memory.Records.{
  memory_value_error, in_slot, memory_key, is_pending, is_confirmed, memory_integrity_error,
  coalesce, Slot, MemoryError, ConversationSummary, MemoryCandidate, Memory, Store, candidate,
  approved, confirmed, rejected, expired, deleted,
}
use its_middle_platform_agen.Memory.Candidates.{event, is_blank, outdated, with_status}
use its_middle_platform_agen.Prelude.{
  str_append, ◌-◌, ◌||◌, length, is_some, ◌++◌, ◌&&◌, suc, if◌then◌else◌, ◌==◌, Option, List,
  String, Bool, ℕ, ◌≡◌, none, some, [], ◌∷◌, true, false, inl, inr, refl,
}

pub data Classification : Type 0 where
  duplicate conflicting unique : Classification

abbrev pub is_duplicate : Classification → Bool
is_duplicate duplicate = true
is_duplicate _ = false

abbrev pub is_conflicting : Classification → Bool
is_conflicting conflicting = true
is_conflicting _ = false

-- A confirmed memory of the owner that states the same fact.
abbrev pub states_fact : String → Memory → Memory → Bool
states_fact target m x =
    x.scope_type == m.scope_type
    && x.owner_id == target
    && x.space_id == m.space_id
    && coalesce x.domain_id == coalesce m.domain_id
    && x.normalized_fact == m.normalized_fact
    && is_confirmed x

-- The place that a memory takes with the owner.
abbrev pub target_slot : String → Memory → Slot
target_slot target m = record {
  scope_type = m.scope_type;
  owner_id = target;
  space_id = m.space_id;
  domain = coalesce m.domain_id;
  memory_type = m.memory_type;
  subject = m.subject;
}

unfoldable pub classify_merge_memory : String → Memory → List Memory → Classification
classify_merge_memory target m rows =
    if is_some (select_one (states_fact target m) rows)
    then duplicate
    else if is_some (select_one (in_slot (target_slot target m)) rows)
    then conflicting
    else unique

-- `WHERE scope_type='user' AND owner_id=? AND status='confirmed'`.
abbrev pub is_memory_of : String → Memory → Bool
is_memory_of owner m = m.scope_type == "user" && m.owner_id == owner && is_confirmed m

abbrev pub is_candidate_of : String → MemoryCandidate → Bool
is_candidate_of owner c = c.scope_type == "user" && c.owner_id == owner && is_pending c

abbrev pub moved : String → ℕ → Memory → Memory
moved target now m = record m { owner_id = target; updated_at = now }

abbrev pub moved_candidate : String → ℕ → MemoryCandidate → MemoryCandidate
moved_candidate target now c = record c { owner_id = target; updated_at = now }

-- The candidate that a memory in conflict becomes.
abbrev pub conflict_candidate : String → String → ℕ → Memory → MemoryCandidate
conflict_candidate id target now m = record {
  id = id;
  scope_type = m.scope_type;
  owner_id = target;
  space_id = m.space_id;
  domain_id = m.domain_id;
  memory_type = m.memory_type;
  subject = m.subject;
  normalized_fact = m.normalized_fact;
  summary = m.summary;
  source_turn_id = m.source_turn_id;
  source_citations = m.source_citations;
  confidence = m.confidence;
  status = candidate;
  expires_at = m.valid_until;
  created_at = now;
  updated_at = now;
}

pub record MergeCounts : Type 0 where
  pub moved_memories : ℕ
  pub deduplicated_memories : ℕ
  pub conflicting_memories : ℕ
  pub moved_candidates : ℕ
  pub conversation_summaries : ℕ
  pub extraction_jobs : ℕ

-- The counts beside the database, while the transaction runs.
abbrev pub Merged : Type 0
Merged = MergeCounts × Store

module _ (new_id : String → String) (target : String) (now : ℕ) where
  abbrev pub set_memory : (Memory → Memory) → Memory → Store → Store
  set_memory set m db = record db {
    memories = update_where (has_key memory_key m.id) set db.memories;
  }

  -- A step of the loop; `none` is the error of an id that is taken.
  abbrev pub merge_as : Classification → Memory → Merged → Option Merged
  merge_as unique m (n, db) =
      some (record n { moved_memories = suc n.moved_memories }, set_memory (moved target now) m db)
  merge_as duplicate m (n, db) = some (
    record n { deduplicated_memories = suc n.deduplicated_memories },
    set_memory (removed now) m db,
  )
  merge_as conflicting m (n, db) =
      let db' : Store = set_memory (removed now) m db in
      let added : Store = record db' {
        candidates = db.candidates ++ conflict_candidate (new_id m.id) target now m ∷ [];
      } in
      if is_some (select_one (has_key candidate_key (new_id m.id)) db.candidates)
      then none
      else some (record n { conflicting_memories = suc n.conflicting_memories }, added)

  unfoldable pub merge_memories : List Memory → Merged → Option Merged
  unfolding classify_merge_memory
  merge_memories [] s = some s
  merge_memories (m ∷ ms) s = elim (merge_as (classify_merge_memory target m s.1.memories) m s) [
    | none ↦ none
    | some s' ↦ merge_memories ms s'
  ]

  abbrev pub owned_summary : String → ConversationSummary → Bool
  owned_summary source x = x.user_id == source

  abbrev pub owned_job : String → MemoryExtractionJob → Bool
  owned_job source j = j.user_id == source

  -- The statements after the loop.
  abbrev pub merge_rest : String → Merged → Merged
  merge_rest source (n, db) = (
    record n {
      moved_candidates = count_where (is_candidate_of source) db.candidates;
      conversation_summaries = count_where (owned_summary source) db.summaries;
      extraction_jobs = count_where (owned_job source) db.jobs;
    },
    record db {
      candidates = update_where (is_candidate_of source) (moved_candidate target now) db.candidates;
      summaries =
          update_where (owned_summary source)
            (λ (x : ConversationSummary). record x { user_id = target; updated_at = now })
            db.summaries;
      jobs =
          update_where (owned_job source)
            (λ (j : MemoryExtractionJob). record j { user_id = target; updated_at = now }) db.jobs;
      audit =
          db.audit ++ event none none (str_append "identity-merge:" target) "owner_merge" now ∷ [];
    },
  )

abbrev pub no_counts : MergeCounts
no_counts = record {
  moved_memories = 0;
  deduplicated_memories = 0;
  conflicting_memories = 0;
  moved_candidates = 0;
  conversation_summaries = 0;
  extraction_jobs = 0;
}

-- A transaction that fails leaves the database.
abbrev pub committed : (Merged → Merged) → Store → Option Merged → Outcome MergeCounts
committed rest db none = (err memory_integrity_error, db)
committed rest db (some s) = (ok (rest s).0, (rest s).1)

-- The owners come stripped.
unfoldable pub merge_owners : (String → String) → String → String → ℕ → Store → Outcome MergeCounts
unfolding merge_memories
merge_owners new_id source target now db = committed (merge_rest new_id target now source) db (
    merge_memories new_id target now (select_all (is_memory_of source) db.memories) (no_counts, db))

unfoldable pub merge_user_owner :
    (String → String) → String → String → ℕ → Store → Outcome MergeCounts
unfolding merge_owners
merge_user_owner new_id source_owner_id target_owner_id now db =
    if is_blank source_owner_id || is_blank target_owner_id
    then (err memory_value_error, db)
    else merge_owners new_id (strip source_owner_id) (strip target_owner_id) now db

pub record Preview : Type 0 where
  pub memories : ℕ
  pub candidates : ℕ
  pub duplicates : ℕ
  pub conflicts : ℕ
  pub unique_memories : ℕ

-- The counts of the preview, whose loop writes nothing.
unfoldable pub preview_user_owner_merge :
    String → String → Store → Result {0, 0} MemoryError Preview
unfolding classify_merge_memory
preview_user_owner_merge source_owner_id target_owner_id db =
    let rows = select_all (is_memory_of (strip source_owner_id)) db.memories in
    let kind = λ (m : Memory). classify_merge_memory (strip target_owner_id) m db.memories in
    let duplicates = count_where (λ m. is_duplicate (kind m)) rows in
    let conflicts = count_where (λ m. is_conflicting (kind m)) rows in
    let found : Preview = record {
      memories = length rows;
      candidates = count_where (is_candidate_of (strip source_owner_id)) db.candidates;
      duplicates = duplicates;
      conflicts = conflicts;
      unique_memories = length rows - duplicates - conflicts;
    } in
    if is_blank source_owner_id || is_blank target_owner_id
    then err memory_value_error
    else ok found
