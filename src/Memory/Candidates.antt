-- ===== src/Memory/Candidates.antt =====
-- The candidates of the memory repository (knowledge/memory/repository.py). `now` is the value of
-- `_now()`; `is_probability` says whether a confidence is between 0 and 1. The rows of a `SELECT`
-- without an order come in the order of insertion. The transactions are those over SQLite: over
-- PostgreSQL the BEGIN IMMEDIATE of `approve_candidate` is a SELECT 1
-- (knowledge/persistence/sqlite_compat.py), and two approvals may interleave.
pub mod Slots
use its_middle_platform_agen.Memory.Records.{candidate_key, Outcome}
use its_middle_platform_agen.Prelude.Table.{update_where, select_all, select_one}
use its_middle_platform_agen.Prelude.Table.TextKey.{has_key}
use its_middle_platform_agen.Prelude.Result.{ok, err, Result}
use its_middle_platform_agen.Prelude.Strip.{is_empty, strip}
use its_middle_platform_agen.Memory.Records.{
  is_pending, memory_integrity_error, memory_value_error, memory_key_error, slot_of, same_status,
  in_slot, memory_key, MemoryError, Store, AuditEvent, MemoryStatus, MemoryCandidate, Memory,
  candidate, approved, confirmed, rejected, expired, deleted,
}
use its_middle_platform_agen.Prelude.{
  is_some, if◌then◌else◌, ◌&&◌, ◌||◌, ◌++◌, not, ◌==◌, Bool, String, Option, List, ℕ, ◌≡◌, none,
  some, [], ◌∷◌, true, false, inl, inr, refl,
}

-- `_SCOPES` and `_TYPES`.
abbrev pub is_scope : String → Bool
is_scope s = s == "user" || s == "conversation" || s == "team" || s == "domain" || s == "global"

abbrev pub is_type : String → Bool
is_type t =
    t == "user_preference"
    || t == "user_context"
    || t == "episodic_memory"
    || t == "decision_memory"
    || t == "procedural_memory"

abbrev pub is_blank : String → Bool
is_blank s = is_empty (strip s)

-- `_validate_create`: whether it raises.
abbrev pub is_invalid : (String → Bool) → MemoryCandidate → Bool
is_invalid is_probability c =
    not (is_scope c.scope_type)
    || not (is_type c.memory_type)
    || is_blank c.owner_id
    || is_blank c.space_id
    || is_blank c.subject
    || is_blank c.normalized_fact
    || not (is_probability c.confidence)

abbrev pub new_candidate : MemoryCandidate → ℕ → MemoryCandidate
new_candidate c now = record c {
  subject = strip c.subject;
  normalized_fact = strip c.normalized_fact;
  summary = strip c.summary;
  status = candidate;
  created_at = now;
  updated_at = now;
}

unfoldable pub get_candidate : String → Store → Result {0, 0} MemoryError MemoryCandidate
get_candidate candidate_id db =
    elim (select_one (has_key candidate_key candidate_id) db.candidates) [
      | none ↦ err memory_key_error
      | some c ↦ ok c
    ]

-- `c` holds the arguments of the call, its id being `value.id or str(uuid4())`.
unfoldable pub create_candidate :
    (String → Bool) → MemoryCandidate → ℕ → Store → Outcome MemoryCandidate
unfolding get_candidate
create_candidate is_probability c now db =
    let db' : Store = record db { candidates = db.candidates ++ new_candidate c now ∷ [] } in
    if is_invalid is_probability c
    then (err memory_value_error, db)
    else if is_some (select_one (has_key candidate_key c.id) db.candidates)
    then (err memory_integrity_error, db)
    else (get_candidate c.id db', db')

abbrev pub outdated : ℕ → Memory → Memory
outdated now m = record m { status = expired; updated_at = now }

-- `a or b`, of times.
abbrev pub or_time : Option ℕ → Option ℕ → Option ℕ
or_time none t = t
or_time (some s) t = some s

abbrev pub first_id : List Memory → Option String
first_id [] = none
first_id (m ∷ ms) = some m.id

abbrev pub confirmed_memory : MemoryCandidate → Option ℕ → Option String → ℕ → Memory
confirmed_memory c valid_until supersedes_id now = record {
  id = c.id;
  scope_type = c.scope_type;
  owner_id = c.owner_id;
  space_id = c.space_id;
  domain_id = c.domain_id;
  memory_type = c.memory_type;
  subject = c.subject;
  normalized_fact = c.normalized_fact;
  summary = c.summary;
  source_turn_id = c.source_turn_id;
  source_citations = c.source_citations;
  confidence = c.confidence;
  status = confirmed;
  valid_from = now;
  valid_until = or_time valid_until c.expires_at;
  last_used_at = none;
  supersedes_id = supersedes_id;
  created_at = now;
  updated_at = now;
  review_state = "approved";
  review_reason = none;
}

abbrev pub with_status : MemoryStatus → ℕ → MemoryCandidate → MemoryCandidate
with_status status now c = record c { status = status; updated_at = now }

abbrev pub event : Option String → Option String → String → String → ℕ → AuditEvent
event memory_id candidate_id actor action now = record {
  memory_id = memory_id;
  candidate_id = candidate_id;
  actor = actor;
  action = action;
  created_at = now;
}

-- `WHERE id=? AND status!='deleted'`.
abbrev pub is_kept : String → Memory → Bool
is_kept memory_id m = has_key memory_key memory_id m && not (same_status m.status deleted)

unfoldable pub get_memory : String → Store → Option Memory
get_memory memory_id db = select_one (is_kept memory_id) db.memories

-- The transaction of `approve_candidate`, for the candidate that was read before it began.
unfoldable pub write_approval :
    MemoryCandidate → String → Option ℕ → ℕ → Store → Outcome (Option Memory)
unfolding get_memory
write_approval c actor valid_until now db =
    let old = select_all (in_slot (slot_of c)) db.memories in
    let freed = update_where (in_slot (slot_of c)) (outdated now) db.memories in
    let db' : Store = record db {
      memories = freed ++ confirmed_memory c valid_until (first_id old) now ∷ [];
      candidates =
          update_where (has_key candidate_key c.id) (with_status approved now) db.candidates;
      audit = db.audit ++ event (some c.id) (some c.id) actor "approve" now ∷ [];
    } in
    if is_some (select_one (has_key memory_key c.id) freed)
    then (err memory_integrity_error, db)
    else (ok (get_memory c.id db'), db')

unfoldable pub approve_candidate : String → String → Option ℕ → ℕ → Store → Outcome (Option Memory)
unfolding write_approval get_candidate
approve_candidate candidate_id actor valid_until now db = elim (get_candidate candidate_id db) [
  | err e ↦ (err e, db)
  | ok c ↦
      if not (is_pending c)
      then (err memory_value_error, db)
      else write_approval c actor valid_until now db
]

-- The transaction of `reject_candidate`, after the candidate was read.
unfoldable pub write_rejection : String → String → ℕ → Store → Outcome MemoryCandidate
unfolding get_candidate
write_rejection candidate_id actor now db =
    let db' : Store = record db {
      candidates =
          update_where (has_key candidate_key candidate_id) (with_status rejected now)
            db.candidates;
      audit = db.audit ++ event none (some candidate_id) actor "reject" now ∷ [];
    } in
    (get_candidate candidate_id db', db')

unfoldable pub reject_candidate : String → String → ℕ → Store → Outcome MemoryCandidate
unfolding write_rejection get_candidate
reject_candidate candidate_id actor now db = elim (get_candidate candidate_id db) [
  | err e ↦ (err e, db)
  | ok c ↦
      if not (is_pending c)
      then (err memory_value_error, db)
      else write_rejection candidate_id actor now db
]
