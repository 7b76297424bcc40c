-- ===== src/Memory/Records.antt =====
-- The rows of candidates and memories (knowledge/memory/models.py; the tables are created in
-- knowledge/memory/repository.py). A time is a number of microseconds, citations are a list of
-- texts, and a confidence is an opaque text. Audit events and conflicts come without their id, a
-- fresh `uuid4()`.
use its_middle_platform_agen.Memory.Extraction.{MemoryExtractionJob}
use its_middle_platform_agen.Prelude.Result.{Result}
use its_middle_platform_agen.Prelude.{
  ◌&&◌, ◌==◌, String, Option, List, Bool, ℕ, none, some, true, false,
}

pub data MemoryStatus : Type 0 where
  candidate approved confirmed rejected expired deleted : MemoryStatus

-- `ValueError`, `KeyError` and the database's error of a key that is taken.
pub data MemoryError : Type 0 where
  memory_value_error memory_key_error memory_integrity_error : MemoryError

pub record MemoryCandidate : Type 0 where
  pub id : String
  pub scope_type : String
  pub owner_id : String
  pub space_id : String
  pub domain_id : Option String
  pub memory_type : String
  pub subject : String
  pub normalized_fact : String
  pub summary : String
  pub source_turn_id : Option String
  pub source_citations : List String
  pub confidence : String
  pub status : MemoryStatus
  pub expires_at : Option ℕ
  pub created_at : ℕ
  pub updated_at : ℕ

pub record Memory : Type 0 where
  pub id : String
  pub scope_type : String
  pub owner_id : String
  pub space_id : String
  pub domain_id : Option String
  pub memory_type : String
  pub subject : String
  pub normalized_fact : String
  pub summary : String
  pub source_turn_id : Option String
  pub source_citations : List String
  pub confidence : String
  pub status : MemoryStatus
  pub valid_from : ℕ
  pub valid_until : Option ℕ
  pub last_used_at : Option ℕ
  pub supersedes_id : Option String
  pub created_at : ℕ
  pub updated_at : ℕ
  pub review_state : String
  pub review_reason : Option String

pub record AuditEvent : Type 0 where
  pub memory_id : Option String
  pub candidate_id : Option String
  pub actor : String
  pub action : String
  pub created_at : ℕ

pub record ConversationSummary : Type 0 where
  pub conversation_id : String
  pub user_id : String
  pub space_id : String
  pub domain_id : Option String
  pub summary : String
  pub goals : List String
  pub confirmed_facts : List String
  pub unresolved_items : List String
  pub preferences : List String
  pub created_at : ℕ
  pub updated_at : ℕ

pub record MemoryConflict : Type 0 where
  pub memory_id : String
  pub reason_code : String
  pub resolved : Bool
  pub created_at : ℕ

pub record Store : Type 0 where
  pub memories : List Memory
  pub candidates : List MemoryCandidate
  pub audit : List AuditEvent
  pub jobs : List MemoryExtractionJob
  pub summaries : List ConversationSummary
  pub conflicts : List MemoryConflict

abbrev pub Outcome : Type 0 → Type 0
Outcome A = Result {0, 0} MemoryError A × Store

abbrev pub same_status : MemoryStatus → MemoryStatus → Bool
same_status candidate candidate = true
same_status approved approved = true
same_status confirmed confirmed = true
same_status rejected rejected = true
same_status expired expired = true
same_status deleted deleted = true
same_status _ _ = false

abbrev pub memory_key : Memory → String
memory_key m = m.id

abbrev pub candidate_key : MemoryCandidate → String
candidate_key c = c.id

abbrev pub is_pending : MemoryCandidate → Bool
is_pending c = same_status c.status candidate

abbrev pub is_confirmed : Memory → Bool
is_confirmed m = same_status m.status confirmed

-- What a confirmed memory is the only one for; `COALESCE(domain_id,'')` is its domain.
pub record Slot : Type 0 where
  pub scope_type : String
  pub owner_id : String
  pub space_id : String
  pub domain : String
  pub memory_type : String
  pub subject : String

abbrev pub coalesce : Option String → String
coalesce none = ""
coalesce (some s) = s

abbrev pub slot_of : MemoryCandidate → Slot
slot_of c = record {
  scope_type = c.scope_type;
  owner_id = c.owner_id;
  space_id = c.space_id;
  domain = coalesce c.domain_id;
  memory_type = c.memory_type;
  subject = c.subject;
}

-- The condition of the statements, with the status.
abbrev pub in_slot : Slot → Memory → Bool
in_slot k m =
    m.scope_type == k.scope_type
    && m.owner_id == k.owner_id
    && m.space_id == k.space_id
    && coalesce m.domain_id == k.domain
    && m.memory_type == k.memory_type
    && m.subject == k.subject
    && is_confirmed m
