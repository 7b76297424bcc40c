-- ===== src/Memory/Upkeep.antt =====
-- The upkeep and the listings of memories and candidates (knowledge/memory/repository.py).
use its_middle_platform_agen.Prelude.Table.{
  select_all, update_where, order_by, delete_where, count_where,
}
use its_middle_platform_agen.Memory.Extraction.{has_status, MemoryExtractionJob}
use its_middle_platform_agen.Memory.Records.{
  same_status, is_pending, is_confirmed, MemoryStatus, Store, MemoryCandidate, Memory, approved,
  rejected, expired, deleted,
}
use its_middle_platform_agen.Memory.Candidates.{is_type, event, is_kept, outdated, with_status}
use its_middle_platform_agen.Prelude.{
  text_leb, not, eqb, ◌++◌, ◌||◌, ◌&&◌, take, ltb, leb, is_text, ◌==◌, if◌then◌else◌, String,
  Option, List, Bool, ℕ, none, some, [], ◌∷◌, true, false,
}

-- `valid_until IS NOT NULL AND valid_until<=?`.
abbrev pub is_past : Option ℕ → ℕ → Bool
is_past none now = false
is_past (some t) now = leb t now

abbrev pub is_lapsed : ℕ → Memory → Bool
is_lapsed now m = is_confirmed m && is_past m.valid_until now

abbrev pub is_stale : ℕ → MemoryCandidate → Bool
is_stale now c = is_pending c && is_past c.expires_at now

unfoldable pub expire_memories : ℕ → Store → ℕ × Store
expire_memories now db = (
  count_where (is_lapsed now) db.memories,
  record db {
    memories = update_where (is_lapsed now) (outdated now) db.memories;
    candidates = update_where (is_stale now) (with_status expired now) db.candidates;
  },
)

abbrev pub removed : ℕ → Memory → Memory
removed now m = record m { status = deleted; updated_at = now }

unfoldable pub soft_delete_memory : String → String → ℕ → Store → Bool × Store
soft_delete_memory memory_id actor now db =
    let changed = count_where (is_kept memory_id) db.memories in
    let db' : Store = record db {
      memories = update_where (is_kept memory_id) (removed now) db.memories;
    } in
    let noted : Store = record db' {
      audit = db.audit ++ event (some memory_id) none actor "delete" now ∷ [];
    } in
    (eqb changed 1, if eqb changed 0 then db' else noted)

abbrev pub is_terminal_memory : Memory → Bool
is_terminal_memory m = same_status m.status deleted || same_status m.status expired

abbrev pub is_terminal_candidate : MemoryCandidate → Bool
is_terminal_candidate c =
    same_status c.status approved || same_status c.status rejected || same_status c.status expired

abbrev pub is_terminal_job : MemoryExtractionJob → Bool
is_terminal_job j = has_status "succeeded" j || has_status "failed" j

unfoldable pub cleanup_terminal_records : Bool → Store → (ℕ × ℕ × ℕ) × Store
cleanup_terminal_records apply db =
    let cleaned : Store = record db {
      memories = delete_where is_terminal_memory db.memories;
      candidates = delete_where is_terminal_candidate db.candidates;
      jobs = delete_where is_terminal_job db.jobs;
    } in
    (
      (
        count_where is_terminal_memory db.memories,
        count_where is_terminal_candidate db.candidates,
        count_where is_terminal_job db.jobs,
      ),
      if apply then cleaned else db,
    )

-- `max(1, min(limit, most))`.
abbrev pub bounded : ℕ → ℕ → ℕ
bounded most limit = if leb limit 1 then 1 else if leb limit most then limit else most

abbrev pub asked : Option String → String → Bool
asked none x = true
asked (some y) x = x == y

abbrev pub asked_domain : Option String → Option String → Bool
asked_domain none x = true
asked_domain (some y) x = is_text x y

abbrev pub asked_status : Option MemoryStatus → MemoryStatus → Bool
asked_status none x = true
asked_status (some y) x = same_status x y

abbrev pub newer_candidate : MemoryCandidate → MemoryCandidate → Bool
newer_candidate a b = leb b.created_at a.created_at

unfoldable pub list_candidates :
    Option MemoryStatus
    → Option String
    → Option String
    → Option String
    → Option String
    → ℕ
    → Store
    → List MemoryCandidate
list_candidates status scope_type owner_id domain_id memory_type limit db =
    take (bounded 500 limit) (
      order_by newer_candidate (
        select_all
          (λ (c : MemoryCandidate).
            asked_status status c.status
            && asked scope_type c.scope_type
            && asked owner_id c.owner_id
            && asked_domain domain_id c.domain_id
            && asked memory_type c.memory_type)
          db.candidates))

-- `memory_type IN (…)`.
unfoldable pub is_one_of : List String → String → Bool
is_one_of [] s = false
is_one_of (t ∷ ts) s = t == s || is_one_of ts s

-- `ORDER BY created_at ASC, id ASC`.
abbrev pub older_candidate : MemoryCandidate → MemoryCandidate → Bool
older_candidate a b =
    ltb a.created_at b.created_at || (eqb a.created_at b.created_at && text_leb a.id b.id)

unfoldable pub list_due_user_candidates : ℕ → List String → ℕ → Store → List MemoryCandidate
unfolding is_one_of
list_due_user_candidates cutoff memory_types limit db = take (bounded 1000 limit) (
    order_by older_candidate (
      select_all
        (λ (c : MemoryCandidate).
          is_pending c
          && c.scope_type == "user"
          && leb c.created_at cutoff
          && is_one_of (select_all is_type memory_types) c.memory_type)
        db.candidates))

unfoldable pub is_status_of : List MemoryStatus → MemoryStatus → Bool
is_status_of [] s = false
is_status_of (t ∷ ts) s = same_status s t || is_status_of ts s

abbrev pub newer_memory : Memory → Memory → Bool
newer_memory a b = leb b.updated_at a.updated_at

unfoldable pub list_memories :
    Option String
    → Option String
    → Option String
    → Option String
    → List MemoryStatus
    → ℕ
    → Store
    → List Memory
unfolding is_status_of
list_memories scope_type owner_id space_id domain_id statuses limit db = take (bounded 500 limit) (
    order_by newer_memory (
      select_all
        (λ (m : Memory).
          is_status_of statuses m.status
          && not (same_status m.status deleted)
          && asked scope_type m.scope_type
          && asked owner_id m.owner_id
          && asked space_id m.space_id
          && asked_domain domain_id m.domain_id)
        db.memories))
