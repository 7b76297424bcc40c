-- ===== src/Memory/Merging/Owners.antt =====
-- What an owner's merge leaves, and that it keeps the memories consistent.
use its_middle_platform_agen.Memory.Extraction.{MemoryExtractionJob}
use its_middle_platform_agen.Prelude.Strip.{strip}
use its_middle_platform_agen.Memory.Candidates.{is_blank}
use its_middle_platform_agen.Prelude.Table.Counts.{
  select_all-Stored, count_where-update_where_none, select_all-Unique, length-select_all,
  select_all-All,
}
use its_middle_platform_agen.Prelude.Result.{Result, err, ok}
use its_middle_platform_agen.Prelude.Table.{select_all, count_where, select_one}
use its_middle_platform_agen.Prelude.Table.TextKey.{has_key→eq, has_key}
use its_middle_platform_agen.Memory.Merging.Steps.{
  some_merged, settled-count, settled-Rows, merge_as-Settles, total, settled-Stored, settled,
}
use its_middle_platform_agen.Prelude.Table.Keys.{Unique}
use its_middle_platform_agen.Memory.Candidates.Slots.{memory_self, IsConsistent, Rows}
use its_middle_platform_agen.Memory.Merging.{
  merge_as, classify_merge_memory, is_memory_of, Merged, merge_memories, Classification,
}
use its_middle_platform_agen.Memory.Records.{
  ConversationSummary, memory_value_error, memory_integrity_error, MemoryError, memory_key, Memory,
  Store, is_confirmed, Outcome,
}
use its_middle_platform_agen.Memory.Merging.Steps.{settled-count}
use its_middle_platform_agen.Memory.Merging.{
  merge_owners, merge_user_owner, is_candidate_of, moved_candidate, owned_summary, owned_job,
  merge_rest, MergeCounts, no_counts,
}
use mathlib.Core.Path.{subst}
use its_middle_platform_agen.Prelude.{
  ap, ◌⊎◌, ◌∙◌, ◌||◌, eq_comm, suc, Bool-cases, sym, Option, Option-cases, arith, length, ◌+◌, ◌==◌,
  All, List, String, ℕ, ◌≡◌, none, some, [], ◌∷◌, true, false, inl, inr, refl,
}

module _ (new_id : String → String) (target : String) (now : ℕ) where
  -- The memories that are left to settle, as the loop read them.
  abbrev pub IsReady : List Memory → List Memory → Type 0
  IsReady rows ms =
      Rows rows
      × Unique (has_key memory_key) memory_key ms
      × All (λ x. select_one (has_key memory_key x.id) rows ≡ some x) ms

  step-IsReady :
      (c : Classification) (m : Memory) (rows ms : List Memory)
      → Rows (settled new_id target now c m rows)
      → IsReady rows (m ∷ ms)
      → IsReady (settled new_id target now c m rows) ms
  step-IsReady c m rows ms r ready =
      (r, ready.1.1, settled-Stored new_id target now c m rows ms ready.1.0 ready.2.1)

  -- The loop, for a source that is not the target.
  merge_memories-lem :
      (source : String) (ms : List Memory) (s s' : Merged)
      → IsReady s.1.memories ms
      → All (λ m. is_memory_of source m ≡ true) ms
      → merge_memories new_id target now ms s ≡ some s'
      → Rows s'.1.memories
        × ((source == target) ≡ false
            → count_where (is_memory_of source) s'.1.memories + length ms
              ≡ count_where (is_memory_of source) s.1.memories)
        × (total s'.0 ≡ total s.0 + length ms)
  unfolding merge_memories
  merge_memories-lem source [] s s' ready own h =
      let e : s ≡ s' = some_merged new_id target now h in
      subst
        (λ (t : Merged).
          Rows t.1.memories
          × ((source == target) ≡ false
              → count_where (is_memory_of source) t.1.memories + 0
                ≡ count_where (is_memory_of source) s.1.memories)
          × (total t.0 ≡ total s.0 + 0))
        e (ready.0, (λ differ. omega arith), omega arith)
  merge_memories-lem source (m ∷ ms) s s' ready own h =
      let kind = classify_merge_memory target m s.1.memories in
      elim (Option-cases (merge_as new_id target now kind m s)) [
        | inl failed ↦
            let bad : ◌≡◌ {A = Option Merged} none (some s') = rw (failed, merge_memories) at h in
            absurd (ground arith)
        | inr (t, done) ↦
            let rest : merge_memories new_id target now ms t ≡ some s' =
              rw (done, merge_memories) at h in
            let settles = merge_as-Settles new_id target now kind m s t done in
            let live : is_confirmed m ≡ true = ground (arith, own.0) in
            let rows = settled-Rows new_id target now m s.1.memories ready.2.0 ready.0 live in
            let ready' : IsReady t.1.memories ms =
              subst (λ ms'. IsReady ms' ms) (sym settles.0)
                (step-IsReady kind m s.1.memories ms rows ready) in
            let ih = merge_memories-lem source ms t s' ready' own.1 rest in
            (
              ih.0,
              λ differ.
                  let fewer =
                    settled-count new_id target now m s.1.memories ready.2.0 ready.0 source kind
                      differ own.0 in
                  let n : suc (count_where (is_memory_of source) t.1.memories)
                      ≡ count_where (is_memory_of source) s.1.memories =
                    subst
                      (λ (x : List Memory).
                        suc (count_where (is_memory_of source) x)
                        ≡ count_where (is_memory_of source) s.1.memories)
                      (sym settles.0) fewer in
                  omega (arith, ih.1 differ, n),
              omega (arith, ih.2, settles.1),
            )
      ]

start-IsReady :
    (source : String) (rows : List Memory)
    → Rows rows
    → IsReady (λ x. x) "" 0 rows (select_all (is_memory_of source) rows)
start-IsReady source rows r = (
  r,
  select_all-Unique (has_key memory_key) memory_key (has_key→eq memory_key) memory_self
      (is_memory_of source) rows r.0,
  select_all-Stored (has_key memory_key) memory_key (has_key→eq memory_key) memory_self
      (is_memory_of source) rows r.0,
)

module _ (new_id : String → String) (source target : String) (now : ℕ) (db : Store) where
  abbrev source_rows : List Memory
  source_rows = select_all (is_memory_of source) db.memories

  -- The transaction fails and leaves the database, or its loop ends.
  merge_owners-cases :
      ((e : MemoryError) × (merge_owners new_id source target now db ≡ (err e, db)))
      ⊎ ((s : Merged) × (merge_memories new_id target now source_rows (no_counts, db) ≡ some s)
          × (merge_owners new_id source target now db ≡ (
            ok (merge_rest new_id target now source s).0,
            (merge_rest new_id target now source s).1,
          )))
  unfolding merge_owners
  merge_owners-cases =
      elim (Option-cases (merge_memories new_id target now source_rows (no_counts, db))) [
        | inl failed ↦ inl (memory_integrity_error, rw failed refl)
        | inr (s, done) ↦ inr (s, done, rw done refl)
      ]

  merge_owners-Rows : Rows db.memories → Rows (merge_owners new_id source target now db).1.memories
  merge_owners-Rows r = elim merge_owners-cases [
    | inl (e, failed) ↦ rw failed r
    | inr (s, done, out) ↦
        rw out
          (merge_memories-lem new_id target now source source_rows (no_counts, db) s
            (start-IsReady source db.memories r) (select_all-All (is_memory_of source) db.memories)
            done).0
  ]

  -- What is left of the source.
  abbrev pub Leaves : MergeCounts → Store → Type 0
  Leaves n out =
      (count_where (is_memory_of source) out.memories ≡ 0)
      × (count_where (is_candidate_of source) out.candidates ≡ 0)
      × (count_where (owned_summary new_id target now source) out.summaries ≡ 0)
      × (count_where (owned_job new_id target now source) out.jobs ≡ 0)
      × (total n ≡ count_where (is_memory_of source) db.memories)

  rest-Leaves :
      (s : Merged)
      → (source == target) ≡ false
      → Rows db.memories
      → merge_memories new_id target now source_rows (no_counts, db) ≡ some s
      → Leaves (merge_rest new_id target now source s).0 (merge_rest new_id target now source s).1
  rest-Leaves s differ r done =
      let loop =
        merge_memories-lem new_id target now source source_rows (no_counts, db) s
          (start-IsReady source db.memories r) (select_all-All (is_memory_of source) db.memories)
          done in
      let size = length-select_all (is_memory_of source) db.memories in
      let other : (target == source) ≡ false = rw (eq_comm target source) differ in
      (
        omega (arith, loop.1 differ, size),
        count_where-update_where_none (is_candidate_of source) (is_candidate_of source)
            (moved_candidate target now) s.1.candidates (λ c h. h) (λ c. ground (arith, other)),
        count_where-update_where_none (owned_summary new_id target now source)
            (owned_summary new_id target now source)
            (λ (x : ConversationSummary). record x { user_id = target; updated_at = now })
            s.1.summaries (λ c h. h) (λ c. other),
        count_where-update_where_none (owned_job new_id target now source)
            (owned_job new_id target now source)
            (λ (j : MemoryExtractionJob). record j { user_id = target; updated_at = now }) s.1.jobs
            (λ c h. h) (λ c. other),
        omega (arith, loop.2, size),
      )

  merge_owners-Leaves :
      (n : MergeCounts) (out : Store)
      → (source == target) ≡ false
      → Rows db.memories
      → merge_owners new_id source target now db ≡ (ok n, out)
      → Leaves n out
  merge_owners-Leaves n out differ r h = elim merge_owners-cases [
    | inl (e, failed) ↦
        let bad : ◌≡◌ {A = Outcome MergeCounts} (err e, db) (ok n, out) = sym failed ∙ h in
        let b : ◌≡◌ {A = Result {0, 0} MemoryError MergeCounts} (err e) (ok n) =
          ap (λ (o : Outcome MergeCounts). o.0) bad in
        absurd (ground arith)
    | inr (s, done, ended) ↦
        let same : ◌≡◌ {A = Outcome MergeCounts}
            (
              ok (merge_rest new_id target now source s).0,
              (merge_rest new_id target now source s).1,
            )
            (ok n, out) =
          sym ended ∙ h in
        subst (λ (o : Outcome MergeCounts). elim o.0 [ err e ↦ Unit | ok k ↦ Leaves k o.1 ]) same
          (rest-Leaves s differ r done)
  ]

pub merge_user_owner-Rows :
    (new_id : String → String) (source target : String) (now : ℕ) (db : Store)
    → Rows db.memories
    → Rows (merge_user_owner new_id source target now db).1.memories
unfolding merge_user_owner
merge_user_owner-Rows new_id source target now db r =
    elim (Bool-cases (is_blank source || is_blank target)) [
      | inl blank ↦ rw blank r
      | inr named ↦ rw named (merge_owners-Rows new_id (strip source) (strip target) now db r)
    ]

-- A merge that succeeds between two identities leaves the source nothing: no confirmed personal
-- memory, no pending candidate, no summary and no extraction job; and the memories that it moved,
-- dropped as duplicates and turned into candidates are as many as the source had.
pub merge_user_owner-ok :
    (new_id : String → String) (source target : String) (now : ℕ) (db out : Store) (n : MergeCounts)
    → IsConsistent db
    → (strip source == strip target) ≡ false
    → merge_user_owner new_id source target now db ≡ (ok n, out)
    → Leaves new_id (strip source) (strip target) now db n out
unfolding merge_user_owner
merge_user_owner-ok new_id source target now db out n consistent differ h =
    elim (Bool-cases (is_blank source || is_blank target)) [
      | inl blank ↦
          let bad : ◌≡◌ {A = Outcome MergeCounts} (err memory_value_error, db) (ok n, out) =
            rw blank at h in
          let b : ◌≡◌ {A = Result {0, 0} MemoryError MergeCounts} (err memory_value_error) (ok n) =
            ap (λ (o : Outcome MergeCounts). o.0) bad in
          absurd (ground arith)
      | inr named ↦
          merge_owners-Leaves new_id (strip source) (strip target) now db n out differ
            (consistent.ids, consistent.single) (rw named at h)
    ]
