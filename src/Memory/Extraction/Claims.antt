-- ===== src/Memory/Extraction/Claims.antt =====
-- Which job a worker claims, and what the claim leaves.
use mathlib.Core.Path.{subst}
use its_middle_platform_agen.Prelude.Result.{ok}
use its_middle_platform_agen.Prelude.Table.TextKey.{select_one-keyed_update, has_key}
use its_middle_platform_agen.Prelude.Table.Keys.{Unique}
use its_middle_platform_agen.Prelude.Table.{select_one}
use its_middle_platform_agen.Memory.Extraction.{
  earlier, claimed, extraction_key, has_status, get_extraction_job, MemoryExtractionJob,
  oldest_queued, claim_extraction_job,
}
use its_middle_platform_agen.Prelude.{
  leb, ◌∙◌, sym, eq_refl, eq→path, if◌then◌else◌, ◌==◌, Bool-cases, Option, arith, String, List, ℕ,
  ◌≡◌, none, some, [], ◌∷◌, true, inl, inr, refl,
}

abbrev pub AreDistinct : List MemoryExtractionJob → Type 0
AreDistinct jobs = Unique (has_key extraction_key) extraction_key jobs

-- A queued row of the table.
abbrev IsFound : List MemoryExtractionJob → MemoryExtractionJob → Type 0
IsFound jobs j =
    (has_status "queued" j ≡ true) × (select_one (has_key extraction_key j.id) jobs ≡ some j)

deeper :
    (x j : MemoryExtractionJob) (xs : List MemoryExtractionJob)
    → select_one (has_key extraction_key x.id) xs ≡ none
    → IsFound xs j
    → IsFound (x ∷ xs) j
unfolding select_one
deeper x j xs fresh found = elim (Bool-cases (x.id == j.id)) [
  | inl same ↦
      let e : x.id ≡ j.id = eq→path x.id j.id same in
      let none' : select_one (has_key extraction_key j.id) xs ≡ none = rw e at fresh in
      let bad : ◌≡◌ {A = Option MemoryExtractionJob} none (some j) = sym none' ∙ found.1 in
      absurd (ground arith)
  | inr other ↦ rw other found
]

oldest_queued-IsFound :
    (jobs : List MemoryExtractionJob) (j : MemoryExtractionJob)
    → AreDistinct jobs
    → oldest_queued jobs ≡ some j
    → IsFound jobs j
unfolding oldest_queued select_one
oldest_queued-IsFound [] j u h = absurd (ground arith)
oldest_queued-IsFound (x ∷ xs) j u h = elim (Bool-cases (has_status "queued" x)) [
  | inr busy ↦
      let later : oldest_queued xs ≡ some j = rw busy at h in
      deeper x j xs u.0 (oldest_queued-IsFound xs j u.1 later)
  | inl waits ↦
      let chosen : ◌≡◌ {A = Option MemoryExtractionJob} (some (earlier x (oldest_queued xs)))
          (some j) =
        rw waits at h in
      pick (λ k e. oldest_queued-IsFound xs k u.1 e) (oldest_queued xs) refl waits (ground arith)
]
  where
    here : has_status "queued" x ≡ true → x ≡ j → IsFound (x ∷ xs) j
    here waits e =
        let own : IsFound (x ∷ xs) x = (waits, rw (eq_refl x.id) refl) in
        subst (IsFound (x ∷ xs)) e own

    pick :
        ((k : MemoryExtractionJob) → oldest_queued xs ≡ some k → IsFound xs k)
        → (o : Option MemoryExtractionJob) → oldest_queued xs ≡ o
        → has_status "queued" x ≡ true
        → earlier x o ≡ j
        → IsFound (x ∷ xs) j
    pick later none e waits h = here waits h
    pick later (some k) e waits h = elim (Bool-cases (leb x.created_at k.created_at)) [
      | inl first ↦ let same : x ≡ j = rw first at h in here waits same
      | inr second ↦
          let same : k ≡ j = rw second at h in
          deeper x j xs u.0 (subst (IsFound xs) same (later k e))
    ]

-- A claim returns the queued job that it chose, leased to the worker with one more attempt, and
-- leaves every other row as it was.
pub claim_extraction_job-claims :
    (worker_id : String) (now : ℕ) (jobs : List MemoryExtractionJob) (j : MemoryExtractionJob)
    (i : String)
    → AreDistinct jobs
    → oldest_queued jobs ≡ some j
    → ((claim_extraction_job worker_id now jobs).0 ≡ ok (some (claimed worker_id now j)))
      × (select_one (has_key extraction_key i) (claim_extraction_job worker_id now jobs).1 ≡ (
          if i == j.id
          then some (claimed worker_id now j)
          else select_one (has_key extraction_key i) jobs))
unfolding claim_extraction_job get_extraction_job
claim_extraction_job-claims worker_id now jobs j i u chosen =
    let found = oldest_queued-IsFound jobs j u chosen in
    let rows = λ (k : String).
      select_one-keyed_update extraction_key j.id (has_status "queued") (claimed worker_id now) k
        jobs j (λ x. refl) found.1 found.0 in
    rw (chosen, claim_extraction_job)
      (rw (rows j.id, get_extraction_job) (rw (eq_refl j.id) refl), rows i)
