-- ===== src/Auth/MergeJobs/Repeats.antt =====
-- One merge job for a pair of identities.
use its_middle_platform_agen.Prelude.Table.TextKey.{has_key}
use its_middle_platform_agen.Prelude.Table.{select_one}
use mathlib.Core.Path.{subst}
use its_middle_platform_agen.Prelude.Result.{Result, err, ok}
use its_middle_platform_agen.Auth.MergeJobs.{
  merge_type_error, merge_integrity_error, MergeOutcome, merge_key, new_merge_job, merge_job_of,
  is_pair, insert_or_ignore, MergeError, get_or_create_merge_job, IdentityMergeJob,
}
use its_middle_platform_agen.Prelude.{
  ap, ◌++◌, ◌||◌, is_some, not, if◌then◌else◌, arith, Bool-cases, ◌&&◌, Option, List, Bool, String,
  ℕ, ◌≡◌, none, some, [], ◌∷◌, true, false, inl, inr, refl,
}

module _ (has_owners : String → String → Bool) (s t : String) where
  some_job :
      (e : MergeError) (o : Option IdentityMergeJob) (j : IdentityMergeJob)
      → merge_job_of e o ≡ ok j
      → o ≡ some j
  some_job e none j h = absurd (ground arith)
  some_job e (some x) j h = ground arith

  pub job_stored :
      (i : String) (now : ℕ) (rows rows' : List IdentityMergeJob) (j : IdentityMergeJob)
      → get_or_create_merge_job has_owners i s t now rows ≡ (ok j, rows')
      → select_one (is_pair s t) rows' ≡ some j
  unfolding get_or_create_merge_job
  job_stored i now rows rows' j h =
      elim (Bool-cases (
        not (has_owners s t)
        && not (is_some (select_one (has_key merge_key i) rows))
        && not (is_some (select_one (is_pair s t) rows)))) [
          | inl refused ↦
              let bad : ◌≡◌ {A = MergeOutcome} (err merge_integrity_error, rows) (ok j, rows') =
                rw refused at h in
              let r : ◌≡◌ {A = Result MergeError IdentityMergeJob} (err merge_integrity_error)
                  (ok j) =
                ap (λ (o : MergeOutcome). o.0) bad in
              absurd (ground arith)
          | inr accepted ↦
              let all = insert_or_ignore (new_merge_job i s t now) rows in
              let good : ◌≡◌ {A = MergeOutcome}
                  (merge_job_of merge_type_error (select_one (is_pair s t) all), all)
                  (ok j, rows') =
                rw accepted at h in
              let same : all ≡ rows' = ap (λ (o : MergeOutcome). o.1) good in
              let read : ◌≡◌ {A = Result MergeError IdentityMergeJob}
                  (merge_job_of merge_type_error (select_one (is_pair s t) all)) (ok j) =
                ap (λ (o : MergeOutcome). o.0) good in
              subst (λ x. select_one (is_pair s t) x ≡ some j) same
                (some_job merge_type_error (select_one (is_pair s t) all) j read)
        ]

  ignored :
      (i : String) (now : ℕ) (rows : List IdentityMergeJob) (j : IdentityMergeJob)
      → select_one (is_pair s t) rows ≡ some j
      → insert_or_ignore (new_merge_job i s t now) rows ≡ rows
  unfolding insert_or_ignore
  ignored i now rows j there = rw there (either (is_some (select_one (has_key merge_key i) rows)))
    where
      either :
          (a : Bool)
          → ◌≡◌ {A = List IdentityMergeJob}
              (if a || true then rows else rows ++ new_merge_job i s t now ∷ [])
              rows
      either a = ground arith

  pub existing_job :
      (i : String) (now : ℕ) (rows : List IdentityMergeJob) (j : IdentityMergeJob)
      → select_one (is_pair s t) rows ≡ some j
      → get_or_create_merge_job has_owners i s t now rows ≡ (ok j, rows)
  unfolding get_or_create_merge_job
  existing_job i now rows j there = rw (ignored i now rows j there) (
      rw there (
        rw (both (not (has_owners s t)) (not (is_some (select_one (has_key merge_key i) rows))))
          refl))
    where
      both : (a b : Bool) → (a && b && false) ≡ false
      both a b = ground arith

  -- A second request for a pair, under whatever new id and at any time, returns the job of the first
  -- as it stands and changes nothing.
  pub get_or_create_merge_job-again :
      (i i' : String) (now now' : ℕ) (rows rows' : List IdentityMergeJob) (j : IdentityMergeJob)
      → get_or_create_merge_job has_owners i s t now rows ≡ (ok j, rows')
      → get_or_create_merge_job has_owners i' s t now' rows' ≡ (ok j, rows')
  get_or_create_merge_job-again i i' now now' rows rows' j first =
      existing_job i' now' rows' j (job_stored i now rows rows' j first)
