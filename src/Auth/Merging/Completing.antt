-- ===== src/Auth/Merging/Completing.antt =====
-- What a merge that returns has done.
use its_middle_platform_agen.Auth.MergeJobs.Repeats.{job_stored}
use its_middle_platform_agen.Prelude.Result.{err, ok}
use its_middle_platform_agen.Prelude.Table.Keys.{Unique-update_where}
use its_middle_platform_agen.Prelude.Table.TextKey.{has_key→eq, has_key}
use its_middle_platform_agen.Prelude.Table.Counts.{select_one-stored}
use its_middle_platform_agen.Auth.Devices.{disable_anonymous_device}
use its_middle_platform_agen.Auth.Owners.{transfer_conversation_owners}
use its_middle_platform_agen.Prelude.Table.{update_where, select_one}
use its_middle_platform_agen.Auth.MergeJobs.{
  get_or_create_merge_job, merge_updated, merge_key, update_merge_job, is_pair, MergeOutcome,
  IdentityMergeJob,
}
use mathlib.Core.Path.{subst}
use its_middle_platform_agen.Auth.Merging.JobRows.{
  get_or_create-AreJobs, pair_there, update_there, AreJobs,
}
use its_middle_platform_agen.Auth.Merging.{
  run_with, has_owners, err, start_with, merge_with, fail_with, Merging, Identities, MergeFailure,
  merge, memory_failure, fail,
}
use its_middle_platform_agen.Memory.Merging.{MergeCounts, merge_user_owner}
use its_middle_platform_agen.Memory.Records.{Outcome}
use its_middle_platform_agen.Prelude.{
  Bool-cases, ◌⊎◌, eq_refl, ◌==◌, Bool, String, ℕ, ◌≡◌, none, some, true, inl, inr, refl,
}

abbrev pub is_completed : IdentityMergeJob → Bool
is_completed j = j.status == "completed"

module _ (has_user : String → Bool) (new_id : String → String) (dumps : MergeCounts → ℕ → String)
    (error_name : MergeFailure → String) (s t : String) (now : ℕ) where
  -- The pair's job is completed and is the one that is returned.
  abbrev pub IsFinished : IdentityMergeJob → Identities → Type 0
  IsFinished j out = (select_one (is_pair s t) out.merges ≡ some j) × (is_completed j ≡ true)

  -- The memories, the conversations and the device were settled.
  abbrev pub HasRun : Identities → Identities → Type 0
  HasRun db out =
      (n : MergeCounts) × (merge_user_owner new_id s t now db.memory ≡ (ok n, out.memory))
      × (out.conversations ≡ (transfer_conversation_owners s t now db.conversations).1)
      × (out.devices ≡ disable_anonymous_device s (some t) now db.devices)

  -- What a returned job means, of the output and the state that it came from.
  abbrev Means : Identities → Merging → Type 0
  Means db (err f, out) = Unit
  Means db (ok j, out) = IsFinished j out × HasRun db out

  fail-Means :
      (i : String) (f : MergeFailure) (db db' : Identities)
      → Means db (fail has_user new_id dumps error_name i now f db')
  fail-Means i f db db' =
      by_update (update_merge_job i "failed" "{}" (some (error_name f)) now db'.merges)
    where
      by_update : (o : MergeOutcome) → Means db (fail_with has_user new_id dumps error_name f o db')
      by_update (err e, merges) = tt
      by_update (ok j, merges) = tt

  -- From the job's row at the start of the `try`.
  started-Means :
      (j : IdentityMergeJob) (db : Identities)
      → AreJobs db.merges
      → select_one (is_pair s t) db.merges ≡ some j
      → Means db (
          merge_with has_user new_id dumps error_name j.id s t now
            (merge_user_owner new_id s t now db.memory)
            db)
  started-Means j db u there = by_memory (merge_user_owner new_id s t now db.memory) refl
    where
      by_memory :
          (o : Outcome MergeCounts)
          → merge_user_owner new_id s t now db.memory ≡ o
          → Means db (merge_with has_user new_id dumps error_name j.id s t now o db)
      by_memory (err e, memory) ran =
          fail-Means j.id (memory_failure e) db (record db { memory = memory })
      by_memory (ok n, memory) ran =
          let moved = (transfer_conversation_owners s t now db.conversations).0 in
          let row =
            select_one-stored (has_key merge_key) merge_key (has_key→eq merge_key)
              (λ r. eq_refl r.id) (is_pair s t) db.merges j u there in
          rw (update_there "completed" (dumps n moved) none now db.merges j refl row) (
            (pair_there s t "completed" (dumps n moved) none now db.merges j there, refl),
            (n, ran, refl, refl),
          )

  run-Means :
      (j : IdentityMergeJob) (db : Identities)
      → AreJobs db.merges
      → select_one (is_pair s t) db.merges ≡ some j
      → Means db (
          start_with has_user new_id dumps error_name j.id s t now
            (update_merge_job j.id "running" "{}" none now db.merges)
            db)
  run-Means j db u there =
      let row =
        select_one-stored (has_key merge_key) merge_key (has_key→eq merge_key) (λ r. eq_refl r.id)
          (is_pair s t) db.merges j u there in
      let set = merge_updated "running" "{}" none now in
      let rows = update_where (has_key merge_key j.id) set db.merges in
      rw (update_there "running" "{}" none now db.merges j refl row) (
        started-Means (set j) (record db { merges = rows })
          (Unique-update_where (has_key merge_key) merge_key (has_key merge_key j.id) set db.merges
            (λ r. refl) (λ i r. refl) u)
          (pair_there s t "running" "{}" none now db.merges j there))

  -- A merge that returns a job found it completed and changed nothing else, or has run.
  abbrev pub Ended : String → Identities → Merging → Type 0
  Ended i db (err f, out) = Unit
  Ended i db (ok j, out) =
      IsFinished j out
      × (HasRun db out
          ⊎ ((get_or_create_merge_job (has_owners has_user new_id dumps error_name db.devices) i s t
                  now db.merges
                ≡ (ok j, out.merges))
              × (out ≡ record db { merges = out.merges })))

  pub merge-Ended :
      (i : String) (db : Identities)
      → AreJobs db.merges
      → Ended i db (merge has_user new_id dumps error_name i s t now db)
  unfolding merge
  merge-Ended i db u =
      by_job
        (get_or_create_merge_job (has_owners has_user new_id dumps error_name db.devices) i s t now
          db.merges)
        refl
    where
      weaken : (o : Merging) → Means db o → Ended i db o
      weaken (err f, out) h = tt
      weaken (ok j, out) h = (h.0, inl h.1)

      by_job :
          (o : MergeOutcome)
          → get_or_create_merge_job
              (has_owners has_user new_id dumps error_name db.devices)
              i
              s
              t
              now
              db.merges
            ≡ o
          → Ended i db (run_with has_user new_id dumps error_name s t now o db)
      by_job (err e, merges) got = tt
      by_job (ok j, merges) got =
          let owners = has_owners has_user new_id dumps error_name db.devices in
          let there = job_stored owners s t i now db.merges merges j got in
          let u' : AreJobs merges =
            subst (λ (o : MergeOutcome). AreJobs o.1) got
              (get_or_create-AreJobs owners i s t now db.merges u) in
          elim (Bool-cases (is_completed j)) [
            | inl done ↦ rw done ((there, done), inr (got, refl))
            | inr open' ↦ rw open' (
                weaken
                  (start_with has_user new_id dumps error_name j.id s t now
                    (update_merge_job j.id "running" "{}" none now merges)
                    (record db { merges = merges }))
                  (run-Means j (record db { merges = merges }) u' there))
          ]
