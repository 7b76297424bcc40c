-- ===== src/Auth/Merging/Repeating.antt =====
-- That an identity is merged once, and what the merge leaves of it.
use its_middle_platform_agen.Prelude.Table.Counts.{count_where-update_where_none}
use its_middle_platform_agen.Auth.Owners.Ownership.{transfer_conversation_owners-count}
use its_middle_platform_agen.Prelude.Table.Laws.{select_one-append}
use its_middle_platform_agen.Memory.Merging.Owners.{merge_user_owner-ok}
use its_middle_platform_agen.Auth.Devices.{disable_anonymous_device, disabled, is_enabled}
use its_middle_platform_agen.Prelude.Table.TextKey.{has_key}
use its_middle_platform_agen.Prelude.Strip.{strip}
use its_middle_platform_agen.Auth.MergeJobs.Repeats.{job_stored, existing_job}
use its_middle_platform_agen.Auth.Owners.{count_conversations_for_owner}
use its_middle_platform_agen.Memory.Candidates.Slots.{IsConsistent}
use its_middle_platform_agen.Prelude.Table.{count_where, select_one}
use its_middle_platform_agen.Auth.Merging.Completing.{HasRun, merge-Ended, Ended, is_completed}
use its_middle_platform_agen.Auth.MergeJobs.{
  merge_key, MergeOutcome, new_merge_job, get_or_create_merge_job, is_pair, IdentityMergeJob,
  insert_or_ignore,
}
use mathlib.Core.Path.{subst}
use its_middle_platform_agen.Prelude.Result.{err, ok}
use its_middle_platform_agen.Auth.Merging.JobRows.{AreJobs}
use its_middle_platform_agen.Auth.Merging.{has_owners, Merging, Identities, MergeFailure, merge}
use its_middle_platform_agen.Memory.Merging.{is_candidate_of, is_memory_of, MergeCounts}
use its_middle_platform_agen.Prelude.{
  eq→path, ◌&&◌, not, arith, eq_refl, ◌||◌, ◌∙◌, sym, ◌==◌, is_some, Option-cases, Bool-cases, List,
  Bool, String, Option, ℕ, ◌≡◌, none, some, true, false, inl, inr, refl,
}

-- Whether a pair's job is completed.
abbrev pub is_done : Option IdentityMergeJob → Bool
is_done none = false
is_done (some j) = is_completed j

inserted_pair :
    (i s t : String) (now : ℕ) (rows : List IdentityMergeJob)
    → select_one (is_pair s t) rows ≡ none
    → is_done (select_one (is_pair s t) (insert_or_ignore (new_merge_job i s t now) rows)) ≡ false
unfolding insert_or_ignore
inserted_pair i s t now rows none_yet =
    rw none_yet (elim (Bool-cases (is_some (select_one (has_key merge_key i) rows) || false)) [
      | inl known ↦ rw known (rw none_yet refl)
      | inr new ↦ rw new (
          rw (select_one-append (is_pair s t) rows (new_merge_job i s t now))
            (rw none_yet (rw (eq_refl s) (rw (eq_refl t) refl))))
    ])

looked_up_pair :
    (has_owners : String → String → Bool) (i s t : String) (now : ℕ) (rows : List IdentityMergeJob)
    → select_one (is_pair s t) rows ≡ none
    → is_done (select_one (is_pair s t) (get_or_create_merge_job has_owners i s t now rows).1)
      ≡ false
unfolding get_or_create_merge_job
looked_up_pair has_owners i s t now rows none_yet =
    elim (Bool-cases (
      not (has_owners s t)
      && not (is_some (select_one (has_key merge_key i) rows))
      && not (is_some (select_one (is_pair s t) rows)))) [
        | inl bad ↦ rw bad (rw none_yet refl)
        | inr good ↦ rw good (inserted_pair i s t now rows none_yet)
      ]

-- A job that was not completed is not completed when it is looked up.
looked_up :
    (has_owners : String → String → Bool) (i s t : String) (now : ℕ)
    (rows rows' : List IdentityMergeJob) (j : IdentityMergeJob)
    → is_done (select_one (is_pair s t) rows) ≡ false
    → get_or_create_merge_job has_owners i s t now rows ≡ (ok j, rows')
    → is_completed j ≡ false
looked_up has_owners i s t now rows rows' j open' got =
    elim (Option-cases (select_one (is_pair s t) rows)) [
      | inr (x, there) ↦
          let same : ◌≡◌ {A = MergeOutcome} (ok x, rows) (ok j, rows') =
            sym (existing_job has_owners s t i now rows x there) ∙ got in
          subst (λ (o : MergeOutcome). elim o.0 [ err e ↦ Unit | ok y ↦ is_completed y ≡ false ])
            same (rw there at open')
      | inl none_yet ↦
          let stored = job_stored has_owners s t i now rows rows' j got in
          let fresh : is_done (select_one (is_pair s t) rows') ≡ false =
            subst (λ (o : MergeOutcome). is_done (select_one (is_pair s t) o.1) ≡ false) got
              (looked_up_pair has_owners i s t now rows none_yet) in
          rw stored at fresh
    ]

module _ (has_user : String → Bool) (new_id : String → String) (dumps : MergeCounts → ℕ → String)
    (error_name : MergeFailure → String) (s t : String) where
  abbrev pub run : String → ℕ → Identities → Merging
  run i now db = merge has_user new_id dumps error_name i s t now db

  ended :
      (i : String) (now : ℕ) (db out : Identities) (j : IdentityMergeJob)
      → AreJobs db.merges
      → run i now db ≡ (ok j, out)
      → Ended has_user new_id dumps error_name s t now i db (ok j, out)
  ended i now db out j u h =
      subst (Ended has_user new_id dumps error_name s t now i db) h
        (merge-Ended has_user new_id dumps error_name s t now i db u)

  -- A pair is merged once: after a merge that returned a job, a second merge of the pair, at whatever
  -- time, returns that job and changes nothing, neither memories nor conversations nor devices.
  pub merge-again :
      (i i' : String) (now now' : ℕ) (db out : Identities) (j : IdentityMergeJob)
      → AreJobs db.merges
      → run i now db ≡ (ok j, out)
      → run i' now' out ≡ (ok j, out)
  unfolding merge
  merge-again i i' now now' db out j u h =
      let finished = (ended i now db out j u h).0 in
      rw
        (existing_job (has_owners has_user new_id dumps error_name out.devices) s t i' now'
          out.merges j finished.0)
        (rw finished.1 refl)

  -- What a merge leaves of the anonymous identity.
  abbrev pub IsSettled : Identities → Type 0
  IsSettled out =
      (count_conversations_for_owner s out.conversations ≡ 0)
      × (count_where (is_enabled s) out.devices ≡ 0)
      × (count_where (is_memory_of (strip s)) out.memory.memories ≡ 0)
      × (count_where (is_candidate_of (strip s)) out.memory.candidates ≡ 0)

  ran-IsSettled :
      (now : ℕ) (db out : Identities)
      → IsConsistent db.memory
      → (strip s == strip t) ≡ false
      → HasRun has_user new_id dumps error_name s t now db out
      → IsSettled out
  unfolding disable_anonymous_device
  ran-IsSettled now db out consistent differ (n, ran, moved, off) =
      let leaves =
        merge_user_owner-ok new_id s t now db.memory out.memory n consistent differ ran in
      let apart : (s == t) ≡ false = elim (Bool-cases (s == t)) [
        | inr other ↦ other
        | inl same ↦
            let bad : (strip s == strip t) ≡ true =
              subst (λ x. (strip s == strip x) ≡ true) (eq→path s t same) (eq_refl (strip s)) in
            absurd (ground (arith, bad, differ))
      ] in
      (
        rw moved (transfer_conversation_owners-count s t now db.conversations apart).1,
        rw off (
            count_where-update_where_none (is_enabled s) (is_enabled s) (disabled (some t) now)
              db.devices (λ r h. h) (λ r. ground arith)),
        leaves.0,
        leaves.1,
      )

  -- A merge of a pair whose job is not completed yet, whether it is new, failed or was interrupted,
  -- settles the anonymous identity when it returns a job: the identity then owns no conversation, no
  -- enabled device, no confirmed memory and no pending candidate.
  pub merge-IsSettled :
      (i : String) (now : ℕ) (db out : Identities) (j : IdentityMergeJob)
      → AreJobs db.merges
      → IsConsistent db.memory
      → (strip s == strip t) ≡ false
      → is_done (select_one (is_pair s t) db.merges) ≡ false
      → run i now db ≡ (ok j, out)
      → IsSettled out
  merge-IsSettled i now db out j u consistent differ open' h =
      let e = ended i now db out j u h in
      elim e.1 [
        | inl ran ↦ ran-IsSettled now db out consistent differ ran
        | inr (got, kept) ↦
            let late =
              looked_up (has_owners has_user new_id dumps error_name db.devices) i s t now db.merges
                out.merges j open' got in
            absurd (ground (arith, late, e.0.1))
      ]
