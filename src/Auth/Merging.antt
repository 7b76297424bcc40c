-- ===== src/Auth/Merging.antt =====
-- `IdentityMergeService` (knowledge/auth/merge.py), over the methods of the two repositories.
-- `has_user` says whether a foreign key names a user, `new_id` gives the ids that the memory
-- repository draws, `dumps` is the text of a result, and `error_name` the name of an exception's
-- class.
pub mod JobRows
pub mod Repeating
pub mod Completing
use its_middle_platform_agen.Prelude.Table.TextKey.{has_key}
use its_middle_platform_agen.Prelude.Table.{exists_row}
use its_middle_platform_agen.Auth.Users.{append_audit_event, AuthAuditEvent}
use its_middle_platform_agen.Auth.Owners.{
  transfer_conversation_owners, ConversationOwner, count_conversations_for_owner,
}
use its_middle_platform_agen.Auth.Devices.{device_owner, disable_anonymous_device, AnonymousDevice}
use its_middle_platform_agen.Prelude.Result.{ok, err, Result}
use its_middle_platform_agen.Auth.MergeJobs.{
  update_merge_job, get_or_create_merge_job, MergeOutcome, MergeError, IdentityMergeJob,
}
use its_middle_platform_agen.Memory.Records.{Store, MemoryError, Outcome}
use its_middle_platform_agen.Memory.Merging.{
  preview_user_owner_merge, MergeCounts, Preview, merge_user_owner,
}
use its_middle_platform_agen.Prelude.{
  ◌==◌, if◌then◌else◌, ◌&&◌, Bool, String, List, ℕ, ◌≡◌, none, some, [], ◌∷◌, true, false, inl, inr,
  refl,
}

-- What the two repositories keep.
pub record Identities : Type 0 where
  pub merges : List IdentityMergeJob
  pub devices : List AnonymousDevice
  pub conversations : List ConversationOwner
  pub audit : List AuthAuditEvent
  pub memory : Store

-- The exceptions that leave `merge`.
pub data MergeFailure : Type 0 where
  job_failure : MergeError → MergeFailure
  memory_failure : MemoryError → MergeFailure

abbrev pub Merging : Type 0
Merging = Result {0, 0} MergeFailure IdentityMergeJob × Identities

module _ (has_user : String → Bool) (new_id : String → String) (dumps : MergeCounts → ℕ → String)
    (error_name : MergeFailure → String) where
  abbrev pub fail_with : MergeFailure → MergeOutcome → Identities → Merging
  fail_with f (err e, merges) db = (err (job_failure e), record db { merges = merges })
  fail_with f (ok j, merges) db = (err f, record db { merges = merges })

  -- `except Exception`: the job fails, and the exception goes on unless the update raises its own.
  abbrev pub fail : String → ℕ → MergeFailure → Identities → Merging
  fail job_id now f db =
      fail_with f (update_merge_job job_id "failed" "{}" (some (error_name f)) now db.merges) db

  abbrev pub completed_event : String → String → String → ℕ → AuthAuditEvent
  completed_event target job_id result now = record {
    actor_id = some target;
    action = "identity.merge.completed";
    subject_type = "merge_job";
    subject_id = some job_id;
    details = result;
    created_at = now;
  }

  -- `update_merge_job` to completed, then the audit event, whose texts are not empty.
  abbrev pub complete_with : String → String → String → ℕ → MergeOutcome → Identities → Merging
  complete_with target job_id result now (err e, merges) db =
      fail job_id now (job_failure e) (record db { merges = merges })
  complete_with target job_id result now (ok j, merges) db = (
    ok j,
    record db {
      merges = merges;
      audit = (append_audit_event (completed_event target job_id result now) db.audit).1;
    },
  )

  -- The rest of the `try`, after the memories were merged.
  abbrev pub complete : String → String → String → ℕ → MergeCounts → Identities → Merging
  complete job_id source target now n db =
      let moved = transfer_conversation_owners source target now db.conversations in
      let db' : Identities = record db {
        conversations = moved.1;
        devices = disable_anonymous_device source (some target) now db.devices;
      } in
      complete_with target job_id (dumps n moved.0) now
        (update_merge_job job_id "completed" (dumps n moved.0) none now db'.merges) db'

  abbrev pub merge_with : String → String → String → ℕ → Outcome MergeCounts → Identities → Merging
  merge_with job_id source target now (ok n, memory) db =
      complete job_id source target now n (record db { memory = memory })
  merge_with job_id source target now (err e, memory) db =
      fail job_id now (memory_failure e) (record db { memory = memory })

  abbrev pub start_with : String → String → String → ℕ → MergeOutcome → Identities → Merging
  start_with job_id source target now (err e, merges) db =
      (err (job_failure e), record db { merges = merges })
  start_with job_id source target now (ok j, merges) db =
      merge_with job_id source target now (merge_user_owner new_id source target now db.memory)
        (record db { merges = merges })

  abbrev pub run_with : String → String → ℕ → MergeOutcome → Identities → Merging
  run_with source target now (err e, merges) db =
      (err (job_failure e), record db { merges = merges })
  run_with source target now (ok j, merges) db =
      if j.status == "completed"
      then (ok j, record db { merges = merges })
      else start_with j.id source target now (update_merge_job j.id "running" "{}" none now merges)
          (record db { merges = merges })

  abbrev pub has_owners : List AnonymousDevice → String → String → Bool
  has_owners devices source target =
      exists_row (has_key device_owner source) devices && has_user target

  -- `job_id` is the value of `uuid4()`.
  unfoldable pub merge : String → String → String → ℕ → Identities → Merging
  merge job_id source target now db =
      run_with source target now
        (get_or_create_merge_job (has_owners db.devices) job_id source target now db.merges) db

pub record MergePreview : Type 0 where
  pub memory : Preview
  pub conversations : ℕ

abbrev pub with_conversations :
    ℕ → Result {0, 0} MemoryError Preview → Result {0, 0} MemoryError MergePreview
with_conversations n (err e) = err e
with_conversations n (ok p) = ok (record { memory = p; conversations = n })

unfoldable pub preview : String → String → Identities → Result {0, 0} MemoryError MergePreview
preview source target db =
    with_conversations (count_conversations_for_owner source db.conversations)
      (preview_user_owner_merge source target db.memory)
