-- ===== src/Auth/MergeJobs.antt =====
-- The identity merge jobs of `UserAuthRepository` (knowledge/auth/repository.py). `job_id` is the
-- value of `uuid4()`; a result is an opaque text, and `error_type` is given as the pattern of
-- allowed characters leaves it.
pub mod Repeats
use its_middle_platform_agen.Prelude.Table.TextKey.{has_key}
use its_middle_platform_agen.Prelude.Table.{update_where, select_one}
use its_middle_platform_agen.Prelude.Result.{ok, err, Result}
use its_middle_platform_agen.Prelude.{
  ◌++◌, ◌||◌, ◌&&◌, not, is_some, ◌==◌, if◌then◌else◌, Bool, String, Option, List, ℕ, none, some,
  [], ◌∷◌,
}

pub data MergeError : Type 0 where
  merge_integrity_error merge_key_error merge_type_error : MergeError

pub record IdentityMergeJob : Type 0 where
  pub id : String
  pub source_anonymous_owner_id : String
  pub target_open_id : String
  pub status : String
  pub result : String
  pub error_type : Option String
  pub created_at : ℕ
  pub updated_at : ℕ

abbrev pub merge_key : IdentityMergeJob → String
merge_key j = j.id

-- The columns of the table's unique constraint.
abbrev pub is_pair : String → String → IdentityMergeJob → Bool
is_pair source_id target_id j =
    j.source_anonymous_owner_id == source_id && j.target_open_id == target_id

abbrev pub new_merge_job : String → String → String → ℕ → IdentityMergeJob
new_merge_job job_id source_id target_id now = record {
  id = job_id;
  source_anonymous_owner_id = source_id;
  target_open_id = target_id;
  status = "pending";
  result = "{}";
  error_type = none;
  created_at = now;
  updated_at = now;
}

abbrev pub MergeOutcome : Type 0
MergeOutcome = Result MergeError IdentityMergeJob × List IdentityMergeJob

abbrev pub merge_job_of : MergeError → Option IdentityMergeJob → Result MergeError IdentityMergeJob
merge_job_of e none = err e
merge_job_of e (some j) = ok j

-- `INSERT OR IGNORE` skips a row that breaks the primary key or the unique constraint.
unfoldable pub insert_or_ignore : IdentityMergeJob → List IdentityMergeJob → List IdentityMergeJob
insert_or_ignore j rows =
    if is_some (select_one (has_key merge_key j.id) rows)
      || is_some (select_one (is_pair j.source_anonymous_owner_id j.target_open_id) rows)
    then rows
    else rows ++ j ∷ []

-- `has_owners` says whether the two foreign keys name rows; `OR IGNORE` does not skip those.
unfoldable pub get_or_create_merge_job :
    (String → String → Bool) → String → String → String → ℕ → List IdentityMergeJob → MergeOutcome
unfolding insert_or_ignore
get_or_create_merge_job has_owners job_id source_id target_id now rows =
    let rows' = insert_or_ignore (new_merge_job job_id source_id target_id now) rows in
    if not (has_owners source_id target_id)
      && not (is_some (select_one (has_key merge_key job_id) rows))
      && not (is_some (select_one (is_pair source_id target_id) rows))
    then (err merge_integrity_error, rows)
    else (merge_job_of merge_type_error (select_one (is_pair source_id target_id) rows'), rows')

abbrev pub is_status : String → Bool
is_status s = s == "pending" || s == "running" || s == "completed" || s == "failed"

abbrev pub merge_updated : String → String → Option String → ℕ → IdentityMergeJob → IdentityMergeJob
merge_updated status result error_type now j = record j {
  status = status;
  result = result;
  error_type = error_type;
  updated_at = now;
}

-- `result` is the text of `result or {}`. A status that the table's check refuses is an error, when
-- there is a row to write.
unfoldable pub update_merge_job :
    String → String → String → Option String → ℕ → List IdentityMergeJob → MergeOutcome
update_merge_job job_id status result error_type now rows =
    let set = merge_updated status result error_type now in
    let rows' = update_where (has_key merge_key job_id) set rows in
    if not (is_status status) && is_some (select_one (has_key merge_key job_id) rows)
    then (err merge_integrity_error, rows)
    else (merge_job_of merge_key_error (select_one (has_key merge_key job_id) rows'), rows')

unfoldable pub get_merge_job : String → List IdentityMergeJob → Result MergeError IdentityMergeJob
get_merge_job job_id rows =
    merge_job_of merge_key_error (select_one (has_key merge_key job_id) rows)
