-- ===== src/Tests/Merging.antt =====
-- The identity merge, devices and tokens at concrete inputs.
use its_middle_platform_agen.Auth.Users.{append_audit_event}
use its_middle_platform_agen.Memory.Candidates.{event}
use its_middle_platform_agen.Auth.Owners.{transfer_conversation_owners, transferred, new_owner}
use its_middle_platform_agen.Prelude.Table.TextKey.{has_key}
use its_middle_platform_agen.Memory.Candidates.Slots.{IsConsistent}
use its_middle_platform_agen.Prelude.Strip.{is_empty, strip}
use its_middle_platform_agen.Prelude.Table.{
  exists_row, update_where, select_all, select_one, count_where,
}
use its_middle_platform_agen.Memory.Records.{Store}
use its_middle_platform_agen.Auth.Tokens.{
  token_hash_of, create_personal_api_token, get_active_personal_api_token, PersonalApiToken,
}
use its_middle_platform_agen.Auth.Merging.Repeating.{
  merge-again, merge-IsSettled, is_done, run, IsSettled,
}
use its_middle_platform_agen.Auth.MergeJobs.{
  update_merge_job, new_merge_job, is_pair, merge_updated, insert_or_ignore,
  get_or_create_merge_job, IdentityMergeJob,
}
use its_middle_platform_agen.Auth.Merging.JobRows.{AreJobs}
use its_middle_platform_agen.Auth.Devices.{
  disable_anonymous_device, device_token, refresh_active_anonymous_device, new_device, disabled,
  get_active_anonymous_device, AnonymousDevice,
}
use its_middle_platform_agen.Auth.Devices.Disabling as Disabling
use its_middle_platform_agen.Auth.Devices.Disabling.{disabled_device_inactive, refresh}
use its_middle_platform_agen.Auth.Tokens.Revoking as Revoking
use its_middle_platform_agen.Auth.Tokens.Revoking.{revoked_token_inactive}
use its_middle_platform_agen.Auth.Merging.{completed_event, MergeFailure, Identities, merge}
use its_middle_platform_agen.Memory.Merging.{
  merge_memories, merge_owners, MergeCounts, merge_user_owner,
}
use its_middle_platform_agen.Prelude.Result.{ok}
use its_middle_platform_agen.Prelude.{
  arith, Bool, ◌==◌, String, ℕ, ◌≡◌, none, some, [], ◌∷◌, true, false, refl,
}

abbrev no_memory : Store
no_memory = record {
  memories = [];
  candidates = [];
  audit = [];
  jobs = [];
  summaries = [];
  conflicts = [];
}

abbrev device : AnonymousDevice
device = new_device "d" "h" 50 1

abbrev before : Identities
before = record {
  merges = [];
  devices = device ∷ [];
  conversations = new_owner "c1" "anon:d" "web" 1 ∷ [];
  audit = [];
  memory = no_memory;
}

abbrev no_text : MergeCounts → ℕ → String
no_text n c = "{}"

abbrev a_name : MergeFailure → String
a_name f = "ValueError"

abbrev all_users : String → Bool
all_users u = true

abbrev one_id : String → String
one_id m = "n"

abbrev merged_job : IdentityMergeJob
merged_job = merge_updated "completed" "{}" none 7 (new_merge_job "j1" "anon:d" "user" 7)

abbrev after : Identities
after = record {
  merges = merged_job ∷ [];
  devices = disabled (some "user") 7 device ∷ [];
  conversations = transferred "user" 7 (new_owner "c1" "anon:d" "web" 1) ∷ [];
  audit = completed_event all_users one_id no_text a_name "user" "j1" "{}" 7 ∷ [];
  memory = record no_memory { audit = event none none "identity-merge:user" "owner_merge" 7 ∷ [] };
}

merged : run all_users one_id no_text a_name "anon:d" "user" "j1" 7 before ≡ (ok merged_job, after)
unfolding merge get_or_create_merge_job insert_or_ignore update_merge_job merge_user_owner
    merge_owners merge_memories select_one select_all update_where count_where exists_row
    append_audit_event transfer_conversation_owners disable_anonymous_device strip is_empty
merged = refl

before-AreJobs : AreJobs before.merges
before-AreJobs = tt

merge-again_example :
    run all_users one_id no_text a_name "anon:d" "user" "j2" 9 after ≡ (ok merged_job, after)
merge-again_example =
    merge-again all_users one_id no_text a_name "anon:d" "user" "j1" "j2" 7 9 before after
      merged_job tt merged

no_memory-IsConsistent : IsConsistent no_memory
unfolding count_where
no_memory-IsConsistent = record { ids = tt; single = λ k. omega arith }

stripped_apart : (strip "anon:d" == strip "user") ≡ false
unfolding strip
stripped_apart = refl

no_job : is_done (select_one (is_pair "anon:d" "user") before.merges) ≡ false
unfolding select_one
no_job = refl

merge-IsSettled_example : IsSettled all_users one_id no_text a_name "anon:d" "user" after
merge-IsSettled_example =
    merge-IsSettled all_users one_id no_text a_name "anon:d" "user" "j1" 7 before after merged_job
      tt no_memory-IsConsistent stripped_apart no_job merged

abbrev off : AnonymousDevice
off = disabled none 5 device

stored_device : select_one (has_key device_token "h") (off ∷ []) ≡ some off
unfolding select_one
stored_device = refl

one_device : Disabling.AreDistinct (off ∷ [])
unfolding select_one
one_device = (refl, tt)

disabled_device_inactive_example :
    (get_active_anonymous_device "h" 8 (refresh_active_anonymous_device "h" 90 6 (off ∷ [])).1
      ≡ none)
    × ((refresh_active_anonymous_device "h" 99 8
          (refresh_active_anonymous_device "h" 90 6 (off ∷ [])).1).0
        ≡ none)
disabled_device_inactive_example =
    disabled_device_inactive off 99 8 (off ∷ [])
      (refresh_active_anonymous_device "h" 90 6 (off ∷ [])).1 one_device stored_device refl
      (Disabling.next Disabling.here (refresh "h" 90 6))

abbrev api_token : PersonalApiToken
api_token = record {
  id = "t";
  open_id = "user";
  name = "ci";
  token_hash = "x";
  display_prefix = "p";
  scopes = [];
  created_at = 1;
  last_used_at = none;
  revoked_at = some 4;
}

stored_token : select_one (has_key token_hash_of "x") (api_token ∷ []) ≡ some api_token
unfolding select_one
stored_token = refl

one_token : Revoking.AreDistinct (api_token ∷ [])
unfolding select_one
one_token = (refl, tt)

revoked_token_inactive_example :
    get_active_personal_api_token "x"
      (create_personal_api_token all_users 9 api_token (api_token ∷ [])).1
    ≡ none
revoked_token_inactive_example =
    revoked_token_inactive {has_user = all_users} api_token (api_token ∷ [])
      (create_personal_api_token all_users 9 api_token (api_token ∷ [])).1 one_token stored_token
      refl (Revoking.next Revoking.here (Revoking.create 9 api_token))
