-- ===== src/Auth/Users.antt =====
-- The Feishu users, the audit events and the cleanup of `UserAuthRepository`
-- (knowledge/auth/repository.py). An event comes without its id, a fresh `uuid4()`, and its details
-- as the text that is stored of them.
use its_middle_platform_agen.Prelude.Strip.{is_empty, strip}
use its_middle_platform_agen.Prelude.Table.TextKey.{has_key}
use its_middle_platform_agen.Prelude.Result.{ok, err, Result}
use its_middle_platform_agen.Prelude.Table.{
  exists_row, update_where, select_one, count_where, delete_where,
}
use its_middle_platform_agen.Auth.Errors.{assertion_error, AuthError, value_error}
use its_middle_platform_agen.Auth.Devices.{AnonymousDevice}
use its_middle_platform_agen.Auth.OAuth.{OAuthLoginState}
use its_middle_platform_agen.Auth.Sessions.{UserSession}
use its_middle_platform_agen.Auth.MergeJobs.{IdentityMergeJob}
use its_middle_platform_agen.Prelude.{
  ◌==◌, is_text, ◌++◌, not, ◌||◌, is_some, ◌&&◌, length, leb, if◌then◌else◌, String, Option, List,
  Bool, ℕ, none, some, [], ◌∷◌,
}

pub record FeishuUser : Type 0 where
  pub open_id : String
  pub tenant_key : String
  pub display_name : String
  pub avatar_url : Option String
  pub created_at : ℕ
  pub updated_at : ℕ

abbrev pub user_key : FeishuUser → String
user_key u = u.open_id

unfoldable pub get_feishu_user : String → List FeishuUser → Option FeishuUser
get_feishu_user open_id rows = select_one (has_key user_key open_id) rows

-- What `ON CONFLICT(open_id) DO UPDATE` writes.
abbrev pub renewed : FeishuUser → FeishuUser → FeishuUser
renewed u r = record r {
  tenant_key = u.tenant_key;
  display_name = u.display_name;
  avatar_url = u.avatar_url;
  updated_at = u.updated_at;
}

abbrev pub upsert_user : FeishuUser → List FeishuUser → List FeishuUser
upsert_user u rows =
    if is_some (select_one (has_key user_key u.open_id) rows)
    then update_where (has_key user_key u.open_id) (renewed u) rows
    else rows ++ u ∷ []

-- The assertion that the user is there.
abbrev pub asserted_user : Option FeishuUser → Result {0, 0} AuthError FeishuUser
asserted_user none = err assertion_error
asserted_user (some u) = ok u

-- `u` holds the arguments of the call. The method reads the user again by the id as it was given.
unfoldable pub upsert_feishu_user :
    FeishuUser → ℕ → List FeishuUser → Result {0, 0} AuthError FeishuUser × List FeishuUser
unfolding get_feishu_user
upsert_feishu_user u now rows =
    let stored : FeishuUser = record u {
      open_id = strip u.open_id;
      tenant_key = strip u.tenant_key;
      display_name = strip u.display_name;
      created_at = now;
      updated_at = now;
    } in
    let rows' = upsert_user stored rows in
    if is_empty (strip u.open_id)
      || is_empty (strip u.tenant_key)
      || is_empty (strip u.display_name)
    then (err value_error, rows)
    else (asserted_user (get_feishu_user u.open_id rows'), rows')

pub record AuthAuditEvent : Type 0 where
  pub actor_id : Option String
  pub action : String
  pub subject_type : String
  pub subject_id : Option String
  pub details : String
  pub created_at : ℕ

unfoldable pub append_audit_event :
    AuthAuditEvent → List AuthAuditEvent → Result {0, 0} AuthError Unit × List AuthAuditEvent
append_audit_event e rows =
    let stored : AuthAuditEvent = record e {
      action = strip e.action;
      subject_type = strip e.subject_type;
    } in
    if is_empty (strip e.action) || is_empty (strip e.subject_type)
    then (err value_error, rows)
    else (ok tt, rows ++ stored ∷ [])

unfoldable pub count_audit_events : List AuthAuditEvent → ℕ
count_audit_events rows = length rows

-- The tables that `cleanup_expired` reads and writes.
pub record Expiring : Type 0 where
  pub states : List OAuthLoginState
  pub sessions : List UserSession
  pub devices : List AnonymousDevice
  pub merges : List IdentityMergeJob

abbrev pub is_expired_state : ℕ → OAuthLoginState → Bool
is_expired_state now s = leb s.expires_at now

abbrev pub is_ended_session : ℕ → UserSession → Bool
is_ended_session now s = leb s.absolute_expires_at now || is_some s.revoked_at

-- A device that nothing refers to any more.
abbrev pub is_dead_device : ℕ → Expiring → AnonymousDevice → Bool
is_dead_device now db d =
    leb d.expires_at now
    && not (exists_row (λ (s : OAuthLoginState). is_text s.anonymous_owner_id d.owner_id) db.states)
    && not (
        exists_row (λ (s : UserSession). is_text s.source_anonymous_owner_id d.owner_id)
          db.sessions)
    && not
        (exists_row (λ (j : IdentityMergeJob). j.source_anonymous_owner_id == d.owner_id) db.merges)

unfoldable pub cleanup_expired : ℕ → Expiring → (ℕ × ℕ × ℕ) × Expiring
cleanup_expired now db =
    let left : Expiring = record db {
      states = delete_where (is_expired_state now) db.states;
      sessions = delete_where (is_ended_session now) db.sessions;
    } in
    (
      (
        count_where (is_expired_state now) db.states,
        count_where (is_ended_session now) db.sessions,
        count_where (is_dead_device now left) left.devices,
      ),
      record left { devices = delete_where (is_dead_device now left) left.devices },
    )
