-- ===== src/Auth/Sessions.antt =====
-- The sessions of users in `UserAuthRepository` (knowledge/auth/repository.py). `session_id` is the
-- value of `uuid4()`, and a timestamp a number of microseconds; `has_user` and `has_device` say
-- whether the foreign keys name rows.

pub mod Endings
use its_middle_platform_agen.Auth.Errors.{AuthError, value_error, key_error, integrity_error}
use its_middle_platform_agen.Prelude.Table.{update_where, select_one}
use its_middle_platform_agen.Prelude.Result.{ok, err, Result}
use its_middle_platform_agen.Prelude.Table.TextKey.{has_key}
use its_middle_platform_agen.Prelude.Strip.{is_empty, strip}
use its_middle_platform_agen.Prelude.{
  ◌++◌, true, ◌||◌, ltb, is_some, ◌&&◌, not, leb, Option, List, if◌then◌else◌, String, Bool, ℕ,
  none, some, [], ◌∷◌,
}

pub record UserSession : Type 0 where
  pub id : String
  pub token_hash : String
  pub open_id : String
  pub csrf_token : String
  pub source_anonymous_owner_id : Option String
  pub created_at : ℕ
  pub last_seen_at : ℕ
  pub sliding_expires_at : ℕ
  pub absolute_expires_at : ℕ
  pub revoked_at : Option ℕ

abbrev pub session_key : UserSession → String
session_key r = r.id

abbrev pub token_key : UserSession → String
token_key r = r.token_hash

unfoldable pub get_user_session : String → List UserSession → Result {0, 0} AuthError UserSession
get_user_session session_id rows = elim (select_one (has_key session_key session_id) rows) [
  | none ↦ err key_error
  | some r ↦ ok r
]

-- `INSERT` under the primary key, the unique token and the foreign keys.
unfoldable pub insert_session :
    (String → Bool)
    → (String → Bool)
    → UserSession
    → List UserSession
    → Result {0, 0} AuthError UserSession × List UserSession
unfolding get_user_session
insert_session has_user has_device r rows =
    if is_some (select_one (has_key session_key r.id) rows)
      || is_some (select_one (has_key token_key r.token_hash) rows)
      || not (has_user r.open_id)
      || not (elim r.source_anonymous_owner_id [ none ↦ true | some o ↦ has_device o ])
    then (err integrity_error, rows)
    else (get_user_session r.id (rows ++ r ∷ []), rows ++ r ∷ [])

-- `r` holds the arguments of the call; its texts are stripped, and the row is new at `now`.
abbrev pub new_session : ℕ → UserSession → UserSession
new_session now r = record r {
  token_hash = strip r.token_hash;
  open_id = strip r.open_id;
  csrf_token = strip r.csrf_token;
  created_at = now;
  last_seen_at = now;
  revoked_at = none;
}

unfoldable pub create_user_session :
    (String → Bool)
    → (String → Bool)
    → ℕ
    → UserSession
    → List UserSession
    → Result {0, 0} AuthError UserSession × List UserSession
unfolding insert_session
create_user_session has_user has_device now r rows =
    if ltb r.absolute_expires_at r.sliding_expires_at
      || is_empty (strip r.token_hash)
      || is_empty (strip r.open_id)
      || is_empty (strip r.csrf_token)
    then (err value_error, rows)
    else insert_session has_user has_device (new_session now r) rows

-- `revoked_at IS NULL AND sliding_expires_at>? AND absolute_expires_at>?`.
abbrev pub is_active : ℕ → UserSession → Bool
is_active now r =
    not (is_some r.revoked_at) && (ltb now r.sliding_expires_at && ltb now r.absolute_expires_at)

unfoldable pub get_active_user_session : String → ℕ → List UserSession → Option UserSession
get_active_user_session token_hash now rows =
    select_one (λ r. has_key token_key token_hash r && is_active now r) rows

abbrev pub is_live : String → UserSession → Bool
is_live session_id r = has_key session_key session_id r && not (is_some r.revoked_at)

abbrev pub touched : ℕ → ℕ → UserSession → UserSession
touched now sliding r = record r { last_seen_at = now; sliding_expires_at = sliding }

abbrev pub earlier : ℕ → ℕ → ℕ
earlier a b = if leb a b then a else b

unfoldable pub touch_user_session :
    String → ℕ → ℕ → List UserSession → Result {0, 0} AuthError UserSession × List UserSession
unfolding get_user_session
touch_user_session session_id sliding_expires_at now rows =
    elim (select_one (has_key session_key session_id) rows) [
      | none ↦ (err key_error, rows)
      | some s ↦
          let bounded = earlier sliding_expires_at s.absolute_expires_at in
          let rows' = update_where (is_live session_id) (touched now bounded) rows in
          (get_user_session session_id rows', rows')
    ]

abbrev pub revoked : ℕ → UserSession → UserSession
revoked now r = record r { revoked_at = some now }

unfoldable pub revoke_user_session : String → ℕ → List UserSession → List UserSession
revoke_user_session session_id now rows = update_where (is_live session_id) (revoked now) rows

abbrev pub without_source : UserSession → UserSession
without_source r = record r { source_anonymous_owner_id = none }

unfoldable pub clear_user_session_merge_source : String → List UserSession → List UserSession
clear_user_session_merge_source session_id rows =
    update_where (has_key session_key session_id) without_source rows
