-- ===== src/Auth/Devices.antt =====
-- The anonymous devices of `UserAuthRepository` (knowledge/auth/repository.py). `device_id` is the
-- value of `uuid4()`, and a timestamp a number of microseconds.
pub mod Disabling
use its_middle_platform_agen.Prelude.Strip.{strip, is_empty}
use its_middle_platform_agen.Prelude.Table.{count_where, update_where, select_one}
use its_middle_platform_agen.Prelude.Table.TextKey.{has_key}
use its_middle_platform_agen.Prelude.Result.{ok, err, Result}
use its_middle_platform_agen.Auth.Errors.{AuthError, value_error, key_error, integrity_error}
use its_middle_platform_agen.Prelude.{
  ◌++◌, ◌||◌, ltb, eqb, is_some, if◌then◌else◌, ◌&&◌, str_append, not, String, Option, List, Bool,
  ℕ, ◌≡◌, none, some, [], ◌∷◌, true, false, inl, inr, refl,
}

pub record AnonymousDevice : Type 0 where
  pub id : String
  pub owner_id : String
  pub token_hash : String
  pub created_at : ℕ
  pub last_seen_at : ℕ
  pub expires_at : ℕ
  pub disabled_at : Option ℕ
  pub merged_to_open_id : Option String

abbrev pub device_key : AnonymousDevice → String
device_key r = r.id

abbrev pub device_owner : AnonymousDevice → String
device_owner r = r.owner_id

abbrev pub device_token : AnonymousDevice → String
device_token r = r.token_hash

unfoldable pub get_anonymous_device_by_owner :
    String → List AnonymousDevice → Result {0, 0} AuthError AnonymousDevice
get_anonymous_device_by_owner owner_id rows =
    elim (select_one (has_key device_owner owner_id) rows) [ none ↦ err key_error | some r ↦ ok r ]

abbrev pub new_device : String → String → ℕ → ℕ → AnonymousDevice
new_device device_id token_hash expires_at now = record {
  id = device_id;
  owner_id = str_append "anon:" device_id;
  token_hash = token_hash;
  created_at = now;
  last_seen_at = now;
  expires_at = expires_at;
  disabled_at = none;
  merged_to_open_id = none;
}

-- `INSERT` under the primary key and the unique columns.
unfoldable pub insert_device :
    AnonymousDevice
    → List AnonymousDevice
    → Result {0, 0} AuthError AnonymousDevice × List AnonymousDevice
unfolding get_anonymous_device_by_owner
insert_device r rows =
    if is_some (select_one (has_key device_key r.id) rows)
      || is_some (select_one (has_key device_owner r.owner_id) rows)
      || is_some (select_one (has_key device_token r.token_hash) rows)
    then (err integrity_error, rows)
    else (get_anonymous_device_by_owner r.owner_id (rows ++ r ∷ []), rows ++ r ∷ [])

unfoldable pub create_anonymous_device :
    String
    → String
    → ℕ
    → ℕ
    → List AnonymousDevice
    → Result {0, 0} AuthError AnonymousDevice × List AnonymousDevice
unfolding insert_device
create_anonymous_device device_id token_hash expires_at now rows =
    if is_empty (strip token_hash)
    then (err value_error, rows)
    else insert_device (new_device device_id (strip token_hash) expires_at now) rows

-- `disabled_at IS NULL AND expires_at>?`.
abbrev pub is_usable : ℕ → AnonymousDevice → Bool
is_usable now r = not (is_some r.disabled_at) && ltb now r.expires_at

unfoldable pub get_active_anonymous_device :
    String → ℕ → List AnonymousDevice → Option AnonymousDevice
get_active_anonymous_device token_hash now rows =
    select_one (λ r. has_key device_token token_hash r && is_usable now r) rows

abbrev pub refreshed : ℕ → ℕ → AnonymousDevice → AnonymousDevice
refreshed expires_at now r = record r { last_seen_at = now; expires_at = expires_at }

abbrev pub refreshed_row : ℕ → ℕ → Option AnonymousDevice → Option AnonymousDevice
refreshed_row expires_at now none = none
refreshed_row expires_at now (some r) = some (refreshed expires_at now r)

-- `UPDATE … RETURNING *` with `fetchone`.
unfoldable pub refresh_active_anonymous_device :
    String → ℕ → ℕ → List AnonymousDevice → Option AnonymousDevice × List AnonymousDevice
refresh_active_anonymous_device token_hash expires_at now rows =
    let test = λ (r : AnonymousDevice). has_key device_token token_hash r && is_usable now r in
    (
      refreshed_row expires_at now (select_one test rows),
      update_where test (refreshed expires_at now) rows,
    )

abbrev pub is_enabled : String → AnonymousDevice → Bool
is_enabled owner_id r = has_key device_owner owner_id r && not (is_some r.disabled_at)

-- The update is committed only when it met one row.
unfoldable pub touch_anonymous_device :
    String
    → ℕ
    → ℕ
    → List AnonymousDevice
    → Result {0, 0} AuthError AnonymousDevice × List AnonymousDevice
unfolding get_anonymous_device_by_owner
touch_anonymous_device owner_id expires_at now rows =
    let rows' = update_where (is_enabled owner_id) (refreshed expires_at now) rows in
    if not (eqb (count_where (is_enabled owner_id) rows) 1)
    then (err key_error, rows)
    else (get_anonymous_device_by_owner owner_id rows', rows')

abbrev pub disabled : Option String → ℕ → AnonymousDevice → AnonymousDevice
disabled merged_to now r = record r { disabled_at = some now; merged_to_open_id = merged_to }

unfoldable pub disable_anonymous_device :
    String → Option String → ℕ → List AnonymousDevice → List AnonymousDevice
disable_anonymous_device owner_id merged_to now rows =
    update_where (is_enabled owner_id) (disabled merged_to now) rows
