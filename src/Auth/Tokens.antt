-- ===== src/Auth/Tokens.antt =====
-- The personal API tokens of `UserAuthRepository` (knowledge/auth/repository.py). `token_id` is the
-- value of `uuid4()`; `has_user` says whether the foreign key names a user; scopes are a sorted list.
pub mod Revoking
use its_middle_platform_agen.Prelude.Table.{
  update_where, select_one, select_all, count_where, order_by,
}
use its_middle_platform_agen.Prelude.Result.{ok, err, Result}
use its_middle_platform_agen.Prelude.Table.TextKey.{has_key}
use its_middle_platform_agen.Prelude.Strip.{is_empty, strip}
use its_middle_platform_agen.Auth.Errors.{AuthError, value_error, key_error, integrity_error}
use its_middle_platform_agen.Prelude.{
  ◌++◌, ◌||◌, if◌then◌else◌, is_some, eqb, Option, ◌&&◌, not, leb, List, ◌==◌, String, Bool, ℕ, ◌≡◌,
  none, some, [], ◌∷◌, true, false, inl, inr, refl,
}

pub record PersonalApiToken : Type 0 where
  pub id : String
  pub open_id : String
  pub name : String
  pub token_hash : String
  pub display_prefix : String
  pub scopes : List String
  pub created_at : ℕ
  pub last_used_at : Option ℕ
  pub revoked_at : Option ℕ

abbrev pub token_key : PersonalApiToken → String
token_key r = r.id

abbrev pub token_hash_of : PersonalApiToken → String
token_hash_of r = r.token_hash

abbrev pub is_named : String → String → PersonalApiToken → Bool
is_named open_id name r = r.open_id == open_id && r.name == name

unfoldable pub get_personal_api_token :
    String → List PersonalApiToken → Result {0, 0} AuthError PersonalApiToken
get_personal_api_token token_id rows = elim (select_one (has_key token_key token_id) rows) [
  | none ↦ err key_error
  | some r ↦ ok r
]

-- `INSERT` under the constraints, whose error becomes a `ValueError`.
unfoldable pub insert_token :
    (String → Bool)
    → PersonalApiToken
    → List PersonalApiToken
    → Result {0, 0} AuthError PersonalApiToken × List PersonalApiToken
unfolding get_personal_api_token
insert_token has_user r rows =
    if is_some (select_one (has_key token_key r.id) rows)
      || is_some (select_one (has_key token_hash_of r.token_hash) rows)
      || is_some (select_one (is_named r.open_id r.name) rows)
      || not (has_user r.open_id)
    then (err value_error, rows)
    else (get_personal_api_token r.id (rows ++ r ∷ []), rows ++ r ∷ [])

-- `r` holds the arguments of the call; its texts are stripped, and the row is new at `now`.
abbrev pub new_token : ℕ → PersonalApiToken → PersonalApiToken
new_token now r = record r {
  open_id = strip r.open_id;
  name = strip r.name;
  token_hash = strip r.token_hash;
  display_prefix = strip r.display_prefix;
  created_at = now;
  last_used_at = none;
  revoked_at = none;
}

unfoldable pub create_personal_api_token :
    (String → Bool)
    → ℕ
    → PersonalApiToken
    → List PersonalApiToken
    → Result {0, 0} AuthError PersonalApiToken × List PersonalApiToken
unfolding insert_token
create_personal_api_token has_user now r rows =
    if is_empty (strip r.open_id)
      || is_empty (strip r.name)
      || is_empty (strip r.token_hash)
      || is_empty (strip r.display_prefix)
    then (err value_error, rows)
    else insert_token has_user (new_token now r) rows

abbrev pub is_unrevoked : PersonalApiToken → Bool
is_unrevoked r = not (is_some r.revoked_at)

unfoldable pub get_active_personal_api_token :
    String → List PersonalApiToken → Option PersonalApiToken
get_active_personal_api_token token_hash rows =
    select_one (λ r. has_key token_hash_of token_hash r && is_unrevoked r) rows

-- `ORDER BY created_at DESC`.
abbrev pub newer_token : PersonalApiToken → PersonalApiToken → Bool
newer_token a b = leb b.created_at a.created_at

unfoldable pub list_personal_api_tokens : String → List PersonalApiToken → List PersonalApiToken
list_personal_api_tokens open_id rows =
    order_by newer_token (select_all (λ (r : PersonalApiToken). r.open_id == open_id) rows)

abbrev pub used : ℕ → PersonalApiToken → PersonalApiToken
used now r = record r { last_used_at = some now }

abbrev pub is_unrevoked_id : String → PersonalApiToken → Bool
is_unrevoked_id token_id r = has_key token_key token_id r && is_unrevoked r

unfoldable pub touch_personal_api_token :
    String
    → ℕ
    → List PersonalApiToken
    → Result {0, 0} AuthError PersonalApiToken × List PersonalApiToken
unfolding get_personal_api_token
touch_personal_api_token token_id now rows =
    let rows' = update_where (is_unrevoked_id token_id) (used now) rows in
    (get_personal_api_token token_id rows', rows')

abbrev pub revoked_token : ℕ → PersonalApiToken → PersonalApiToken
revoked_token now r = record r { revoked_at = some now }

abbrev pub is_revocable : String → String → PersonalApiToken → Bool
is_revocable open_id token_id r =
    has_key token_key token_id r && r.open_id == open_id && is_unrevoked r

unfoldable pub revoke_personal_api_token :
    String → String → ℕ → List PersonalApiToken → Bool × List PersonalApiToken
revoke_personal_api_token open_id token_id now rows = (
  eqb (count_where (is_revocable open_id token_id) rows) 1,
  update_where (is_revocable open_id token_id) (revoked_token now) rows,
)
