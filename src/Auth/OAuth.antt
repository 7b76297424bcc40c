-- ===== src/Auth/OAuth.antt =====
-- The login states of OAuth in `UserAuthRepository` (knowledge/auth/repository.py). `state_id` is the
-- value of `uuid4()`, and a timestamp a number of microseconds; `has_owner` says whether the foreign
-- key names a row of `anonymous_devices`.

pub mod Once
use its_middle_platform_agen.Auth.Errors.{AuthError, value_error, key_error, integrity_error}
use its_middle_platform_agen.Prelude.Strip.{strip, is_empty}
use its_middle_platform_agen.Prelude.Table.TextKey.{has_key}
use its_middle_platform_agen.Prelude.Table.{update_where, select_one}
use its_middle_platform_agen.Prelude.Result.{ok, err, Result}
use its_middle_platform_agen.Prelude.{
  ◌++◌, true, ◌||◌, ltb, ◌&&◌, is_some, if◌then◌else◌, starts_with, not, Option, List, String, Bool,
  ℕ, none, some, [], ◌∷◌,
}

pub record OAuthLoginState : Type 0 where
  pub id : String
  pub state_hash : String
  pub anonymous_owner_id : Option String
  pub redirect_path : String
  pub expires_at : ℕ
  pub created_at : ℕ
  pub consumed_at : Option ℕ

abbrev pub state_id_of : OAuthLoginState → String
state_id_of r = r.id

abbrev pub hash_of : OAuthLoginState → String
hash_of r = r.state_hash

-- `redirect_path.startswith("/")`.
unfoldable pub starts_with_slash : String → Bool
starts_with_slash s = starts_with "/" s

abbrev pub new_state : String → String → Option String → String → ℕ → ℕ → OAuthLoginState
new_state state_id state_hash anonymous_owner_id redirect_path expires_at now = record {
  id = state_id;
  state_hash = state_hash;
  anonymous_owner_id = anonymous_owner_id;
  redirect_path = if starts_with_slash redirect_path then redirect_path else "/chat";
  expires_at = expires_at;
  created_at = now;
  consumed_at = none;
}

unfoldable pub get_oauth_state :
    String → List OAuthLoginState → Result {0, 0} AuthError OAuthLoginState
get_oauth_state state_id rows = elim (select_one (has_key state_id_of state_id) rows) [
  | none ↦ err key_error
  | some r ↦ ok r
]

-- `INSERT` under the primary key, the unique hash and the foreign key.
unfoldable pub insert_state :
    (String → Bool)
    → OAuthLoginState
    → List OAuthLoginState
    → Result {0, 0} AuthError OAuthLoginState × List OAuthLoginState
unfolding get_oauth_state
insert_state has_owner r rows =
    if is_some (select_one (has_key state_id_of r.id) rows)
      || is_some (select_one (has_key hash_of r.state_hash) rows)
      || not (elim r.anonymous_owner_id [ none ↦ true | some o ↦ has_owner o ])
    then (err integrity_error, rows)
    else (get_oauth_state r.id (rows ++ r ∷ []), rows ++ r ∷ [])

unfoldable pub create_oauth_state :
    (String → Bool)
    → String
    → String
    → Option String
    → String
    → ℕ
    → ℕ
    → List OAuthLoginState
    → Result {0, 0} AuthError OAuthLoginState × List OAuthLoginState
unfolding insert_state
create_oauth_state has_owner state_id state_hash anonymous_owner_id redirect_path expires_at now
      rows =
    if is_empty (strip state_hash)
    then (err value_error, rows)
    else insert_state has_owner
        (new_state state_id (strip state_hash) anonymous_owner_id redirect_path expires_at now) rows

-- `consumed_at IS NULL AND expires_at>?`.
abbrev pub is_open : ℕ → OAuthLoginState → Bool
is_open now r = not (is_some r.consumed_at) && ltb now r.expires_at

abbrev pub consumed : ℕ → OAuthLoginState → OAuthLoginState
consumed now r = record r { consumed_at = some now }

-- The methods return the row, or `None` where no open state has the hash.
abbrev pub some_state :
    Result {0, 0} AuthError OAuthLoginState → Result {0, 0} AuthError (Option OAuthLoginState)
some_state (ok r) = ok (some r)
some_state (err e) = err e

-- The `SELECT` of `consume_oauth_state`.
unfoldable pub open_state : String → ℕ → List OAuthLoginState → Option OAuthLoginState
open_state state_hash now rows =
    select_one (λ r. has_key hash_of state_hash r && is_open now r) rows

-- Its `UPDATE`, which names the id alone.
unfoldable pub mark_consumed : String → ℕ → List OAuthLoginState → List OAuthLoginState
mark_consumed state_id now rows = update_where (has_key state_id_of state_id) (consumed now) rows

-- A call that no other disturbs. Over SQLite the `BEGIN IMMEDIATE` before the `SELECT` keeps the
-- others' writes out; over PostgreSQL it is a `SELECT 1` (knowledge/persistence/sqlite_compat.py), and
-- others may write between the two statements.
unfoldable pub consume_oauth_state :
    String
    → ℕ
    → List OAuthLoginState
    → Result {0, 0} AuthError (Option OAuthLoginState) × List OAuthLoginState
unfolding get_oauth_state open_state mark_consumed
consume_oauth_state state_hash now rows = elim (open_state state_hash now rows) [
  | none ↦ (ok none, rows)
  | some r ↦
      (some_state (get_oauth_state r.id (mark_consumed r.id now rows)), mark_consumed r.id now rows)
]
