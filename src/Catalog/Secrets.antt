-- ===== src/Catalog/Secrets.antt =====
-- The encrypted secrets and the administrator sessions of `CatalogRepository`
-- (knowledge/catalog/repository.py). Secrets are opaque texts.
use its_middle_platform_agen.Prelude.Table.TextKey.{has_key}
use its_middle_platform_agen.Prelude.Table.{
  update_where, delete_where, exists_row, select_one, count_where,
}
use its_middle_platform_agen.Prelude.{
  ◌++◌, ◌||◌, ◌&&◌, leb, is_some, eqb, ◌==◌, if◌then◌else◌, Bool, String, Option, List, ℕ, none,
  some, [], ◌∷◌,
}

pub record EncryptedSecret : Type 0 where
  pub source_id : String
  pub secret_kind : String
  pub encrypted_value : String
  pub updated_at : ℕ

pub record AdminSession : Type 0 where
  pub id : String
  pub token_hash : String
  pub username : String
  pub csrf_token : String
  pub expires_at : ℕ
  pub created_at : ℕ

abbrev pub is_secret : String → String → EncryptedSecret → Bool
is_secret source_id secret_kind r = r.source_id == source_id && r.secret_kind == secret_kind

abbrev pub rewritten : String → ℕ → EncryptedSecret → EncryptedSecret
rewritten encrypted_value now r = record r { encrypted_value = encrypted_value; updated_at = now }

unfoldable pub set_encrypted_secret :
    String → String → String → ℕ → List EncryptedSecret → List EncryptedSecret
set_encrypted_secret source_id secret_kind encrypted_value now rows =
    if is_some (select_one (is_secret source_id secret_kind) rows)
    then update_where (is_secret source_id secret_kind) (rewritten encrypted_value now) rows
    else rows
      ++ record {
        source_id = source_id;
        secret_kind = secret_kind;
        encrypted_value = encrypted_value;
        updated_at = now;
      }
        ∷ []

abbrev pub value_of : Option EncryptedSecret → Option String
value_of none = none
value_of (some r) = some r.encrypted_value

unfoldable pub get_encrypted_secret : String → String → List EncryptedSecret → Option String
get_encrypted_secret source_id secret_kind rows =
    value_of (select_one (is_secret source_id secret_kind) rows)

unfoldable pub delete_encrypted_secret :
    String → String → List EncryptedSecret → Bool × List EncryptedSecret
delete_encrypted_secret source_id secret_kind rows = (
  eqb (count_where (is_secret source_id secret_kind) rows) 1,
  delete_where (is_secret source_id secret_kind) rows,
)

abbrev pub admin_token : AdminSession → String
admin_token r = r.token_hash

unfoldable pub insert_admin_session : AdminSession → List AdminSession → Option (List AdminSession)
insert_admin_session r rows =
    if exists_row (λ (x : AdminSession). x.id == r.id || x.token_hash == r.token_hash) rows
    then none
    else some (rows ++ r ∷ [])

unfoldable pub get_admin_session : String → List AdminSession → Option AdminSession
get_admin_session token_hash rows = select_one (has_key admin_token token_hash) rows

unfoldable pub delete_admin_session : String → List AdminSession → Bool × List AdminSession
delete_admin_session token_hash rows = (
  eqb (count_where (has_key admin_token token_hash) rows) 1,
  delete_where (has_key admin_token token_hash) rows,
)

unfoldable pub cleanup_admin_sessions : ℕ → List AdminSession → ℕ × List AdminSession
cleanup_admin_sessions expires_at rows = (
  count_where (λ (r : AdminSession). leb r.expires_at expires_at) rows,
  delete_where (λ (r : AdminSession). leb r.expires_at expires_at) rows,
)
