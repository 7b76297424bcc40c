-- ===== src/Auth/Tokens/Revoking.antt =====
-- That a revoked token stays revoked.
use its_middle_platform_agen.Prelude.Strip.{strip, is_empty}
use its_middle_platform_agen.Prelude.Table.{update_where, select_one}
use its_middle_platform_agen.Prelude.Table.TextKey.{has_key→eq, has_key}
use its_middle_platform_agen.Prelude.Table.Keys.{Unique-append, Unique-update_where, Unique}
use its_middle_platform_agen.Prelude.Table.Holds.{
  Holds-append, Holds-update_where, Holds-refused, Holds,
}
use its_middle_platform_agen.Auth.Tokens.{
  revoked_token, is_revocable, used, is_unrevoked_id, new_token, is_unrevoked, is_named,
  token_hash_of, revoke_personal_api_token, touch_personal_api_token, insert_token,
  get_active_personal_api_token, create_personal_api_token, PersonalApiToken, token_key,
}
use its_middle_platform_agen.Prelude.{
  is_some-none, eq_comm, arith, not, ◌||◌, Bool-cases, is_some, Bool, String, List, ℕ, ◌≡◌, none,
  some, true, false, inl, inr, refl,
}

abbrev pub AreDistinct : List PersonalApiToken → Type 0
AreDistinct rows = Unique (has_key token_hash_of) token_hash_of rows

-- A call of any of the methods that write, of whatever result; `revoke` comes with the caller.
pub data Step (has_user : String → Bool) (rows : List PersonalApiToken)
    : List PersonalApiToken → Type 0 where
  create :
      (now : ℕ) (r : PersonalApiToken)
      → Step has_user rows (create_personal_api_token has_user now r rows).1
  touch : (i : String) (now : ℕ) → Step has_user rows (touch_personal_api_token i now rows).1
  revoke :
      (caller i : String) (now : ℕ)
      → Step has_user rows (revoke_personal_api_token caller i now rows).1

pub data Reach (has_user : String → Bool) (rows : List PersonalApiToken)
    : List PersonalApiToken → Type 0 where
  here : Reach has_user rows rows
  next :
      {mid rows' : List PersonalApiToken}
      → Reach has_user rows mid
      → Step has_user mid rows'
      → Reach has_user rows rows'

abbrev pub is_revoked : PersonalApiToken → Bool
is_revoked r = is_some r.revoked_at

abbrev IsOff : String → List PersonalApiToken → Type 0
IsOff h rows = AreDistinct rows × Holds (has_key token_hash_of) h is_revoked rows

module _ (h : String) (rows : List PersonalApiToken) (s : IsOff h rows) where
  update-IsOff :
      (test : PersonalApiToken → Bool) (set : PersonalApiToken → PersonalApiToken)
      → ((r : PersonalApiToken) → (set r).token_hash ≡ r.token_hash)
      → ((r : PersonalApiToken) → is_revoked r ≡ true → is_revoked (set r) ≡ true)
      → IsOff h (update_where test set rows)
  update-IsOff test set keep stays = (
    Unique-update_where (has_key token_hash_of) token_hash_of test set rows keep
        (λ k x. rw (keep x) refl) s.0,
    Holds-update_where (has_key token_hash_of) h is_revoked test set rows (λ x. rw (keep x) refl)
        (λ x hit. stays x) s.1,
  )

  insert-IsOff :
      (has_user : String → Bool) (r : PersonalApiToken) → IsOff h (insert_token has_user r rows).1
  unfolding insert_token
  insert-IsOff has_user r =
      let known = is_some (select_one (has_key token_key r.id) rows) in
      let taken = is_some (select_one (has_key token_hash_of r.token_hash) rows) in
      let named = is_some (select_one (is_named r.open_id r.name) rows) in
      elim (Bool-cases (known || taken || named || not (has_user r.open_id))) [
        | inl bad ↦ rw bad s
        | inr good ↦
            let free : taken ≡ false = ground arith in
            rw good (
              Unique-append (has_key token_hash_of) token_hash_of rows r
                  (λ x y. eq_comm y.token_hash x.token_hash)
                  (is_some-none (select_one (has_key token_hash_of r.token_hash) rows) free) s.0,
              Holds-append (has_key token_hash_of) h is_revoked rows r s.1,
            )
      ]

Step-IsOff :
    {has_user : String → Bool} {rows rows' : List PersonalApiToken} (h : String)
    → Step has_user rows rows'
    → IsOff h rows
    → IsOff h rows'
unfolding create_personal_api_token touch_personal_api_token revoke_personal_api_token
Step-IsOff {has_user} {rows} h (create now r) s =
    elim (Bool-cases (
      is_empty (strip r.open_id)
      || is_empty (strip r.name)
      || is_empty (strip r.token_hash)
      || is_empty (strip r.display_prefix))) [
        | inl blank ↦ rw blank s
        | inr given ↦ rw given (insert-IsOff h rows s has_user (new_token now r))
      ]
Step-IsOff {rows = rows} h (touch i now) s =
    update-IsOff h rows s (is_unrevoked_id i) (used now) (λ x. refl) (λ x e. e)
Step-IsOff {rows = rows} h (revoke caller i now) s =
    update-IsOff h rows s (is_revocable caller i) (revoked_token now) (λ x. refl) (λ x e. refl)

Reach-IsOff :
    {has_user : String → Bool} {rows rows' : List PersonalApiToken} (h : String)
    → Reach has_user rows rows'
    → IsOff h rows
    → IsOff h rows'
Reach-IsOff h here s = s
Reach-IsOff h (next before step) s = Step-IsOff h step (Reach-IsOff h before s)

-- Once a token is revoked it authenticates nobody, whatever tokens are created, used and revoked
-- later.
pub revoked_token_inactive :
    {has_user : String → Bool} (r : PersonalApiToken) (rows rows' : List PersonalApiToken)
    → AreDistinct rows
    → select_one (has_key token_hash_of r.token_hash) rows ≡ some r
    → is_revoked r ≡ true
    → Reach has_user rows rows'
    → get_active_personal_api_token r.token_hash rows' ≡ none
unfolding get_active_personal_api_token
revoked_token_inactive r rows rows' u stored off after =
    let over = Reach-IsOff r.token_hash after (u, (r, stored, off)) in
    Holds-refused (has_key token_hash_of) token_hash_of (has_key→eq token_hash_of) r.token_hash
      is_revoked is_unrevoked rows' over.0 (λ x e. ground arith) over.1
