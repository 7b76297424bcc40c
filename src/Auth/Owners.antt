-- ===== src/Auth/Owners.antt =====
-- The methods of `UserAuthRepository` (knowledge/auth/repository.py) on `web_conversation_owners`.
-- `title` is the value of `" ".join(title.split())` and `title_length` counts its characters; `now`
-- is the value of `_utc(now)`, a number of microseconds.
pub mod Ownership
use its_middle_platform_agen.Prelude.Strip.{strip, is_empty}
use its_middle_platform_agen.Prelude.Table.TextKey.{has_key}
use its_middle_platform_agen.Prelude.Table.{
  delete_where, select_all, update_where, select_one, count_where,
}
use its_middle_platform_agen.Prelude.Result.{ok, err, Result}
use its_middle_platform_agen.Prelude.{
  true, text_leb, not, false, eqb, ◌++◌, ◌&&◌, ◌||◌, ltb, if◌then◌else◌, Option, ◌==◌, String, List,
  Bool, ℕ, none, some, [], ◌∷◌,
}

pub data OwnerError : Type 0 where
  owner_value_error permission_error key_error : OwnerError

pub record ConversationOwner : Type 0 where
  pub conversation_id : String
  pub owner_id : String
  pub channel : String
  pub title : Option String
  pub created_at : ℕ
  pub last_seen_at : ℕ

abbrev pub owner_key : ConversationOwner → String
owner_key r = r.conversation_id

abbrev pub is_owner : String → ConversationOwner → Bool
is_owner owner_id r = r.owner_id == owner_id

abbrev pub OwnerOutcome : Type 0 → Type 0
OwnerOutcome A = Result OwnerError A × List ConversationOwner

abbrev pub new_owner : String → String → String → ℕ → ConversationOwner
new_owner conversation_id owner_id channel now = record {
  conversation_id = conversation_id;
  owner_id = owner_id;
  channel = channel;
  title = none;
  created_at = now;
  last_seen_at = now;
}

abbrev pub seen : String → ℕ → ConversationOwner → ConversationOwner
seen channel now r = record r { channel = channel; last_seen_at = now }

-- The conflicting row of the upsert, when there is one.
abbrev pub seen_again :
    String
    → String
    → ℕ
    → List ConversationOwner
    → ConversationOwner
    → OwnerOutcome ConversationOwner
seen_again owner_id channel now rows r =
    if is_owner owner_id r
    then (
      ok (seen channel now r),
      update_where (has_key owner_key r.conversation_id) (seen channel now) rows,
    )
    else (err permission_error, rows)

-- `INSERT … ON CONFLICT(conversation_id) DO UPDATE … WHERE owner_id=excluded.owner_id RETURNING *`.
unfoldable pub upsert_owner :
    String → String → String → ℕ → List ConversationOwner → OwnerOutcome ConversationOwner
upsert_owner conversation_id owner_id channel now rows =
    elim (select_one (has_key owner_key conversation_id) rows) [
      | none ↦ let r = new_owner conversation_id owner_id channel now in (ok r, rows ++ r ∷ [])
      | some r ↦ seen_again owner_id channel now rows r
    ]

-- `_required` strips its text and refuses an empty one.
unfoldable pub bind_conversation_owner :
    String → String → String → ℕ → List ConversationOwner → OwnerOutcome ConversationOwner
unfolding upsert_owner
bind_conversation_owner conversation_id owner_id channel now rows =
    if is_empty (strip conversation_id) || is_empty (strip owner_id)
    then (err owner_value_error, rows)
    else upsert_owner (strip conversation_id) (strip owner_id) channel now rows

unfoldable pub get_conversation_owner :
    String → List ConversationOwner → Result OwnerError ConversationOwner
get_conversation_owner conversation_id rows =
    elim (select_one (has_key owner_key conversation_id) rows) [
      | none ↦ err key_error
      | some r ↦ ok r
    ]

unfoldable pub delete_conversation_owner :
    String → String → List ConversationOwner → OwnerOutcome Bool
delete_conversation_owner conversation_id owner_id rows =
    elim (select_one (has_key owner_key conversation_id) rows) [
      | none ↦ (ok false, rows)
      | some r ↦
          if not (is_owner owner_id r)
          then (err permission_error, rows)
          else (ok true, delete_where (has_key owner_key conversation_id) rows)
    ]

unfoldable pub count_conversations_for_owner : String → List ConversationOwner → ℕ
count_conversations_for_owner owner_id rows = count_where (is_owner owner_id) rows

-- `ORDER BY last_seen_at DESC, conversation_id ASC`.
abbrev pub listed_before : ConversationOwner → ConversationOwner → Bool
listed_before a b =
    ltb b.last_seen_at a.last_seen_at
    || (eqb a.last_seen_at b.last_seen_at && text_leb a.conversation_id b.conversation_id)

unfoldable pub insert_listed : ConversationOwner → List ConversationOwner → List ConversationOwner
insert_listed r [] = r ∷ []
insert_listed r (x ∷ xs) =
    let rest = insert_listed r xs in if listed_before r x then r ∷ x ∷ xs else x ∷ rest

unfoldable pub listed : List ConversationOwner → List ConversationOwner
unfolding insert_listed
listed [] = []
listed (r ∷ rs) = insert_listed r (listed rs)

unfoldable pub list_conversations_for_owner :
    String → List ConversationOwner → Result {0, 0} OwnerError (List ConversationOwner)
unfolding listed
list_conversations_for_owner owner_id rows =
    if is_empty (strip owner_id)
    then err owner_value_error
    else ok (listed (select_all (is_owner (strip owner_id)) rows))

abbrev pub titled : String → ConversationOwner → ConversationOwner
titled title r = record r { title = some title }

-- The method reads the row again by the id as it was given.
unfoldable pub rename_conversation :
    String → String → String → ℕ → List ConversationOwner → OwnerOutcome ConversationOwner
unfolding get_conversation_owner
rename_conversation conversation_id owner_id title title_length rows =
    let test = λ (r : ConversationOwner).
      has_key owner_key (strip conversation_id) r && is_owner (strip owner_id) r in
    let rows' = update_where test (titled title) rows in
    if is_empty title
      || ltb 100 title_length
      || is_empty (strip conversation_id)
      || is_empty (strip owner_id)
    then (err owner_value_error, rows)
    else if not (eqb (count_where test rows) 1)
    then (err permission_error, rows')
    else (get_conversation_owner conversation_id rows', rows')

abbrev pub transferred : String → ℕ → ConversationOwner → ConversationOwner
transferred owner_id now r = record r { owner_id = owner_id; last_seen_at = now }

unfoldable pub transfer_conversation_owners :
    String → String → ℕ → List ConversationOwner → ℕ × List ConversationOwner
transfer_conversation_owners source_owner_id target_owner_id now rows = (
  count_where (is_owner source_owner_id) rows,
  update_where (is_owner source_owner_id) (transferred target_owner_id now) rows,
)
