-- ===== src/Runtime/Scopes.antt =====
-- knowledge/agent_runtime/conversation_scopes.py: the knowledge scope that a conversation is bound
-- to, in SQLite and in PostgreSQL. The `datetime` of a row is a number of microseconds.
pub mod Sqlite
pub mod Postgres
pub mod Binding
use its_middle_platform_agen.Prelude.Strip.{strip, is_empty}
use its_middle_platform_agen.Prelude.Table.{update_where, select_one}
use its_middle_platform_agen.Prelude.Table.TextKey.{has_key}
use its_middle_platform_agen.Prelude.Result.{ok, err, Result}
use its_middle_platform_agen.Prelude.{
  not, [], ◌∷◌, none, ◌++◌, some, is_some, same_text, if◌then◌else◌, ◌&&◌, ◌==◌, List, Bool, String,
  Option, ℕ, ◌≡◌,
}

pub data ScopeError : Type 0 where
  scope_value_error scope_conflict : ScopeError

pub record ConversationScope : Type 0 where
  pub conversation_id : String
  pub knowledge_space_id : String
  pub domain_id : Option String
  pub created_at : ℕ

abbrev pub scope_key : ConversationScope → String
scope_key r = r.conversation_id

-- `domain_id.strip() if domain_id and domain_id.strip() else None`.
abbrev pub strip_domain : Option String → Option String
strip_domain none = none
strip_domain (some d) = if is_empty (strip d) then none else some (strip d)

abbrev pub same_scope : String → Option String → ConversationScope → Bool
same_scope knowledge_space_id domain_id r =
    r.knowledge_space_id == knowledge_space_id && same_text r.domain_id domain_id

abbrev pub new_scope : String → String → Option String → ℕ → ConversationScope
new_scope conversation_id knowledge_space_id domain_id now = record {
  conversation_id = conversation_id;
  knowledge_space_id = knowledge_space_id;
  domain_id = domain_id;
  created_at = now;
}

-- The transaction of SQLite: a `SELECT`, then an `INSERT` or a comparison.
unfoldable pub bind_row :
    String
    → String
    → Option String
    → ℕ
    → List ConversationScope
    → Result ScopeError ConversationScope × List ConversationScope
bind_row conversation_id knowledge_space_id domain_id now rows =
    elim (select_one (has_key scope_key conversation_id) rows) [
      | none ↦
          let r = new_scope conversation_id knowledge_space_id domain_id now in
          (ok r, rows ++ r ∷ [])
      | some r ↦
          if not (same_scope knowledge_space_id domain_id r)
          then (err scope_conflict, rows)
          else (ok r, rows)
    ]

-- `INSERT … ON CONFLICT DO UPDATE SET … WHERE … RETURNING`: the update writes the columns' own
-- values, and a row that the condition excludes is not returned.
unfoldable pub upsert_row :
    String
    → String
    → Option String
    → ℕ
    → List ConversationScope
    → Option ConversationScope × List ConversationScope
upsert_row conversation_id knowledge_space_id domain_id now rows =
    let test = λ (r : ConversationScope).
      has_key scope_key conversation_id r && same_scope knowledge_space_id domain_id r in
    let set = λ (r : ConversationScope). record r {
      knowledge_space_id = r.knowledge_space_id;
      domain_id = r.domain_id;
    } in
    if is_some (select_one (has_key scope_key conversation_id) rows)
    then (select_one test (update_where test set rows), update_where test set rows)
    else let r = new_scope conversation_id knowledge_space_id domain_id now in
      (some r, rows ++ r ∷ [])

abbrev pub returned :
    Option ConversationScope × List ConversationScope
    → List ConversationScope
    → Result ScopeError ConversationScope × List ConversationScope
returned (none, rows') rows = (err scope_conflict, rows)
returned (some r, rows') rows = (ok r, rows')
