-- ===== src/Runtime/Scopes/Sqlite.antt =====
-- `ConversationScopeRepository` of knowledge/agent_runtime/conversation_scopes.py.
use its_middle_platform_agen.Prelude.Strip.{strip, is_empty}
use its_middle_platform_agen.Prelude.Table.TextKey.{has_key}
use its_middle_platform_agen.Prelude.Table.{delete_where, count_where, select_one}
use its_middle_platform_agen.Prelude.Result.{err, Result}
use its_middle_platform_agen.Runtime.Scopes.{
  scope_value_error, strip_domain, bind_row, scope_key, ScopeError, ConversationScope,
}
use its_middle_platform_agen.Prelude.{◌||◌, if◌then◌else◌, eqb, Bool, Option, List, String, ℕ}

unfoldable pub bind :
    String
    → String
    → Option String
    → ℕ
    → List ConversationScope
    → Result ScopeError ConversationScope × List ConversationScope
bind conversation_id knowledge_space_id domain_id now rows =
    if is_empty (strip conversation_id) || is_empty (strip knowledge_space_id)
    then (err scope_value_error, rows)
    else bind_row (strip conversation_id) (strip knowledge_space_id) (strip_domain domain_id) now
        rows

unfoldable pub get : String → List ConversationScope → Option ConversationScope
get conversation_id rows = select_one (has_key scope_key conversation_id) rows

unfoldable pub delete : String → List ConversationScope → Bool × List ConversationScope
delete conversation_id rows = (
  eqb (count_where (has_key scope_key conversation_id) rows) 1,
  delete_where (has_key scope_key conversation_id) rows,
)
