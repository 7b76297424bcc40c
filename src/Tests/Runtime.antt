-- ===== src/Tests/Runtime.antt =====
-- Tests of what the runs of the agents store and spend.
use its_middle_platform_agen.Prelude.Table.TextKey.{has_key}
use its_middle_platform_agen.Prelude.Table.Keys.{Unique}
use its_middle_platform_agen.Runtime.MetricCache.Calls.{
  Call, call, calls, get_call, put_call, new_cache-IsValid,
}
use its_middle_platform_agen.Runtime.Context.Tools.{AreDistinct}
use its_middle_platform_agen.Runtime.Context.Calls.{
  AreWithin, resumed_calls-budget, resumed_calls, number_allowed,
}
use its_middle_platform_agen.Prelude.Strip.{is_empty}
use its_middle_platform_agen.Runtime.MetricCache.Bounds.{get-put, put-IsValid}
use its_middle_platform_agen.Prelude.Result.{ok, Result}
use its_middle_platform_agen.Prelude.Table.{select_one}
use its_middle_platform_agen.Runtime.PendingRuns.Agreement.{
  RunCall, delete, postgres_replies-sqlite_replies, mark, sqlite_replies, read, save, decode,
  postgres_replies,
}
use its_middle_platform_agen.Runtime.Context.Budget.{reserve_all}
use its_middle_platform_agen.Runtime.Routing.{route, RoutingDecision, Rewritten}
use its_middle_platform_agen.Runtime.Context.{
  new_tool_run, ToolRun, four_legacy, no_legacy, apply_legacy, RetrievalCall, LegacyArgs,
  budget_exhausted, duplicate, allowed, add_one, reserve, count_of, Retrievals,
}
use its_middle_platform_agen.Runtime.Metrics.{explicitly_confirmed, ToolCall, MetricContext}
use its_middle_platform_agen.Runtime.MetricCache.{item_key, put, get, new_cache, MetricCache}
use its_middle_platform_agen.Runtime.PendingRuns.{PendingRow, JsonCodec}
use its_middle_platform_agen.Runtime.Metrics.Confirmation.{
  MetricRequest, sql_of, preparing, respond_all-IsUnconfirmed, data_of, respond_all,
  is_confirmed_by, IsUnconfirmed,
}
use its_middle_platform_agen.Runtime.Scopes.{ConversationScope}
use its_middle_platform_agen.Runtime.Scopes.Binding.{
  no_bind, then_bind, bind-databases, Binds-keeps,
}
use its_middle_platform_agen.Runtime.Routing.Domains.{route_lem, Stays, Falls}
use its_middle_platform_agen.Prelude.{
  ◌<◌, length, ◌⊎◌, Option, ◌≤◌, str_append, map, arith, Bool, ◌==◌, ◌+◌, String, List, ◌≡◌, none,
  some, [], ◌∷◌, true, false, refl,
}
use its_middle_platform_agen.Runtime.PendingRuns.Agreement
use its_middle_platform_agen.Runtime.Scopes.Binding
use its_middle_platform_agen.Runtime.Scopes.Sqlite as ScopesSqlite
use its_middle_platform_agen.Runtime.Scopes.Postgres as ScopesPostgres
use its_middle_platform_agen.Runtime.MetricCache.Bounds

-- States and approvals that are JSON's two Boolean values.
abbrev show : Bool → String
show true = "true"
show false = "false"

abbrev json_booleans : JsonCodec Bool Bool
json_booleans = record {
  dumps_state = show;
  loads_state = λ s. s == "true";
  dumps_approvals = show;
  loads_approvals = λ s. s == "true";
}

show_back : (b : Bool) → (show b == "true") ≡ b
show_back true = refl
show_back false = refl

abbrev stored_run : PendingRow String String
stored_run = record {
  run_id = "r1";
  conversation_id = "c1";
  state = "true";
  approvals = "false";
  status = "pending";
  created_at = 1;
  updated_at = 1;
}

abbrev run_calls : List (RunCall Bool Bool)
run_calls =
    save "r2" "c1" false true 5
    ∷ read "r2"
    ∷ mark "r1" 6
    ∷ mark "r1" 7
    ∷ mark "r3" 7
    ∷ delete "c1"
    ∷ read "r1"
    ∷ []

stored-IsKeyed : Agreement.IsKeyed (stored_run ∷ [])
unfolding select_one
stored-IsKeyed = (refl, tt)

postgres_replies-sqlite_replies_example :
    postgres_replies run_calls (map (decode json_booleans) (stored_run ∷ []))
    ≡ sqlite_replies json_booleans run_calls (stored_run ∷ [])
postgres_replies-sqlite_replies_example =
    postgres_replies-sqlite_replies json_booleans show_back show_back run_calls (stored_run ∷ [])
      stored-IsKeyed

abbrev bound : ConversationScope
bound = record {
  conversation_id = "c1";
  knowledge_space_id = "middle-platform";
  domain_id = some "workflow";
  created_at = 7;
}

bound-IsKeyed : Binding.IsKeyed (bound ∷ [])
unfolding select_one
bound-IsKeyed = (refl, tt)

bind-databases_example :
    ScopesPostgres.bind " c1" "middle-platform" none 9 (bound ∷ [])
    ≡ ScopesSqlite.bind " c1" "middle-platform" none 9 (bound ∷ [])
bind-databases_example = bind-databases " c1" "middle-platform" none 9 (bound ∷ []) bound-IsKeyed

bound_there : ScopesSqlite.get "c1" (bound ∷ []) ≡ some bound
unfolding ScopesSqlite.get select_one
bound_there = refl

abbrev after_binds : List ConversationScope
after_binds =
    (ScopesSqlite.bind "c1" "other" none 9 (ScopesSqlite.bind "c2" "other" none 8 (bound ∷ [])).1).1

Binds-keeps_example : ScopesSqlite.get "c1" after_binds ≡ some bound
Binds-keeps_example =
    Binds-keeps "c1" bound (then_bind "c1" "other" none 9 (then_bind "c2" "other" none 8 no_bind))
      bound_there

abbrev no_retrievals : Retrievals
no_retrievals = record { retrieval_signatures = []; retrieval_call_count = 0 }

abbrev asked : List String
asked = "a" ∷ "a" ∷ "b" ∷ "c" ∷ []

asked_answers :
    reserve_all 2 1 asked no_retrievals
    ≡ ("a", allowed) ∷ ("a", duplicate) ∷ ("b", allowed) ∷ ("c", budget_exhausted) ∷ []
unfolding reserve_all reserve count_of add_one
asked_answers = refl

abbrev plain_call : RetrievalCall
plain_call = record {
  query = some "orders";
  app_id = none;
  domain_id = none;
  source_type = some "code";
  branch = none;
  task_type = none;
  max_calls = some 2;
  max_identical_queries = 1;
}

abbrev two_calls : List (LegacyArgs × RetrievalCall)
two_calls =
    (no_legacy, plain_call)
    ∷ (
      four_legacy "search" (some "orders") (some 1) 1,
      record plain_call { query = none; max_calls = none },
    )
    ∷ []

abbrev or_empty : Option String → String
or_empty none = ""
or_empty (some s) = s

within_two : AreWithin or_empty 2 two_calls
unfolding apply_legacy
within_two = (refl, (refl, tt))

-- A run that is paused after two calls and resumed once.
resumed_calls-budget_example :
    number_allowed or_empty (resumed_calls or_empty two_calls (two_calls ∷ []) no_retrievals) + 0
    ≤ 4
resumed_calls-budget_example =
    resumed_calls-budget or_empty 2 two_calls (two_calls ∷ []) no_retrievals within_two
      (within_two, tt) (omega arith)

none_counted : count_of "a" [] ≤ 1
unfolding count_of
none_counted = omega arith

abbrev small_cache : MetricCache
small_cache = record {
  ttl = 30;
  max_entries = 1;
  items = record { key = "k1"; expires_at = 40; value = some "v1" } ∷ [];
}

small_cache-IsValid : Bounds.IsValid small_cache
unfolding select_one
small_cache-IsValid = record { small = omega arith; room = omega arith; keyed = (refl, tt) }

abbrev cache_calls : List Call
cache_calls = put_call "k1" 5 (some "v1") ∷ put_call "k2" 6 (some "v2") ∷ get_call "k2" 9 ∷ []

new_cache-IsValid_example :
    (length (calls cache_calls (new_cache 30 1)).items ≤ 1)
    × Unique (has_key item_key) item_key (calls cache_calls (new_cache 30 1)).items
new_cache-IsValid_example = new_cache-IsValid 30 1 cache_calls

has_room : 0 < small_cache.max_entries
has_room = omega arith

get-put_example : (get "k3" 34 (put "k3" 5 (some "v3") small_cache)).0 ≡ some "v3"
get-put_example = get-put "k3" 5 34 (some "v3") small_cache has_room

abbrev fresh_context : MetricContext
fresh_context = record {
  user_id = none;
  conversation_id = "c1";
  current_user_message = "show the orders";
  response_mode = "answer";
  metric_confirmation_token = none;
  metric_confirmed_app = none;
  metric_query_stage = "discovering";
}

abbrev same_form : String → String
same_form s = s

abbrev is_same : String → String → Bool
is_same message part = message == part

abbrev tool_key_of : String → String → ToolCall → String
tool_key_of user conversation call = str_append user (str_append conversation call.arguments)

abbrev answers : ToolCall → Result {0, 0} Unit (Option String)
answers call = ok (some "42")

abbrev guesses : List MetricRequest
guesses = data_of "{}" "guess" 3 ∷ preparing "t" "orders" ∷ sql_of "{}" true "t" 4 ∷ []

unconfirmed :
    is_confirmed_by same_form is_same tool_key_of answers "show the orders" guesses ≡ false
unfolding is_confirmed_by explicitly_confirmed is_empty
unconfirmed = refl

respond_all-IsUnconfirmed_example :
    IsUnconfirmed same_form is_same tool_key_of answers "show the orders" [] (
      respond_all same_form is_same tool_key_of answers guesses
        (fresh_context, record { cache = small_cache; calls = [] }))
respond_all-IsUnconfirmed_example =
    respond_all-IsUnconfirmed same_form is_same tool_key_of answers guesses "show the orders" []
      (fresh_context, record { cache = small_cache; calls = [] }) unconfirmed (refl, refl, refl)

abbrev undecided : RoutingDecision
undecided = record {
  domains = [];
  intent = "unknown";
  needs_clarification = true;
  reason_codes = [];
  task_type = "unknown";
  route_source = "rules";
}

abbrev proposal : Rewritten
proposal = record {
  domain_candidates = "workflow" ∷ "工作流" ∷ "kitchen" ∷ "审批流" ∷ [];
  clarification_needed = false;
  task_type = "how_to";
}

route_lem_example :
    Stays
      ("workflow" ∷ "工作流" ∷ "kitchen" ∷ "审批流" ∷ [])
      undecided
      (route (λ m. undecided) (some (λ m. some proposal)) "hm")
    ⊎ Falls
        ("workflow" ∷ "工作流" ∷ "kitchen" ∷ "审批流" ∷ [])
        undecided
        (route (λ m. undecided) (some (λ m. some proposal)) "hm")
route_lem_example = route_lem (λ m. undecided) (some (λ m. some proposal)) "hm"

abbrev first_tool : List ToolRun
first_tool = new_tool_run "t1" "search" "rag" "{}" ∷ []

first_tool-AreDistinct : AreDistinct first_tool
unfolding select_one
first_tool-AreDistinct = (refl, tt)
