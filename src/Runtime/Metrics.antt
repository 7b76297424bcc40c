-- ===== src/Runtime/Metrics.antt =====
-- `MetricQueryGuard` of knowledge/agent_runtime/metric_gateway.py. The MCP server, its result's
-- public form, `_normalize` and the substring test of Python are parameters; so is the token that
-- `secrets.token_urlsafe` draws. `key` makes the cache's key of the user, the conversation and the
-- call, and `now` is the reading of the cache's clock.
pub mod Confirmation
use its_middle_platform_agen.Prelude.Result.{ok, err, Result}
use its_middle_platform_agen.Runtime.MetricCache.{put, get, MetricCache}
use its_middle_platform_agen.Prelude.Strip.{strip, is_empty}
use its_middle_platform_agen.Prelude.{
  ℕ, ◌||◌, true, ◌&&◌, not, if◌then◌else◌, false, ◌==◌, ◌++◌, String, Option, List, Bool, none,
  some, [], ◌∷◌,
}

-- The fields of the run's context that the guard reads or writes.
pub record MetricContext : Type 0 where
  pub user_id : Option String
  pub conversation_id : String
  pub current_user_message : String
  pub response_mode : String
  pub metric_confirmation_token : Option String
  pub metric_confirmed_app : Option String
  pub metric_query_stage : String

-- A call of a tool: its name and its arguments, an opaque text.
pub record ToolCall : Type 0 where
  pub tool : String
  pub arguments : String

-- The guard's cache, and the calls that the server has received.
pub record Guard : Type 0 where
  pub cache : MetricCache
  pub calls : List ToolCall

pub data Answer : Type 0 where
  clarification_required : Answer
  app_confirmed : String → String → Answer
  completed : String → Option String → Bool → Answer
  server_failed : Answer

unfoldable pub any_marker : (String → Bool) → List String → Bool
any_marker inside [] = false
any_marker inside (t ∷ ts) = inside t || any_marker inside ts

-- `_CONFIRMATION_MARKERS`.
abbrev pub markers : List String
markers = "确认" ∷ "选择" ∷ "选用" ∷ "使用" ∷ "第一个" ∷ "第二个" ∷ "选a" ∷ "选b" ∷ []

module _ (normalize : String → String) (contains : String → String → Bool) where
  -- `contains message part` is `part in message`.
  unfoldable pub explicitly_confirmed : String → String → Bool
  unfolding any_marker
  explicitly_confirmed message selected_app =
      not (is_empty (normalize selected_app))
      && contains (normalize message) (normalize selected_app)
      && any_marker (contains (normalize message)) markers

  unfoldable pub prepare : String → String → MetricContext → Answer × MetricContext
  unfolding explicitly_confirmed
  prepare token selected_app c =
      if not (explicitly_confirmed c.current_user_message selected_app)
      then (
        clarification_required,
        record c {
          response_mode = "clarification";
          metric_query_stage = "awaiting_app_confirmation";
        },
      )
      else (
        app_confirmed (strip selected_app) token,
        record c {
          metric_confirmation_token = some token;
          metric_confirmed_app = some (strip selected_app);
          metric_query_stage = "confirmed";
        },
      )

abbrev pub or_text : Option String → String → String
or_text none d = d
or_text (some s) d = if is_empty s then d else s

-- `bool(token) and secrets.compare_digest(token, context.metric_confirmation_token or "")`, false
-- where the token has a character outside ASCII, on which compare_digest raises TypeError instead.
unfoldable pub valid_token : MetricContext → String → Bool
valid_token c token = not (is_empty token) && token == or_text c.metric_confirmation_token ""

abbrev pub completed_stage : MetricContext → MetricContext
completed_stage c = record c { metric_query_stage = "completed" }

module _ (key : String → String → ToolCall → String) where
  -- `_scope` of the context, and the key of a call in that scope.
  abbrev pub scoped_key : MetricContext → ToolCall → String
  scoped_key c call = key (or_text c.user_id "anonymous") c.conversation_id call

  -- The server's answer in its public form, or its exception.
  abbrev pub receive :
      ToolCall
      → ℕ
      → MetricContext
      → Guard
      → Result {0, 0} Unit (Option String)
      → Answer × MetricContext × Guard
  receive call now c g (err e) = (server_failed, c, record g { calls = g.calls ++ call ∷ [] })
  receive call now c g (ok result) = (
    completed call.tool result false,
    completed_stage c,
    record { cache = put (scoped_key c call) now result g.cache; calls = g.calls ++ call ∷ [] },
  )

  -- The cache's answer, or the server's.
  abbrev pub look_up :
      (ToolCall → Result {0, 0} Unit (Option String))
      → ToolCall
      → ℕ
      → MetricContext
      → Guard
      → Option String × MetricCache
      → Answer × MetricContext × Guard
  look_up server call now c g (some result, cache) =
      (completed call.tool (some result) true, completed_stage c, record g { cache = cache })
  look_up server call now c g (none, cache) =
      receive call now c (record g { cache = cache }) (server call)

  -- What `query_data` and `query_sql` do with their call.
  unfoldable pub guarded_query :
      (ToolCall → Result {0, 0} Unit (Option String))
      → ToolCall
      → String
      → ℕ
      → MetricContext
      → Guard
      → Answer × MetricContext × Guard
  unfolding valid_token get put
  guarded_query server call token now c g =
      if not (valid_token c token)
      then (clarification_required, record c { response_mode = "clarification" }, g)
      else look_up server call now c g (get (scoped_key c call) now g.cache)

  -- `arguments` is the text of `{"req": req, "limit": limit}`.
  unfoldable pub query_data :
      (ToolCall → Result {0, 0} Unit (Option String))
      → String
      → String
      → ℕ
      → MetricContext
      → Guard
      → Answer × MetricContext × Guard
  unfolding guarded_query
  query_data server arguments token now c g =
      guarded_query server (record { tool = "searchMetricAppQueryResult"; arguments = arguments })
        token now c g

  -- `arguments` is the text of `{"metricType": metric_type, "name": name}`.
  unfoldable pub query_sql :
      (ToolCall → Result {0, 0} Unit (Option String))
      → String
      → Bool
      → String
      → ℕ
      → MetricContext
      → Guard
      → Answer × MetricContext × Guard
  unfolding guarded_query
  query_sql server arguments fuzzy token now c g =
      guarded_query server
        (record {
          tool =
              if fuzzy
              then "searchSqlByMetricTypeAndNameFuzzy"
              else "searchSqlByMetricTypeAndNameExact";
          arguments = arguments;
        })
        token now c g
