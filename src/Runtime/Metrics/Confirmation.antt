-- ===== src/Runtime/Metrics/Confirmation.antt =====
-- That the server is asked nothing before the user has confirmed an application.
use its_middle_platform_agen.Prelude.Result.{Result}
use its_middle_platform_agen.Runtime.Metrics.{
  Answer, query_sql, query_data, explicitly_confirmed, Guard, valid_token, prepare, guarded_query,
  MetricContext, ToolCall,
}
use its_middle_platform_agen.Prelude.Strip.{is_empty}
use its_middle_platform_agen.Prelude.{
  ◌||◌, eq→path, arith, Bool-cases, List, Option, ◌==◌, ◌&&◌, not, Bool, String, ℕ, ◌≡◌, none, [],
  ◌∷◌, false, inl, inr, refl,
}

-- What a run's tools ask of the guard, with the token that is drawn or given.
pub data MetricRequest : Type 0 where
  preparing : String → String → MetricRequest
  data_of : String → String → ℕ → MetricRequest
  sql_of : String → Bool → String → ℕ → MetricRequest

abbrev pub state_of : Answer × MetricContext × Guard → MetricContext × Guard
state_of (a, c, g) = (c, g)

is_empty-blank : (not (is_empty "") && "" == "") ≡ false
unfolding is_empty
is_empty-blank = refl

module _ (normalize : String → String) (contains : String → String → Bool)
    (key : String → String → ToolCall → String)
    (server : ToolCall → Result {0, 0} Unit (Option String)) where
  unfoldable pub respond : MetricRequest → MetricContext × Guard → MetricContext × Guard
  respond (preparing token app) (c, g) = ((prepare normalize contains token app c).1, g)
  respond (data_of arguments token now) (c, g) =
      state_of (query_data key server arguments token now c g)
  respond (sql_of arguments fuzzy token now) (c, g) =
      state_of (query_sql key server arguments fuzzy token now c g)

  unfoldable pub respond_all : List MetricRequest → MetricContext × Guard → MetricContext × Guard
  unfolding respond
  respond_all [] s = s
  respond_all (q ∷ qs) s = respond_all qs (respond q s)

  -- Whether a preparation of the list names an application that the message confirms.
  unfoldable pub is_confirmed_by : String → List MetricRequest → Bool
  is_confirmed_by message [] = false
  is_confirmed_by message (preparing token app ∷ qs) =
      explicitly_confirmed normalize contains message app || is_confirmed_by message qs
  is_confirmed_by message (data_of arguments token now ∷ qs) = is_confirmed_by message qs
  is_confirmed_by message (sql_of arguments fuzzy token now ∷ qs) = is_confirmed_by message qs

  -- A context that has no token.
  abbrev pub IsUnconfirmed : String → List ToolCall → MetricContext × Guard → Type 0
  IsUnconfirmed message calls s =
      (s.0.metric_confirmation_token ≡ none)
      × (s.0.current_user_message ≡ message)
      × (s.1.calls ≡ calls)

  valid_token-none :
      (c : MetricContext) (token : String)
      → c.metric_confirmation_token ≡ none
      → valid_token c token ≡ false
  unfolding valid_token
  valid_token-none c token e = rw e (blank token)
    where
      blank : (t : String) → (not (is_empty t) && t == "") ≡ false
      blank t = elim (Bool-cases (t == "")) [
        | inl same ↦ rw (eq→path t "" same) is_empty-blank
        | inr other ↦ rw other (ground arith)
      ]

  guarded_query-IsUnconfirmed :
      (call : ToolCall) (token message : String) (now : ℕ) (calls : List ToolCall)
      (c : MetricContext) (g : Guard)
      → IsUnconfirmed message calls (c, g)
      → IsUnconfirmed message calls (state_of (guarded_query key server call token now c g))
  unfolding guarded_query
  guarded_query-IsUnconfirmed call token message now calls c g u =
      rw (valid_token-none c token u.0) u

  respond-IsUnconfirmed :
      (q : MetricRequest) (message : String) (calls : List ToolCall) (s : MetricContext × Guard)
      → is_confirmed_by message (q ∷ []) ≡ false
      → IsUnconfirmed message calls s
      → IsUnconfirmed message calls (respond q s)
  unfolding respond prepare query_data query_sql is_confirmed_by
  respond-IsUnconfirmed (preparing token app) message calls (c, g) not_yet u =
      let denied : explicitly_confirmed normalize contains c.current_user_message app ≡ false =
        rw (u.1) (ground arith) in
      rw denied u
  respond-IsUnconfirmed (data_of arguments token now) message calls (c, g) not_yet u =
      guarded_query-IsUnconfirmed _ token message now calls c g u
  respond-IsUnconfirmed (sql_of arguments fuzzy token now) message calls (c, g) not_yet u =
      guarded_query-IsUnconfirmed _ token message now calls c g u

  is_confirmed_by-cons :
      (message : String) (q : MetricRequest) (qs : List MetricRequest)
      → is_confirmed_by message (q ∷ qs) ≡ false
      → (is_confirmed_by message (q ∷ []) ≡ false) × (is_confirmed_by message qs ≡ false)
  unfolding is_confirmed_by
  is_confirmed_by-cons message (preparing token app) qs h = ground arith
  is_confirmed_by-cons message (data_of arguments token now) qs h = (refl, h)
  is_confirmed_by-cons message (sql_of arguments fuzzy token now) qs h = (refl, h)

  -- From a context without a token, whatever tokens the model makes up, the server receives no call
  -- as long as no preparation names an application that the user's message confirms.
  pub respond_all-IsUnconfirmed :
      (qs : List MetricRequest) (message : String) (calls : List ToolCall)
      (s : MetricContext × Guard)
      → is_confirmed_by message qs ≡ false
      → IsUnconfirmed message calls s
      → IsUnconfirmed message calls (respond_all qs s)
  unfolding respond_all
  respond_all-IsUnconfirmed [] message calls s not_yet u = u
  respond_all-IsUnconfirmed (q ∷ qs) message calls s not_yet u =
      let (first, rest) = is_confirmed_by-cons message q qs not_yet in
      respond_all-IsUnconfirmed qs message calls (respond q s) rest
        (respond-IsUnconfirmed q message calls s first u)
