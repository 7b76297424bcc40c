-- ===== src/Runtime/Routing.antt =====
-- `HybridDomainIntentRouter.route` of knowledge/agent_runtime/hybrid_intent_router.py. The rules'
-- decision and the language model's rewriting are arguments; `none` stands for its exception.
pub mod Domains
use its_middle_platform_agen.Prelude.Strip.{is_empty}
use its_middle_platform_agen.Prelude.{
  true, not, ◌||◌, false, ◌==◌, ◌++◌, if◌then◌else◌, Bool, String, Option, List, none, some, [],
  ◌∷◌,
}

-- `RoutingDecision` without its confidence and its duration, which are floats.
pub record RoutingDecision : Type 0 where
  pub domains : List String
  pub intent : String
  pub needs_clarification : Bool
  pub reason_codes : List String
  pub task_type : String
  pub route_source : String

-- What the router reads of the rewriting.
pub record Rewritten : Type 0 where
  pub domain_candidates : List String
  pub clarification_needed : Bool
  pub task_type : String

-- `_DOMAIN_IDS`.
unfoldable pub domain_id : String → Option String
domain_id v =
    if v == "指标平台" || v == "metric-platform"
    then some "metric-platform"
    else if v == "审批流" || v == "approval-flow"
    then some "approval-flow"
    else if v == "工作流" || v == "workflow"
    then some "workflow"
    else none

-- `_TASK_TYPES`.
abbrev pub is_task_type : String → Bool
is_task_type t =
    t == "unknown"
    || t == "how_to"
    || t == "api_contract"
    || t == "code_lookup"
    || t == "requirement_analysis"
    || t == "metric_query"
    || t == "bug"

-- `x in xs`.
unfoldable pub among : String → List String → Bool
among x [] = false
among x (y ∷ ys) = x == y || among x ys

abbrev pub add_new : String → List String → List String
add_new d ds = if among d ds then ds else ds ++ d ∷ []

-- `dict.fromkeys` keeps the first of equal ids.
unfoldable pub known_domains : List String → List String → List String
unfolding domain_id among
known_domains [] ds = ds
known_domains (v ∷ vs) ds = elim (domain_id v) [
  | none ↦ known_domains vs ds
  | some d ↦ known_domains vs (add_new d ds)
]

abbrev pub intent_of : List String → String
intent_of [] = "cross-domain"
intent_of (d ∷ []) = d
intent_of (d ∷ e ∷ ds) = "cross-domain"

-- The rewriting's task type, where it is a known one and not "unknown".
abbrev pub task_type_of : String → String → String
task_type_of t primary = if is_empty t || not (is_task_type t) || t == "unknown" then primary else t

unfoldable pub from_fallback : List String → Rewritten → RoutingDecision → RoutingDecision
from_fallback [] r primary = primary
from_fallback (d ∷ ds) r primary = record {
  domains = d ∷ ds;
  intent = intent_of (d ∷ ds);
  needs_clarification = r.clarification_needed;
  reason_codes = "flash_domain_fallback" ∷ [];
  task_type = task_type_of r.task_type primary.task_type;
  route_source = "flash_fallback";
}

abbrev pub or_primary : Option Rewritten → RoutingDecision → RoutingDecision
or_primary none primary = primary
or_primary (some r) primary = from_fallback (known_domains r.domain_candidates []) r primary

abbrev pub is_nonempty : List String → Bool
is_nonempty [] = false
is_nonempty (x ∷ xs) = true

-- `fallback` is none when the router has no model.
unfoldable pub route :
    (String → RoutingDecision) → Option (String → Option Rewritten) → String → RoutingDecision
unfolding known_domains from_fallback
route rules none message = rules message
route rules (some rewrite) message =
    if is_nonempty (rules message).domains || (rules message).intent == "bug"
    then rules message
    else or_primary (rewrite message) (rules message)
