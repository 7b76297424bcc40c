-- ===== src/Runtime/Routing/Domains.antt =====
-- Which decision the hybrid router takes, and the domains that its model may choose
-- (knowledge/agent_runtime/hybrid_intent_router.py).
use Prim.Native.String.{
  ◌∷◌, ◌∷◌, ◌∷◌, ◌∷◌, ◌∷◌, ◌∷◌, ◌∷◌, ◌∷◌, ◌∷◌, ◌∷◌, ◌∷◌, ◌∷◌, ◌∷◌, ◌∷◌, ◌∷◌, ◌∷◌, ◌∷◌, ◌∷◌, ◌∷◌,
}
use mathlib.Core.Path.{subst}
use its_middle_platform_agen.Prelude.Table.Laws.{All-append}
use its_middle_platform_agen.Runtime.Routing.{
  or_primary, intent_of, is_nonempty, add_new, RoutingDecision, Rewritten, route, known_domains,
  from_fallback, domain_id, among,
}
use its_middle_platform_agen.Prelude.{
  sym, ◌⊎◌, eq→path, ap, eq_comm, ◌∙◌, arith, ◌||◌, Option, ◌==◌, Option-cases, Bool-cases, Bool,
  All, ◌++◌, String, List, ◌≡◌, none, some, [], ◌∷◌, true, false, inl, inr, refl,
}

abbrev pub is_domain : String → Bool
is_domain d = d == "metric-platform" || d == "approval-flow" || d == "workflow"

-- Whether a text stands twice in the list.
unfoldable pub is_repeated : List String → Bool
unfolding among
is_repeated [] = false
is_repeated (d ∷ ds) = among d ds || is_repeated ds

-- Ids of domains, without repetition.
abbrev pub AreDomains : List String → Type 0
AreDomains ds = All (λ d. is_domain d ≡ true) ds × (is_repeated ds ≡ false)

given : (a b : String) → ◌≡◌ {A = Option String} (some a) (some b) → a ≡ b
given a b e = ap (λ (o : Option String). elim o [ none ↦ a | some x ↦ x ]) e

domain_id-is_domain : (v d : String) → domain_id v ≡ some d → is_domain d ≡ true
unfolding domain_id
domain_id-is_domain v d h = elim (Bool-cases (v == "指标平台" || v == "metric-platform")) [
  | inl a ↦
      let e : ◌≡◌ {A = Option String} (some "metric-platform") (some d) = rw a at h in
      subst (λ x. is_domain x ≡ true) (given _ _ e) refl
  | inr a ↦ elim (Bool-cases (v == "审批流" || v == "approval-flow")) [
    | inl b ↦
        let e : ◌≡◌ {A = Option String} (some "approval-flow") (some d) = rw b at (rw a at h) in
        subst (λ x. is_domain x ≡ true) (given _ _ e) refl
    | inr b ↦ elim (Bool-cases (v == "工作流" || v == "workflow")) [
      | inl c ↦
          let e : ◌≡◌ {A = Option String} (some "workflow") (some d) =
            rw c at (rw b at (rw a at h)) in
          subst (λ x. is_domain x ≡ true) (given _ _ e) refl
      | inr c ↦
          let e : ◌≡◌ {A = Option String} none (some d) = rw c at (rw b at (rw a at h)) in
          absurd (ground arith)
    ]
  ]
]

among-append : (x d : String) (ds : List String) → among x (ds ++ d ∷ []) ≡ (among x ds || x == d)
unfolding among
among-append x d [] = ground arith
among-append x d (y ∷ ds) = ground (arith, among-append x d ds)

is_repeated-append :
    (d : String) (ds : List String) → is_repeated (ds ++ d ∷ []) ≡ (is_repeated ds || among d ds)
unfolding is_repeated among
is_repeated-append d [] = refl
is_repeated-append d (x ∷ ds) =
    ground (arith, is_repeated-append d ds, among-append x d ds, eq_comm x d)

add_new-AreDomains :
    (d : String) (ds : List String) → is_domain d ≡ true → AreDomains ds → AreDomains (add_new d ds)
add_new-AreDomains d ds named a = elim (Bool-cases (among d ds)) [
  | inl there ↦ rw there a
  | inr new ↦
      rw new (
        All-append (λ x. is_domain x ≡ true) ds d a.0 named,
        is_repeated-append d ds ∙ ground arith,
      )
]

known_domains-AreDomains : (vs ds : List String) → AreDomains ds → AreDomains (known_domains vs ds)
unfolding known_domains
known_domains-AreDomains [] ds a = a
known_domains-AreDomains (v ∷ vs) ds a = elim (Option-cases (domain_id v)) [
  | inl unknown ↦ rw (unknown, known_domains) (known_domains-AreDomains vs ds a)
  | inr (d, known) ↦
      rw (known, known_domains)
        (known_domains-AreDomains vs (add_new d ds)
          (add_new-AreDomains d ds (domain_id-is_domain v d known) a))
]

-- Whether one of the names that the model proposes stands for the domain.
unfoldable pub is_named : String → List String → Bool
unfolding domain_id
is_named d [] = false
is_named d (v ∷ vs) = (elim (domain_id v) [ none ↦ false | some x ↦ d == x ]) || is_named d vs

-- The names that the model proposes: none without a model, or when it fails.
abbrev pub proposals : Option (String → Option Rewritten) → String → List String
proposals none message = []
proposals (some rewrite) message = elim (rewrite message) [
  | none ↦ []
  | some r ↦ r.domain_candidates
]

among-add_new : (x d : String) (ds : List String) → among x (add_new d ds) ≡ (among x ds || x == d)
among-add_new x d ds = elim (Bool-cases (among d ds)) [
  | inl there ↦ rw there (elim (Bool-cases (x == d)) [
    | inl same ↦ let e = eq→path x d same in let h : among x ds ≡ true = rw e there in rw h refl
    | inr other ↦ rw other (ground arith)
  ])
  | inr new ↦ rw new (among-append x d ds)
]

among-known_domains :
    (x : String) (vs ds : List String)
    → among x (known_domains vs ds) ≡ (among x ds || is_named x vs)
unfolding known_domains is_named
among-known_domains x [] ds = ground arith
among-known_domains x (v ∷ vs) ds = elim (Option-cases (domain_id v)) [
  | inl unknown ↦ rw (unknown, known_domains, is_named) (among-known_domains x vs ds)
  | inr (d, known) ↦
      rw (known, known_domains, is_named)
        (among-known_domains x vs (add_new d ds) ∙ ground (arith, among-add_new x d ds))
]

-- The rules found a domain, or an error to diagnose.
abbrev pub is_settled : RoutingDecision → Bool
is_settled primary = is_nonempty primary.domains || primary.intent == "bug"

-- The model's decision: the domains that it named, some of them known, each once.
pub record Falls (vs : List String) (primary out : RoutingDecision) : Type 0 where
  pub unsettled : is_settled primary ≡ false
  pub nonempty : is_nonempty out.domains ≡ true
  pub domains : AreDomains out.domains
  pub named : (d : String) → among d out.domains ≡ is_named d vs
  pub intent : out.intent ≡ intent_of out.domains

-- The rules' decision stays: they settled the message, or the model named no known domain.
abbrev pub Stays : List String → RoutingDecision → RoutingDecision → Type 0
Stays vs primary out =
    (out ≡ primary) × ((is_settled primary ≡ true) ⊎ ((d : String) → is_named d vs ≡ false))

from_fallback_lem :
    (ds : List String) (r : Rewritten) (primary : RoutingDecision) (vs : List String)
    → is_settled primary ≡ false
    → AreDomains ds
    → ((d : String) → among d ds ≡ is_named d vs)
    → Stays vs primary (from_fallback ds r primary) ⊎ Falls vs primary (from_fallback ds r primary)
unfolding from_fallback among
from_fallback_lem [] r primary vs unsure a named = inl (refl, inr (λ d. sym (named d)))
from_fallback_lem (d ∷ ds) r primary vs unsure a named =
    inr (record { unsettled = unsure; nonempty = refl; domains = a; named = named; intent = refl })

asked :
    (rules : String → RoutingDecision) (rewrite : String → Option Rewritten) (message : String)
    → is_settled (rules message) ≡ false
    → route rules (some rewrite) message ≡ or_primary (rewrite message) (rules message)
unfolding route
asked rules rewrite message unsure = rw unsure refl

-- Whatever the rules decide and the language model proposes, the router's decision is one of two.
-- The rules' own, unchanged, their domains of any name: just when they found a domain or the intent
-- "bug", or there is no model, it failed, or none of the names that it proposed is known. Else the
-- model's: its domains are those of the three known ones that it named, at least one and each once,
-- and the intent is the single domain or "cross-domain".
pub route_lem :
    (rules : String → RoutingDecision) (rewrite : Option (String → Option Rewritten))
    (message : String)
    → Stays (proposals rewrite message) (rules message) (route rules rewrite message)
      ⊎ Falls (proposals rewrite message) (rules message) (route rules rewrite message)
unfolding route is_repeated is_named among
route_lem rules none message = inl (refl, inr (λ d. refl))
route_lem rules (some rewrite) message = elim (Bool-cases (is_settled (rules message))) [
  | inl sure ↦ inl (rw sure refl, inl sure)
  | inr unsure ↦ elim (Option-cases (rewrite message)) [
    | inl failed ↦ rw (asked rules rewrite message unsure) (rw failed (inl (refl, inr (λ d. refl))))
    | inr (r, e) ↦ rw (asked rules rewrite message unsure) (
        rw e (
          from_fallback_lem (known_domains r.domain_candidates []) r (rules message)
            r.domain_candidates unsure (known_domains-AreDomains r.domain_candidates [] (tt, refl))
            (λ d. among-known_domains d r.domain_candidates [])))
  ]
]
