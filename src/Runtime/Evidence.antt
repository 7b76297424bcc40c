-- ===== src/Runtime/Evidence.antt =====
-- `EvidencePolicy.classify` and `safeguard` of knowledge/agent_runtime/evidence_policy.py. The
-- searches by `re`, a third-party matter, are parameters.
pub mod Safeguards
use its_middle_platform_agen.Prelude.{
  str_append, ◌&&◌, ◌||◌, if◌then◌else◌, ◌==◌, String, List, Bool, [], ◌∷◌,
}

pub data EvidenceLevel : Type 0 where
  confirmed inferred not_found : EvidenceLevel

-- What the policy reads of a citation: `symbol` is the value of `str(metadata.get("symbol_kind") or
-- metadata.get("symbol_type") or "").casefold()`.
pub record CitationView : Type 0 where
  pub source_type : String
  pub explicit_limitation : Bool
  pub symbol : String

abbrev pub is_document : String → Bool
is_document t =
    t == "product_document"
    || t == "knowledge_chunk"
    || t == "swagger"
    || t == "mcp_tool"
    || t == "log_trace"

abbrev pub is_definition : String → Bool
is_definition t = t == "method" || t == "function" || t == "class" || t == "interface"

abbrev pub confirms : CitationView → Bool
confirms c =
    c.explicit_limitation
    || is_document c.source_type
    || (c.source_type == "code" && is_definition c.symbol)

unfoldable pub classify_items : List CitationView → EvidenceLevel
classify_items [] = inferred
classify_items (c ∷ cs) = let rest = classify_items cs in if confirms c then confirmed else rest

unfoldable pub classify : List CitationView → EvidenceLevel
unfolding classify_items
classify [] = not_found
classify (c ∷ cs) = classify_items (c ∷ cs)

-- `_SAFEGUARD` and the words that follow it in an answer.
abbrev pub safeguard_notice : String
safeguard_notice = "本次检索暂未找到该能力的明确实现，不能据此确认系统不支持。\n\n以下内容仅作为待验证线索："

-- `is_negative` is the search for the negative capability pattern; `unguarded` removes a leading
-- safeguard and the white space before the answer.
unfoldable pub safeguard : (String → Bool) → (String → String) → String → List CitationView → String
unfolding classify
safeguard is_negative unguarded answer citations = elim (classify citations) [
  | confirmed ↦ unguarded answer
  | inferred ↦ if is_negative answer then str_append safeguard_notice answer else answer
  | not_found ↦ if is_negative answer then str_append safeguard_notice answer else answer
]
