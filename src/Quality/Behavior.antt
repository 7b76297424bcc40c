-- ===== src/Quality/Behavior.antt =====
-- `BehaviorChecker` (knowledge/quality/behavior.py).
use its_middle_platform_agen.Prelude.{
  zero, suc, is_nil, ◌&&◌, not, ◌||◌, ◌==◌, if◌then◌else◌, contains, Bool, String, List, ℕ, [], ◌∷◌,
  false,
}

abbrev pub clarification_markers : List String
clarification_markers =
    "需要您确认" ∷ "确认后我可以" ∷ "请确认" ∷ "请您确认" ∷ "请提供" ∷ "请补充" ∷ "请您补充" ∷ "请描述" ∷ "请选择" ∷ "需要补充" ∷ "候选"
    ∷ "具体是" ∷ "请问您希望" ∷ "请问您想" ∷ "您希望从哪个" ∷ "请告诉我" ∷ "请问您关注" ∷ "建议你告诉我" ∷ "建议您告诉我" ∷ "请问您使用" ∷ []

abbrev pub refusal_markers : List String
refusal_markers =
    "服务范围" ∷ "不能查询" ∷ "不能执行" ∷ "无法协助" ∷ "不支持写" ∷ "不会执行" ∷ "不能泄露" ∷ "无法查询" ∷ "无法执行" ∷ []

-- `any(marker in text for marker in markers)`.
unfoldable pub has_marker : List String → String → Bool
has_marker [] answer = false
has_marker (m ∷ ms) answer = contains m answer || has_marker ms answer

-- `answer[:n]`.
unfoldable pub text_head : ℕ → String → String
text_head zero s = String.[]
text_head (suc n) String.[] = String.[]
text_head (suc n) (String.◌∷◌ c s) = String.◌∷◌ c (text_head n s)

unfoldable pub behavior_matches : String → String → List String → Bool
unfolding has_marker text_head
behavior_matches expected answer tool_names =
    let clarification = has_marker clarification_markers answer in
    let refusal = has_marker refusal_markers (text_head 240 answer) in
    if expected == "answer"
    then not refusal
    else if expected == "clarify"
    then clarification
    else if expected == "refuse"
    then refusal && is_nil tool_names
    else false
