-- ===== src/Runtime/Context.antt =====
-- The budget of retrieval calls and the tool runs of `AgentRunContext`
-- (knowledge/agent_runtime/context.py).
pub mod Budget
pub mod Calls
pub mod Tools
use its_middle_platform_agen.Prelude.Table.{select_one}
use its_middle_platform_agen.Prelude.Table.TextKey.{has_key}
use its_middle_platform_agen.Prelude.{
  ◌++◌, ◌||◌, suc, ◌+◌, leb, is_some, ◌==◌, str_append, if◌then◌else◌, String, Option, List, Bool,
  ℕ, none, some, [], ◌∷◌,
}

-- The fields that the methods below read and write; a signature counts in the order of insertion.
pub record Retrievals : Type 0 where
  pub retrieval_signatures : List (String × ℕ)
  pub retrieval_call_count : ℕ

pub data Reservation : Type 0 where
  duplicate budget_exhausted allowed invalid_arguments : Reservation

-- The fields of a context that `to_dict` saved and `from_dict` reads again: neither is saved.
unfoldable pub restored : Retrievals → Retrievals
restored s = record { retrieval_signatures = []; retrieval_call_count = 0 }

-- The keyword arguments of `reserve_retrieval` that make the signature, and its limits.
pub record RetrievalCall : Type 0 where
  pub query : Option String
  pub app_id : Option String
  pub domain_id : Option String
  pub source_type : Option String
  pub branch : Option String
  pub task_type : Option String
  pub max_calls : Option ℕ
  pub max_identical_queries : ℕ

-- `*legacy_args`: none, the four (tool, query, max calls, max identical queries), or another number.
pub data LegacyArgs : Type 0 where
  no_legacy other_number : LegacyArgs
  four_legacy : String → Option String → Option ℕ → ℕ → LegacyArgs

unfoldable pub apply_legacy : LegacyArgs → RetrievalCall → Option RetrievalCall
apply_legacy no_legacy c = some c
apply_legacy other_number c = none
apply_legacy (four_legacy tool query max_calls max_identical) c =
    if is_some c.query || is_some c.max_calls
    then none
    else some record c {
      query = query;
      source_type = some tool;
      max_calls = max_calls;
      max_identical_queries = max_identical;
    }

-- `"\x1f".join(…)`, where `normalize` (NFKC, case folding and the letters and digits that are left)
-- is a parameter.
unfoldable pub join_fields : List String → String
join_fields [] = ""
join_fields (s ∷ []) = s
join_fields (s ∷ t ∷ ss) = str_append s (str_append "\u{1f}" (join_fields (t ∷ ss)))

abbrev pub signature : (Option String → String) → RetrievalCall → String
signature normalize c = join_fields (
    normalize c.query
    ∷ normalize c.app_id
    ∷ normalize c.domain_id
    ∷ normalize c.source_type
    ∷ normalize c.branch
    ∷ normalize c.task_type
    ∷ [])

-- `retrieval_signatures.get(signature, 0)`.
unfoldable pub count_of : String → List (String × ℕ) → ℕ
count_of key [] = 0
count_of key ((k, n) ∷ rest) = let later = count_of key rest in if k == key then n else later

-- `retrieval_signatures[signature] = …get(signature, 0) + 1`.
unfoldable pub add_one : String → List (String × ℕ) → List (String × ℕ)
add_one key [] = (key, 1) ∷ []
add_one key ((k, n) ∷ rest) =
    let later = add_one key rest in if k == key then (k, suc n) ∷ rest else (k, n) ∷ later

unfoldable pub reserve : String → ℕ → ℕ → Retrievals → Reservation × Retrievals
unfolding count_of add_one
reserve key max_calls max_identical s =
    if leb max_identical (count_of key s.retrieval_signatures)
    then (duplicate, s)
    else if leb max_calls s.retrieval_call_count
    then (budget_exhausted, s)
    else (
      allowed,
      record {
        retrieval_signatures = add_one key s.retrieval_signatures;
        retrieval_call_count = s.retrieval_call_count + 1;
      },
    )

abbrev pub reserve_call :
    (Option String → String) → Option RetrievalCall → Retrievals → Reservation × Retrievals
reserve_call normalize none s = (invalid_arguments, s)
reserve_call normalize (some c) s = elim c.max_calls [
  | none ↦ (invalid_arguments, s)
  | some max_calls ↦
      if is_some c.query
      then reserve (signature normalize c) max_calls c.max_identical_queries s
      else (invalid_arguments, s)
]

unfoldable pub reserve_retrieval :
    (Option String → String) → LegacyArgs → RetrievalCall → Retrievals → Reservation × Retrievals
unfolding apply_legacy reserve
reserve_retrieval normalize legacy c s = reserve_call normalize (apply_legacy legacy c) s

pub record ToolRun : Type 0 where
  pub tool_call_id : String
  pub tool_name : String
  pub agent_name : String
  pub status : String
  pub duration_ms : Option ℕ
  pub arguments : String

abbrev pub tool_key : ToolRun → String
tool_key r = r.tool_call_id

-- `for tool_run in reversed(self.tool_runs)`: the last run that passes the test is written.
unfoldable pub update_last : (ToolRun → Bool) → (ToolRun → ToolRun) → List ToolRun → List ToolRun
update_last test set [] = []
update_last test set (r ∷ rs) =
    let rest = update_last test set rs in
    if is_some (select_one test rs) then r ∷ rest else (if test r then set r else r) ∷ rs

abbrev pub restarted : String → String → String → ToolRun → ToolRun
restarted tool_name agent_name arguments r = record r {
  tool_name = tool_name;
  agent_name = agent_name;
  arguments = arguments;
}

abbrev pub new_tool_run : String → String → String → String → ToolRun
new_tool_run tool_call_id tool_name agent_name arguments = record {
  tool_call_id = tool_call_id;
  tool_name = tool_name;
  agent_name = agent_name;
  status = "started";
  duration_ms = none;
  arguments = arguments;
}

-- `arguments` is the value of `redact_mapping(arguments or {})`, an opaque text.
unfoldable pub start_tool : String → String → String → String → List ToolRun → List ToolRun
unfolding update_last
start_tool tool_call_id tool_name agent_name arguments rs =
    if is_some (select_one (has_key tool_key tool_call_id) rs)
    then update_last (has_key tool_key tool_call_id) (restarted tool_name agent_name arguments) rs
    else rs ++ new_tool_run tool_call_id tool_name agent_name arguments ∷ []

abbrev pub finished : String → Option ℕ → ToolRun → ToolRun
finished status duration_ms r = record r { status = status; duration_ms = duration_ms }

unfoldable pub finish_tool : String → String → Option ℕ → List ToolRun → List ToolRun
unfolding update_last
finish_tool tool_call_id status duration_ms rs =
    update_last (has_key tool_key tool_call_id) (finished status duration_ms) rs
