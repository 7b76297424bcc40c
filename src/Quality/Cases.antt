-- ===== src/Quality/Cases.antt =====
-- The methods of `QualityRepository` (knowledge/quality/repository.py) on `eval_cases`. `has_turn`
-- says whether the foreign key names a turn; SQLite's order of cases with one `created_at` is not
-- specified, here it is that of the table.
use its_middle_platform_agen.Prelude.Strip.{strip, is_empty}
use its_middle_platform_agen.Prelude.Table.{
  count_where, select_all, order_by, update_where, select_one, delete_where,
}
use its_middle_platform_agen.Prelude.{
  ◌||◌, eqb, not, leb, is_some, List, ◌++◌, if◌then◌else◌, Bool, ◌+◌, String, Option, ℕ, none, some,
  [], ◌∷◌, true, false,
}
use its_middle_platform_agen.Prelude.Result.{Result, ok, err}
use its_middle_platform_agen.Quality.Records.{
  run_time_error, quality_not_found_error, constraint_error, result_of_case, blank_value_error,
  case_by_id, Evaluations, EvalCaseCreate, QualityError, EvalCase, Outcome,
}

-- `QualityRepository._optional`.
abbrev pub optional : Option String → Option String
optional none = none
optional (some s) = if is_empty (strip s) then none else some (strip s)

-- The row of the columns that `_json` and `int` write, as `_eval_case_from_row` reads it.
abbrev pub case_row : String → EvalCaseCreate → ℕ → EvalCase
case_row case_id value now = record {
  id = case_id;
  source_turn_id = optional value.source_turn_id;
  name = value.name;
  question = value.question;
  knowledge_space_id = value.knowledge_space_id;
  domain_id = optional value.domain_id;
  required_tools = value.required_tools;
  required_citation_types = value.required_citation_types;
  required_facts = value.required_facts;
  forbidden_facts = value.forbidden_facts;
  tags = value.tags;
  enabled = value.enabled;
  expected_behavior = value.expected_behavior;
  max_latency_ms = value.max_latency_ms;
  max_tool_calls = value.max_tool_calls;
  max_citations = value.max_citations;
  created_at = now;
  updated_at = now;
  turns = value.turns;
  task_type = value.task_type;
  suite = value.suite;
  priority = value.priority;
  approval_state = value.approval_state;
  version = 1;
}

-- The columns that `update_eval_case` sets.
abbrev pub replaced_case : EvalCase → EvalCase → EvalCase
replaced_case new old = record new {
  id = old.id;
  source_turn_id = old.source_turn_id;
  created_at = old.created_at;
  version = old.version + 1;
}

-- The columns that the upsert's `DO UPDATE` sets: the source turn too.
abbrev pub upserted_case : EvalCase → EvalCase → EvalCase
upserted_case new old = record new {
  id = old.id;
  created_at = old.created_at;
  version = old.version + 1;
}

abbrev pub case_found : QualityError → Option EvalCase → Result QualityError EvalCase
case_found e none = err e
case_found e (some c) = ok c

abbrev pub newer_case : EvalCase → EvalCase → Bool
newer_case a b = leb b.created_at a.created_at

abbrev pub is_enabled_as : Option Bool → EvalCase → Bool
is_enabled_as none c = true
is_enabled_as (some wanted) c = if wanted then c.enabled else not c.enabled

unfoldable pub list_eval_cases : Option Bool → Evaluations → List EvalCase
list_eval_cases enabled db = order_by newer_case (select_all (is_enabled_as enabled) db.cases)

unfoldable pub get_eval_case : String → Evaluations → Option EvalCase
get_eval_case case_id db = select_one (case_by_id case_id) db.cases

abbrev pub breaks_case : (String → Bool) → EvalCase → Bool
breaks_case has_turn c = elim c.source_turn_id [ none ↦ false | some t ↦ not (has_turn t) ]

unfoldable pub create_eval_case :
    (String → Bool) → String → EvalCaseCreate → ℕ → Evaluations → Outcome EvalCase
unfolding list_eval_cases
create_eval_case has_turn case_id value now db =
    let c = case_row case_id value now in
    let db' : Evaluations = record db { cases = db.cases ++ c ∷ [] } in
    if is_some (select_one (case_by_id case_id) db.cases) || breaks_case has_turn c
    then (err constraint_error, db)
    else (
      case_found run_time_error (select_one (case_by_id case_id) (list_eval_cases none db')),
      db',
    )

unfoldable pub upsert_eval_case :
    (String → Bool) → String → EvalCaseCreate → ℕ → Evaluations → Outcome EvalCase
unfolding get_eval_case
upsert_eval_case has_turn case_id value now db =
    let c = case_row case_id value now in
    let written : Evaluations = record db {
      cases =
          if is_some (select_one (case_by_id case_id) db.cases)
          then update_where (case_by_id case_id) (upserted_case c) db.cases
          else db.cases ++ c ∷ [];
    } in
    if is_empty (strip case_id)
    then (err blank_value_error, db)
    else if breaks_case has_turn c
    then (err constraint_error, db)
    else (case_found run_time_error (get_eval_case case_id written), written)

unfoldable pub update_eval_case : String → EvalCaseCreate → ℕ → Evaluations → Outcome EvalCase
unfolding get_eval_case
update_eval_case case_id value now db =
    let written : Evaluations = record db {
      cases =
          update_where (case_by_id case_id) (replaced_case (case_row case_id value now)) db.cases;
    } in
    if eqb (count_where (case_by_id case_id) db.cases) 0
    then (err quality_not_found_error, db)
    else (case_found quality_not_found_error (get_eval_case case_id written), written)

-- The deletion cascades to the results of the case.
unfoldable pub delete_eval_case : String → Evaluations → Evaluations
delete_eval_case case_id db = record db {
  cases = delete_where (case_by_id case_id) db.cases;
  results = delete_where (result_of_case case_id) db.results;
}
