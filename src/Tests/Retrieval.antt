-- ===== src/Tests/Retrieval.antt =====
-- Tests of the fusion of search results.
use Prim.Native.String.{◌∷◌, ◌∷◌, ◌∷◌, ◌∷◌, ◌∷◌, ◌∷◌, ◌∷◌, ◌∷◌, ◌∷◌, ◌∷◌, ◌∷◌, ◌∷◌}
use its_middle_platform_agen.Prelude.Table.{update_where, select_one}
use its_middle_platform_agen.Retrieval.Fusion.Ranking.{rank_answers}
use its_middle_platform_agen.Prelude.Integers.{pos}
use its_middle_platform_agen.Prelude.Result.{ok}
use its_middle_platform_agen.Retrieval.Documents.{RouteSearchResult}
use its_middle_platform_agen.Retrieval.Fusion.Merging.{merge-count, is_returned, count_chunk}
use its_middle_platform_agen.Retrieval.Circuit.{NonRetryableProviderCircuit}
use its_middle_platform_agen.Retrieval.Fusion.{
  in_list, insert_sorted, sorted, add_result, rank, add_results, merge, Reranker, Floats,
}
use its_middle_platform_agen.Prelude.{
  leb, arith, ◌++◌, ◌+◌, if◌then◌else◌, ◌-◌, length, String, List, ◌<◌, ℕ, ◌≡◌, some, [], ◌∷◌, true,
}

-- Scores in millionths stand for floats.
abbrev scores : Floats ℕ
scores = record { one_over = λ n. 1000000 - n; plus = λ a b. a + b; le = leb }

abbrev hit : String → String → ℕ → RouteSearchResult ℕ
hit route chunk place = record {
  retrieval_route = route;
  rank = place;
  chunk_id = chunk;
  heading = "";
  content = "";
  metadata = "{}";
  raw_score = place;
  score_type = route;
  higher_is_better = true;
}

abbrev by_keyword : List (RouteSearchResult ℕ)
by_keyword = hit "keyword" "a" 1 ∷ hit "keyword" "b" 2 ∷ []

abbrev by_vector : List (RouteSearchResult ℕ)
by_vector = hit "vector" "b" 1 ∷ []

merge-count_example :
    count_chunk scores "b" (merge scores 60 by_keyword by_vector)
    ≡ (if is_returned "b" (by_keyword ++ by_vector) then 1 else 0)
merge-count_example = merge-count scores "b" 60 by_keyword by_vector

-- A reranker that returns an index out of range.
abbrev strays : Reranker scores
strays query cs top_k = ok (record { index = pos 9; relevance_score = 1 } ∷ [])

abbrev closed : NonRetryableProviderCircuit
closed = record { cooldown_seconds = 60; retry_at = 0 }

merged_some : 0 < length (merge scores 60 by_keyword by_vector)
unfolding merge add_results add_result sorted insert_sorted select_one update_where in_list
merged_some = omega arith

rank_answers_example :
    0 < length (rank scores (some strays) 60 "q" by_keyword by_vector 1 5 closed).0.results
rank_answers_example =
    rank_answers scores (some strays) 60 "q" by_keyword by_vector 1 5 closed merged_some
      (omega arith)
