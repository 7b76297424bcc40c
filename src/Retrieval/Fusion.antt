-- ===== src/Retrieval/Fusion.antt =====
-- `HybridRerankService` of knowledge/services/hybrid_rerank_service.py. Python's
-- floats are a parameter, and so is the external reranker.
pub mod Merging
pub mod Ranking
use its_middle_platform_agen.Retrieval.Documents.{
  RerankScore, HybridRankResult, FinalSearchResult, RouteSearchResult, MergedSearchCandidate,
}
use its_middle_platform_agen.Prelude.Table.TextKey.{has_key}
use its_middle_platform_agen.Prelude.Table.{update_where, select_one}
use its_middle_platform_agen.Prelude.Result.{err, ok, Result}
use its_middle_platform_agen.Prelude.Integers.{pos, negsuc, ℤ}
use its_middle_platform_agen.Retrieval.Circuit.{
  record_failure, record_success, NonRetryableProviderCircuit, allow,
}
use its_middle_platform_agen.Prelude.{
  zero, text_leb, ◌||◌, true, take, suc, not, is_some, false, ◌++◌, ◌&&◌, if◌then◌else◌, String,
  Option, List, Bool, ◌==◌, ◌+◌, ℕ, none, some, [], ◌∷◌,
}

-- What the service asks of floats: `1.0 / n`, `+` and `<=`.
pub record Floats (F : Type 0) : Type 0 where
  pub one_over : ℕ → F
  pub plus : F → F → F
  pub le : F → F → Bool

-- `x in xs` for texts.
unfoldable pub in_list : String → List String → Bool
in_list x [] = false
in_list x (y ∷ ys) = x == y || in_list x ys

module _ {F : Type 0} (floats : Floats F) where
  abbrev pub candidate_key : MergedSearchCandidate F → String
  candidate_key c = c.chunk_id

  abbrev pub contribution : ℕ → RouteSearchResult F → F
  contribution rrf_k r = floats.one_over (rrf_k + r.rank)

  abbrev pub score_if : Bool → F → Option F → Option F
  score_if b x other = if b then some x else other

  abbrev pub new_candidate : ℕ → RouteSearchResult F → MergedSearchCandidate F
  new_candidate rrf_k r = record {
    chunk_id = r.chunk_id;
    heading = r.heading;
    content = r.content;
    metadata = r.metadata;
    retrieval_routes = r.retrieval_route ∷ [];
    keyword_score = score_if (r.retrieval_route == "keyword") r.raw_score none;
    vector_distance = score_if (r.retrieval_route == "vector") r.raw_score none;
    fusion_score = contribution rrf_k r;
  }

  abbrev pub add_hit : ℕ → RouteSearchResult F → MergedSearchCandidate F → MergedSearchCandidate F
  add_hit rrf_k r c = record c {
    retrieval_routes =
        if not (in_list r.retrieval_route c.retrieval_routes)
        then c.retrieval_routes ++ r.retrieval_route ∷ []
        else c.retrieval_routes;
    keyword_score = score_if (r.retrieval_route == "keyword") r.raw_score c.keyword_score;
    vector_distance = score_if (r.retrieval_route == "vector") r.raw_score c.vector_distance;
    fusion_score = floats.plus c.fusion_score (contribution rrf_k r);
  }

  -- One turn of the loop; the `dict` by chunk is a table in the order of insertion.
  unfoldable pub add_result :
      ℕ → RouteSearchResult F → List (MergedSearchCandidate F) → List (MergedSearchCandidate F)
  add_result rrf_k r cs =
      if is_some (select_one (has_key candidate_key r.chunk_id) cs)
      then update_where (has_key candidate_key r.chunk_id) (add_hit rrf_k r) cs
      else cs ++ new_candidate rrf_k r ∷ []

  unfoldable pub add_results :
      ℕ
      → List (RouteSearchResult F)
      → List (MergedSearchCandidate F)
      → List (MergedSearchCandidate F)
  unfolding add_result
  add_results rrf_k [] cs = cs
  add_results rrf_k (r ∷ rs) cs = add_results rrf_k rs (add_result rrf_k r cs)

  -- The sort key `(-fusion_score, chunk_id)`.
  abbrev pub not_after : MergedSearchCandidate F → MergedSearchCandidate F → Bool
  not_after a b =
      floats.le b.fusion_score a.fusion_score
      && (not (floats.le a.fusion_score b.fusion_score) || text_leb a.chunk_id b.chunk_id)

  unfoldable pub insert_sorted :
      MergedSearchCandidate F → List (MergedSearchCandidate F) → List (MergedSearchCandidate F)
  insert_sorted c [] = c ∷ []
  insert_sorted c (d ∷ ds) =
      let rest = insert_sorted c ds in if not_after c d then c ∷ d ∷ ds else d ∷ rest

  unfoldable pub sorted : List (MergedSearchCandidate F) → List (MergedSearchCandidate F)
  unfolding insert_sorted
  sorted [] = []
  sorted (c ∷ cs) = insert_sorted c (sorted cs)

  unfoldable pub merge :
      ℕ → List (RouteSearchResult F) → List (RouteSearchResult F) → List (MergedSearchCandidate F)
  unfolding add_results sorted
  merge rrf_k keyword_results vector_results =
      sorted (add_results rrf_k (keyword_results ++ vector_results) [])

  abbrev pub final_result : MergedSearchCandidate F → ℕ → Option F → FinalSearchResult F
  final_result c rank rerank_score = record {
    rank = rank;
    chunk_id = c.chunk_id;
    heading = c.heading;
    content = c.content;
    metadata = c.metadata;
    retrieval_routes = c.retrieval_routes;
    keyword_score = c.keyword_score;
    vector_distance = c.vector_distance;
    fusion_score = c.fusion_score;
    rerank_score = rerank_score;
  }

  -- `candidates[i]` where `0 <= i < len(candidates)`.
  unfoldable pub candidate_at :
      List (MergedSearchCandidate F) → ℤ → Option (MergedSearchCandidate F)
  candidate_at cs (negsuc n) = none
  candidate_at [] (pos n) = none
  candidate_at (c ∷ cs) (pos zero) = some c
  candidate_at (c ∷ cs) (pos (suc n)) = candidate_at cs (pos n)

  -- The comprehension over the scores: the rank counts the scores that are left out too.
  unfoldable pub reranked :
      List (MergedSearchCandidate F) → ℕ → List (RerankScore F) → List (FinalSearchResult F)
  unfolding candidate_at
  reranked cs rank [] = []
  reranked cs rank (s ∷ ss) =
      let rest = reranked cs (suc rank) ss in
      elim (candidate_at cs s.index) [
        | none ↦ rest
        | some c ↦ final_result c rank (some s.relevance_score) ∷ rest
      ]

  unfoldable pub by_fusion : ℕ → List (MergedSearchCandidate F) → List (FinalSearchResult F)
  by_fusion rank [] = []
  by_fusion rank (c ∷ cs) = final_result c rank none ∷ by_fusion (suc rank) cs

  unfoldable pub fallback : ℕ → List (MergedSearchCandidate F) → HybridRankResult F
  unfolding by_fusion
  fallback top_k cs = record { results = by_fusion 1 (take top_k cs); rerank_applied = false }

  abbrev pub or_fallback :
      ℕ → List (MergedSearchCandidate F) → List (FinalSearchResult F) → HybridRankResult F
  or_fallback top_k cs [] = fallback top_k cs
  or_fallback top_k cs (r ∷ rs) = record { results = r ∷ rs; rerank_applied = true }

  -- `reranker.rerank`: its scores, or the status code of the exception that it raises.
  abbrev pub Reranker : Type 0
  Reranker =
      String → List (MergedSearchCandidate F) → ℕ → Result {0, 0} (Option ℕ) (List (RerankScore F))

  abbrev pub use_scores :
      ℕ
      → List (MergedSearchCandidate F)
      → ℕ
      → NonRetryableProviderCircuit
      → Result {0, 0} (Option ℕ) (List (RerankScore F))
      → HybridRankResult F × NonRetryableProviderCircuit
  use_scores top_k cs clock circuit (ok scores) =
      (or_fallback top_k cs (reranked cs 1 (take top_k scores)), record_success circuit)
  use_scores top_k cs clock circuit (err status_code) =
      (fallback top_k cs, record_failure status_code clock circuit)

  -- `rank` on the candidates of `merge`. `clock` is the circuit's reading of the clock.
  unfoldable pub rank_candidates :
      Option Reranker
      → String
      → ℕ
      → ℕ
      → NonRetryableProviderCircuit
      → List (MergedSearchCandidate F)
      → HybridRankResult F × NonRetryableProviderCircuit
  unfolding allow reranked fallback
  rank_candidates reranker query top_k clock circuit [] =
      (record { results = []; rerank_applied = false }, circuit)
  rank_candidates none query top_k clock circuit (c ∷ cs) = (fallback top_k (c ∷ cs), circuit)
  rank_candidates (some rerank) query top_k clock circuit (c ∷ cs) =
      if allow clock circuit
      then use_scores top_k (c ∷ cs) clock circuit (rerank query (c ∷ cs) top_k)
      else (fallback top_k (c ∷ cs), circuit)

  unfoldable pub rank :
      Option Reranker
      → ℕ
      → String
      → List (RouteSearchResult F)
      → List (RouteSearchResult F)
      → ℕ
      → ℕ
      → NonRetryableProviderCircuit
      → HybridRankResult F × NonRetryableProviderCircuit
  unfolding merge rank_candidates
  rank reranker rrf_k query keyword_results vector_results top_k clock circuit =
      rank_candidates reranker query top_k clock circuit
        (merge rrf_k keyword_results vector_results)
