-- ===== src/Retrieval/Fusion/Ranking.antt =====
-- How many results `rank` gives, whatever the reranker does.
use its_middle_platform_agen.Prelude.Result.{err, ok, Result}
use its_middle_platform_agen.Retrieval.Circuit.{allow, NonRetryableProviderCircuit}
use its_middle_platform_agen.Retrieval.Documents.{
  RouteSearchResult, RerankScore, HybridRankResult, FinalSearchResult, MergedSearchCandidate,
}
use its_middle_platform_agen.Retrieval.Fusion.{
  merge, candidate_at, use_scores, or_fallback, Reranker, reranked, rank_candidates, rank, fallback,
  by_fusion, Floats,
}
use its_middle_platform_agen.Prelude.{
  zero, length-take-le, suc, Option-cases, Bool-cases, ◌≤◌, take, arith, String, length, ◌<◌,
  Option, List, ℕ, ◌≡◌, none, some, [], ◌∷◌, inl, inr, refl,
}

module _ {F : Type 0} (floats : Floats F) where
  by_fusion-length :
      (i : ℕ) (cs : List (MergedSearchCandidate F)) → length (by_fusion floats i cs) ≡ length cs
  unfolding by_fusion
  by_fusion-length i [] = refl
  by_fusion-length i (c ∷ cs) = omega (arith, by_fusion-length (suc i) cs)

  reranked-length :
      (cs : List (MergedSearchCandidate F)) (i : ℕ) (ss : List (RerankScore F))
      → length (reranked floats cs i ss) ≤ length ss
  unfolding reranked
  reranked-length cs i [] = omega arith
  reranked-length cs i (s ∷ ss) = elim (Option-cases (candidate_at floats cs s.index)) [
    | inl out ↦ rw (out, reranked) (omega (arith, reranked-length cs (suc i) ss))
    | inr (c, hit) ↦ rw (hit, reranked) (omega (arith, reranked-length cs (suc i) ss))
  ]

  -- A page of results: at most `top_k`, and at least one where there is a candidate and a place.
  abbrev pub IsPage : ℕ → List (MergedSearchCandidate F) → HybridRankResult F → Type 0
  IsPage top_k cs page =
      (length page.results ≤ top_k) × (0 < length cs → 0 < top_k → 0 < length page.results)

  fallback-IsPage :
      (top_k : ℕ) (cs : List (MergedSearchCandidate F)) → IsPage top_k cs (fallback floats top_k cs)
  unfolding fallback
  fallback-IsPage top_k cs =
      rw (by_fusion-length 1 (take top_k cs)) (length-take-le top_k cs, some_left top_k cs)
    where
      some_left :
          (n : ℕ) (xs : List (MergedSearchCandidate F))
          → 0 < length xs
          → 0 < n
          → 0 < length (take n xs)
      some_left zero xs a b = b
      some_left (suc n) [] a b = a
      some_left (suc n) (x ∷ xs) a b = omega arith

  or_fallback-IsPage :
      (top_k : ℕ) (cs : List (MergedSearchCandidate F)) (rs : List (FinalSearchResult F))
      → length rs ≤ top_k
      → IsPage top_k cs (or_fallback floats top_k cs rs)
  or_fallback-IsPage top_k cs [] few = fallback-IsPage top_k cs
  or_fallback-IsPage top_k cs (r ∷ rs) few = (few, λ a b. omega arith)

  use_scores-IsPage :
      (top_k clock : ℕ) (cs : List (MergedSearchCandidate F)) (c : NonRetryableProviderCircuit)
      (scores : Result {0, 0} (Option ℕ) (List (RerankScore F)))
      → IsPage top_k cs (use_scores floats top_k cs clock c scores).0
  use_scores-IsPage top_k clock cs c (ok scores) =
      or_fallback-IsPage top_k cs (reranked floats cs 1 (take top_k scores))
        (omega (arith, reranked-length cs 1 (take top_k scores), length-take-le top_k scores))
  use_scores-IsPage top_k clock cs c (err code) = fallback-IsPage top_k cs

  rank_candidates-IsPage :
      (reranker : Option (Reranker floats)) (query : String) (top_k clock : ℕ)
      (c : NonRetryableProviderCircuit) (cs : List (MergedSearchCandidate F))
      → IsPage top_k cs (rank_candidates floats reranker query top_k clock c cs).0
  unfolding rank_candidates
  rank_candidates-IsPage reranker query top_k clock c [] = (omega arith, λ a b. a)
  rank_candidates-IsPage none query top_k clock c (x ∷ cs) = fallback-IsPage top_k (x ∷ cs)
  rank_candidates-IsPage (some rerank) query top_k clock c (x ∷ cs) =
      elim (Bool-cases (allow clock c)) [
        | inl on ↦ rw on (use_scores-IsPage top_k clock (x ∷ cs) c (rerank query (x ∷ cs) top_k))
        | inr off ↦ rw off (fallback-IsPage top_k (x ∷ cs))
      ]

  rank-IsPage :
      (reranker : Option (Reranker floats)) (n : ℕ) (query : String)
      (keyword_results vector_results : List (RouteSearchResult F)) (top_k clock : ℕ)
      (c : NonRetryableProviderCircuit)
      → IsPage top_k
          (merge floats n keyword_results vector_results)
          (rank floats reranker n query keyword_results vector_results top_k clock c).0
  unfolding rank
  rank-IsPage reranker n query keyword_results vector_results top_k clock c =
      rank_candidates-IsPage reranker query top_k clock c
        (merge floats n keyword_results vector_results)

  -- Whatever the reranker does (it is missing, suspended, raises, or returns scores of any number
  -- and index), `rank` gives at most `top_k` results.
  pub rank-length :
      (reranker : Option (Reranker floats)) (n : ℕ) (query : String)
      (keyword_results vector_results : List (RouteSearchResult F)) (top_k clock : ℕ)
      (c : NonRetryableProviderCircuit)
      → length (rank floats reranker n query keyword_results vector_results top_k clock c).0.results
        ≤ top_k
  rank-length reranker n query keyword_results vector_results top_k clock c =
      (rank-IsPage reranker n query keyword_results vector_results top_k clock c).0

  -- Whatever the reranker does, `rank` gives a result when a candidate was merged and `top_k` is
  -- positive: a reranker that raises or returns no valid index costs no answer.
  pub rank_answers :
      (reranker : Option (Reranker floats)) (n : ℕ) (query : String)
      (keyword_results vector_results : List (RouteSearchResult F)) (top_k clock : ℕ)
      (c : NonRetryableProviderCircuit)
      → 0 < length (merge floats n keyword_results vector_results)
      → 0 < top_k
      → 0
        < length
            (rank floats reranker n query keyword_results vector_results top_k clock c).0.results
  rank_answers reranker n query keyword_results vector_results top_k clock c merged wanted =
      (rank-IsPage reranker n query keyword_results vector_results top_k clock c).1 merged wanted
