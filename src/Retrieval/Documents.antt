-- ===== src/Retrieval/Documents.antt =====
-- The search results of knowledge/schemas/documents.py. A metadata mapping is an opaque text, and
-- the type of floats is a parameter.
use its_middle_platform_agen.Prelude.Integers.{ℤ}
use its_middle_platform_agen.Prelude.{Option, Bool, String, List, ℕ}

pub record RouteSearchResult (F : Type 0) : Type 0 where
  pub retrieval_route : String
  pub rank : ℕ
  pub chunk_id : String
  pub heading : String
  pub content : String
  pub metadata : String
  pub raw_score : F
  pub score_type : String
  pub higher_is_better : Bool

pub record MergedSearchCandidate (F : Type 0) : Type 0 where
  pub chunk_id : String
  pub heading : String
  pub content : String
  pub metadata : String
  pub retrieval_routes : List String
  pub keyword_score : Option F
  pub vector_distance : Option F
  pub fusion_score : F

pub record RerankScore (F : Type 0) : Type 0 where
  pub index : ℤ
  pub relevance_score : F

pub record FinalSearchResult (F : Type 0) : Type 0 where
  pub rank : ℕ
  pub chunk_id : String
  pub heading : String
  pub content : String
  pub metadata : String
  pub retrieval_routes : List String
  pub keyword_score : Option F
  pub vector_distance : Option F
  pub fusion_score : F
  pub rerank_score : Option F

pub record HybridRankResult (F : Type 0) : Type 0 where
  pub results : List (FinalSearchResult F)
  pub rerank_applied : Bool
