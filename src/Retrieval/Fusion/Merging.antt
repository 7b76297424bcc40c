-- ===== src/Retrieval/Fusion/Merging.antt =====
-- What `merge` keeps of the routes' results.
use its_middle_platform_agen.Prelude.Table.TextKey.{has_key}
use its_middle_platform_agen.Prelude.Table.{update_where, select_one, count_where}
use its_middle_platform_agen.Retrieval.Documents.{RouteSearchResult, MergedSearchCandidate}
use its_middle_platform_agen.Retrieval.Fusion.{
  new_candidate, add_hit, candidate_key, not_after, sorted, merge, insert_sorted, add_results,
  add_result, Floats,
}
use its_middle_platform_agen.Prelude.{
  ◌||◌, suc, eq→path, ◌∙◌, leb, ◌==◌, ◌≤◌, if◌then◌else◌, Bool, is_some, arith, Bool-cases, ◌++◌,
  List, String, ℕ, ◌≡◌, [], ◌∷◌, true, false, inl, inr, refl,
}

-- Whether a route returned the chunk.
unfoldable pub is_returned : {F : Type 0} → String → List (RouteSearchResult F) → Bool
is_returned k [] = false
is_returned k (r ∷ rs) = r.chunk_id == k || is_returned k rs

module _ {F : Type 0} (floats : Floats F) where
  abbrev pub count_chunk : String → List (MergedSearchCandidate F) → ℕ
  count_chunk k cs = count_where (has_key (candidate_key floats) k) cs

  found-count :
      (k : String) (cs : List (MergedSearchCandidate F))
      → is_some (select_one (has_key (candidate_key floats) k) cs) ≡ leb 1 (count_chunk k cs)
  unfolding select_one count_where
  found-count k [] = refl
  found-count k (c ∷ cs) = ground (arith, found-count k cs)

  count-update :
      (k i : String) (n : ℕ) (r : RouteSearchResult F) (cs : List (MergedSearchCandidate F))
      → count_chunk k (update_where (has_key (candidate_key floats) i) (add_hit floats n r) cs)
        ≡ count_chunk k cs
  unfolding update_where count_where
  count-update k i n r [] = refl
  count-update k i n r (c ∷ cs) = ground (arith, count-update k i n r cs)

  count-append :
      (k : String) (cs : List (MergedSearchCandidate F)) (c : MergedSearchCandidate F)
      → count_chunk k (cs ++ c ∷ [])
        ≡ (if c.chunk_id == k then suc (count_chunk k cs) else count_chunk k cs)
  unfolding count_where
  count-append k [] c = refl
  count-append k (x ∷ cs) c = ground (arith, count-append k cs c)

  add_result-count :
      (k : String) (n : ℕ) (r : RouteSearchResult F) (cs : List (MergedSearchCandidate F))
      → count_chunk k cs ≤ 1
      → count_chunk k (add_result floats n r cs) ≡ (if r.chunk_id == k then 1 else count_chunk k cs)
  unfolding add_result
  add_result-count k n r cs few =
      elim (Bool-cases (is_some (select_one (has_key (candidate_key floats) r.chunk_id) cs))) [
        | inl old ↦
            rw (old, add_result)
              (rw (count-update k r.chunk_id n r cs)
                (ground (arith, found-count r.chunk_id cs, eq→path r.chunk_id k)))
        | inr new ↦
            rw (new, add_result)
              (rw (count-append k cs (new_candidate floats n r))
                (ground (arith, found-count r.chunk_id cs, eq→path r.chunk_id k)))
      ]

  add_results-count :
      (k : String) (n : ℕ) (rs : List (RouteSearchResult F)) (cs : List (MergedSearchCandidate F))
      → count_chunk k cs ≤ 1
      → count_chunk k (add_results floats n rs cs)
        ≡ (if is_returned k rs then 1 else count_chunk k cs)
  unfolding add_results is_returned
  add_results-count k n [] cs few = refl
  add_results-count k n (r ∷ rs) cs few =
      let step = add_result-count k n r cs few in
      let few' : count_chunk k (add_result floats n r cs) ≤ 1 = rw step (ground arith) in
      ground (arith, step, add_results-count k n rs (add_result floats n r cs) few')

  insert_sorted-count :
      (k : String) (c : MergedSearchCandidate F) (cs : List (MergedSearchCandidate F))
      → count_chunk k (insert_sorted floats c cs) ≡ count_chunk k (c ∷ cs)
  unfolding insert_sorted count_where
  insert_sorted-count k c [] = refl
  insert_sorted-count k c (d ∷ ds) = ground (arith, insert_sorted-count k c ds)

  sorted-count :
      (k : String) (cs : List (MergedSearchCandidate F))
      → count_chunk k (sorted floats cs) ≡ count_chunk k cs
  unfolding sorted count_where
  sorted-count k [] = refl
  sorted-count k (c ∷ cs) =
      ground (arith, insert_sorted-count k c (sorted floats cs), sorted-count k cs)

  -- A chunk that a route returned is one candidate, however many routes and ranks returned it, and
  -- no other chunk is a candidate.
  pub merge-count :
      (k : String) (n : ℕ) (keyword_results vector_results : List (RouteSearchResult F))
      → count_chunk k (merge floats n keyword_results vector_results)
        ≡ (if is_returned k (keyword_results ++ vector_results) then 1 else 0)
  unfolding merge count_where
  merge-count k n keyword_results vector_results =
      sorted-count k (add_results floats n (keyword_results ++ vector_results) [])
      ∙ add_results-count k n (keyword_results ++ vector_results) [] (ground arith)

  -- Every two neighbours are in order.
  abbrev pub IsOrdered : List (MergedSearchCandidate F) → Type 0
  IsOrdered [] = Unit
  IsOrdered (c ∷ []) = Unit
  IsOrdered (c ∷ d ∷ ds) = (not_after floats c d ≡ true) × IsOrdered (d ∷ ds)

  -- What is documented of floats that are no NaN, and of the order of texts.
  abbrev pub IsTotal : Type 0
  IsTotal =
      (x y : MergedSearchCandidate F) → not_after floats x y ≡ false → not_after floats y x ≡ true

  insert_sorted-IsOrdered :
      (c : MergedSearchCandidate F) (cs : List (MergedSearchCandidate F))
      → IsTotal
      → IsOrdered cs
      → IsOrdered (insert_sorted floats c cs)
  unfolding insert_sorted
  insert_sorted-IsOrdered c [] total o = tt
  insert_sorted-IsOrdered c (d ∷ []) total o = elim (Bool-cases (not_after floats c d)) [
    | inl e ↦ rw e (e, tt)
    | inr e ↦ rw e (total c d e, tt)
  ]
  insert_sorted-IsOrdered c (d ∷ x ∷ xs) total o = elim (Bool-cases (not_after floats c d)) [
    | inl e ↦ rw e (e, o)
    | inr e ↦ rw e (elim (Bool-cases (not_after floats c x)) [
      | inl f ↦
          let later = insert_sorted-IsOrdered c (x ∷ xs) total o.1 in
          rw f (total c d e, rw f at later)
      | inr f ↦
          let later = insert_sorted-IsOrdered c (x ∷ xs) total o.1 in rw f (o.0, rw f at later)
    ])
  ]

  -- Where the sort key's order is total, the candidates come by decreasing fusion score, and by
  -- chunk id where scores are equal.
  pub merge-IsOrdered :
      (n : ℕ) (keyword_results vector_results : List (RouteSearchResult F))
      → IsTotal
      → IsOrdered (merge floats n keyword_results vector_results)
  unfolding merge
  merge-IsOrdered n keyword_results vector_results total =
      all (add_results floats n (keyword_results ++ vector_results) [])
    where
      all : (cs : List (MergedSearchCandidate F)) → IsOrdered (sorted floats cs)
      all [] = tt
      all (c ∷ cs) = insert_sorted-IsOrdered c (sorted floats cs) total (all cs)
