-- ===== src/Tests/Candidates.antt =====
-- Candidates and memories at concrete inputs.
use its_middle_platform_agen.Memory.Promotions.Reviews as Reviews
use its_middle_platform_agen.Memory.Promotions.Reviews.{review_is_final, review}
use its_middle_platform_agen.Memory.Promotions.{
  is_same_request, review_domain_promotion, insert_promotion, get_domain_promotion, DomainPromotion,
  reviewed,
}
use its_middle_platform_agen.Prelude.Result.{ok}
use its_middle_platform_agen.Prelude.Strip.{is_empty, strip}
use its_middle_platform_agen.Prelude.Table.{update_where, select_all, count_where, select_one}
use its_middle_platform_agen.Memory.Merging.{
  classify_merge_memory, merge_memories, no_counts, merge_owners, merge_user_owner, MergeCounts,
}
use its_middle_platform_agen.Memory.Merging.Owners.{merge_user_owner-ok, Leaves}
use its_middle_platform_agen.Memory.Candidates.Slots.{IsConsistent}
use its_middle_platform_agen.Memory.Records.{in_slot, MemoryCandidate, Store, Slot, candidate}
use its_middle_platform_agen.Memory.Candidates.{
  get_memory, get_candidate, write_approval, confirmed_memory, approve_candidate,
}
use its_middle_platform_agen.Memory.History.{memories-IsConsistent, here, next, approve, merge}
use its_middle_platform_agen.Prelude.{
  ap, sym, ◌∙◌, arith, eq→path, Bool-cases, ◌≤◌, ◌==◌, String, ◌≡◌, none, some, [], ◌∷◌, true,
  false, inl, inr, refl,
}

abbrev fact : String → String → String → MemoryCandidate
fact i owner said = record {
  id = i;
  scope_type = "user";
  owner_id = owner;
  space_id = "middle-platform";
  domain_id = none;
  memory_type = "user_preference";
  subject = "language";
  normalized_fact = said;
  summary = said;
  source_turn_id = none;
  source_citations = [];
  confidence = "0.9";
  status = candidate;
  expires_at = none;
  created_at = 1;
  updated_at = 1;
}

abbrev store : Store
store = record {
  memories =
      confirmed_memory (fact "m1" "anon" "Go") none none 1
      ∷ confirmed_memory (fact "m2" "user" "Rust") none none 1
      ∷ [];
  candidates = fact "m3" "anon" "Java" ∷ [];
  audit = [];
  jobs = [];
  summaries = [];
  conflicts = [];
}

one_each : (k : Slot) → count_where (in_slot k) store.memories ≤ 1
unfolding count_where
one_each k =
    let first = confirmed_memory (fact "m1" "anon" "Go") none none 1 in
    let second = confirmed_memory (fact "m2" "user" "Rust") none none 1 in
    elim (Bool-cases (in_slot k first)) [
      | inr miss ↦ rw miss (elim (Bool-cases (in_slot k second)) [
        | inr miss' ↦ rw miss' (omega arith)
        | inl hit' ↦ rw hit' (omega arith)
      ])
      | inl hit ↦ elim (Bool-cases (in_slot k second)) [
        | inr miss' ↦ rw hit (rw miss' (omega arith))
        | inl hit' ↦
            let e : "anon" ≡ "user" =
              eq→path "anon" k.owner_id (ground arith)
              ∙ sym (eq→path "user" k.owner_id (ground arith)) in
            let bad : false ≡ true = ap (λ s. s == "user") e in absurd (ground arith)
      ]
    ]

store-IsConsistent : IsConsistent store
unfolding select_one
store-IsConsistent = record { ids = (refl, (refl, tt)); single = one_each }

-- The approval of "m3" replaces "m1".
approved_store :
    (approve_candidate "m3" "admin" none 5 store).0
    ≡ ok (some (confirmed_memory (fact "m3" "anon" "Java") none (some "m1") 5))
unfolding approve_candidate write_approval get_candidate get_memory select_one select_all
    update_where
approved_store = refl

memories-IsConsistent_example :
    IsConsistent
      (merge_user_owner
        (λ i. "n")
        "anon"
        "user"
        9
        (approve_candidate "m3" "admin" none 5 store).1).1
memories-IsConsistent_example =
    memories-IsConsistent
      (next (next here (approve "m3" "admin" none 5)) (merge (λ i. "n") "anon" "user" 9))
      store-IsConsistent

abbrev conflict_counts : MergeCounts
conflict_counts = record no_counts { conflicting_memories = 1; moved_candidates = 1 }

merged :
    merge_user_owner (λ i. "n") "anon" "user" 9 store
    ≡ (ok conflict_counts, (merge_user_owner (λ i. "n") "anon" "user" 9 store).1)
unfolding merge_user_owner merge_owners merge_memories classify_merge_memory select_one select_all
    update_where count_where strip is_empty
merged = refl

differ : (strip "anon" == strip "user") ≡ false
unfolding strip
differ = refl

merge_user_owner-ok_example :
    Leaves
      (λ i. "n")
      (strip "anon")
      (strip "user")
      9
      store
      conflict_counts
      (merge_user_owner (λ i. "n") "anon" "user" 9 store).1
merge_user_owner-ok_example =
    merge_user_owner-ok (λ i. "n") "anon" "user" 9 store
      (merge_user_owner (λ i. "n") "anon" "user" 9 store).1 conflict_counts store-IsConsistent
      differ merged

abbrev request : DomainPromotion
request = record {
  id = "p";
  source_memory_id = "m1";
  target_candidate_id = none;
  target_domain_id = "backend";
  public_summary = "s";
  state = "pending";
  requested_by = "u";
  reviewed_by = none;
  reviewed_at = none;
  valid_until = none;
  created_at = 1;
  updated_at = 1;
}

abbrev verdict : DomainPromotion
verdict = reviewed "approved" "boss" 3 request

reviewed_once :
    review_domain_promotion "p" "approved" "boss" 3 (request ∷ []) ≡ (ok verdict, verdict ∷ [])
unfolding review_domain_promotion get_domain_promotion select_one update_where count_where
reviewed_once = refl

-- Two requests that look for a duplicate before either inserts leave two pending promotions.
both_inserted :
    count_where
      (is_same_request "m1" "backend")
      (insert_promotion (record request { id = "q" }) 2 (insert_promotion request 1 []).1).1
    ≡ 2
unfolding insert_promotion get_domain_promotion select_one count_where
both_inserted = refl

stored_verdict : get_domain_promotion "p" (verdict ∷ []) ≡ ok verdict
unfolding get_domain_promotion select_one
stored_verdict = refl

review_is_final_example :
    get_domain_promotion "p" (review_domain_promotion "p" "rejected" "other" 9 (verdict ∷ [])).1
    ≡ ok verdict
review_is_final_example =
    review_is_final verdict (verdict ∷ [])
      (review_domain_promotion "p" "rejected" "other" 9 (verdict ∷ [])).1 refl stored_verdict
      (Reviews.next Reviews.here (review "p" "rejected" "other" 9))
