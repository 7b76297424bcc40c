-- ===== src/Memory/Promotions/Reviews.antt =====
-- That a domain promotion is reviewed once.
use its_middle_platform_agen.Prelude.Table.Laws.{select_one-append}
use its_middle_platform_agen.Prelude.Table.{count_where, update_where, select_one}
use its_middle_platform_agen.Prelude.Result.{err, Result, ok}
use its_middle_platform_agen.Prelude.Table.TextKey.{has_key}
use its_middle_platform_agen.Prelude.Table.Keys.{select_one-update_where, Unique}
use its_middle_platform_agen.Memory.Promotions.{
  new_promotion, reviewed, is_same_request, is_awaiting_id, promotion_key, review_domain_promotion,
  insert_promotion, is_awaiting, create_domain_promotion, get_domain_promotion, DomainPromotion,
}
use its_middle_platform_agen.Memory.Records.{MemoryError, memory_key_error}
use its_middle_platform_agen.Prelude.{
  eqb, ◌&&◌, ◌||◌, if◌then◌else◌, ap, ◌∙◌, Option, ◌==◌, not, arith, Bool, is_some, Option-cases,
  Bool-cases, String, List, ℕ, ◌≡◌, some, true, false, inl, inr, refl,
}

-- A call of any of the methods, of whatever result; `insert` is the rest of a creation that looked
-- for a duplicate earlier.
pub data Step (rows : List DomainPromotion) : List DomainPromotion → Type 0 where
  create : (p : DomainPromotion) (now : ℕ) → Step rows (create_domain_promotion p now rows).1
  insert : (p : DomainPromotion) (now : ℕ) → Step rows (insert_promotion p now rows).1
  review :
      (i state reviewer : String) (now : ℕ)
      → Step rows (review_domain_promotion i state reviewer now rows).1

pub data Reach (rows : List DomainPromotion) : List DomainPromotion → Type 0 where
  here : Reach rows rows
  next : {mid rows' : List DomainPromotion} → Reach rows mid → Step mid rows' → Reach rows rows'

module _ (p : DomainPromotion) (settled : is_awaiting p ≡ false) where
  abbrev Keeps : List DomainPromotion → Type 0
  Keeps rows = select_one (has_key promotion_key p.id) rows ≡ some p

  insert-Keeps :
      (q : DomainPromotion) (now : ℕ) (rows : List DomainPromotion)
      → Keeps rows
      → Keeps (insert_promotion q now rows).1
  unfolding insert_promotion
  insert-Keeps q now rows h =
      elim (Bool-cases (is_some (select_one (has_key promotion_key q.id) rows))) [
        | inl taken ↦ rw taken h
        | inr free ↦ rw free (
            rw (select_one-append (has_key promotion_key p.id) rows (new_promotion q now))
              (rw h refl))
      ]

  written-Keeps :
      (i state reviewer : String) (now : ℕ) (rows : List DomainPromotion)
      → Keeps rows
      → Keeps (update_where (is_awaiting_id i) (reviewed state reviewer now) rows)
  written-Keeps i state reviewer now rows h =
      select_one-update_where (has_key promotion_key) p.id (is_awaiting_id i)
        (reviewed state reviewer now) rows (λ r. refl)
      ∙ rw h (miss (has_key promotion_key i p))
    where
      miss :
          (b : Bool)
          → ◌≡◌ {A = Option DomainPromotion}
              (some (if b && is_awaiting p then reviewed state reviewer now p else p))
              (some p)
      miss true = rw settled refl
      miss false = refl

  Step-Keeps : {rows rows' : List DomainPromotion} → Step rows rows' → Keeps rows → Keeps rows'
  unfolding create_domain_promotion review_domain_promotion
  Step-Keeps {rows} (create q now) h =
      elim (Bool-cases
        (is_some (select_one (is_same_request q.source_memory_id q.target_domain_id) rows))) [
          | inl twice ↦ rw twice h
          | inr first ↦ rw first (insert-Keeps q now rows h)
        ]
  Step-Keeps {rows} (insert q now) h = insert-Keeps q now rows h
  Step-Keeps {rows} (review i state reviewer now) h =
      elim (Bool-cases (not (state == "approved" || state == "rejected"))) [
        | inl wrong ↦ rw wrong h
        | inr known ↦
            rw known (elim (Bool-cases (not (eqb (count_where (is_awaiting_id i) rows) 1))) [
              | inl late ↦ rw late (written-Keeps i state reviewer now rows h)
              | inr open' ↦ rw open' (written-Keeps i state reviewer now rows h)
            ])
      ]

  Reach-Keeps : {rows rows' : List DomainPromotion} → Reach rows rows' → Keeps rows → Keeps rows'
  Reach-Keeps here h = h
  Reach-Keeps (next before step) h = Step-Keeps step (Reach-Keeps before h)

abbrev pub AreDistinct : List DomainPromotion → Type 0
AreDistinct rows = Unique (has_key promotion_key) promotion_key rows

-- The verdict of a review is final: the row of a promotion that is no longer pending, its state,
-- its reviewer and the time of the review, is the same after whatever later creations and reviews,
-- late ones of any verdict included.
pub review_is_final :
    (p : DomainPromotion) (rows rows' : List DomainPromotion)
    → is_awaiting p ≡ false
    → get_domain_promotion p.id rows ≡ ok p
    → Reach rows rows'
    → get_domain_promotion p.id rows' ≡ ok p
unfolding get_domain_promotion
review_is_final p rows rows' settled stored after =
    elim (Option-cases (select_one (has_key promotion_key p.id) rows)) [
      | inl missing ↦
          let bad : ◌≡◌ {A = Result {0, 0} MemoryError DomainPromotion} (err memory_key_error)
              (ok p) =
            rw (missing, get_domain_promotion) at stored in
          absurd (ground arith)
      | inr (q, there) ↦
          let good : ◌≡◌ {A = Result {0, 0} MemoryError DomainPromotion} (ok q) (ok p) =
            rw (there, get_domain_promotion) at stored in
          let same : q ≡ p = ground arith in
          let there' : select_one (has_key promotion_key p.id) rows ≡ some p =
            there ∙ ap (λ x. some x) same in
          rw (Reach-Keeps p settled after there', get_domain_promotion) refl
    ]
