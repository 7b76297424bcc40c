-- ===== src/Memory/Promotions.antt =====
-- The domain promotions and the index repairs of the memory repository
-- (knowledge/memory/repository.py). `promotion_id` is the value of `uuid4()`, and `now` that of
-- `_now()`.
pub mod Reviews
use its_middle_platform_agen.Memory.Upkeep.{bounded}
use its_middle_platform_agen.Prelude.Table.TextKey.{has_key}
use its_middle_platform_agen.Prelude.Table.{
  count_where, select_all, update_where, select_one, order_by, delete_where,
}
use its_middle_platform_agen.Prelude.Result.{ok, err, Result}
use its_middle_platform_agen.Memory.Records.{
  MemoryError, memory_value_error, memory_key_error, memory_integrity_error,
}
use its_middle_platform_agen.Prelude.{
  eqb, ◌||◌, take, not, is_some, ◌&&◌, map, leb, if◌then◌else◌, Option, ◌==◌, ◌++◌, String, List,
  Bool, ℕ, ◌≡◌, none, some, [], ◌∷◌, true, false, inl, inr, refl,
}

pub record DomainPromotion : Type 0 where
  pub id : String
  pub source_memory_id : String
  pub target_candidate_id : Option String
  pub target_domain_id : String
  pub public_summary : String
  pub state : String
  pub requested_by : String
  pub reviewed_by : Option String
  pub reviewed_at : Option ℕ
  pub valid_until : Option ℕ
  pub created_at : ℕ
  pub updated_at : ℕ

abbrev pub promotion_key : DomainPromotion → String
promotion_key p = p.id

abbrev pub Promoted : Type 0
Promoted = Result {0, 0} MemoryError DomainPromotion × List DomainPromotion

unfoldable pub get_domain_promotion :
    String → List DomainPromotion → Result {0, 0} MemoryError DomainPromotion
get_domain_promotion promotion_id rows =
    elim (select_one (has_key promotion_key promotion_id) rows) [
      | none ↦ err memory_key_error
      | some p ↦ ok p
    ]

abbrev pub is_awaiting : DomainPromotion → Bool
is_awaiting p = p.state == "pending"

abbrev pub is_same_request : String → String → DomainPromotion → Bool
is_same_request memory_id domain_id p =
    p.source_memory_id == memory_id && p.target_domain_id == domain_id && is_awaiting p

-- `p` holds the arguments of the call.
abbrev pub new_promotion : DomainPromotion → ℕ → DomainPromotion
new_promotion p now = record p {
  state = "pending";
  reviewed_by = none;
  reviewed_at = none;
  created_at = now;
  updated_at = now;
}

-- The `INSERT` and what follows it. The method looks for a duplicate before the transaction that the
-- `INSERT` begins, so that other calls may come in between.
unfoldable pub insert_promotion : DomainPromotion → ℕ → List DomainPromotion → Promoted
unfolding get_domain_promotion
insert_promotion p now rows =
    let rows' = rows ++ new_promotion p now ∷ [] in
    if is_some (select_one (has_key promotion_key p.id) rows)
    then (err memory_integrity_error, rows)
    else (get_domain_promotion p.id rows', rows')

unfoldable pub create_domain_promotion : DomainPromotion → ℕ → List DomainPromotion → Promoted
unfolding insert_promotion
create_domain_promotion p now rows =
    if is_some (select_one (is_same_request p.source_memory_id p.target_domain_id) rows)
    then (err memory_value_error, rows)
    else insert_promotion p now rows

-- `ORDER BY created_at DESC`.
abbrev pub newer_promotion : DomainPromotion → DomainPromotion → Bool
newer_promotion a b = leb b.created_at a.created_at

-- The rows are read again one by one by their ids, which gives the rows themselves.
unfoldable pub list_domain_promotions : String → List DomainPromotion → List DomainPromotion
list_domain_promotions state rows =
    order_by newer_promotion (select_all (λ (p : DomainPromotion). p.state == state) rows)

abbrev pub reviewed : String → String → ℕ → DomainPromotion → DomainPromotion
reviewed state reviewer now p = record p {
  state = state;
  reviewed_by = some reviewer;
  reviewed_at = some now;
  updated_at = now;
}

abbrev pub is_awaiting_id : String → DomainPromotion → Bool
is_awaiting_id promotion_id p = has_key promotion_key promotion_id p && is_awaiting p

unfoldable pub review_domain_promotion :
    String → String → String → ℕ → List DomainPromotion → Promoted
unfolding get_domain_promotion
review_domain_promotion promotion_id state reviewer now rows =
    let rows' = update_where (is_awaiting_id promotion_id) (reviewed state reviewer now) rows in
    if not (state == "approved" || state == "rejected")
    then (err memory_value_error, rows)
    else if not (eqb (count_where (is_awaiting_id promotion_id) rows) 1)
    then (err memory_value_error, rows')
    else (get_domain_promotion promotion_id rows', rows')

pub record IndexRepair : Type 0 where
  pub memory_id : String
  pub operation : String
  pub attempt : ℕ
  pub last_error_type : Option String
  pub created_at : ℕ
  pub updated_at : ℕ

abbrev pub repair_key : IndexRepair → String
repair_key r = r.memory_id

abbrev pub repaired : String → Option String → ℕ → IndexRepair → IndexRepair
repaired operation error_type now r = record r {
  operation = operation;
  last_error_type = error_type;
  updated_at = now;
}

unfoldable pub enqueue_index_repair :
    String
    → String
    → Option String
    → ℕ
    → List IndexRepair
    → Result {0, 0} MemoryError Unit × List IndexRepair
enqueue_index_repair memory_id operation error_type now rows =
    let fresh : IndexRepair = record {
      memory_id = memory_id;
      operation = operation;
      attempt = 0;
      last_error_type = error_type;
      created_at = now;
      updated_at = now;
    } in
    if not (operation == "upsert" || operation == "delete")
    then (err memory_value_error, rows)
    else if is_some (select_one (has_key repair_key memory_id) rows)
    then (
      ok tt,
      update_where (has_key repair_key memory_id) (repaired operation error_type now) rows,
    )
    else (ok tt, rows ++ fresh ∷ [])

abbrev pub older_repair : IndexRepair → IndexRepair → Bool
older_repair a b = leb a.created_at b.created_at

abbrev pub repair_pair : IndexRepair → String × String
repair_pair r = (r.memory_id, r.operation)

unfoldable pub list_index_repairs : ℕ → List IndexRepair → List (String × String)
list_index_repairs limit rows =
    map repair_pair (take (bounded 500 limit) (order_by older_repair rows))

unfoldable pub complete_index_repair : String → List IndexRepair → List IndexRepair
complete_index_repair memory_id rows = delete_where (has_key repair_key memory_id) rows
