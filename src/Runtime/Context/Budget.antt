-- ===== src/Runtime/Context/Budget.antt =====
-- How often one signature is allowed within a run.
use its_middle_platform_agen.Runtime.Context.{
  allowed, add_one, Retrievals, reserve, count_of, Reservation,
}
use its_middle_platform_agen.Prelude.{
  eq→path, leb, eq_iff, Bool-cases, arith, ◌+◌, ◌≤◌, suc, ◌==◌, ◌&&◌, if◌then◌else◌, Bool, String,
  List, ℕ, ◌≡◌, [], ◌∷◌, true, false, inl, inr,
}

abbrev pub is_allowed : Reservation → Bool
is_allowed allowed = true
is_allowed _ = false

-- The calls of a run, each with its signature.
unfoldable pub reserve_all : ℕ → ℕ → List String → Retrievals → List (String × Reservation)
unfolding reserve
reserve_all max_calls max_identical [] s = []
reserve_all max_calls max_identical (key ∷ keys) s =
    let (r, s') = reserve key max_calls max_identical s in
    (key, r) ∷ reserve_all max_calls max_identical keys s'

abbrev pub count_allowed_key : String → List (String × Reservation) → ℕ
count_allowed_key key [] = 0
count_allowed_key key ((k, r) ∷ rs) =
    let rest = count_allowed_key key rs in if is_allowed r && k == key then suc rest else rest

count_of-add_one :
    (i k : String) (counts : List (String × ℕ))
    → count_of i (add_one k counts)
      ≡ (if k == i then suc (count_of i counts) else count_of i counts)
unfolding count_of add_one
count_of-add_one i k [] = ground arith
count_of-add_one i k ((x, n) ∷ rest) =
    ground (arith, count_of-add_one i k rest, eq_iff x k, eq_iff x i, eq_iff k i)

-- Of the calls with one signature no more than `max_identical` are allowed, counted with those that
-- the run was allowed before.
pub reserve_all-identical :
    (max_calls max_identical : ℕ) (keys : List String) (s : Retrievals) (key : String)
    → count_of key s.retrieval_signatures ≤ max_identical
    → count_allowed_key key (reserve_all max_calls max_identical keys s)
        + count_of key s.retrieval_signatures
      ≤ max_identical
unfolding reserve_all reserve
reserve_all-identical max_calls max_identical [] s key h = omega arith
reserve_all-identical max_calls max_identical (k ∷ keys) s key h =
    elim (Bool-cases (leb max_identical (count_of k s.retrieval_signatures))) [
      | inl again ↦ rw again (reserve_all-identical max_calls max_identical keys s key h)
      | inr fresh ↦ elim (Bool-cases (leb max_calls s.retrieval_call_count)) [
        | inl spent ↦
            rw fresh (rw spent (reserve_all-identical max_calls max_identical keys s key h))
        | inr left ↦ rw fresh (
            rw left (
              let s' : Retrievals = record {
                retrieval_signatures = add_one k s.retrieval_signatures;
                retrieval_call_count = s.retrieval_call_count + 1;
              } in
              let counted : count_of key s'.retrieval_signatures ≡ (
                  if k == key
                  then suc (count_of key s.retrieval_signatures)
                  else count_of key s.retrieval_signatures) =
                count_of-add_one key k s.retrieval_signatures in
              let later : count_of key s'.retrieval_signatures ≤ max_identical =
                rw counted (ground (arith, eq→path k key)) in
              ground (arith, reserve_all-identical max_calls max_identical keys s' key later)))
      ]
    ]
