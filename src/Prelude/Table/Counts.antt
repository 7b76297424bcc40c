-- ===== src/Prelude/Table/Counts.antt =====
-- Counts of rows after statements, and the rows that a `SELECT` gives.
use Prim.Native.Nat.{ℕ, ◌+◌, ◌≤◌}
use mathlib.Core.Path.{◌≡◌, refl, sym, ◌∙◌}
use mathlib.Core.Bool.{Bool, true, false}
use mathlib.Core.Option.{none, some}
use mathlib.Core.List.{List, [], ◌∷◌}
use mathlib.Core.Logic.{inl, inr}
use native.Mathlib.Omega.{arith}
use its_middle_platform_agen.Prelude.Tests.{Bool-cases}
use its_middle_platform_agen.Prelude.Lists.{length, All}
use its_middle_platform_agen.Prelude.Table.{select_one, select_all, update_where, count_where}
use its_middle_platform_agen.Prelude.Table.Laws.{update_where-none}
use its_middle_platform_agen.Prelude.Table.Keys.{Unique}

-- A Boolean test as a number.
abbrev pub bit : Bool → ℕ
bit true = 1
bit false = 0

module _ {ℓ} {R : Type ℓ} where
  pub count_where-update_where_le :
      (test p : R → Bool) (set : R → R) (rs : List R)
      → ((r : R) → test r ≡ true → p (set r) ≡ true → p r ≡ true)
      → count_where p (update_where test set rs) ≤ count_where p rs
  unfolding count_where update_where
  count_where-update_where_le test p set [] falls = omega arith
  count_where-update_where_le test p set (r ∷ rs) falls =
      ground (arith, falls r, count_where-update_where_le test p set rs falls)

  -- A row that loses its flag.
  pub count_where-update_where_less :
      (test p : R → Bool) (set : R → R) (rs : List R) (m : R)
      → select_one test rs ≡ some m
      → p m ≡ true
      → ((r : R) → p (set r) ≡ false)
      → count_where p (update_where test set rs) + 1 ≤ count_where p rs
  unfolding count_where update_where select_one
  count_where-update_where_less test p set [] m found held falls = absurd (ground arith)
  count_where-update_where_less test p set (r ∷ rs) m found held falls =
      elim (Bool-cases (test r)) [
        | inl hit ↦
            let e : some r ≡ some m = rw hit at found in
            let same : r ≡ m = ground arith in
            let before : p r ≡ true = rw same held in
            let rest =
              count_where-update_where_le test p set rs
                (λ x h h'. absurd (ground (arith, falls x))) in
            rw hit (rw before (rw (falls r) (omega (arith, rest))))
        | inr miss ↦
            let rest =
              count_where-update_where_less test p set rs m (rw miss at found) held falls in
            rw miss (ground (arith, rest))
      ]

  pub count_where-update_where_none :
      (test p : R → Bool) (set : R → R) (rs : List R)
      → ((r : R) → p r ≡ true → test r ≡ true)
      → ((r : R) → p (set r) ≡ false)
      → count_where p (update_where test set rs) ≡ 0
  unfolding count_where update_where
  count_where-update_where_none test p set [] all falls = refl
  count_where-update_where_none test p set (r ∷ rs) all falls =
      ground (arith, all r, falls r, count_where-update_where_none test p set rs all falls)

  pub length-select_all :
      (test : R → Bool) (rs : List R) → length (select_all test rs) ≡ count_where test rs
  unfolding select_all count_where
  length-select_all test [] = refl
  length-select_all test (r ∷ rs) = ground (arith, length-select_all test rs)

  pub select_all-All :
      (test : R → Bool) (rs : List R) → All (λ r. test r ≡ true) (select_all test rs)
  unfolding select_all
  select_all-All test [] = tt
  select_all-All test (r ∷ rs) = elim (Bool-cases (test r)) [
    | inl hit ↦ rw hit (hit, select_all-All test rs)
    | inr miss ↦ rw miss (select_all-All test rs)
  ]

  pub All-weaken {κ κ'} :
      (P : R → Type κ) (Q : R → Type κ') (rs : List R) → ((r : R) → P r → Q r) → All P rs → All Q rs
  All-weaken P Q [] f a = tt
  All-weaken P Q (r ∷ rs) f a = (f r a.0, All-weaken P Q rs f a.1)

module _ {ℓ κ} {R : Type ℓ} {K : Type κ} (by : K → R → Bool) (key : R → K)
    (by_key : (k : K) (r : R) → by k r ≡ true → key r ≡ k)
    (by_refl : (r : R) → by (key r) r ≡ true) where
  -- An `UPDATE` of one key changes the count by its row.
  pub count_where-update_key :
      (k : K) (p : R → Bool) (set : R → R) (rs : List R) (m : R)
      → Unique by key rs
      → select_one (by k) rs ≡ some m
      → count_where p (update_where (by k) set rs) + bit (p m) ≡ count_where p rs + bit (p (set m))
  unfolding count_where update_where select_one
  count_where-update_key k p set [] m u found = absurd (ground arith)
  count_where-update_key k p set (r ∷ rs) m u found = elim (Bool-cases (by k r)) [
    | inl hit ↦
        let e : some r ≡ some m = rw hit at found in
        let same : r ≡ m = ground arith in
        let others : select_one (by k) rs ≡ none = rw (by_key k r hit) at u.0 in
        rw hit (rw (update_where-none (by k) set rs others) (rw same (ground arith)))
    | inr miss ↦
        let rest = count_where-update_key k p set rs m u.1 (rw miss at found) in
        rw miss (ground (arith, rest))
  ]

  stored-cons :
      (r m : R) (rs : List R)
      → select_one (by (key r)) rs ≡ none
      → select_one (by (key m)) rs ≡ some m
      → select_one (by (key m)) (r ∷ rs) ≡ some m
  unfolding select_one
  stored-cons r m rs fresh found = elim (Bool-cases (by (key m) r)) [
    | inl hit ↦
        let e : select_one (by (key m)) rs ≡ none = rw (by_key (key m) r hit) at fresh in
        let bad : some m ≡ none = sym found ∙ e in absurd (ground arith)
    | inr miss ↦ rw miss found
  ]

  -- The rows that are selected are the rows of their keys.
  abbrev pub Stored : List R → List R → Type ℓ
  Stored rs ms = All (λ m. select_one (by (key m)) rs ≡ some m) ms

  pub select_all-Stored :
      (test : R → Bool) (rs : List R) → Unique by key rs → Stored rs (select_all test rs)
  unfolding select_all select_one
  select_all-Stored test [] u = tt
  select_all-Stored test (r ∷ rs) u =
      let rest =
        All-weaken (λ m. select_one (by (key m)) rs ≡ some m)
          (λ m. select_one (by (key m)) (r ∷ rs) ≡ some m) (select_all test rs)
          (λ m found. stored-cons r m rs u.0 found) (select_all-Stored test rs u.1) in
      elim (Bool-cases (test r)) [
        | inl hit ↦ rw hit (rw (by_refl r) refl, rest)
        | inr miss ↦ rw miss rest
      ]

  select_all-fresh :
      (k : K) (test : R → Bool) (rs : List R)
      → select_one (by k) rs ≡ none
      → select_one (by k) (select_all test rs) ≡ none
  unfolding select_all select_one
  select_all-fresh k test [] h = refl
  select_all-fresh k test (r ∷ rs) h = ground (arith, select_all-fresh k test rs)

  pub select_all-Unique :
      (test : R → Bool) (rs : List R) → Unique by key rs → Unique by key (select_all test rs)
  unfolding select_all
  select_all-Unique test [] u = tt
  select_all-Unique test (r ∷ rs) u = elim (Bool-cases (test r)) [
    | inl hit ↦ rw hit (select_all-fresh (key r) test rs u.0, select_all-Unique test rs u.1)
    | inr miss ↦ rw miss (select_all-Unique test rs u.1)
  ]

  -- A row that was selected is the row of its key.
  pub select_one-stored :
      (test : R → Bool) (rs : List R) (m : R)
      → Unique by key rs
      → select_one test rs ≡ some m
      → select_one (by (key m)) rs ≡ some m
  unfolding select_one
  select_one-stored test [] m u found = absurd (ground arith)
  select_one-stored test (r ∷ rs) m u found = elim (Bool-cases (test r)) [
    | inl hit ↦
        let e : some r ≡ some m = rw hit at found in
        let same : r ≡ m = ground arith in rw (sym same) (rw (by_refl r) refl)
    | inr miss ↦ stored-cons r m rs u.0 (select_one-stored test rs m u.1 (rw miss at found))
  ]
