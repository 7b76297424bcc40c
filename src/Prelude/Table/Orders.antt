-- ===== src/Prelude/Table/Orders.antt =====
-- What `ORDER BY` keeps of the rows: which tests they pass, their number and their keys.
use Prim.Native.Nat.{◌+◌, ◌≤◌}
use mathlib.Core.Path.{◌≡◌, refl}
use mathlib.Core.Bool.{Bool, true, false, ◌&&◌, ◌||◌}
use mathlib.Core.Option.{none}
use mathlib.Core.List.{List, [], ◌∷◌, ◌++◌}
use mathlib.Core.Logic.{inl, inr}
use native.Mathlib.Omega.{arith}
use its_middle_platform_agen.Prelude.Tests.{Bool-cases}
use its_middle_platform_agen.Prelude.Text.{is_some, is_some-none}
use its_middle_platform_agen.Prelude.Lists.{All, length}
use its_middle_platform_agen.Prelude.Table.{
  select_one, select_all, count_where, insert_by, order_by,
}
use its_middle_platform_agen.Prelude.Table.Keys.{Unique}

module _ {ℓ} {R : Type ℓ} (le : R → R → Bool) (p : R → Bool) where
  is_some-insert_by :
      (r : R) (rs : List R)
      → is_some (select_one p (insert_by le r rs)) ≡ (p r || is_some (select_one p rs))
  unfolding insert_by select_one
  is_some-insert_by r [] = ground arith
  is_some-insert_by r (x ∷ rs) = ground (arith, is_some-insert_by r rs)

  pub is_some-order_by :
      (rs : List R) → is_some (select_one p (order_by le rs)) ≡ is_some (select_one p rs)
  unfolding order_by select_one
  is_some-order_by [] = refl
  is_some-order_by (r ∷ rs) =
      ground (arith, is_some-insert_by r (order_by le rs), is_some-order_by rs)

module _ {ℓ} {R : Type ℓ} (le : R → R → Bool) where
  length-insert_by : (r : R) (rs : List R) → length (insert_by le r rs) ≡ length rs + 1
  unfolding insert_by
  length-insert_by r [] = refl
  length-insert_by r (x ∷ rs) = ground (arith, length-insert_by r rs)

  pub length-order_by : (rs : List R) → length (order_by le rs) ≡ length rs
  unfolding order_by
  length-order_by [] = refl
  length-order_by (r ∷ rs) = omega (arith, length-insert_by r (order_by le rs), length-order_by rs)

module _ {ℓ κ} {R : Type ℓ} (P : R → Type κ) (le : R → R → Bool) where
  All-insert_by : (r : R) (rs : List R) → P r → All P rs → All P (insert_by le r rs)
  unfolding insert_by
  All-insert_by r [] h a = (h, tt)
  All-insert_by r (x ∷ rs) h a = elim (Bool-cases (le r x)) [
    | inl before ↦ rw before (h, a)
    | inr after ↦ rw after (a.0, All-insert_by r rs h a.1)
  ]

  pub All-order_by : (rs : List R) → All P rs → All P (order_by le rs)
  unfolding order_by
  All-order_by [] a = tt
  All-order_by (r ∷ rs) a = All-insert_by r (order_by le rs) a.0 (All-order_by rs a.1)

module _ {ℓ κ} {R : Type ℓ} (P : R → Type κ) where
  -- A selected row meets its test, and what held of all rows.
  pub All-select_all :
      (test : R → Bool) (rs : List R)
      → All P rs
      → All (λ r. (test r ≡ true) × P r) (select_all test rs)
  unfolding select_all
  All-select_all test [] a = tt
  All-select_all test (r ∷ rs) a = elim (Bool-cases (test r)) [
    | inl hit ↦ rw hit ((hit, a.0), All-select_all test rs a.1)
    | inr miss ↦ rw miss (All-select_all test rs a.1)
  ]

module _ {ℓ} {R : Type ℓ} where
  pub is_some-select_all :
      (p test : R → Bool) (rs : List R)
      → is_some (select_one p (select_all test rs)) ≡ is_some (select_one (λ r. test r && p r) rs)
  unfolding select_all select_one
  is_some-select_all p test [] = refl
  is_some-select_all p test (r ∷ rs) = ground (arith, is_some-select_all p test rs)

  pub is_some-append :
      (test : R → Bool) (rs : List R) (r : R)
      → is_some (select_one test rs) ≡ true
      → is_some (select_one test (rs ++ r ∷ [])) ≡ true
  unfolding select_one
  is_some-append test [] r h = cc
  is_some-append test (x ∷ rs) r h = ground (arith, is_some-append test rs r)

  pub is_some-append_hit :
      (test : R → Bool) (rs : List R) (r : R)
      → test r ≡ true
      → is_some (select_one test (rs ++ r ∷ [])) ≡ true
  unfolding select_one
  is_some-append_hit test [] r h = ground arith
  is_some-append_hit test (x ∷ rs) r h = ground (arith, is_some-append_hit test rs r)

  pub count_where-and-le :
      (test p : R → Bool) (rs : List R) → count_where (λ r. test r && p r) rs ≤ count_where test rs
  unfolding count_where
  count_where-and-le test p [] = omega arith
  count_where-and-le test p (r ∷ rs) = ground (arith, count_where-and-le test p rs)

module _ {ℓ κ} {R : Type ℓ} {K : Type κ} (by : K → R → Bool) (key : R → K)
    (swap : (x y : R) → by (key x) y ≡ by (key y) x) (le : R → R → Bool) where
  Unique-insert_by :
      (r : R) (rs : List R)
      → select_one (by (key r)) rs ≡ none
      → Unique by key rs
      → Unique by key (insert_by le r rs)
  unfolding insert_by select_one
  Unique-insert_by r [] fresh u = (refl, tt)
  Unique-insert_by r (x ∷ rs) fresh u = elim (Bool-cases (le r x)) [
    | inl before ↦ rw before (fresh, u)
    | inr after ↦
        let other : by (key x) r ≡ false = ground (arith, swap x r) in
        let gone : select_one (by (key x)) (insert_by le r rs) ≡ none =
          is_some-none (select_one (by (key x)) (insert_by le r rs))
            (rw (is_some-insert_by le (by (key x)) r rs) (rw other (rw (u.0) refl))) in
        rw after (gone, Unique-insert_by r rs (ground arith) u.1)
  ]

  pub Unique-order_by : (rs : List R) → Unique by key rs → Unique by key (order_by le rs)
  unfolding order_by
  Unique-order_by [] u = tt
  Unique-order_by (r ∷ rs) u =
      let fresh : select_one (by (key r)) (order_by le rs) ≡ none =
        is_some-none (select_one (by (key r)) (order_by le rs))
          (rw (is_some-order_by le (by (key r)) rs) (rw (u.0) refl)) in
      Unique-insert_by r (order_by le rs) fresh (Unique-order_by rs u.1)
