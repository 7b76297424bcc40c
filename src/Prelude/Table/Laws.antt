-- ===== src/Prelude/Table/Laws.antt =====
-- What every row keeps under the statements of a table, and what a row count of 0 says.
use Prim.Native.Nat.{suc, ◌+◌, ◌≤◌}
use mathlib.Core.Path.{◌≡◌, refl}
use mathlib.Core.Bool.{Bool, true, false}
use mathlib.Core.Option.{none, some}
use mathlib.Core.List.{List, [], ◌∷◌, ◌++◌}
use mathlib.Core.Logic.{inl, inr}
use native.Mathlib.Omega.{arith}
use its_middle_platform_agen.Prelude.Tests.{if◌then◌else◌, Bool-cases}
use its_middle_platform_agen.Prelude.Lists.{All, length}
use its_middle_platform_agen.Prelude.Table.{select_one, update_where, delete_where, count_where}

module _ {ℓ} {R : Type ℓ} where
  pub select_one-true :
      (test : R → Bool) (rs : List R) {r : R} → select_one test rs ≡ some r → test r ≡ true
  unfolding select_one
  select_one-true test [] h = cc
  select_one-true test (x ∷ rs) {r = r} h = elim (Bool-cases (test x)) [
    | inl yes' ↦ ground arith
    | inr no' ↦ select_one-true test rs (rw no' at h)
  ]

  pub select_one-none-count_where :
      (test : R → Bool) (rs : List R) → select_one test rs ≡ none → count_where test rs ≡ 0
  unfolding select_one count_where
  select_one-none-count_where test [] h = refl
  select_one-none-count_where test (x ∷ rs) h = ground (arith, select_one-none-count_where test rs)

  pub count_where-zero-select_one :
      (test : R → Bool) (rs : List R) → count_where test rs ≡ 0 → select_one test rs ≡ none
  unfolding select_one count_where
  count_where-zero-select_one test [] h = refl
  count_where-zero-select_one test (x ∷ rs) h = ground (arith, count_where-zero-select_one test rs)

  -- A statement that meets no row changes nothing.
  pub update_where-none :
      (test : R → Bool) (set : R → R) (rs : List R)
      → select_one test rs ≡ none
      → update_where test set rs ≡ rs
  unfolding select_one update_where
  update_where-none test set [] h = refl
  update_where-none test set (x ∷ rs) h = ground (arith, update_where-none test set rs)

  pub length-update_where :
      (test : R → Bool) (set : R → R) (rs : List R) → length (update_where test set rs) ≡ length rs
  unfolding update_where
  length-update_where test set [] = refl
  length-update_where test set (x ∷ rs) = omega (arith, length-update_where test set rs)

  pub length-delete_where :
      (test : R → Bool) (rs : List R)
      → length (delete_where test rs) + count_where test rs ≡ length rs
  unfolding delete_where count_where
  length-delete_where test [] = refl
  length-delete_where test (x ∷ rs) = ground (arith, length-delete_where test rs)

  -- Two statements one after the other, of which the second meets what the first writes.
  pub select_one-append :
      (test : R → Bool) (rs : List R) (r : R)
      → select_one test (rs ++ r ∷ [])
        ≡ (elim (select_one test rs) [ some x ↦ some x | none ↦ if test r then some r else none ])
  unfolding select_one
  select_one-append test [] r = ground arith
  select_one-append test (x ∷ rs) r = ground (arith, select_one-append test rs r)

  pub count_where-append :
      (test : R → Bool) (rs : List R) (r : R)
      → count_where test (rs ++ r ∷ [])
        ≡ (if test r then suc (count_where test rs) else count_where test rs)
  unfolding count_where
  count_where-append test [] r = ground arith
  count_where-append test (x ∷ rs) r = ground (arith, count_where-append test rs r)

  pub count_where-delete_where :
      (test other : R → Bool) (rs : List R)
      → count_where other (delete_where test rs) ≤ count_where other rs
  unfolding count_where delete_where
  count_where-delete_where test other [] = omega arith
  count_where-delete_where test other (x ∷ rs) =
      ground (arith, count_where-delete_where test other rs)

  -- Counting after an `UPDATE` that makes every row pass as another test tells of the old row.
  pub count_where-update_where :
      (test other told : R → Bool) (set : R → R) (rs : List R)
      → ((r : R) → other (if test r then set r else r) ≡ told r)
      → count_where other (update_where test set rs) ≡ count_where told rs
  unfolding count_where update_where
  count_where-update_where test other told set [] same = refl
  count_where-update_where test other told set (x ∷ rs) same =
      ground (arith, same x, count_where-update_where test other told set rs same)

module _ {ℓ κ} {R : Type ℓ} (P : R → Type κ) where
  pub All-select_one :
      (test : R → Bool) (rs : List R) {r : R} → select_one test rs ≡ some r → All P rs → P r
  unfolding select_one
  All-select_one test [] h a = cc
  All-select_one test (x ∷ rs) {r = r} h a = elim (Bool-cases (test x)) [
    | inl yes' ↦ let e : some x ≡ some r = rw yes' at h in let f : x ≡ r = cc in rw f at a.0
    | inr no' ↦ All-select_one test rs (rw no' at h) a.1
  ]

  pub All-update_where :
      (test : R → Bool) (set : R → R) (rs : List R)
      → ((r : R) → test r ≡ true → P r → P (set r))
      → All P rs
      → All P (update_where test set rs)
  unfolding update_where
  All-update_where test set [] keep a = a
  All-update_where test set (x ∷ rs) keep a =
      (head (test x) refl, All-update_where test set rs keep a.1)
    where
      head : (b : Bool) → test x ≡ b → P (if b then set x else x)
      head true e = keep x e a.0
      head false e = a.0

  pub All-delete_where : (test : R → Bool) (rs : List R) → All P rs → All P (delete_where test rs)
  unfolding delete_where
  All-delete_where test [] a = a
  All-delete_where test (x ∷ rs) a = elim (Bool-cases (test x)) [
    | inl yes' ↦ rw yes' (All-delete_where test rs a.1)
    | inr no' ↦ rw no' (a.0, All-delete_where test rs a.1)
  ]

  pub All-append : (rs : List R) (r : R) → All P rs → P r → All P (rs ++ r ∷ [])
  All-append [] r a p = (p, tt)
  All-append (x ∷ rs) r a p = (a.0, All-append rs r a.1 p)

  -- A row that is left fails the test of the `DELETE`.
  pub All-delete_where_left :
      (test : R → Bool) (rs : List R)
      → All P rs
      → All (λ r. (test r ≡ false) × P r) (delete_where test rs)
  unfolding delete_where
  All-delete_where_left test [] a = tt
  All-delete_where_left test (x ∷ rs) a = elim (Bool-cases (test x)) [
    | inl yes' ↦ rw yes' (All-delete_where_left test rs a.1)
    | inr no' ↦ rw no' ((no', a.0), All-delete_where_left test rs a.1)
  ]
