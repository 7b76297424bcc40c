-- ===== src/Prelude/Table.antt =====
-- Tables of a relational database as lists of rows, and the statements that the repositories send.
-- A statement's condition is a test on rows; `UPDATE` and `DELETE` come with their row count.
pub mod Laws
pub mod Keys
pub mod TextKey
pub mod Maps
pub mod Holds
pub mod Counts
pub mod Orders
use Prim.Native.Nat.{ℕ, zero, suc, ◌+◌}
use mathlib.Core.Path.{◌≡◌, refl}
use mathlib.Core.Bool.{Bool, true, false, ◌||◌}
use mathlib.Core.Option.{Option, none, some}
use mathlib.Core.List.{List, [], ◌∷◌, ◌++◌}
use its_middle_platform_agen.Prelude.Tests.{if◌then◌else◌}

module _ {ℓ} {R : Type ℓ} where
  -- `SELECT * FROM t WHERE …` with `fetchone`.
  unfoldable pub select_one : (R → Bool) → List R → Option R
  select_one test [] = none
  select_one test (r ∷ rs) = if test r then some r else select_one test rs

  -- `SELECT * FROM t WHERE …` with `fetchall`, in the order of the table.
  unfoldable pub select_all : (R → Bool) → List R → List R
  select_all test [] = []
  select_all test (r ∷ rs) = let rest = select_all test rs in if test r then r ∷ rest else rest

  -- `UPDATE t SET … WHERE …`.
  unfoldable pub update_where : (R → Bool) → (R → R) → List R → List R
  update_where test set [] = []
  update_where test set (r ∷ rs) = (if test r then set r else r) ∷ update_where test set rs

  -- `DELETE FROM t WHERE …`.
  unfoldable pub delete_where : (R → Bool) → List R → List R
  delete_where test [] = []
  delete_where test (r ∷ rs) = let rest = delete_where test rs in if test r then rest else r ∷ rest

  -- The `rowcount` of an `UPDATE` or a `DELETE`.
  unfoldable pub count_where : (R → Bool) → List R → ℕ
  count_where test [] = 0
  count_where test (r ∷ rs) = let rest = count_where test rs in if test r then suc rest else rest

  unfoldable pub insert_by : (R → R → Bool) → R → List R → List R
  insert_by le r [] = r ∷ []
  insert_by le r (x ∷ xs) = let rest = insert_by le r xs in if le r x then r ∷ x ∷ xs else x ∷ rest

  -- `ORDER BY …`: rows of one rank stay in the order of the table.
  unfoldable pub order_by : (R → R → Bool) → List R → List R
  unfolding insert_by
  order_by le [] = []
  order_by le (r ∷ rs) = insert_by le r (order_by le rs)

  -- `EXISTS(SELECT 1 FROM t WHERE …)`.
  unfoldable pub exists_row : (R → Bool) → List R → Bool
  exists_row test [] = false
  exists_row test (r ∷ rs) = test r || exists_row test rs
