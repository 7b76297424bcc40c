-- ===== src/Prelude/Table/Holds.antt =====
-- What the row of a key keeps while statements run on its table.
use mathlib.Core.Path.{◌≡◌, refl, ◌∙◌}
use mathlib.Core.Bool.{Bool, true, ◌&&◌}
use mathlib.Core.Option.{none, some}
use mathlib.Core.List.{List, [], ◌∷◌, ◌++◌}
use mathlib.Core.Logic.{inl, inr}
use its_middle_platform_agen.Prelude.Tests.{if◌then◌else◌, Bool-cases}
use its_middle_platform_agen.Prelude.Table.{select_one, update_where}
use its_middle_platform_agen.Prelude.Table.Laws.{select_one-append}
use its_middle_platform_agen.Prelude.Table.Keys.{Unique, select_one-update_where}
use its_middle_platform_agen.Prelude.Table.Maps.{select_one-key}

module _ {ℓ κ} {R : Type ℓ} {K : Type κ} (by : K → R → Bool) (k : K) (p : R → Bool) where
  -- The key has a row, and it passes the test.
  abbrev pub Holds : List R → Type ℓ
  Holds rs = (r : R) × (select_one (by k) rs ≡ some r) × (p r ≡ true)

  pub Holds-update_where :
      (test : R → Bool) (set : R → R) (rs : List R)
      → ((r : R) → by k (set r) ≡ by k r)
      → ((r : R) → test r ≡ true → p r ≡ true → p (set r) ≡ true)
      → Holds rs
      → Holds (update_where test set rs)
  Holds-update_where test set rs keep stays (r, found, h) = elim (Bool-cases (test r)) [
    | inl hit ↦ (
      set r,
      rw (select_one-update_where by k test set rs keep) (rw found (rw hit refl)),
      stays r hit h,
    )
    | inr miss ↦
        (r, rw (select_one-update_where by k test set rs keep) (rw found (rw miss refl)), h)
  ]

  pub Holds-append : (rs : List R) (x : R) → Holds rs → Holds (rs ++ x ∷ [])
  Holds-append rs x (r, found, h) = (r, rw (select_one-append (by k) rs x) (rw found refl), h)

module _ {ℓ κ} {R : Type ℓ} {K : Type κ} (by : K → R → Bool) (key : R → K) where
  module _ (by_key : (k : K) (r : R) → by k r ≡ true → key r ≡ k) where
    -- A query that the row of its key fails finds nothing.
    pub Holds-refused :
        (k : K) (p test : R → Bool) (rs : List R)
        → Unique by key rs
        → ((r : R) → p r ≡ true → (if test r then some r else none) ≡ none)
        → Holds by k p rs
        → select_one (λ r. by k r && test r) rs ≡ none
    Holds-refused k p test rs u fails (r, found, h) =
        select_one-key by key by_key k test rs u ∙ rw found (fails r h)
