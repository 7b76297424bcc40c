-- ===== src/Prelude/Table/Keys.antt =====
-- Tables with a primary key: `by k r` tests whether the row `r` has the key `k`.
use mathlib.Core.Path.{◌≡◌, refl}
use mathlib.Core.Bool.{Bool, true, false, ◌&&◌}
use mathlib.Core.Option.{none, some}
use mathlib.Core.List.{List, [], ◌∷◌, ◌++◌}
use mathlib.Core.Logic.{◌⊎◌, inl, inr}
use native.Mathlib.Omega.{arith}
use its_middle_platform_agen.Prelude.Tests.{if◌then◌else◌, Bool-cases}
use its_middle_platform_agen.Prelude.Table.{select_one, update_where, delete_where, count_where}
use its_middle_platform_agen.Prelude.Table.Laws.{select_one-append}

module _ {ℓ κ} {R : Type ℓ} {K : Type κ} (by : K → R → Bool) where
  -- A row read by its key after an `UPDATE` that writes no key column.
  pub select_one-update_where :
      (k : K) (test : R → Bool) (set : R → R) (rs : List R)
      → ((r : R) → by k (set r) ≡ by k r)
      → select_one (by k) (update_where test set rs) ≡ (elim (select_one (by k) rs) [
        | none ↦ none
        | some r ↦ some (if test r then set r else r)
      ])
  unfolding select_one update_where
  select_one-update_where k test set [] keep = refl
  select_one-update_where k test set (r ∷ rs) keep =
      ground (arith, keep r, select_one-update_where k test set rs keep)

  -- A row read by its key after a `DELETE` of other keys.
  pub select_one-delete_where :
      (k : K) (test : R → Bool) (rs : List R)
      → ((r : R) → by k r ≡ true → test r ≡ false)
      → select_one (by k) (delete_where test rs) ≡ select_one (by k) rs
  unfolding select_one delete_where
  select_one-delete_where k test [] other = refl
  select_one-delete_where k test (r ∷ rs) other =
      ground (arith, other r, select_one-delete_where k test rs other)

  -- After `DELETE … WHERE key = ?` the key is gone.
  pub select_one-delete_where_self :
      (k : K) (rs : List R) → select_one (by k) (delete_where (by k) rs) ≡ none
  unfolding select_one delete_where
  select_one-delete_where_self k [] = refl
  select_one-delete_where_self k (r ∷ rs) = ground (arith, select_one-delete_where_self k rs)

module _ {ℓ κ} {R : Type ℓ} {K : Type κ} (by : K → R → Bool) (key : R → K) where
  -- No two rows have one key.
  abbrev pub Unique : List R → Type ℓ
  Unique [] = Unit
  Unique (r ∷ rs) = (select_one (by (key r)) rs ≡ none) × Unique rs

  pub Unique-update_where :
      (test : R → Bool) (set : R → R) (rs : List R)
      → ((r : R) → key (set r) ≡ key r)
      → ((k : K) (r : R) → by k (set r) ≡ by k r)
      → Unique rs
      → Unique (update_where test set rs)
  unfolding update_where
  Unique-update_where test set [] same keep u = u
  Unique-update_where test set (r ∷ rs) same keep u =
      (fresh, Unique-update_where test set rs same keep u.1)
    where
      same_key : (b : Bool) → key (if b then set r else r) ≡ key r
      same_key true = same r
      same_key false = refl

      fresh : select_one (by (key (if test r then set r else r))) (update_where test set rs) ≡ none
      fresh = rw (same_key (test r)) (
          rw (select_one-update_where by (key r) test set rs (λ x. keep (key r) x)) (rw (u.0) refl))

  fresh-delete_where :
      (k : K) (test : R → Bool) (rs : List R)
      → select_one (by k) rs ≡ none
      → select_one (by k) (delete_where test rs) ≡ none
  unfolding select_one delete_where
  fresh-delete_where k test [] h = refl
  fresh-delete_where k test (r ∷ rs) h = ground (arith, fresh-delete_where k test rs)

  pub Unique-delete_where :
      (test : R → Bool) (rs : List R) → Unique rs → Unique (delete_where test rs)
  unfolding delete_where
  Unique-delete_where test [] u = u
  Unique-delete_where test (r ∷ rs) u = elim (Bool-cases (test r)) [
    | inl hit ↦ rw hit (Unique-delete_where test rs u.1)
    | inr miss ↦ rw miss (fresh-delete_where (key r) test rs u.0, Unique-delete_where test rs u.1)
  ]

  -- A row with a new key is added.
  pub Unique-append :
      (rs : List R) (r : R)
      → ((x y : R) → by (key x) y ≡ by (key y) x)
      → select_one (by (key r)) rs ≡ none
      → Unique rs
      → Unique (rs ++ r ∷ [])
  unfolding select_one
  Unique-append [] r swap fresh u = (refl, tt)
  Unique-append (x ∷ rs) r swap fresh u = (
    rw (select_one-append (by (key x)) rs r) (ground (arith, u.0, swap x r)),
    Unique-append rs r swap (ground arith) u.1,
  )

  module _ (by_key : (k : K) (r : R) → by k r ≡ true → key r ≡ k) where
    count_key :
        (k : K) (test : R → Bool) (rs : List R)
        → select_one (by k) rs ≡ none
        → count_where (λ r. by k r && test r) rs ≡ 0
    unfolding select_one count_where
    count_key k test [] h = refl
    count_key k test (r ∷ rs) h = ground (arith, count_key k test rs)

    -- `… WHERE key = ? AND …` meets the one row of that key, or none.
    pub count_where_key :
        (k : K) (test : R → Bool) (rs : List R)
        → Unique rs
        → count_where (λ r. by k r && test r) rs
          ≡ (elim (select_one (by k) rs) [ none ↦ 0 | some r ↦ if test r then 1 else 0 ])
    unfolding select_one count_where
    count_where_key k test [] u = refl
    count_where_key k test (r ∷ rs) u = elim (Bool-cases (by k r)) [
      | inl hit ↦
          let fresh : select_one (by k) rs ≡ none = rw (by_key k r hit) at u.0 in
          ground (arith, count_key k test rs fresh)
      | inr miss ↦ ground (arith, count_where_key k test rs u.1)
    ]

    -- A `DELETE` leaves a row of the table as it was, or the key is gone.
    pub select_one-delete_where_or :
        (k : K) (test : R → Bool) (rs : List R)
        → Unique rs
        → (select_one (by k) (delete_where test rs) ≡ none)
          ⊎ (select_one (by k) (delete_where test rs) ≡ select_one (by k) rs)
    unfolding select_one delete_where
    select_one-delete_where_or k test [] u = inl refl
    select_one-delete_where_or k test (r ∷ rs) u = elim (Bool-cases (by k r)) [
      | inl hit ↦
          let fresh : select_one (by k) rs ≡ none = rw (by_key k r hit) at u.0 in
          ground (arith, fresh-delete_where k test rs fresh)
      | inr miss ↦ ground (arith, select_one-delete_where_or k test rs u.1)
    ]
