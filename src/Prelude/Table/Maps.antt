-- ===== src/Prelude/Table/Maps.antt =====
-- A table seen through a function on its rows: the statements commute with it.
use mathlib.Core.Path.{◌≡◌, refl}
use mathlib.Core.Bool.{Bool, true, false, ◌&&◌}
use mathlib.Core.Option.{Option, none, some}
use mathlib.Core.List.{List, [], ◌∷◌, ◌++◌, map}
use mathlib.Core.Logic.{inl, inr}
use native.Mathlib.Omega.{arith}
use its_middle_platform_agen.Prelude.Tests.{if◌then◌else◌, Bool-cases, eqb}
use its_middle_platform_agen.Prelude.Text.{is_some}
use its_middle_platform_agen.Prelude.Table.{select_one, update_where, delete_where, count_where}
use its_middle_platform_agen.Prelude.Lists.{All}
use its_middle_platform_agen.Prelude.Table.Keys.{Unique, count_where_key}

module _ {ℓ κ} {R : Type ℓ} {S : Type κ} (f : R → S) where
  abbrev pub some_map : Option R → Option S
  some_map none = none
  some_map (some r) = some (f r)

  pub map-append_row : (rs : List R) (r : R) → map f (rs ++ r ∷ []) ≡ map f rs ++ f r ∷ []
  map-append_row [] r = refl
  map-append_row (x ∷ rs) r = rw (map-append_row rs r) refl

  module _ (test : R → Bool) (test' : S → Bool) (same : (r : R) → test' (f r) ≡ test r) where
    pub select_one-map : (rs : List R) → select_one test' (map f rs) ≡ some_map (select_one test rs)
    unfolding select_one
    select_one-map [] = refl
    select_one-map (r ∷ rs) = elim (Bool-cases (test r)) [
      | inl hit ↦ rw (same r) (rw hit refl)
      | inr miss ↦ rw (same r) (rw miss (select_one-map rs))
    ]

    pub delete_where-map :
        (rs : List R) → delete_where test' (map f rs) ≡ map f (delete_where test rs)
    unfolding delete_where
    delete_where-map [] = refl
    delete_where-map (r ∷ rs) = elim (Bool-cases (test r)) [
      | inl hit ↦ rw (same r) (rw hit (delete_where-map rs))
      | inr miss ↦ rw (same r) (rw miss (rw (delete_where-map rs) refl))
    ]

    pub update_where-map :
        (set : R → R) (set' : S → S)
        → ((r : R) → set' (f r) ≡ f (set r))
        → (rs : List R) → update_where test' set' (map f rs) ≡ map f (update_where test set rs)
    unfolding update_where
    update_where-map set set' like [] = refl
    update_where-map set set' like (r ∷ rs) = elim (Bool-cases (test r)) [
      | inl hit ↦ rw (same r) (rw hit (rw (like r) (rw (update_where-map set set' like rs) refl)))
      | inr miss ↦ rw (same r) (rw miss (rw (update_where-map set set' like rs) refl))
    ]

module _ {ℓ κ} {R : Type ℓ} {K : Type κ} (by : K → R → Bool) where
  pub select_one-key_none :
      (k : K) (test : R → Bool) (rs : List R)
      → select_one (by k) rs ≡ none
      → select_one (λ r. by k r && test r) rs ≡ none
  unfolding select_one
  select_one-key_none k test [] h = refl
  select_one-key_none k test (r ∷ rs) h = ground (arith, select_one-key_none k test rs)

module _ {ℓ κ} {R : Type ℓ} {K : Type κ} (by : K → R → Bool) (key : R → K) where
  module _ (by_key : (k : K) (r : R) → by k r ≡ true → key r ≡ k) where
    -- `SELECT … WHERE key = ? AND …` finds the row of the key when it meets the condition.
    pub select_one-key :
        (k : K) (test : R → Bool) (rs : List R)
        → Unique by key rs
        → select_one (λ r. by k r && test r) rs
          ≡ (elim (select_one (by k) rs) [ none ↦ none | some r ↦ if test r then some r else none ])
    unfolding select_one
    select_one-key k test [] u = refl
    select_one-key k test (r ∷ rs) u = elim (Bool-cases (by k r)) [
      | inl hit ↦
          let fresh : select_one (by k) rs ≡ none = rw (by_key k r hit) at u.0 in
          ground (arith, select_one-key_none by k test rs fresh)
      | inr miss ↦ ground (arith, select_one-key k test rs u.1)
    ]

    -- The row count of a statement with a key, and whether it returns a row.
    pub count_where-returning :
        (k : K) (test : R → Bool) (rs : List R)
        → Unique by key rs
        → eqb (count_where (λ r. by k r && test r) rs) 1
          ≡ is_some (select_one (λ r. by k r && test r) rs)
    count_where-returning k test rs u =
        rw (count_where_key by key by_key k test rs u)
          (rw (select_one-key k test rs u) (split (select_one (by k) rs)))
      where
        split :
            (o : Option R)
            → eqb (elim o [ none ↦ 0 | some r ↦ if test r then 1 else 0 ]) 1
              ≡ is_some (elim o [ none ↦ none | some r ↦ if test r then some r else none ])
        split none = refl
        split (some r) = elim (Bool-cases (test r)) [ inl e ↦ rw e refl | inr e ↦ rw e refl ]

  none-All :
      (k : K) (p : R → Bool) (rs : List R)
      → select_one (by k) rs ≡ none
      → All (λ r. (by k r && p r) ≡ false) rs
  unfolding select_one
  none-All k p [] h = tt
  none-All k p (r ∷ rs) h = (ground arith, none-All k p rs (ground arith))

  module _ (by_key : (k : K) (r : R) → by k r ≡ true → key r ≡ k) where
    -- What the row of a key fails, every row of that key fails.
    pub All-key :
        (k : K) (p : R → Bool) (rs : List R) (r : R)
        → Unique by key rs
        → select_one (by k) rs ≡ some r
        → p r ≡ false
        → All (λ x. (by k x && p x) ≡ false) rs
    unfolding select_one
    All-key k p [] r u h fails = tt
    All-key k p (x ∷ rs) r u h fails = elim (Bool-cases (by k x)) [
      | inl hit ↦
          let fresh : select_one (by k) rs ≡ none = rw (by_key k x hit) at u.0 in
          let same : x ≡ r = ground arith in
          (rw same (rw fails (ground arith)), none-All k p rs fresh)
      | inr miss ↦ (rw miss refl, All-key k p rs r u.1 (rw miss at h) fails)
    ]
