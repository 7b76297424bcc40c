-- ===== src/Prelude/Table/TextKey.antt =====
-- Tables whose primary key is one text column.
use Prim.Native.String.{String}
use mathlib.Core.Path.{◌≡◌, refl, ap}
use mathlib.Core.Bool.{Bool, true, false, ◌&&◌}
use mathlib.Core.Option.{Option, none, some}
use mathlib.Core.List.{List}
use mathlib.Core.Logic.{inl, inr}
use text.Mathlib.TextPositions.{eq_refl}
use its_middle_platform_agen.Prelude.Tests.{if◌then◌else◌, Bool-cases}
use its_middle_platform_agen.Prelude.Text.{◌==◌, eq→path}
use its_middle_platform_agen.Prelude.Table.{select_one, update_where, count_where}
use its_middle_platform_agen.Prelude.Table.Laws.{select_one-true}
use its_middle_platform_agen.Prelude.Table.Keys.{Unique, select_one-update_where, count_where_key}

module _ {ℓ} {R : Type ℓ} (key : R → String) where
  abbrev pub has_key : String → R → Bool
  has_key k r = key r == k

  pub has_key→eq : (k : String) (r : R) → has_key k r ≡ true → key r ≡ k
  has_key→eq k r h = eq→path (key r) k h

  module _ (k : String) (p : R → Bool) (set : R → R) where
    abbrev keyed : R → Bool
    keyed r = has_key k r && p r

    abbrev written : R → R
    written r = if keyed r then set r else r

    written_self : (r : R) → key r ≡ k → p r ≡ true → written r ≡ set r
    written_self r e h = rw e (rw (eq_refl k) (rw h refl))

    written_other : (i : String) (r : R) → has_key i r ≡ true → (i == k) ≡ false → written r ≡ r
    written_other i r mine other =
        let e : key r ≡ i = has_key→eq i r mine in
        let f : (key r == k) ≡ false = rw e other in rw f refl

    -- `UPDATE … WHERE key = ? AND …` of a row that meets the condition writes that row alone.
    pub select_one-keyed_update :
        (i : String) (rs : List R) (r : R)
        → ((x : R) → key (set x) ≡ key x)
        → select_one (has_key k) rs ≡ some r
        → p r ≡ true
        → select_one (has_key i) (update_where keyed set rs)
          ≡ (if i == k then some (set r) else select_one (has_key i) rs)
    select_one-keyed_update i rs r keep stored h = elim (Bool-cases (i == k)) [
      | inl same ↦
          let e : i ≡ k = eq→path i k same in
          let mine : key r ≡ k = has_key→eq k r (select_one-true (has_key k) rs stored) in
          rw (select_one-update_where has_key i keyed set rs (λ x. rw (keep x) refl))
            (rw same (rw e (rw stored (ap some (written_self r mine h)))))
      | inr other ↦
          rw (select_one-update_where has_key i keyed set rs (λ x. rw (keep x) refl))
            (rw other (rest (select_one (has_key i) rs) refl other))
    ]
      where
        rest :
            (o : Option R)
            → select_one (has_key i) rs ≡ o
            → (i == k) ≡ false
            → ◌≡◌ {A = Option R} (elim o [ none ↦ none | some x ↦ some (written x) ]) o
        rest none e other = refl
        rest (some x) e other = ap some (written_other i x (select_one-true (has_key i) rs e) other)

    -- The row count of such a statement: 1 when the row of the key meets the condition.
    pub count-keyed_self :
        (rs : List R) (r : R)
        → Unique has_key key rs
        → select_one (has_key k) rs ≡ some r
        → p r ≡ true
        → count_where keyed rs ≡ 1
    count-keyed_self rs r u stored h =
        rw (count_where_key has_key key has_key→eq k p rs u) (rw stored (rw h refl))
