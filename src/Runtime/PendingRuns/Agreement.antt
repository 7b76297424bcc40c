-- ===== src/Runtime/PendingRuns/Agreement.antt =====
-- That SQLite and PostgreSQL answer every sequence of calls alike.
use its_middle_platform_agen.Prelude.Table.TextKey.{has_key→eq, has_key}
use its_middle_platform_agen.Prelude.Table.Maps.{
  update_where-map, some_map, map-append_row, count_where-returning, select_one-map,
  delete_where-map,
}
use its_middle_platform_agen.Prelude.Table.Keys.{
  Unique-update_where, Unique-delete_where, Unique-append, Unique,
}
use its_middle_platform_agen.Prelude.Table.{count_where, select_one}
use its_middle_platform_agen.Prelude.Result.{ok, Result}
use its_middle_platform_agen.Runtime.PendingRuns.{
  as_completed, overwrite, is_pending, run_key, in_conversation, completes, PendingRun, upsert,
  PendingRow, PendingError, Marked, JsonCodec,
}
use its_middle_platform_agen.Prelude.{
  eqb, eq_comm, ap, Bool-cases, Option-cases, map, String, List, ℕ, ◌≡◌, [], ◌∷◌, inl, inr, refl,
}
use its_middle_platform_agen.Runtime.PendingRuns.Sqlite
use its_middle_platform_agen.Runtime.PendingRuns.Postgres

-- A call of one of the four methods.
pub data RunCall (S A : Type 0) : Type 0 where
  save : String → String → S → A → ℕ → RunCall S A
  read delete : String → RunCall S A
  mark : String → ℕ → RunCall S A

-- What a call returns.
pub data Reply (S A : Type 0) : Type 0 where
  nothing : Reply S A
  run : Result PendingError (PendingRun S A) → Reply S A
  marked : Result {0, 0} PendingError Unit → Reply S A

module _ {S A : Type 0} where
  abbrev pub IsKeyed : List (PendingRow S A) → Type 0
  IsKeyed rows = Unique (has_key run_key) run_key rows

  abbrev pub marked_reply : Marked (PendingRow S A) → Reply S A × List (PendingRow S A)
  marked_reply (r, rows) = (marked r, rows)

  unfoldable pub postgres : RunCall S A → List (PendingRow S A) → Reply S A × List (PendingRow S A)
  postgres (save i c s a now) rows = (nothing, Postgres.save_pending i c s a now rows)
  postgres (read i) rows = (run (Postgres.get_pending i rows), rows)
  postgres (delete c) rows = (nothing, Postgres.delete_conversation c rows)
  postgres (mark i now) rows =
      (marked (Postgres.mark_completed i now rows).0, (Postgres.mark_completed i now rows).1)

  unfoldable pub postgres_replies : List (RunCall S A) → List (PendingRow S A) → List (Reply S A)
  unfolding postgres
  postgres_replies [] rows = []
  postgres_replies (c ∷ cs) rows = (postgres c rows).0 ∷ postgres_replies cs (postgres c rows).1

module _ {S A : Type 0} (json : JsonCodec S A) where
  abbrev Stored : Type 0
  Stored = List (PendingRow String String)

  unfoldable pub sqlite : RunCall S A → Stored → Reply S A × Stored
  sqlite (save i c s a now) rows = (nothing, Sqlite.save_pending json i c s a now rows)
  sqlite (read i) rows = (run (Sqlite.get_pending json i rows), rows)
  sqlite (delete c) rows = (nothing, Sqlite.delete_conversation json c rows)
  sqlite (mark i now) rows =
      (marked (Sqlite.mark_completed json i now rows).0, (Sqlite.mark_completed json i now rows).1)

  unfoldable pub sqlite_replies : List (RunCall S A) → Stored → List (Reply S A)
  unfolding sqlite
  sqlite_replies [] rows = []
  sqlite_replies (c ∷ cs) rows = (sqlite c rows).0 ∷ sqlite_replies cs (sqlite c rows).1

  -- The row of PostgreSQL that a row of SQLite stands for.
  abbrev pub decode : PendingRow String String → PendingRow S A
  decode r = record {
    run_id = r.run_id;
    conversation_id = r.conversation_id;
    state = json.loads_state r.state;
    approvals = json.loads_approvals r.approvals;
    status = r.status;
    created_at = r.created_at;
    updated_at = r.updated_at;
  }

  module _ (state_back : (s : S) → json.loads_state (json.dumps_state s) ≡ s)
      (approvals_back : (a : A) → json.loads_approvals (json.dumps_approvals a) ≡ a) where
    read_back :
        (i : String) (rows : Stored)
        → select_one (has_key run_key i) (map decode rows)
          ≡ some_map decode (select_one (has_key run_key i) rows)
    read_back i rows =
        select_one-map decode (has_key run_key i) (has_key run_key i) (λ r. refl) rows

    save-agrees :
        (i c : String) (s : S) (a : A) (now : ℕ) (rows : Stored)
        → Postgres.save_pending i c s a now (map decode rows)
          ≡ map decode (Sqlite.save_pending json i c s a now rows)
    unfolding Postgres.save_pending Sqlite.save_pending upsert
    save-agrees i c s a now rows = elim (Option-cases (select_one (has_key run_key i) rows)) [
      | inl new ↦ rw (read_back i rows) (
          rw new
            (rw (map-append_row decode rows _) (rw (state_back s) (rw (approvals_back a) refl))))
      | inr (r, old) ↦ rw (read_back i rows) (
          rw old (
            update_where-map decode (has_key run_key i) (has_key run_key i) (λ x. refl)
              (overwrite (json.dumps_state s) (json.dumps_approvals a) now) (overwrite s a now)
              (λ x. rw (state_back s) (rw (approvals_back a) refl)) rows))
    ]

    get-agrees :
        (i : String) (rows : Stored)
        → Postgres.get_pending i (map decode rows) ≡ Sqlite.get_pending json i rows
    unfolding Postgres.get_pending Sqlite.get_pending
    get-agrees i rows = elim (Option-cases (select_one (has_key run_key i) rows)) [
      | inl new ↦ rw (read_back i rows, Postgres.get_pending) (rw (new, Sqlite.get_pending) refl)
      | inr (r, old) ↦ elim (Bool-cases (is_pending r)) [
        | inl waits ↦
            rw (read_back i rows, Postgres.get_pending)
              (rw (old, Sqlite.get_pending) (rw waits refl))
        | inr done ↦
            rw (read_back i rows, Postgres.get_pending)
              (rw (old, Sqlite.get_pending) (rw done refl))
      ]
    ]

    delete-agrees :
        (c : String) (rows : Stored)
        → Postgres.delete_conversation c (map decode rows)
          ≡ map decode (Sqlite.delete_conversation json c rows)
    unfolding Postgres.delete_conversation Sqlite.delete_conversation
    delete-agrees c rows =
        delete_where-map decode (in_conversation c) (in_conversation c) (λ x. refl) rows

    mark-agrees :
        (i : String) (now : ℕ) (rows : Stored)
        → IsKeyed rows
        → Postgres.mark_completed i now (map decode rows) ≡ (
          (Sqlite.mark_completed json i now rows).0,
          map decode (Sqlite.mark_completed json i now rows).1,
        )
    unfolding Postgres.mark_completed Sqlite.mark_completed
    mark-agrees i now rows u =
        let met = select_one-map decode (completes i) (completes i) (λ r. refl) rows in
        let counted =
          count_where-returning (has_key run_key) run_key (has_key→eq run_key) i is_pending rows
            u in
        elim (Option-cases (select_one (completes i) rows)) [
          | inl miss ↦ elim (Option-cases (select_one (has_key run_key i) rows)) [
            | inl gone ↦ rw met (rw counted (rw miss (rw (read_back i rows) (rw gone refl))))
            | inr (r, there) ↦ rw met (rw counted (rw miss (rw (read_back i rows) (rw there refl))))
          ]
          | inr (r, hit) ↦ rw met (
              rw counted (
                rw hit (
                  ap (λ t. (ok tt, t))
                    (update_where-map decode (completes i) (completes i) (λ x. refl)
                      (as_completed now) (as_completed now) (λ x. refl) rows))))
        ]

    save-IsKeyed :
        (i c : String) (s : S) (a : A) (now : ℕ) (rows : Stored)
        → IsKeyed rows
        → IsKeyed (Sqlite.save_pending json i c s a now rows)
    unfolding Sqlite.save_pending upsert
    save-IsKeyed i c s a now rows u = elim (Option-cases (select_one (has_key run_key i) rows)) [
      | inl new ↦
          rw new (
            Unique-append (has_key run_key) run_key rows _ (λ x y. eq_comm y.run_id x.run_id) new u)
      | inr (r, old) ↦ rw old (
          Unique-update_where (has_key run_key) run_key (has_key run_key i)
            (overwrite (json.dumps_state s) (json.dumps_approvals a) now) rows (λ r. refl)
            (λ k r. refl) u)
    ]

    sqlite-IsKeyed : (c : RunCall S A) (rows : Stored) → IsKeyed rows → IsKeyed (sqlite c rows).1
    unfolding sqlite Sqlite.mark_completed Sqlite.delete_conversation
    sqlite-IsKeyed (save i c s a now) rows u = save-IsKeyed i c s a now rows u
    sqlite-IsKeyed (read i) rows u = u
    sqlite-IsKeyed (delete c) rows u =
        Unique-delete_where (has_key run_key) run_key (in_conversation c) rows u
    sqlite-IsKeyed (mark i now) rows u =
        elim (Bool-cases (eqb (count_where (completes i) rows) 1)) [
          | inl hit ↦ rw hit (
              Unique-update_where (has_key run_key) run_key (completes i) (as_completed now) rows
                (λ r. refl) (λ k r. refl) u)
          | inr miss ↦ rw miss u
        ]

    postgres-sqlite :
        (c : RunCall S A) (rows : Stored)
        → IsKeyed rows
        → postgres c (map decode rows) ≡ ((sqlite c rows).0, map decode (sqlite c rows).1)
    unfolding postgres sqlite
    postgres-sqlite (save i c s a now) rows u = rw (save-agrees i c s a now rows) refl
    postgres-sqlite (read i) rows u = rw (get-agrees i rows) refl
    postgres-sqlite (delete c) rows u = rw (delete-agrees c rows) refl
    postgres-sqlite (mark i now) rows u = rw (mark-agrees i now rows u) refl

    -- Where `json.loads` reads back what `json.dumps` writes, every sequence of calls has the same
    -- answers from PostgreSQL as from SQLite, exceptions included, on tables of the same rows
    -- with distinct run ids.
    pub postgres_replies-sqlite_replies :
        (cs : List (RunCall S A)) (rows : Stored)
        → IsKeyed rows
        → postgres_replies cs (map decode rows) ≡ sqlite_replies cs rows
    unfolding postgres_replies sqlite_replies
    postgres_replies-sqlite_replies [] rows u = refl
    postgres_replies-sqlite_replies (c ∷ cs) rows u =
        rw (postgres-sqlite c rows u)
          (rw (postgres_replies-sqlite_replies cs (sqlite c rows).1 (sqlite-IsKeyed c rows u)) refl)
