-- ===== src/Runtime/Scopes/Binding.antt =====
-- That a conversation stays in the scope it was bound to, and that both databases agree.
use its_middle_platform_agen.Prelude.Table.Maps.{select_one-key}
use its_middle_platform_agen.Prelude.Table.Laws.{select_one-append}
use its_middle_platform_agen.Prelude.Strip.{strip, is_empty}
use its_middle_platform_agen.Prelude.Table.TextKey.{has_key→eq, has_key}
use its_middle_platform_agen.Prelude.Table.Keys.{Unique}
use its_middle_platform_agen.Prelude.Table.{select_one, update_where}
use its_middle_platform_agen.Runtime.Scopes.{
  strip_domain, same_scope, new_scope, scope_key, returned, ConversationScope, upsert_row, bind_row,
}
use its_middle_platform_agen.Prelude.{
  ◌||◌, ◌&&◌, Option-cases, Bool-cases, Bool, Option, String, List, ℕ, ◌≡◌, some, [], ◌∷◌, inl, inr,
  refl,
}
use its_middle_platform_agen.Runtime.Scopes.Sqlite
use its_middle_platform_agen.Runtime.Scopes.Postgres

abbrev pub IsKeyed : List ConversationScope → Type 0
IsKeyed rows = Unique (has_key scope_key) scope_key rows

update_where-same :
    (test : ConversationScope → Bool) (rows : List ConversationScope)
    → update_where test (λ r. r) rows ≡ rows
unfolding update_where
update_where-same test [] = refl
update_where-same test (r ∷ rows) = elim (Bool-cases (test r)) [
  | inl e ↦ rw e (rw (update_where-same test rows) refl)
  | inr e ↦ rw e (rw (update_where-same test rows) refl)
]

-- The upsert of PostgreSQL and the transaction of SQLite.
upsert_row-bind_row :
    (c s : String) (d : Option String) (now : ℕ) (rows : List ConversationScope)
    → IsKeyed rows
    → returned (upsert_row c s d now rows) rows ≡ bind_row c s d now rows
unfolding upsert_row bind_row
upsert_row-bind_row c s d now rows u = elim (Option-cases (select_one (has_key scope_key c) rows)) [
  | inl new ↦ rw (new, upsert_row, bind_row) refl
  | inr (r, old) ↦
      let whole : update_where (λ r. has_key scope_key c r && same_scope s d r) (λ r. r) rows
          ≡ rows =
        update_where-same (λ r. has_key scope_key c r && same_scope s d r) rows in
      let read =
        select_one-key (has_key scope_key) scope_key (has_key→eq scope_key) c (same_scope s d) rows
          u in
      elim (Bool-cases (same_scope s d r)) [
        | inl same ↦ rw (old, upsert_row, bind_row) (rw whole (rw read (rw old (rw same refl))))
        | inr other ↦ rw (old, upsert_row, bind_row) (rw whole (rw read (rw old (rw other refl))))
      ]
]

-- On every table whose conversations are distinct, and for any arguments, `bind` returns the same
-- scope or error over PostgreSQL as over SQLite, and leaves the same table.
pub bind-databases :
    (c s : String) (d : Option String) (now : ℕ) (rows : List ConversationScope)
    → IsKeyed rows
    → Postgres.bind c s d now rows ≡ Sqlite.bind c s d now rows
unfolding Postgres.bind Sqlite.bind
bind-databases c s d now rows u = elim (Bool-cases (is_empty (strip c) || is_empty (strip s))) [
  | inl bad ↦ rw bad refl
  | inr good ↦ rw good (upsert_row-bind_row (strip c) (strip s) (strip_domain d) now rows u)
]

-- A row that is there is found after a `bind` of any conversation, as it was.
bind_row-keeps :
    (c s i : String) (d : Option String) (now : ℕ) (rows : List ConversationScope)
    (r : ConversationScope)
    → select_one (has_key scope_key i) rows ≡ some r
    → select_one (has_key scope_key i) (bind_row c s d now rows).1 ≡ some r
unfolding bind_row
bind_row-keeps c s i d now rows r there =
    elim (Option-cases (select_one (has_key scope_key c) rows)) [
      | inl new ↦
          rw (new, bind_row)
            (rw (select_one-append (has_key scope_key i) rows (new_scope c s d now))
              (rw there refl))
      | inr (x, old) ↦ elim (Bool-cases (same_scope s d x)) [
        | inl same ↦ rw (old, bind_row) (rw same there)
        | inr other ↦ rw (old, bind_row) (rw other there)
      ]
    ]

pub bind-keeps :
    (c s i : String) (d : Option String) (now : ℕ) (rows : List ConversationScope)
    (r : ConversationScope)
    → Sqlite.get i rows ≡ some r
    → Sqlite.get i (Sqlite.bind c s d now rows).1 ≡ some r
unfolding Sqlite.bind Sqlite.get
bind-keeps c s i d now rows r there = elim (Bool-cases (is_empty (strip c) || is_empty (strip s))) [
  | inl bad ↦ rw bad there
  | inr good ↦ rw good (bind_row-keeps (strip c) (strip s) i (strip_domain d) now rows r there)
]

-- Calls of `bind`, one after the other.
pub data Binds : List ConversationScope → List ConversationScope → Type 0 where
  no_bind : {rows : List ConversationScope} → Binds rows rows
  then_bind :
      {rows rows' : List ConversationScope} (c s : String) (d : Option String) (now : ℕ)
      → Binds rows rows'
      → Binds rows (Sqlite.bind c s d now rows').1

-- A conversation that is bound keeps its scope and the time of its binding through every sequence
-- of calls of `bind`, those of its own id with another scope included.
pub Binds-keeps :
    {rows rows' : List ConversationScope} (i : String) (r : ConversationScope)
    → Binds rows rows'
    → Sqlite.get i rows ≡ some r
    → Sqlite.get i rows' ≡ some r
Binds-keeps i r no_bind there = there
Binds-keeps i r (then_bind {rows' = rows'} c s d now before) there =
    bind-keeps c s i d now rows' r (Binds-keeps i r before there)
