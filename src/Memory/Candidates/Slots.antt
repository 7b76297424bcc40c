-- ===== src/Memory/Candidates/Slots.antt =====
-- That a slot has one confirmed memory at most, after the statements of candidates.
use its_middle_platform_agen.Memory.Records.{Outcome}
use its_middle_platform_agen.Memory.Candidates.{outdated}
use mathlib.Core.Path.{subst}
use its_middle_platform_agen.Prelude.Table.Laws.{count_where-append, count_where-delete_where}
use its_middle_platform_agen.Prelude.Table.Counts.{
  count_where-update_where_le, count_where-update_where_none,
}
use its_middle_platform_agen.Prelude.Result.{Result}
use its_middle_platform_agen.Prelude.Table.{
  select_all, select_one, update_where, delete_where, count_where,
}
use its_middle_platform_agen.Prelude.Table.TextKey.{has_key}
use its_middle_platform_agen.Memory.Candidates.{
  get_candidate, ok, err, first_id, confirmed_memory, write_approval, approve_candidate,
}
use its_middle_platform_agen.Prelude.Table.Keys.{
  Unique-append, Unique-update_where, Unique-delete_where, Unique,
}
use its_middle_platform_agen.Memory.Records.{
  memory_value_error, is_pending, coalesce, MemoryError, slot_of, in_slot, MemoryCandidate,
  memory_key, Memory, Slot, Store,
}
use its_middle_platform_agen.Prelude.{
  not, if◌then◌else◌, is_some-none, eq_comm, ◌∙◌, ◌++◌, arith, ◌≤◌, is_some, eq→path, Bool-cases,
  sym, eq_refl, String, Option, List, Bool, ℕ, ◌≡◌, [], ◌∷◌, true, false, inl, inr, refl,
}

abbrev pub Rows : List Memory → Type 0
Rows ms = Unique (has_key memory_key) memory_key ms × ((k : Slot) → count_where (in_slot k) ms ≤ 1)

-- The ids are distinct, and no slot (a scope, an owner, a space, a domain, a type and a subject) has
-- two confirmed memories.
pub record IsConsistent (db : Store) : Type 0 where
  pub ids : Unique (has_key memory_key) memory_key db.memories
  pub single : (k : Slot) → count_where (in_slot k) db.memories ≤ 1

pub memory_self : (m : Memory) → has_key memory_key m.id m ≡ true
memory_self m = eq_refl m.id

-- A confirmed memory has one slot.
pub slot_equal : (k k' : Slot) (m : Memory) → in_slot k m ≡ true → in_slot k' m ≡ true → k ≡ k'
slot_equal k k' m h h' =
    let scope =
      sym (eq→path m.scope_type k.scope_type (ground arith))
      ∙ eq→path m.scope_type k'.scope_type (ground arith) in
    let owner =
      sym (eq→path m.owner_id k.owner_id (ground arith))
      ∙ eq→path m.owner_id k'.owner_id (ground arith) in
    let space =
      sym (eq→path m.space_id k.space_id (ground arith))
      ∙ eq→path m.space_id k'.space_id (ground arith) in
    let domain =
      sym (eq→path (coalesce m.domain_id) k.domain (ground arith))
      ∙ eq→path (coalesce m.domain_id) k'.domain (ground arith) in
    let kind =
      sym (eq→path m.memory_type k.memory_type (ground arith))
      ∙ eq→path m.memory_type k'.memory_type (ground arith) in
    let subject =
      sym (eq→path m.subject k.subject (ground arith))
      ∙ eq→path m.subject k'.subject (ground arith) in
    λ i. record {
      scope_type = scope i;
      owner_id = owner i;
      space_id = space i;
      domain = domain i;
      memory_type = kind i;
      subject = subject i;
    }

-- A statement that confirms nothing.
pub update-Rows :
    (test : Memory → Bool) (set : Memory → Memory) (ms : List Memory)
    → ((m : Memory) → (set m).id ≡ m.id)
    → ((k : Slot) (m : Memory) → in_slot k (set m) ≡ true → in_slot k m ≡ true)
    → Rows ms
    → Rows (update_where test set ms)
update-Rows test set ms keep falls r = (
  Unique-update_where (has_key memory_key) memory_key test set ms keep (λ i m. rw (keep m) refl)
      r.0,
  λ k.
      omega (
        arith,
        count_where-update_where_le test (in_slot k) set ms (λ m hit h. falls k m h),
        r.1 k,
      ),
)

pub delete-Rows : (test : Memory → Bool) (ms : List Memory) → Rows ms → Rows (delete_where test ms)
delete-Rows test ms r = (
  Unique-delete_where (has_key memory_key) memory_key test ms r.0,
  λ k. omega (arith, count_where-delete_where test (in_slot k) ms, r.1 k),
)

module _ (c : MemoryCandidate) (now : ℕ) (ms : List Memory) where
  abbrev freed : List Memory
  freed = update_where (in_slot (slot_of c)) (outdated now) ms

  freed-slot : count_where (in_slot (slot_of c)) freed ≡ 0
  freed-slot =
      count_where-update_where_none (in_slot (slot_of c)) (in_slot (slot_of c)) (outdated now) ms
        (λ m h. h) (λ m. ground arith)

  confirmed-slot :
      (v : Option ℕ) (s : Option String) → in_slot (slot_of c) (confirmed_memory c v s now) ≡ true
  confirmed-slot v s = rw (eq_refl c.scope_type) (
      rw (eq_refl c.owner_id) (
        rw (eq_refl c.space_id) (
          rw (eq_refl (coalesce c.domain_id))
            (rw (eq_refl c.memory_type) (rw (eq_refl c.subject) refl)))))

  approved-Rows :
      (v : Option ℕ) (s : Option String)
      → is_some (select_one (has_key memory_key c.id) freed) ≡ false
      → Rows ms
      → Rows (freed ++ confirmed_memory c v s now ∷ [])
  approved-Rows v s fresh r =
      let kept =
        update-Rows (in_slot (slot_of c)) (outdated now) ms (λ m. refl)
          (λ k m h. absurd (ground arith)) r in
      let new : Memory = confirmed_memory c v s now in
      (
        Unique-append (has_key memory_key) memory_key freed new (λ x y. eq_comm y.id x.id)
            (is_some-none (select_one (has_key memory_key c.id) freed) fresh) kept.0,
        λ k. rw (count_where-append (in_slot k) freed new) (elim (Bool-cases (in_slot k new)) [
          | inr miss ↦ rw miss (kept.1 k)
          | inl hit ↦
              let e : slot_of c ≡ k = slot_equal (slot_of c) k new (confirmed-slot v s) hit in
              let zero' : count_where (in_slot k) freed ≡ 0 =
                subst (λ (x : Slot). count_where (in_slot x) freed ≡ 0) e freed-slot in
              rw hit (omega (arith, zero'))
        ]),
      )

pub write_approval-Rows :
    (c : MemoryCandidate) (actor : String) (v : Option ℕ) (now : ℕ) (db : Store)
    → Rows db.memories
    → Rows (write_approval c actor v now db).1.memories
unfolding write_approval
write_approval-Rows c actor v now db r =
    elim (Bool-cases (is_some (select_one (has_key memory_key c.id) (freed c now db.memories)))) [
      | inl taken ↦ rw taken r
      | inr fresh ↦ rw fresh (
          approved-Rows c now db.memories v
            (first_id (select_all (in_slot (slot_of c)) db.memories)) fresh r)
    ]

pub approve_candidate-Rows :
    (i actor : String) (v : Option ℕ) (now : ℕ) (db : Store)
    → Rows db.memories
    → Rows (approve_candidate i actor v now db).1.memories
unfolding approve_candidate
approve_candidate-Rows i actor v now db r = by_row (get_candidate i db)
  where
    by_row :
        (o : Result {0, 0} MemoryError MemoryCandidate)
        → let out : Outcome (Option Memory) = elim o [
          | err e ↦ (err e, db)
          | ok c ↦
              if not (is_pending c)
              then (err memory_value_error, db)
              else write_approval c actor v now db
        ] in
          Rows out.1.memories
    by_row (err e) = r
    by_row (ok c) = elim (Bool-cases (not (is_pending c))) [
      | inl late ↦ rw late r
      | inr open' ↦ rw open' (write_approval-Rows c actor v now db r)
    ]
