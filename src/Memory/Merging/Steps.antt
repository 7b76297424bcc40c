-- ===== src/Memory/Merging/Steps.antt =====
-- The steps of an owner's merge.
use its_middle_platform_agen.Prelude.Table.Laws.{select_one-none-count_where}
use its_middle_platform_agen.Prelude.Table.Counts.{count_where-update_key, bit}
use its_middle_platform_agen.Prelude.Table.Keys.{select_one-update_where, Unique-update_where}
use its_middle_platform_agen.Memory.Candidates.Slots.{memory_self, slot_equal, update-Rows, Rows}
use its_middle_platform_agen.Prelude.Table.TextKey.{has_key→eq, has_key}
use its_middle_platform_agen.Prelude.Table.{count_where, select_one, update_where}
use its_middle_platform_agen.Memory.Upkeep.{removed}
use its_middle_platform_agen.Memory.Records.{in_slot, is_confirmed, coalesce}
use its_middle_platform_agen.Memory.Upkeep.{removed}
use mathlib.Core.Path.{subst}
use its_middle_platform_agen.Memory.Records.{memory_key, Memory, Slot, candidate_key}
use its_middle_platform_agen.Memory.Merging.{
  states_fact, is_memory_of, classify_merge_memory, target_slot, merge_as, Merged, Classification,
  MergeCounts, duplicate, conflicting, unique, moved,
}
use its_middle_platform_agen.Prelude.{
  ◌∙◌, is_some-none, eq_comm, is_some, eq_refl, Bool, All, ◌==◌, Bool-cases, arith, ap, Option, suc,
  List, ◌+◌, String, ℕ, ◌≡◌, none, some, [], ◌∷◌, true, false, inl, inr, refl,
}

-- The memories that the loop has settled.
abbrev pub total : MergeCounts → ℕ
total n = n.moved_memories + n.deduplicated_memories + n.conflicting_memories

module _ (new_id : String → String) (target : String) (now : ℕ) where
  -- What a step writes on the memory.
  abbrev pub setter : Classification → Memory → Memory
  setter unique = moved target now
  setter _ = removed now

  abbrev pub settled : Classification → Memory → List Memory → List Memory
  settled c m ms = update_where (has_key memory_key m.id) (setter c) ms

  pub setter-id : (c : Classification) (m : Memory) → (setter c m).id ≡ m.id
  setter-id unique m = refl
  setter-id duplicate m = refl
  setter-id conflicting m = refl

  -- A step that succeeds.
  abbrev pub Settles : Classification → Memory → Merged → Merged → Type 0
  Settles c m s s' = (s'.1.memories ≡ settled c m s.1.memories) × (total s'.0 ≡ suc (total s.0))

  pub some_merged : {a b : Merged} → ◌≡◌ {A = Option Merged} (some a) (some b) → a ≡ b
  some_merged {a} e = ap (λ (o : Option Merged). elim o [ none ↦ a | some x ↦ x ]) e

  pub merge_as-Settles :
      (c : Classification) (m : Memory) (s s' : Merged)
      → merge_as new_id target now c m s ≡ some s'
      → Settles c m s s'
  merge_as-Settles unique m (n, db) s' h =
      subst (Settles unique m (n, db)) (some_merged h) (refl, omega arith)
  merge_as-Settles duplicate m (n, db) s' h =
      subst (Settles duplicate m (n, db)) (some_merged h) (refl, omega arith)
  merge_as-Settles conflicting m (n, db) s' h =
      elim (Bool-cases (is_some (select_one (has_key candidate_key (new_id m.id)) db.candidates))) [
        | inl taken ↦
            let bad : ◌≡◌ {A = Option Merged} none (some s') = rw taken at h in
            absurd (ground arith)
        | inr fresh ↦
            subst (Settles conflicting m (n, db)) (some_merged (rw fresh at h)) (refl, omega arith)
      ]

  setter-keeps :
      (c : Classification) (i : String) (m : Memory)
      → has_key memory_key i (setter c m) ≡ has_key memory_key i m
  setter-keeps c i m = rw (setter-id c m) refl

  -- The memories that the loop still has to settle stay as they were read.
  pub settled-Stored :
      (c : Classification) (m : Memory) (rows ms : List Memory)
      → select_one (has_key memory_key m.id) ms ≡ none
      → All (λ x. select_one (has_key memory_key x.id) rows ≡ some x) ms
      → All (λ x. select_one (has_key memory_key x.id) (settled c m rows) ≡ some x) ms
  unfolding select_one
  settled-Stored c m rows [] other a = tt
  settled-Stored c m rows (x ∷ ms) other a =
      let differ : has_key memory_key m.id x ≡ false = ground arith in
      let rest : select_one (has_key memory_key m.id) ms ≡ none = ground arith in
      (
        select_one-update_where (has_key memory_key) x.id (has_key memory_key m.id) (setter c) rows
              (λ y. setter-keeps c x.id y)
            ∙ rw a.0 (rw differ refl),
        settled-Stored c m rows ms rest a.1,
      )

  removed-Rows :
      (m : Memory) (rows : List Memory)
      → Rows rows
      → Rows (update_where (has_key memory_key m.id) (removed now) rows)
  removed-Rows m rows r =
      update-Rows (has_key memory_key m.id) (removed now) rows (λ x. refl)
        (λ k x h. absurd (ground arith)) r

  moved-slot :
      (m : Memory)
      → is_confirmed m ≡ true
      → in_slot (target_slot target m) (moved target now m) ≡ true
  moved-slot m live = rw (eq_refl m.scope_type) (
      rw (eq_refl target) (
        rw (eq_refl m.space_id) (
          rw (eq_refl (coalesce m.domain_id))
            (rw (eq_refl m.memory_type) (rw (eq_refl m.subject) live)))))

  module _ (m : Memory) (rows : List Memory)
      (stored : select_one (has_key memory_key m.id) rows ≡ some m) (r : Rows rows) where
    counted :
        (p : Memory → Bool) (c : Classification)
        → count_where p (settled c m rows) + bit (p m) ≡ count_where p rows + bit (p (setter c m))
    counted p c =
        count_where-update_key (has_key memory_key) memory_key (has_key→eq memory_key) memory_self
          m.id p (setter c) rows m r.0 stored

    moved-Rows :
        is_confirmed m ≡ true
        → select_one (in_slot (target_slot target m)) rows ≡ none
        → Rows (settled unique m rows)
    moved-Rows live free = (
      Unique-update_where (has_key memory_key) memory_key (has_key memory_key m.id)
          (moved target now) rows (λ x. refl) (λ i x. refl) r.0,
      λ k. elim (Bool-cases (in_slot k (moved target now m))) [
        | inr other ↦
            let n : count_where (in_slot k) (settled unique m rows) + bit (in_slot k m)
                ≡ count_where (in_slot k) rows + 0 =
              rw other at (counted (in_slot k) unique) in
            omega (arith, n, r.1 k)
        | inl here ↦
            let e =
              slot_equal (target_slot target m) k (moved target now m) (moved-slot m live) here in
            let zero' : count_where (in_slot k) rows ≡ 0 =
              subst (λ (x : Slot). count_where (in_slot x) rows ≡ 0) e
                (select_one-none-count_where (in_slot (target_slot target m)) rows free) in
            let n : count_where (in_slot k) (settled unique m rows) + bit (in_slot k m)
                ≡ count_where (in_slot k) rows + 1 =
              rw here at (counted (in_slot k) unique) in
            omega (arith, n, zero')
      ],
    )

    -- Every classification leaves each slot one confirmed memory.
    pub settled-Rows :
        is_confirmed m ≡ true → Rows (settled (classify_merge_memory target m rows) m rows)
    unfolding classify_merge_memory
    settled-Rows live = elim (Bool-cases (is_some (select_one (states_fact target m) rows))) [
      | inl same ↦ rw same (removed-Rows m rows r)
      | inr new ↦ elim (Bool-cases (is_some (select_one (in_slot (target_slot target m)) rows))) [
        | inl taken ↦ rw new (rw taken (removed-Rows m rows r))
        | inr free ↦ rw new (
            rw free (
              moved-Rows live
                (is_some-none (select_one (in_slot (target_slot target m)) rows) free)))
      ]
    ]

    -- The memory is no longer one of the source.
    pub settled-count :
        (source : String) (c : Classification)
        → (source == target) ≡ false
        → is_memory_of source m ≡ true
        → suc (count_where (is_memory_of source) (settled c m rows))
          ≡ count_where (is_memory_of source) rows
    settled-count source c differ own =
        let n = counted (is_memory_of source) c in
        let gone : is_memory_of source (setter c m) ≡ false = away c in
        let n' : count_where (is_memory_of source) (settled c m rows) + 1
            ≡ count_where (is_memory_of source) rows + 0 =
          rw own at (rw gone at n) in
        omega (arith, n')
      where
        away : (c : Classification) → is_memory_of source (setter c m) ≡ false
        away unique = ground (arith, eq_comm source target)
        away duplicate = ground arith
        away conflicting = ground arith
