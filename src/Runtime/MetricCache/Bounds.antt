-- ===== src/Runtime/MetricCache/Bounds.antt =====
-- The size of the cache, the lifetime of a result, and that a key has one item
-- (knowledge/agent_runtime/metric_mcp.py).
use mathlib.Core.Path.{subst}
use its_middle_platform_agen.Prelude.Table.Laws.{select_one-true, select_one-append}
use its_middle_platform_agen.Prelude.Table.TextKey.{has_key→eq, has_key}
use its_middle_platform_agen.Prelude.Table.Keys.{
  Unique-delete_where, select_one-delete_where_self, Unique-append, Unique,
}
use its_middle_platform_agen.Prelude.Table.{delete_where, select_one}
use its_middle_platform_agen.Runtime.MetricCache.{
  place_last, item_key, put, get, evict, MetricCache, CacheItem,
}
use its_middle_platform_agen.Prelude.{
  sym, length-append, Option-cases, Bool, ◌==◌, eq_refl, eq_comm, Bool-cases, ◌++◌, leb,
  if◌then◌else◌, arith, ◌+◌, ◌≤◌, Option, ◌<◌, length, String, List, ℕ, ◌≡◌, none, some, [], ◌∷◌,
  false, inl, inr, refl,
}

pub record IsValid (c : MetricCache) : Type 0 where
  pub small : length c.items ≤ c.max_entries
  pub room : 0 < c.max_entries
  pub keyed : Unique (has_key item_key) item_key c.items

evict-length : (n : ℕ) (items : List CacheItem) → length (evict n items) ≤ n
unfolding evict
evict-length n [] = omega arith
evict-length n (i ∷ items) = ground (arith, evict-length n items)

evict-Unique :
    (n : ℕ) (items : List CacheItem)
    → Unique (has_key item_key) item_key items
    → Unique (has_key item_key) item_key (evict n items)
unfolding evict
evict-Unique n [] u = u
evict-Unique n (i ∷ items) u = elim (Bool-cases (leb (length (i ∷ items)) n)) [
  | inl fits ↦ rw fits u
  | inr full ↦ rw full (evict-Unique n items u.1)
]

place_last-Unique :
    (i : CacheItem) (items : List CacheItem)
    → Unique (has_key item_key) item_key items
    → Unique (has_key item_key) item_key (place_last i items)
place_last-Unique i items u =
    Unique-append (has_key item_key) item_key (delete_where (has_key item_key i.key) items) i
      (λ x y. eq_comm y.key x.key) (select_one-delete_where_self (has_key item_key) i.key items)
      (Unique-delete_where (has_key item_key) item_key (has_key item_key i.key) items u)

-- `put` keeps the cache within its bound, with one item for each key.
pub put-IsValid :
    (key : String) (now : ℕ) (value : Option String) (c : MetricCache)
    → IsValid c
    → IsValid (put key now value c)
unfolding put
put-IsValid key now value c v =
    let item : CacheItem = record { key = key; expires_at = now + c.ttl; value = value } in
    record {
      small = evict-length c.max_entries (place_last item c.items);
      room = v.room;
      keyed =
          evict-Unique c.max_entries (place_last item c.items)
            (place_last-Unique item c.items v.keyed);
    }

length-deleted :
    (test : CacheItem → Bool) (items : List CacheItem)
    → length (delete_where test items) ≤ length items
unfolding delete_where
length-deleted test [] = omega arith
length-deleted test (x ∷ items) = ground (arith, length-deleted test items)

length-deleted_one :
    (test : CacheItem → Bool) (items : List CacheItem) (i : CacheItem)
    → select_one test items ≡ some i
    → length (delete_where test items) < length items
unfolding delete_where select_one
length-deleted_one test [] i h = absurd (ground arith)
length-deleted_one test (x ∷ items) i h = elim (Bool-cases (test x)) [
  | inl hit ↦ rw hit (ground (arith, length-deleted test items))
  | inr miss ↦ rw miss (ground (arith, length-deleted_one test items i (rw miss at h)))
]

-- A read that finds an item over removes it, and else makes it the last.
pub get-IsValid : (key : String) (now : ℕ) (c : MetricCache) → IsValid c → IsValid (get key now c).1
unfolding get
get-IsValid key now c v = elim (Option-cases (select_one (has_key item_key key) c.items)) [
  | inl missing ↦ rw (missing, get) v
  | inr (i, there) ↦ elim (Bool-cases (leb i.expires_at now)) [
    | inl over ↦
        let fewer = length-deleted (has_key item_key key) c.items in
        rw (there, get)
          (rw over (record {
            small = omega (arith, fewer, v.small);
            room = v.room;
            keyed =
                Unique-delete_where (has_key item_key) item_key (has_key item_key key) c.items
                  v.keyed;
          }))
    | inr alive ↦
        let same : i.key ≡ key =
          has_key→eq item_key key i (select_one-true (has_key item_key key) c.items there) in
        let found' : select_one (has_key item_key i.key) c.items ≡ some i =
          subst (λ k. select_one (has_key item_key k) c.items ≡ some i) (sym same) there in
        let fewer = length-deleted_one (has_key item_key i.key) c.items i found' in
        rw (there, get)
          (rw alive (record {
            small = omega (
              arith,
              length-append (delete_where (has_key item_key i.key) c.items) (i ∷ []),
              fewer,
              v.small,
            );
            room = v.room;
            keyed = place_last-Unique i c.items v.keyed;
          }))
  ]
]

evict-last :
    (n : ℕ) (items : List CacheItem) (i : CacheItem)
    → 0 < n
    → select_one (has_key item_key i.key) items ≡ none
    → select_one (has_key item_key i.key) (evict n (items ++ i ∷ [])) ≡ some i
unfolding evict select_one
evict-last n [] i room fresh = ground (arith, eq_refl i.key)
evict-last n (x ∷ items) i room fresh =
    let shorter : select_one (has_key item_key i.key) items ≡ none = ground arith in
    let later = evict-last n items i room shorter in
    let other : (x.key == i.key) ≡ false = ground arith in
    elim (Bool-cases (leb (length (x ∷ items ++ i ∷ [])) n)) [
      | inl fits ↦ rw fits (
          rw other (
            rw (select_one-append (has_key item_key i.key) items i)
              (rw shorter (rw (eq_refl i.key) refl))))
      | inr full ↦ rw full later
    ]

-- In a cache with room for an item, a result that was just stored is read back until its lifetime
-- ends, and not from then on.
pub get-put :
    (key : String) (now later : ℕ) (value : Option String) (c : MetricCache)
    → 0 < c.max_entries
    → (get key later (put key now value c)).0 ≡ (if leb (now + c.ttl) later then none else value)
unfolding get put
get-put key now later value c room =
    let item : CacheItem = record { key = key; expires_at = now + c.ttl; value = value } in
    let stored =
      evict-last c.max_entries (delete_where (has_key item_key key) c.items) item room
        (select_one-delete_where_self (has_key item_key) key c.items) in
    rw (stored, get)
      (elim (Bool-cases (leb (now + c.ttl) later)) [
        | inl over ↦ rw over refl
        | inr alive ↦ rw alive refl
      ])
