-- ===== src/Runtime/MetricCache/Calls.antt =====
-- What the cache of `MetricMCPResultCache` (knowledge/agent_runtime/metric_mcp.py) holds and gives back
-- after any calls of it.
use its_middle_platform_agen.Runtime.MetricCache.Bounds.{IsValid, get-IsValid, put-IsValid}
use its_middle_platform_agen.Runtime.MetricCache.Bounds.{put-IsValid, get-IsValid}
use its_middle_platform_agen.Prelude.Table.Keys.{Unique}
use mathlib.Core.Path.{subst}
use mathlib.Core.List.{Mem}
use its_middle_platform_agen.Prelude.Table.TextKey.{has_key}
use its_middle_platform_agen.Prelude.Table.{select_one}
use its_middle_platform_agen.Runtime.MetricCache.{
  max, item_key, put, get, new_cache, MetricCache, CacheItem,
}
use its_middle_platform_agen.Prelude.{
  ◌≤◌, ◌∙◌, inr, arith, inl, length, leb, refl, Bool-cases, ◌∷◌, ◌≡◌, [], Option-cases, ◌+◌, All,
  Option, String, List, ℕ,
}

pub data Call : Type 0 where
  get_call : String → ℕ → Call
  put_call : String → ℕ → Option String → Call

unfoldable pub call : Call → MetricCache → MetricCache
unfolding get put
call (get_call key now) c = (get key now c).1
call (put_call key now value) c = put key now value c

abbrev pub calls : List Call → MetricCache → MetricCache
calls [] c = c
calls (x ∷ xs) c = calls xs (call x c)

module _ (P : CacheItem → Type 0) where
  -- What a call puts in the cache.
  abbrev Puts : ℕ → Call → Type 0
  Puts ttl (get_call key now) = Unit
  Puts ttl (put_call key now value) =
      P (record { key = key; expires_at = now + ttl; value = value })

  abbrev Caches : ℕ → MetricCache → Type 0
  Caches ttl c = (c.ttl ≡ ttl) × All P c.items

-- The item was put by one of the calls.
abbrev WasPut : ℕ → List Call → CacheItem → Type 0
WasPut ttl cs i = (t : ℕ) × Mem (put_call i.key t i.value) cs × (i.expires_at ≡ t + ttl)

call-IsValid : (x : Call) (c : MetricCache) → IsValid c → IsValid (call x c)
unfolding call
call-IsValid (get_call key now) c v = get-IsValid key now c v
call-IsValid (put_call key now value) c v = put-IsValid key now value c v

call-bound : (x : Call) (c : MetricCache) → (call x c).max_entries ≡ c.max_entries
unfolding call put get
call-bound (get_call key now) c = elim (Option-cases (select_one (has_key item_key key) c.items)) [
  | inl missing ↦ rw (missing, get, call) refl
  | inr (i, there) ↦ elim (Bool-cases (leb i.expires_at now)) [
    | inl over ↦ rw (there, get, call) (rw over refl)
    | inr alive ↦ rw (there, get, call) (rw alive refl)
  ]
]
call-bound (put_call key now value) c = refl

calls-bound : (cs : List Call) (c : MetricCache) → (calls cs c).max_entries ≡ c.max_entries
calls-bound [] c = refl
calls-bound (x ∷ cs) c = calls-bound cs (call x c) ∙ call-bound x c

calls-IsValid : (cs : List Call) (c : MetricCache) → IsValid c → IsValid (calls cs c)
calls-IsValid [] c v = v
calls-IsValid (x ∷ cs) c v = calls-IsValid cs (call x c) (call-IsValid x c v)

-- After any calls of a new cache it holds no more items than `max_entries`, or than one where that
-- is zero, and no two of one key.
pub new_cache-IsValid :
    (ttl_seconds max_entries : ℕ) (cs : List Call)
    → let c = calls cs (new_cache ttl_seconds max_entries) in
      (length c.items ≤ max 1 max_entries) × Unique (has_key item_key) item_key c.items
unfolding new_cache
new_cache-IsValid ttl_seconds max_entries cs =
    let fresh : IsValid (new_cache ttl_seconds max_entries) = record {
      small = omega arith;
      room = ground arith;
      keyed = tt;
    } in
    let v = calls-IsValid cs (new_cache ttl_seconds max_entries) fresh in
    (
      subst (λ n. length (calls cs (new_cache ttl_seconds max_entries)).items ≤ n)
          (calls-bound cs (new_cache ttl_seconds max_entries)) v.small,
      v.keyed,
    )
