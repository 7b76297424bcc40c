-- ===== src/Runtime/MetricCache.antt =====
-- `MetricMCPResultCache` of knowledge/agent_runtime/metric_mcp.py: a cache with a lifetime for each
-- result and a bound on its size. A result that is JSON's null is `none`. `now` is the value of
-- `time.monotonic()`, and a key is the text that `_key` makes with `json.dumps`.
pub mod Bounds
pub mod Calls
use its_middle_platform_agen.Prelude.Table.TextKey.{has_key}
use its_middle_platform_agen.Prelude.Table.{select_one, delete_where}
use its_middle_platform_agen.Prelude.{
  ◌++◌, length, ◌+◌, leb, Option, if◌then◌else◌, String, List, ℕ, none, some, [], ◌∷◌,
}

pub record CacheItem : Type 0 where
  pub key : String
  pub expires_at : ℕ
  pub value : Option String

-- The items are in the order of the `OrderedDict`, the least recently used first.
pub record MetricCache : Type 0 where
  pub ttl : ℕ
  pub max_entries : ℕ
  pub items : List CacheItem

abbrev pub item_key : CacheItem → String
item_key i = i.key

abbrev pub max : ℕ → ℕ → ℕ
max a b = if leb a b then b else a

-- `max(1.0, ttl_seconds)` and `max(1, max_entries)`.
unfoldable pub new_cache : ℕ → ℕ → MetricCache
new_cache ttl max_entries = record { ttl = max 1 ttl; max_entries = max 1 max_entries; items = [] }

-- `move_to_end` of an item that replaces the one of its key, if there is one.
abbrev pub place_last : CacheItem → List CacheItem → List CacheItem
place_last i items = delete_where (has_key item_key i.key) items ++ i ∷ []

abbrev pub found : String → ℕ → CacheItem → MetricCache → Option String × MetricCache
found key now i c =
    if leb i.expires_at now
    then (none, record c { items = delete_where (has_key item_key key) c.items })
    else (i.value, record c { items = place_last i c.items })

unfoldable pub get : String → ℕ → MetricCache → Option String × MetricCache
get key now c = elim (select_one (has_key item_key key) c.items) [
  | none ↦ (none, c)
  | some i ↦ found key now i c
]

-- `while len(self._items) > self.max_entries: popitem(last=False)`.
unfoldable pub evict : ℕ → List CacheItem → List CacheItem
evict max_entries [] = []
evict max_entries (i ∷ items) =
    let rest = evict max_entries items in
    if leb (length (i ∷ items)) max_entries then i ∷ items else rest

unfoldable pub put : String → ℕ → Option String → MetricCache → MetricCache
unfolding evict
put key now value c =
    let item : CacheItem = record { key = key; expires_at = now + c.ttl; value = value } in
    record c { items = evict c.max_entries (place_last item c.items) }
