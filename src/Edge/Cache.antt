-- ===== src/Edge/Cache.antt =====
-- src/edge/mod.rs: the response cache. The key that eviction drops is the first that the hash map
-- yields, in an order that the library leaves open: a parameter.
pub mod Sizes
pub mod Laws
pub mod Rounds
use pertisk_proxy.Base.{
  ℕ, zero, suc, ◌+◌, ◌-◌, ◌*◌, min, Bool, true, false, not, ◌&&◌, ◌||◌, List, [], ◌∷◌, Option, none,
  some, ◌==◌, leb, ltb, if◌then◌else◌, Bytes, Map, lookup, insert, remove, length, is_empty,
}
use pertisk_proxy.Text.{u64_max}

pub record CachedResponse : Type 0 where
  pub status : ℕ
  pub headers : List (Bytes × Bytes)
  pub body : Bytes

pub record CacheEntry : Type 0 where
  pub response : CachedResponse
  pub expires : ℕ
  pub bytes : ℕ

pub record CacheInner : Type 0 where
  pub entries : Map CacheEntry
  pub bytes : ℕ

abbrev pub size_of : Option CacheEntry → ℕ
size_of none = 0
size_of (some e) = e.bytes

-- An entry taken out, with its size: `if let Some(old) = entries.remove(key)`.
unfoldable pub drop_key : Bytes → CacheInner → CacheInner
drop_key key c = record c {
  entries = remove key c.entries;
  bytes = c.bytes - size_of (lookup key c.entries);
}

-- `cache_get` at the time `now`.
unfoldable pub cache_get : ℕ → Bytes → CacheInner → CacheInner × Option CachedResponse
unfolding drop_key
cache_get now key c = elim (lookup key c.entries) [
  | none ↦ (c, none)
  | some e ↦ if leb e.expires now then (drop_key key c, none) else (c, some e.response)
]

header_bytes : List (Bytes × Bytes) → ℕ
header_bytes [] = 0
header_bytes ((k, v) ∷ hs) = length k + length v + header_bytes hs

-- What a response counts for under its key.
unfoldable pub entry_size : Bytes → CachedResponse → ℕ
unfolding header_bytes
entry_size key r = length r.body + header_bytes r.headers + length key

abbrev pub one_mib : ℕ
one_mib = 1024 * 1024

module _ (next_key : Map CacheEntry → Option Bytes) where
  -- The loop that makes room; the number bounds its rounds.
  unfoldable pub evict : ℕ → ℕ → ℕ → CacheInner → CacheInner
  unfolding drop_key
  evict zero size max_bytes c = c
  evict (suc fuel) size max_bytes c =
      if ltb max_bytes (c.bytes + size) && not (is_empty c.entries)
      then (elim (next_key c.entries) [
        | none ↦ c
        | some k ↦ evict fuel size max_bytes (drop_key k c)
      ])
      else c

  -- What is stored, once the response is known to fit.
  unfoldable pub store : ℕ → Bytes → CachedResponse → ℕ → ℕ → CacheInner → CacheInner
  unfolding evict drop_key entry_size
  store now key response ttl max_bytes c =
      let size = entry_size key response in
      let cleared = drop_key key c in
      let room = evict (length cleared.entries) size max_bytes cleared in
      record room {
        entries =
            insert key (record { response = response; expires = now + ttl; bytes = size })
              room.entries;
        bytes = min (room.bytes + size) u64_max;
      }

  -- `cache_put`: nothing is stored where the cache or the lifetime is 0, nor a response larger
  -- than the cache or than one mebibyte.
  unfoldable pub cache_put : ℕ → Bytes → CachedResponse → ℕ → ℕ → CacheInner → CacheInner
  unfolding store entry_size
  cache_put now key response ttl max_bytes c =
      if max_bytes == 0 || ttl == 0
      then c
      else if ltb max_bytes (entry_size key response) || ltb one_mib (entry_size key response)
      then c
      else store now key response ttl max_bytes c
