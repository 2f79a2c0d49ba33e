-- ===== src/Edge/Cache/Laws.antt =====
-- src/edge/mod.rs: the byte counter of the cache, and what `cache_get` finds after `cache_put`.
use pertisk_proxy.Base.{
  ℕ, zero, suc, ◌+◌, ◌≤◌, ◌<◌, ◌≡◌, ap, ◌∙◌, true, false, not, ◌&&◌, ◌||◌, [], Option, none, some,
  arith, ◌==◌, ltb, leb, Bytes, Map, lookup, has_key, length, is_empty, HasDistinctKeys,
  insert-HasDistinctKeys, remove-HasDistinctKeys, lookup-insert_self, Bool-cases, Option-cases, inl,
  inr, ◌⊎◌, if◌then◌else◌,
}
use pertisk_proxy.Text.{u64_max}
use pertisk_proxy.Edge.Cache.{
  CachedResponse, CacheEntry, CacheInner, drop_key, cache_get, entry_size, evict, store, cache_put,
  one_mib,
}
use pertisk_proxy.Edge.Cache.Sizes.{
  total_empty, is_empty-length, total, total-remove, total-insert_new, length-remove,
  has_key-remove_self, has_key-remove_other,
}

pub record IsValid (c : CacheInner) : Type 0 where
  pub distinct : HasDistinctKeys c.entries
  pub counted : c.bytes ≡ total c.entries

drop_key-IsValid : (k : Bytes) (c : CacheInner) → IsValid c → IsValid (drop_key k c)
unfolding drop_key
drop_key-IsValid k c v = record {
  distinct = remove-HasDistinctKeys k c.entries v.distinct;
  counted = omega (arith, v.counted, total-remove k c.entries);
}

cache_get_cases :
    (now : ℕ) (k : Bytes) (c : CacheInner)
    → ((cache_get now k c).0 ≡ c) ⊎ ((cache_get now k c).0 ≡ drop_key k c)
unfolding cache_get
cache_get_cases now k c = ground arith

pub cache_get-IsValid :
    (now : ℕ) (k : Bytes) (c : CacheInner) → IsValid c → IsValid (cache_get now k c).0
cache_get-IsValid now k c v = elim (cache_get_cases now k c) [
  | inl same ↦ rw same v
  | inr dropped ↦ rw dropped (drop_key-IsValid k c v)
]

-- The documented behaviour of `keys().next()`: a key of the map, unless it is empty.
abbrev pub YieldsKey : (Map CacheEntry → Option Bytes) → Type 0
YieldsKey next_key =
    (m : Map CacheEntry)
    → (next_key m ≡ none → m ≡ []) × ((k : Bytes) → next_key m ≡ some k → has_key k m ≡ true)

module _ (next_key : Map CacheEntry → Option Bytes) (yields : YieldsKey next_key) where
  -- What the loop that makes room achieves.
  pub record Cleared (key : Bytes) (size max_bytes : ℕ) (c : CacheInner) : Type 0 where
    pub valid : IsValid c
    pub absent : has_key key c.entries ≡ false
    pub fits : c.bytes + size ≤ max_bytes

  drop_key_absent :
      (k key : Bytes) (c : CacheInner)
      → has_key key c.entries ≡ false
      → has_key key (drop_key k c).entries ≡ false
  unfolding drop_key
  drop_key_absent k key c h = has_key-remove_other k key c.entries h

  pub drop_key_shorter :
      (k : Bytes) (c : CacheInner)
      → has_key k c.entries ≡ true
      → length (drop_key k c).entries + 1 ≡ length c.entries
  unfolding drop_key
  drop_key_shorter k c h = length-remove k c.entries h

  pub evict_stop :
      (fuel size max_bytes : ℕ) (c : CacheInner)
      → (ltb max_bytes (c.bytes + size) && not (is_empty c.entries)) ≡ false
      → evict next_key (suc fuel) size max_bytes c ≡ c
  unfolding evict
  evict_stop fuel size max_bytes c h = rw h

  pub evict_round :
      (fuel size max_bytes : ℕ) (c : CacheInner) (k : Bytes)
      → (ltb max_bytes (c.bytes + size) && not (is_empty c.entries)) ≡ true
      → next_key c.entries ≡ some k
      → evict next_key (suc fuel) size max_bytes c
        ≡ evict next_key fuel size max_bytes (drop_key k c)
  unfolding evict
  evict_round fuel size max_bytes c k h e = rw h (rw e)

  stopped_fits :
      (size max_bytes : ℕ) (c : CacheInner)
      → IsValid c
      → size ≤ max_bytes
      → (ltb max_bytes (c.bytes + size) && not (is_empty c.entries)) ≡ false
      → c.bytes + size ≤ max_bytes
  stopped_fits size max_bytes c v small h = elim (Bool-cases (is_empty c.entries)) [
    | inl e ↦ omega (arith, v.counted, total_empty c.entries (is_empty-length c.entries e))
    | inr e ↦ ground arith
  ]

  -- The rounds that the number of entries allows are enough.
  pub evict-Cleared :
      (fuel size max_bytes : ℕ) (key : Bytes) (c : CacheInner)
      → IsValid c
      → has_key key c.entries ≡ false
      → size ≤ max_bytes
      → length c.entries ≤ fuel
      → Cleared key size max_bytes (evict next_key fuel size max_bytes c)
  evict-Cleared zero size max_bytes key c v absent small enough =
      unfold evict in
      record {
        valid = v;
        absent = absent;
        fits = omega (arith, v.counted, total_empty c.entries enough);
      }
  evict-Cleared (suc fuel) size max_bytes key c v absent small enough =
      elim (Bool-cases (ltb max_bytes (c.bytes + size) && not (is_empty c.entries))) [
        | inr stop ↦ rw (evict_stop fuel size max_bytes c stop) (record {
          valid = v;
          absent = absent;
          fits = stopped_fits size max_bytes c v small stop;
        })
        | inl more ↦ elim (Option-cases (next_key c.entries)) [
          | inl none_left ↦ absurd (nonempty c.entries ((yields c.entries).0 none_left) more)
          | inr (k, e) ↦ rw (evict_round fuel size max_bytes c k more e) (
              evict-Cleared fuel size max_bytes key (drop_key k c) (drop_key-IsValid k c v)
                (drop_key_absent k key c absent) small
                (omega (arith, drop_key_shorter k c ((yields c.entries).1 k e))))
        ]
      ]
    where
      nonempty :
          (m : Map CacheEntry)
          → m ≡ []
          → (ltb max_bytes (c.bytes + size) && not (is_empty m)) ≡ true
          → ⊥
      nonempty m e h = ground arith

  module _ (now : ℕ) (key : Bytes) (response : CachedResponse) (ttl max_bytes : ℕ)
      (c : CacheInner) where
    abbrev entry : CacheEntry
    entry = record { response = response; expires = now + ttl; bytes = entry_size key response }

    -- A valid cache within its size, with the new entry stored.
    pub record Stored (d : CacheInner) : Type 0 where
      pub valid : IsValid d
      pub within : d.bytes ≤ max_bytes
      pub found : lookup key d.entries ≡ some entry

    store-Stored :
        IsValid c
        → entry_size key response ≤ max_bytes
        → max_bytes ≤ u64_max
        → Stored (store next_key now key response ttl max_bytes c)
    unfolding store
    store-Stored v small word =
        let absent : has_key key (drop_key key c).entries ≡ false =
          unfold drop_key in has_key-remove_self key c.entries v.distinct in
        let room =
          evict-Cleared (length (drop_key key c).entries) (entry_size key response) max_bytes key
            (drop_key key c) (drop_key-IsValid key c v) absent small (omega arith) in
        record {
          valid = record {
            distinct = insert-HasDistinctKeys key entry _ room.valid.distinct;
            counted =
                omega
                  (arith, room.valid.counted, room.fits, total-insert_new key entry _ room.absent);
          };
          within = omega (arith, room.fits);
          found = lookup-insert_self key entry _;
        }

    cache_put_refuses :
        ((max_bytes == 0 || ttl == 0)
            || (ltb max_bytes (entry_size key response) || ltb one_mib (entry_size key response)))
          ≡ true
        → cache_put next_key now key response ttl max_bytes c ≡ c
    unfolding cache_put
    cache_put_refuses h = ground arith

    cache_put_stores :
        ((max_bytes == 0 || ttl == 0)
            || (ltb max_bytes (entry_size key response) || ltb one_mib (entry_size key response)))
          ≡ false
        → cache_put next_key now key response ttl max_bytes c
          ≡ store next_key now key response ttl max_bytes c
    unfolding cache_put
    cache_put_stores h = ground arith

    -- Where the key to drop is always one of the map: in a valid cache within its size, which fits 64
    -- bits, whatever is put: the byte counter stays the
    -- sum of the sizes of the entries, no key is there twice, and the counter stays within the size.
    pub cache_put-IsValid :
        IsValid c
        → c.bytes ≤ max_bytes
        → max_bytes ≤ u64_max
        → IsValid (cache_put next_key now key response ttl max_bytes c)
          × ((cache_put next_key now key response ttl max_bytes c).bytes ≤ max_bytes)
    cache_put-IsValid v within word =
        elim (Bool-cases (
          (max_bytes == 0 || ttl == 0)
          || (ltb max_bytes (entry_size key response) || ltb one_mib (entry_size key response)))) [
            | inl refused ↦ rw (cache_put_refuses refused) (v, within)
            | inr stores ↦
                let s = store-Stored v (ground arith) word in
                rw (cache_put_stores stores) (s.valid, s.within)
          ]

    cache_get_found :
        (t : ℕ) (d : CacheInner)
        → lookup key d.entries ≡ some entry
        → (cache_get t key d).1 ≡ (if leb (now + ttl) t then none else some response)
    unfolding cache_get
    cache_get_found t d e = rw (e, cache_get) (ground arith)

    -- Where the key to drop is always one of the map: in a valid cache whose size fits 64 bits, a response with a lifetime above 0 that fits the cache and one mebibyte is found
    -- after it is put at every time before it expires, and at no later one.
    pub cache_get-put :
        (t : ℕ)
        → IsValid c
        → 0 < max_bytes
        → max_bytes ≤ u64_max
        → 0 < ttl
        → entry_size key response ≤ max_bytes
        → entry_size key response ≤ one_mib
        → (cache_get t key (cache_put next_key now key response ttl max_bytes c)).1
          ≡ (if leb (now + ttl) t then none else some response)
    cache_get-put t v some_room word lives small small_mib =
        let stored = store-Stored v small word in
        ap (λ d. (cache_get t key d).1) (cache_put_stores (ground arith))
        ∙ cache_get_found t (store next_key now key response ttl max_bytes c) stored.found
