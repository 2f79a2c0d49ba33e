-- ===== src/Edge/Cache/Sizes.antt =====
-- src/edge/mod.rs: the sum of the sizes of the cache entries, under insertion and removal.
use pertisk_proxy.Base.{
  ℕ, ◌+◌, ◌≤◌, ◌≡◌, refl, true, false, [], ◌∷◌, arith, Bytes, Map, lookup, has_key, insert, remove,
  length, is_empty, bytes_eq_iff, HasDistinctKeys,
}
use pertisk_proxy.Edge.Cache.{CacheEntry, size_of}

unfoldable pub total : Map CacheEntry → ℕ
total [] = 0
total ((k, e) ∷ m) = e.bytes + total m

pub total-remove :
    (k : Bytes) (m : Map CacheEntry) → total (remove k m) + size_of (lookup k m) ≡ total m
unfolding total remove lookup
total-remove k [] = omega arith
total-remove k ((j, e) ∷ m) = ground (arith, total-remove k m)

pub total-insert_new :
    (k : Bytes) (e : CacheEntry) (m : Map CacheEntry)
    → has_key k m ≡ false
    → total (insert k e m) ≡ total m + e.bytes
unfolding total insert has_key
total-insert_new k e [] h = omega arith
total-insert_new k e ((j, f) ∷ m) h = ground (arith, total-insert_new k e m)

pub length-remove :
    (k : Bytes) (m : Map CacheEntry) → has_key k m ≡ true → length (remove k m) + 1 ≡ length m
unfolding remove has_key
length-remove k [] h = cc
length-remove k ((j, e) ∷ m) h = ground (arith, length-remove k m)

-- With distinct keys a removed key is gone.
pub has_key-remove_self :
    (k : Bytes) (m : Map CacheEntry) → HasDistinctKeys m → has_key k (remove k m) ≡ false
unfolding remove has_key
has_key-remove_self k [] d = refl
has_key-remove_self k ((j, e) ∷ m) (new, d) =
    ground (arith, bytes_eq_iff j k, has_key-remove_self k m d)

pub has_key-remove_other :
    (k j : Bytes) (m : Map CacheEntry) → has_key j m ≡ false → has_key j (remove k m) ≡ false
unfolding remove has_key
has_key-remove_other k j [] h = refl
has_key-remove_other k j ((i, e) ∷ m) h = ground (arith, has_key-remove_other k j m)

unfoldable pub total_empty : (m : Map CacheEntry) → length m ≤ 0 → total m ≡ 0
unfolding total
total_empty [] h = refl
total_empty (x ∷ m) h = absurd (omega arith)

pub is_empty-length : (m : Map CacheEntry) → is_empty m ≡ true → length m ≤ 0
is_empty-length [] h = omega arith
is_empty-length (x ∷ m) h = cc
