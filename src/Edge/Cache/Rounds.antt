-- ===== src/Edge/Cache/Rounds.antt =====
-- src/edge/mod.rs: how often the loop of `cache_put` goes round.
use pertisk_proxy.Base.{
  ℕ, zero, suc, ◌+◌, ◌≤◌, ◌≡◌, refl, sym, ◌∙◌, inl, inr, Bool, true, false, not, ◌&&◌, Option, some,
  arith, ltb, Bytes, Map, length, is_empty, Bool-cases, Option-cases, [], ◌∷◌,
}
use pertisk_proxy.Edge.Cache.{CacheEntry, CacheInner, drop_key, evict}
use pertisk_proxy.Edge.Cache.Laws.{YieldsKey, drop_key_shorter, evict_stop, evict_round}

-- The condition of the loop.
abbrev pub goes_round : ℕ → ℕ → CacheInner → Bool
goes_round size max_bytes c = ltb max_bytes (c.bytes + size) && not (is_empty c.entries)

stops_empty :
    (size max_bytes : ℕ) (c : CacheInner)
    → length c.entries ≤ 0
    → goes_round size max_bytes c ≡ false
stops_empty size max_bytes c h = none_left c.entries h
  where
    none_left :
        (m : Map CacheEntry)
        → length m ≤ 0
        → (ltb max_bytes (c.bytes + size) && not (is_empty m)) ≡ false
    none_left [] h = ground arith
    none_left (e ∷ m) h = ground (arith, h)

module _ (next_key : Map CacheEntry → Option Bytes) (yields : YieldsKey next_key) where
  key_left :
      (size max_bytes : ℕ) (c : CacheInner)
      → goes_round size max_bytes c ≡ true
      → (k : Bytes) × (next_key c.entries ≡ some k)
  key_left size max_bytes c h = elim (Option-cases (next_key c.entries)) [
    | inl none_left ↦ absurd (nonempty c.entries ((yields c.entries).0 none_left) h)
    | inr found ↦ found
  ]
    where
      nonempty :
          (m : Map CacheEntry)
          → m ≡ []
          → (ltb max_bytes (c.bytes + size) && not (is_empty m)) ≡ true
          → ⊥
      nonempty m e h = ground arith

  -- Where the key to drop is always one of the map: with as many rounds as there are entries, or more, the loop ends by its own condition, and further
  -- rounds change nothing.
  pub evict-goes_round :
      (fuel size max_bytes : ℕ) (c : CacheInner)
      → length c.entries ≤ fuel
      → (goes_round size max_bytes (evict next_key fuel size max_bytes c) ≡ false)
        × (evict next_key (suc fuel) size max_bytes c ≡ evict next_key fuel size max_bytes c)
  evict-goes_round zero size max_bytes c enough =
      let stop = stops_empty size max_bytes c enough in
      (
        unfold evict in stop,
        evict_stop next_key yields 0 size max_bytes c stop ∙ unfold evict in refl,
      )
  evict-goes_round (suc fuel) size max_bytes c enough =
      elim (Bool-cases (goes_round size max_bytes c)) [
        | inr stop ↦
            let here = evict_stop next_key yields fuel size max_bytes c stop in
            (rw here stop, evict_stop next_key yields (suc fuel) size max_bytes c stop ∙ sym here)
        | inl more ↦
            let (k, e) = key_left size max_bytes c more in
            let round : (n : ℕ)
                → evict next_key (suc n) size max_bytes c
                  ≡ evict next_key n size max_bytes (drop_key k c) =
              λ n. evict_round next_key yields n size max_bytes c k more e in
            let (stops, same) =
              evict-goes_round fuel size max_bytes (drop_key k c)
                (omega (arith, drop_key_shorter next_key yields k c ((yields c.entries).1 k e))) in
            (rw (round fuel) stops, round (suc fuel) ∙ same ∙ sym (round fuel))
      ]
