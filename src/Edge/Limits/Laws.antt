-- ===== src/Edge/Limits/Laws.antt =====
-- src/edge/mod.rs: runs of `rate_limited` and `note_4xx` in one second.
use pertisk_proxy.Base.{
  ℕ, zero, suc, ◌+◌, ◌-◌, ◌≤◌, ◌<◌, ◌≡◌, ◌≢◌, refl, ap, ◌∙◌, true, false, not, ◌&&◌, List, [], ◌∷◌,
  Option, none, some, arith, leb, min, if◌then◌else◌, Bytes, Map, lookup, lookup-insert_self,
  lookup-insert_ne, bytes_eq, bytes_eq_iff, Bool-cases, inl, inr, ◌↔◌,
}
use pertisk_proxy.Text.{u32_max}
use pertisk_proxy.Edge.Limits.{Window, window_at, rate_limited, x4xx_key, note_4xx, x4xx_blocked}

module _ (sec limit : ℕ) (key : Bytes) where
  -- How many requests of `key` are let through, of a row of requests for any keys in one second.
  unfoldable pub admitted : List Bytes → Map Window → ℕ
  admitted [] m = 0
  admitted (k ∷ ks) m =
      let (m', rejected) = rate_limited sec k limit m in
      (if bytes_eq k key && not rejected then 1 else 0) + admitted ks m'

  unfoldable pub requests : List Bytes → ℕ
  requests [] = 0
  requests (k ∷ ks) = (if bytes_eq k key then 1 else 0) + requests ks

  abbrev pub count_in : Map Window → ℕ
  count_in m = (window_at sec (lookup key m)).count

  other_kept :
      (k : Bytes) (m : Map Window)
      → k ≢ key
      → lookup key (rate_limited sec k limit m).0 ≡ lookup key m
  unfolding rate_limited
  other_kept k m h = ground (
    arith,
    lookup-insert_ne k key (window_at sec (lookup k m)) m h,
    lookup-insert_ne k key
        (record (window_at sec (lookup k m)) {
          count = min ((window_at sec (lookup k m)).count + 1) u32_max;
        })
        m h,
  )

  window_second : (o : Option Window) → (window_at sec o).second ≡ sec
  window_second none = refl
  window_second (some w) = ground arith

  self_rejected :
      (m : Map Window)
      → 0 < limit
      → limit ≤ count_in m
      → ((rate_limited sec key limit m).1 ≡ true)
        × (count_in (rate_limited sec key limit m).0 ≡ count_in m)
  unfolding rate_limited
  self_rejected m pos full = (
    ground arith,
    ground (
      arith,
      lookup-insert_self key (window_at sec (lookup key m)) m,
      window_second (lookup key m),
    ),
  )

  self_admitted :
      (m : Map Window)
      → limit ≤ u32_max
      → count_in m < limit
      → ((rate_limited sec key limit m).1 ≡ false)
        × (count_in (rate_limited sec key limit m).0 ≡ count_in m + 1)
  unfolding rate_limited
  self_admitted m word room = (
    ground arith,
    ground (
      arith,
      lookup-insert_self key
          (record (window_at sec (lookup key m)) { count = min (count_in m + 1) u32_max }) m,
      window_second (lookup key m),
    ),
  )

  admitted_other :
      (k : Bytes) (ks : List Bytes) (m : Map Window)
      → bytes_eq k key ≡ false
      → admitted (k ∷ ks) m ≡ admitted ks (rate_limited sec k limit m).0
  unfolding admitted
  admitted_other k ks m h = rw h (omega arith)

  admitted_self :
      (ks : List Bytes) (m : Map Window)
      → admitted (key ∷ ks) m
        ≡ (if not (rate_limited sec key limit m).1 then 1 else 0)
          + admitted ks (rate_limited sec key limit m).0
  unfolding admitted
  admitted_self ks m = rw ((bytes_eq_iff key key).1 refl)

  count_other :
      (k : Bytes) (m : Map Window)
      → bytes_eq k key ≡ false
      → count_in (rate_limited sec k limit m).0 ≡ count_in m
  count_other k m h =
      ap (λ o. (window_at sec o).count)
        (other_kept k m (λ e. ground (arith, (bytes_eq_iff k key).1 e)))

  -- Under a limit above 0 that fits 32 bits, of a row of requests in one second exactly as many
  -- requests of a key are let through as the limit has room for, whatever other keys ask in between.
  pub rate_limited-admitted :
      (ks : List Bytes) (m : Map Window)
      → 0 < limit
      → limit ≤ u32_max
      → admitted ks m ≡ min (limit - count_in m) (requests ks)
  rate_limited-admitted [] m pos word = unfold admitted requests in omega arith
  rate_limited-admitted (k ∷ ks) m pos word = elim (Bool-cases (bytes_eq k key)) [
    | inr other ↦
        admitted_other k ks m other
        ∙ rate_limited-admitted ks (rate_limited sec k limit m).0 pos word
        ∙ rw (count_other k m other) (unfold requests in rw other (omega arith))
    | inl same ↦
        let rest = rate_limited-admitted ks (rate_limited sec key limit m).0 pos word in
        rw ((bytes_eq_iff k key).0 same) (own ks m rest)
  ]
    where
      own :
          (ks : List Bytes) (m : Map Window)
          → admitted ks (rate_limited sec key limit m).0
            ≡ min (limit - count_in (rate_limited sec key limit m).0) (requests ks)
          → admitted (key ∷ ks) m ≡ min (limit - count_in m) (requests (key ∷ ks))
      own ks m rest = elim (Bool-cases (leb limit (count_in m))) [
        | inl full ↦
            let (rejected, kept) = self_rejected m pos (ground arith) in
            admitted_self ks m ∙ rw (rejected, rest, kept) (ground arith)
        | inr room ↦
            let (passed, more) = self_admitted m word (ground arith) in
            admitted_self ks m
            ∙ rw (passed, rest, more)
                (unfold requests in rw ((bytes_eq_iff key key).1 refl) (ground arith))
      ]

-- `n` answers of the class 4xx to one client and host in one second.
pub run_notes : ℕ → Bytes → Bytes → ℕ → Map Window → Map Window
run_notes sec ip host zero m = m
run_notes sec ip host (suc n) m = note_4xx sec ip host (run_notes sec ip host n m)

note_step :
    (sec : ℕ) (ip host : Bytes) (m : Map Window)
    → count_in sec 1 (x4xx_key ip host) m < u32_max
    → count_in sec 1 (x4xx_key ip host) (note_4xx sec ip host m)
      ≡ count_in sec 1 (x4xx_key ip host) m + 1
unfolding note_4xx
note_step sec ip host m room = (self_admitted sec u32_max (x4xx_key ip host) m (omega arith) room).1

run_notes-count :
    (sec : ℕ) (ip host : Bytes) (n : ℕ) (m : Map Window)
    → count_in sec 1 (x4xx_key ip host) m ≡ 0
    → n ≤ u32_max
    → count_in sec 1 (x4xx_key ip host) (run_notes sec ip host n m) ≡ n
unfolding run_notes
run_notes-count sec ip host zero m new fits = new
run_notes-count sec ip host (suc n) m new fits =
    let before = run_notes-count sec ip host n m new (omega arith) in
    omega (arith, before, note_step sec ip host (run_notes sec ip host n m) (omega (arith, before)))

blocked_count :
    (sec limit : ℕ) (ip host : Bytes) (m : Map Window)
    → 0 < limit
    → x4xx_blocked sec ip host limit m ≡ leb limit (count_in sec 1 (x4xx_key ip host) m)
unfolding x4xx_blocked
blocked_count sec limit ip host m pos = ground arith

-- Under a limit above 0, where nothing was counted in this second before: after `n` calls of
-- `note_4xx` (of 32 bits) for a client and a host, it is blocked exactly when `n` is at least the limit.
pub x4xx_blocked_iff :
    (sec limit n : ℕ) (ip host : Bytes) (m : Map Window)
    → 0 < limit
    → n ≤ u32_max
    → (window_at sec (lookup (x4xx_key ip host) m)).count ≡ 0
    → (x4xx_blocked sec ip host limit (run_notes sec ip host n m) ≡ true) ↔ (limit ≤ n)
x4xx_blocked_iff sec limit n ip host m pos fits new =
    let counted = run_notes-count sec ip host n m new fits in
    rw (blocked_count sec limit ip host (run_notes sec ip host n m) pos, counted) (ground arith)
