-- ===== src/Security/Bot/Rate.antt =====
-- src/security/bot.rs: runs of `record_rate` by different addresses.
use pertisk_proxy.Base.{
  ℕ, ◌+◌, ◌-◌, ◌≤◌, ◌<◌, ◌≡◌, ◌≢◌, Bool, true, none, some, arith, Bytes, Map, ltb, min, length,
  lookup, lookup-insert_self, lookup-insert_ne, bytes_eq, List, [], ◌∷◌, ◌∙◌, ◌⊎◌, ap, All, keep,
  if◌then◌else◌, Bool-cases, inl, inr, bytes_eq_iff,
}
use pertisk_proxy.Text.{u32_max}
use pertisk_proxy.Security.Bot.{RateBucket, minute, prune, roll, record_rate, count_one}

lookup-keep :
    (q : RateBucket → Bool) (k : Bytes) (m : Map RateBucket) (b : RateBucket)
    → lookup k m ≡ some b
    → q b ≡ true
    → lookup k (keep (λ e. q e.1) m) ≡ some b
unfolding lookup
lookup-keep q k [] b h e = cc
lookup-keep q k ((j, c) ∷ m) b h e = elim (Bool-cases (bytes_eq j k)) [
  | inl same ↦ ground arith
  | inr other ↦ ground (arith, lookup-keep q k m b)
]

-- The prune keeps a window that is younger than two minutes.
lookup-prune :
    (now : ℕ) (k : Bytes) (m : Map RateBucket) (b : RateBucket)
    → lookup k m ≡ some b
    → now - b.window_start < minute
    → lookup k (prune now m) ≡ some b
unfolding prune
lookup-prune now k m b h young = elim (Bool-cases (ltb 10000 (length m))) [
  | inl large ↦
      rw large
        (lookup-keep (λ c. ltb (now - c.window_start) (minute + minute)) k m b h (ground arith))
  | inr small ↦ rw small h
]

-- A request: its time, its address and the limit of the site that it is for.
abbrev pub Visit : Type 0
Visit = ℕ × Bytes × ℕ

abbrev pub after_visit : Visit → Map RateBucket → Map RateBucket
after_visit v m = (record_rate v.0 v.1 v.2 m).0

unfoldable pub run_visits : List Visit → Map RateBucket → Map RateBucket
run_visits [] m = m
run_visits (v ∷ vs) m = run_visits vs (after_visit v m)

unfoldable pub visits_of : Bytes → List Visit → ℕ
visits_of ip [] = 0
visits_of ip (v ∷ vs) = (if bytes_eq v.1 ip then 1 else 0) + visits_of ip vs

-- Every visit comes less than a minute after the window was opened.
abbrev pub InWindow : ℕ → List Visit → Type 0
InWindow start = All (λ v. v.0 - start < minute)

roll_young : (now : ℕ) (b : RateBucket) → now - b.window_start < minute → roll now b ≡ b
unfolding roll
roll_young now b h = ground arith

after_visit_self :
    (now limit : ℕ) (ip : Bytes) (m : Map RateBucket) (b : RateBucket)
    → lookup ip m ≡ some b
    → now - b.window_start < minute
    → lookup ip (after_visit (now, ip, limit) m) ≡ some (count_one b)
unfolding record_rate
after_visit_self now limit ip m b h young =
    rw (lookup-prune now ip m b h young, roll_young now b young)
      (lookup-insert_self ip (count_one b) (prune now m))

after_visit_other :
    (now limit : ℕ) (ip other : Bytes) (m : Map RateBucket) (b : RateBucket)
    → lookup ip m ≡ some b
    → now - b.window_start < minute
    → other ≢ ip
    → lookup ip (after_visit (now, other, limit) m) ≡ some b
unfolding record_rate
after_visit_other now limit ip other m b h young ne =
    lookup-insert_ne other ip _ (prune now m) ne ∙ lookup-prune now ip m b h young

abbrev counted : RateBucket → ℕ → RateBucket
counted b n = record b { count = min (b.count + n) u32_max }

counted_step : (b : RateBucket) (n : ℕ) → counted (count_one b) n ≡ counted b (1 + n)
counted_step b n = ground arith

run_visits_bucket :
    (ip : Bytes) (vs : List Visit) (m : Map RateBucket) (b : RateBucket)
    → lookup ip m ≡ some b
    → b.count ≤ u32_max
    → InWindow b.window_start vs
    → lookup ip (run_visits vs m) ≡ some (counted b (visits_of ip vs))
unfolding run_visits visits_of
run_visits_bucket ip [] m b h fits within = h ∙ ground arith
run_visits_bucket ip ((now, who, limit) ∷ vs) m b h fits (young, within) =
    elim (Bool-cases (bytes_eq who ip)) [
      | inl same ↦ rw same (
          run_visits_bucket ip vs (after_visit (now, who, limit) m) (count_one b)
            (rw ((bytes_eq_iff who ip).0 same) (after_visit_self now limit ip m b h young))
            (omega arith) within
          ∙ ap some (counted_step b (visits_of ip vs)))
      | inr other ↦ rw other (
          run_visits_bucket ip vs (after_visit (now, who, limit) m) b
            (after_visit_other now limit ip who m b h young
              (λ e. ground (arith, (bytes_eq_iff who ip).1 e)))
            fits within
          ∙ ap (λ n. some (counted b n)) (omega arith))
    ]

excess_of :
    (now limit : ℕ) (ip : Bytes) (m : Map RateBucket) (b : RateBucket)
    → lookup ip m ≡ some b
    → now - b.window_start < minute
    → (record_rate now ip limit m).1 ≡ (count_one b).count - limit
unfolding record_rate
excess_of now limit ip m b h young =
    rw (lookup-prune now ip m b h young, roll_young now b young) (ground arith)

-- No window of `ip` is running at `start`: there is none, or it is a minute old.
abbrev pub IsIdle : ℕ → Bytes → Map RateBucket → Type 0
IsIdle start ip m =
    (lookup ip (prune start m) ≡ none)
    ⊎ ((b : RateBucket) × (lookup ip (prune start m) ≡ some b) × (minute ≤ start - b.window_start))

abbrev opened : ℕ → RateBucket
opened start = record { window_start = start; count = 1 }

after_visit_idle :
    (start limit : ℕ) (ip : Bytes) (m : Map RateBucket)
    → IsIdle start ip m
    → lookup ip (after_visit (start, ip, limit) m) ≡ some (opened start)
unfolding record_rate roll
after_visit_idle start limit ip m (inl none_there) =
    rw (lookup-insert_self, none_there) (ground arith)
after_visit_idle start limit ip m (inr (b, there, old)) =
    rw (lookup-insert_self, there) (ground arith)

-- A request of `ip` at `start` opens a window, where none is running. Whatever requests of any
-- addresses follow within the minute, a further request of `ip` in it is told by how much the
-- number of its requests in the window, itself included, is over the limit (below 2^32 requests).
pub record_rate_window :
    (start now first limit : ℕ) (ip : Bytes) (vs : List Visit) (m : Map RateBucket)
    → IsIdle start ip m
    → InWindow start vs
    → now - start < minute
    → visits_of ip vs + 2 ≤ u32_max
    → (record_rate now ip limit (run_visits vs (after_visit (start, ip, first) m))).1
      ≡ visits_of ip vs + 2 - limit
record_rate_window start now first limit ip vs m idle within young few =
    let bucket =
      run_visits_bucket ip vs (after_visit (start, ip, first) m) (opened start)
        (after_visit_idle start first ip m idle) (omega arith) within in
    excess_of now limit ip _ (counted (opened start) (visits_of ip vs)) bucket young ∙ ground arith
