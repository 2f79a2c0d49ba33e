-- ===== src/Edge/Limits.antt =====
-- src/edge/mod.rs: the request windows of one second, for the rate limit and the 4xx limit.
pub mod Laws
use pertisk_proxy.Base.{
  ℕ, ◌+◌, min, Bool, true, false, ◌&&◌, List, [], ◌∷◌, ◌++◌, Option, none, some, ◌==◌, leb,
  if◌then◌else◌, Bytes, Map, lookup, insert,
}
use pertisk_proxy.Text.{codes, u32_max}

pub record Window : Type 0 where
  pub second : ℕ
  pub count : ℕ

-- The window of the current second: a new one, or the one that is there, started again where it is
-- of another second.
abbrev pub window_at : ℕ → Option Window → Window
window_at sec none = record { second = sec; count = 0 }
window_at sec (some w) = if w.second == sec then w else record { second = sec; count = 0 }

-- `rate_limited` in the second `sec`: the windows, and whether the caller is rejected.
unfoldable pub rate_limited : ℕ → Bytes → ℕ → Map Window → Map Window × Bool
rate_limited sec key limit m =
    let w = window_at sec (lookup key m) in
    if limit == 0
    then (m, false)
    else if leb limit w.count
    then (insert key w m, true)
    else (insert key (record w { count = min (w.count + 1) u32_max }) m, false)

-- `format!("4xx|{client_ip}|{host}")`.
unfoldable pub x4xx_key : Bytes → Bytes → Bytes
x4xx_key client_ip host = codes "4xx|" ++ (client_ip ++ (b'|' ∷ host))

unfoldable pub note_4xx : ℕ → Bytes → Bytes → Map Window → Map Window
unfolding rate_limited x4xx_key
note_4xx sec client_ip host m = (rate_limited sec (x4xx_key client_ip host) u32_max m).0

unfoldable pub x4xx_blocked : ℕ → Bytes → Bytes → ℕ → Map Window → Bool
unfolding x4xx_key
x4xx_blocked sec client_ip host limit m =
    if limit == 0 then false else elim (lookup (x4xx_key client_ip host) m) [
      | none ↦ false
      | some w ↦ w.second == sec && leb limit w.count
    ]
