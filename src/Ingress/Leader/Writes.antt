-- ===== src/Ingress/Leader/Writes.antt =====
-- src/ingress/leader_election.rs: what an attempt writes, and when.
use pertisk_proxy.Base.{
  ℕ, ◌+◌, ◌*◌, ◌<◌, ◌≡◌, ◌⊎◌, inl, inr, true, Option, none, some, arith, Bytes, bytes_eq_iff,
  Bool-cases,
}
use pertisk_proxy.Ingress.Leader.{
  ℤ, LeaderConfig, Lease, create, replace, attempt, as_u64, second, micro_time, is_expired,
  is_holder, lease_duration_of, new_lease, next_lease,
}

-- The nanoseconds that a lease of this configuration runs.
abbrev pub span : LeaderConfig → ℕ
span config = as_u64 config.lease_duration * second

-- The lease that a replica of this configuration writes at the time `t`.
abbrev pub IsHeld : LeaderConfig → ℕ → Option Lease → Type 0
IsHeld config t none = ⊥
IsHeld config t (some l) =
    (l.holder ≡ some config.holder_id)
    × (l.renew_time ≡ some (micro_time t))
    × (l.duration ≡ some config.lease_duration)

module _ (latest : ℕ) where
  pub create_lem :
      (config : LeaderConfig) (t : ℕ) (o : Option Lease) (l : Lease)
      → attempt latest config t o ≡ create l
      → IsHeld config t (some l)
  unfolding attempt new_lease
  create_lem config t none l e = ground (arith, e)
  create_lem config t (some c) l e = ground (arith, e)

  expired_lem :
      (t now : ℕ) (d : ℤ) → is_expired latest (some t) d now ≡ true → t + as_u64 d * second < now
  unfolding is_expired
  expired_lem t now d h = ground arith

  -- What a replacing write carries, and why it may be made.
  pub replace_lem :
      (config : LeaderConfig) (t : ℕ) (c l : Lease)
      → attempt latest config t (some c) ≡ replace l
      → IsHeld config t (some l)
        × (l.version ≡ c.version)
        × ((is_expired latest c.renew_time (lease_duration_of c) t ≡ true)
            ⊎ (c.holder ≡ some config.holder_id))
  unfolding attempt next_lease is_holder
  replace_lem config t c l e =
      elim (Bool-cases (is_expired latest c.renew_time (lease_duration_of c) t)) [
        | inl old ↦ (ground (arith, e), ground (arith, e), inl old)
        | inr young ↦
            (ground (arith, e), ground (arith, e), inr (owner c.holder (ground (arith, e))))
      ]
    where
      owner : (o : Option Bytes) → is_holder o config.holder_id ≡ true → o ≡ some config.holder_id
      owner none h = ground (arith, h)
      owner (some b) h = ground (arith, h, bytes_eq_iff b config.holder_id)

  pub no_replace :
      (config : LeaderConfig) (t : ℕ) (l : Lease) → attempt latest config t none ≡ replace l → ⊥
  unfolding attempt
  no_replace config t l e = ground (arith, e)

  -- The holder of a lease that another replica replaces has outlived it.
  pub overtaken :
      (config other : LeaderConfig) (t stamp : ℕ) (c : Lease)
      → IsHeld other stamp (some c)
      → is_expired latest c.renew_time (lease_duration_of c) t ≡ true
      → micro_time stamp + span other < t
  unfolding lease_duration_of
  overtaken config other t stamp c (h, r, d) e =
      expired_lem (micro_time stamp) t other.lease_duration (rw (r, d) at e)
