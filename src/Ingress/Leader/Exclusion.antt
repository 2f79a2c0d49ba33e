-- ===== src/Ingress/Leader/Exclusion.antt =====
-- src/ingress/leader_election.rs: what holds of all replicas at every moment, and that two of them
-- never lead on leases that still run.
use pertisk_proxy.Base.{ℕ, ◌+◌, ◌≤◌, ◌<◌, ◌≡◌, ◌⊎◌, true, Option, none, some}
use pertisk_proxy.Ingress.Leader.{LeaderConfig, Lease, attempt, micro_time}
use pertisk_proxy.Ingress.Leader.System.{
  Pc, asleep, awake, informed, Replica, System, Takes, fresh, newer, written,
}
use pertisk_proxy.Ingress.Leader.Writes.{span, IsHeld, create_lem, replace_lem, no_replace}

-- The replica whose flag is on and whose last renewal, as it is stored, still runs by the clock that is
-- the most ahead.
abbrev pub Leads : ℕ → (ℕ → LeaderConfig) → System → ℕ → Type 0
Leads drift config s i =
    ((s.replicas i).flag ≡ true)
    × (s.now + drift ≤ micro_time (s.replicas i).stamp + span (config i))

-- A lease that was read before: an older version of the stored one, or it.
abbrev IsCurrent : Lease → Option Lease → Type 0
IsCurrent l none = ⊥
IsCurrent l (some c) = (l.version ≤ c.version) × (l.version ≡ c.version → l ≡ c)

abbrev IsKnown : Pc → Option Lease → ℕ → Type 0
IsKnown asleep lease now = Unit
IsKnown (awake t) lease now = t ≤ now
IsKnown (informed t none) lease now = t ≤ now
IsKnown (informed t (some l)) lease now = (t ≤ now) × IsCurrent l lease

module _ (latest drift : ℕ) (config : ℕ → LeaderConfig) where
  -- What holds of a replica, where no clock shows more than `now`.
  record IsSound (i : ℕ) (r : Replica) (lease : Option Lease) (now : ℕ) : Type 0 where
    known : IsKnown r.pc lease now
    leads :
        r.flag ≡ true
        → IsHeld (config i) r.stamp lease ⊎ (micro_time r.stamp + span (config i) < now)

  abbrev Inv : System → Type 0
  Inv s = (i : ℕ) → IsSound i (s.replicas i) s.lease (s.now + drift)

  known_past : (t now : ℕ) (o lease : Option Lease) → IsKnown (informed t o) lease now → t ≤ now
  known_past t now none lease h = h
  known_past t now (some l) lease h = h.0

  -- The replica that wrote.
  pub writer-IsHeld :
      (i t v : ℕ) (o lease : Option Lease)
      → Takes lease v (attempt latest (config i) t o)
      → IsHeld (config i) t (written (attempt latest (config i) t o) v lease)
  writer-IsHeld i t v o lease (fresh l e empty) = rw e (create_lem latest (config i) t o l e)
  writer-IsHeld i t v none lease (newer l c e there same lt) =
      absurd (no_replace latest (config i) t l e)
  writer-IsHeld i t v (some m) lease (newer l c e there same lt) =
      rw e (replace_lem latest (config i) t m l e).0
