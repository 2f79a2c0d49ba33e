-- ===== src/Ingress/Leader/Takeover.antt =====
-- src/ingress/leader_election.rs: an attempt that nothing disturbs.
use pertisk_proxy.Base.{
  ℕ, ◌+◌, ◌≤◌, ◌≡◌, ◌≢◌, ◌⊎◌, inl, inr, refl, ap, ◌∙◌, true, false, Option, none, some, arith, ◌==◌,
  bytes_eq_iff,
}
use pertisk_proxy.Ingress.Leader.{
  LeaderConfig, Lease, Attempt, replace, attempt, accepted, outcome_of, leader_flag, is_expired,
  is_holder, lease_duration_of, new_lease, next_lease,
}
use pertisk_proxy.Ingress.Leader.System.{
  asleep, awake, informed, Replica, System, update, ended, Takes, fresh, newer, written, wake, read,
  write, Step,
}
use pertisk_proxy.Ingress.Leader.Exclusion.{writer-IsHeld}
use pertisk_proxy.Ingress.Leader.Writes.{IsHeld}

update_self : (f : ℕ → Replica) (i : ℕ) (r : Replica) → update f i r i ≡ r
update_self f i r = let same : (i == i) ≡ true = ground arith in rw same refl

module _ (latest : ℕ) where
  -- The lease may be taken: there is none, it has run out, or it is one's own.
  abbrev pub IsFree : LeaderConfig → ℕ → Option Lease → Type 0
  IsFree config now none = Unit
  IsFree config now (some l) =
      (is_expired latest l.renew_time (lease_duration_of l) now ≡ true)
      ⊎ (l.holder ≡ some config.holder_id)

  -- The version that the server gives.
  abbrev version_behind : Option Lease → ℕ
  version_behind none = 0
  version_behind (some l) = l.version + 1

  attempt_replaces :
      (config : LeaderConfig) (now : ℕ) (l : Lease)
      → IsFree config now (some l)
      → attempt latest config now (some l)
        ≡ replace (next_lease config now l (is_holder l.holder config.holder_id))
  unfolding attempt
  attempt_replaces config now l (inl old) = rw old refl
  attempt_replaces config now l (inr mine) =
      let own : is_holder l.holder config.holder_id ≡ true =
        unfold is_holder in
        rw (mine, (bytes_eq_iff config.holder_id config.holder_id).1 refl) refl in
      rw own (ground arith)

  attempt_free :
      (config : LeaderConfig) (now : ℕ) (lease : Option Lease)
      → IsFree config now lease
      → Takes lease (version_behind lease) (attempt latest config now lease)
        × (leader_flag (outcome_of (attempt latest config now lease) accepted) ≡ true)
  unfolding leader_flag outcome_of
  attempt_free config now none free =
      (fresh (new_lease config now true) (unfold attempt in refl) refl, unfold attempt in refl)
  attempt_free config now (some l) free =
      let a = attempt_replaces config now l free in
      (newer _ l a refl (unfold next_lease in refl) (omega arith), rw a refl)

  -- The three steps of one attempt of replica `i` at the time `t` of its clock, by which it leads; the
  -- time and the other replicas stand still.
  pub record IsTakenOver (drift : ℕ) (config : ℕ → LeaderConfig) (s : System) (i t : ℕ)
      : Type 0 where
    pub woken : System
    pub informed_of : System
    pub after : System
    pub wakes : Step latest drift config s woken
    pub reads : Step latest drift config woken informed_of
    pub writes : Step latest drift config informed_of after
    pub same_time : after.now ≡ s.now
    pub others : (j : ℕ) → j ≢ i → after.replicas j ≡ s.replicas j
    pub flag_on : (after.replicas i).flag ≡ true
    pub stamped : (after.replicas i).stamp ≡ t
    pub held : IsHeld (config i) t after.lease

  update_other : (f : ℕ → Replica) (i j : ℕ) (r : Replica) → j ≢ i → update f i r j ≡ f j
  update_other f i j r other = let differs : (j == i) ≡ false = ground arith in rw differs refl

  -- A replica that sleeps, and may take the lease at the time that its clock shows, leads after one attempt that nothing
  -- disturbs: it wakes, reads and writes, which leaves the time and the other replicas as they were, its flag is on, and
  -- the lease names it with that time in whole microseconds.
  pub leader_takeover :
      (drift : ℕ) (config : ℕ → LeaderConfig) (s : System) (i t : ℕ)
      → t ≤ s.now + drift
      → (s.replicas i).pc ≡ asleep
      → IsFree (config i) t s.lease
      → IsTakenOver drift config s i t
  leader_takeover drift config s i t clock sleeping free = record {
    woken = record s { replicas = one };
    informed_of = record s { replicas = two };
    after = u;
    wakes = wake i t sleeping clock;
    reads = read i t woken;
    writes = write i t v s.lease told takes;
    same_time = refl;
    others = λ j other.
        update_other two i j (ended a accepted t) other
        ∙ update_other one i j (record (one i) { pc = informed t s.lease }) other
        ∙ update_other s.replicas i j first other;
    flag_on = lit;
    stamped = ap (λ r. r.stamp) (update_self two i (ended a accepted t));
    held = writer-IsHeld latest drift config i t v s.lease s.lease takes;
  }
    where
      v : ℕ
      v = version_behind s.lease

      a : Attempt
      a = attempt latest (config i) t s.lease

      takes : Takes s.lease v a
      takes = (attempt_free (config i) t s.lease free).0

      first : Replica
      first = record (s.replicas i) { pc = awake t }

      one : ℕ → Replica
      one = update s.replicas i first

      two : ℕ → Replica
      two = update one i (record (one i) { pc = informed t s.lease })

      three : ℕ → Replica
      three = update two i (ended a accepted t)

      u : System
      u = record s { lease = written a v s.lease; replicas = three }

      woken : (one i).pc ≡ awake t
      woken = ap (λ r. r.pc) (update_self s.replicas i first)

      told : (two i).pc ≡ informed t s.lease
      told = ap (λ r. r.pc) (update_self one i (record (one i) { pc = informed t s.lease }))

      lit : (three i).flag ≡ true
      lit =
          ap (λ r. r.flag) (update_self two i (ended a accepted t))
          ∙ (attempt_free (config i) t s.lease free).1
