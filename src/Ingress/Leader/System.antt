-- ===== src/Ingress/Leader/System.antt =====
-- src/ingress/leader_election.rs: the loops of all replicas against one lease, step by step. The
-- Kubernetes API is the environment: by its documentation a lease is created only where there is none,
-- a write that names a version other than the stored one is refused, and a write that is accepted
-- raises the version. Answers can be lost, in which case the write may have been done or not.
use pertisk_proxy.Base.{
  ℕ, ◌+◌, ◌<◌, ◌≤◌, ◌≡◌, ◌≢◌, Bool, false, Option, none, some, ◌==◌, if◌then◌else◌,
}
use pertisk_proxy.Ingress.Leader.{
  LeaderConfig, Lease, Attempt, give_up, create, replace, attempt, accepted, Reply, outcome_of,
  leader_flag,
}

-- Where the loop of a replica stands: it sleeps, it has read the clock, or it has read the lease.
pub data Pc : Type 0 where
  asleep : Pc
  awake : ℕ → Pc
  informed : ℕ → Option Lease → Pc

-- `flag` is `is_leader`; `stamp` remembers the time of the attempt that last set it.
pub record Replica : Type 0 where
  pub pc : Pc
  pub flag : Bool
  pub stamp : ℕ

pub record System : Type 0 where
  pub now : ℕ
  pub lease : Option Lease
  pub replicas : ℕ → Replica

abbrev pub update : (ℕ → Replica) → ℕ → Replica → ℕ → Replica
update f i r j = if j == i then r else f j

-- Replica `i` ends its attempt with an answer.
abbrev pub ended : Attempt → Reply → ℕ → Replica
ended a reply t = record { pc = asleep; flag = leader_flag (outcome_of a reply); stamp = t }

abbrev pub with_version : ℕ → Lease → Lease
with_version v l = record l { version = v }

-- A lease that the server takes in place of the stored one, which gets the version `v`.
pub data Takes (stored : Option Lease) (v : ℕ) (a : Attempt) : Type 0 where
  fresh : (l : Lease) → a ≡ create l → stored ≡ none → Takes stored v a
  newer :
      (l c : Lease)
      → a ≡ replace l
      → stored ≡ some c
      → l.version ≡ c.version
      → c.version < v
      → Takes stored v a

abbrev pub written : Attempt → ℕ → Option Lease → Option Lease
written give_up v stored = stored
written (create l) v stored = some (with_version v l)
written (replace l) v stored = some (with_version v l)

-- Each replica reads a clock of its own, which may be slow or go back, and is never more than `drift`
-- ahead of `now`.
module _ (latest drift : ℕ) (config : ℕ → LeaderConfig) where
  pub data Step (s : System) : System → Type 0 where
    tick : (d : ℕ) → Step s (record s { now = s.now + d })
    wake :
        (i t : ℕ)
        → (s.replicas i).pc ≡ asleep
        → t ≤ s.now + drift
        → Step s
            (record s { replicas = update s.replicas i (record (s.replicas i) { pc = awake t }) })
    read :
        (i t : ℕ)
        → (s.replicas i).pc ≡ awake t
        → Step s (record s {
          replicas = update s.replicas i (record (s.replicas i) { pc = informed t s.lease });
        })
    -- The lease cannot be read: an error.
    unread :
        (i t : ℕ)
        → (s.replicas i).pc ≡ awake t
        → Step s (record s {
          replicas = update s.replicas i (record { pc = asleep; flag = false; stamp = t });
        })
    -- The write is done, and the answer arrives.
    write :
        (i t v : ℕ) (o : Option Lease)
        → (s.replicas i).pc ≡ informed t o
        → Takes s.lease v (attempt latest (config i) t o)
        → Step s (record s {
          lease = written (attempt latest (config i) t o) v s.lease;
          replicas = update s.replicas i (ended (attempt latest (config i) t o) accepted t);
        })
    -- The write is done, and the answer is lost.
    lose :
        (i t v : ℕ) (o : Option Lease) (reply : Reply)
        → (s.replicas i).pc ≡ informed t o
        → Takes s.lease v (attempt latest (config i) t o)
        → reply ≢ accepted
        → Step s (record s {
          lease = written (attempt latest (config i) t o) v s.lease;
          replicas = update s.replicas i (ended (attempt latest (config i) t o) reply t);
        })
    -- There is no write, or it is refused or fails.
    refuse :
        (i t : ℕ) (o : Option Lease) (reply : Reply)
        → (s.replicas i).pc ≡ informed t o
        → reply ≢ accepted
        → Step s (record s {
          replicas = update s.replicas i (ended (attempt latest (config i) t o) reply t);
        })

  -- At the start no replica leads; the lease may be any one that is left over.
  abbrev pub IsStart : System → Type 0
  IsStart s = (i : ℕ) → ((s.replicas i).pc ≡ asleep) × ((s.replicas i).flag ≡ false)

  pub data Reach (s : System) : System → Type 0 where
    here : Reach s s
    next : {t u : System} → Reach s t → Step t u → Reach s u
