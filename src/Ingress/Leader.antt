-- ===== src/Ingress/Leader.antt =====
-- src/ingress/leader_election.rs: one attempt to take or to renew the lease. A time is the number of
-- nanoseconds since the earliest timestamp of the time library; its latest timestamp is a parameter.
pub mod System
pub mod Writes
pub mod Exclusion
pub mod Takeover
use mathlib.Core.Option
use pertisk_proxy.Base.{
  ℕ, suc, ◌+◌, ◌-◌, ◌*◌, ◌/◌, ◌%◌, ◌^◌, Bool, true, false, not, ◌&&◌, ◌||◌, List, [], ◌∷◌, ◌++◌,
  Option, none, some, ◌==◌, leb, ltb, if◌then◌else◌, Bytes, bytes_eq, is_empty, any,
}
use pertisk_proxy.Text.{codes, trim, parse, u64_max}

pub data ℤ : Type 0 where
  pos : ℕ → ℤ
  -- `negsuc n` is `-(n + 1)`.
  negsuc : ℕ → ℤ

-- `i32 as u64`: the sign is extended.
unfoldable pub as_u64 : ℤ → ℕ
as_u64 (pos n) = n
as_u64 (negsuc n) = u64_max - n

abbrev pub default_lease_duration : ℤ
default_lease_duration = pos 15

-- `LeaderElectionConfig`, as far as an attempt reads it.
pub record LeaderConfig : Type 0 where
  pub holder_id : Bytes
  pub lease_duration : ℤ

-- The specification of a lease with the version of the object; of an object without a
-- specification, none of the four is there.
pub record Lease : Type 0 where
  pub version : ℕ
  pub holder : Option Bytes
  pub duration : Option ℤ
  pub renew_time : Option ℕ
  pub acquire_time : Option ℕ

abbrev pub second : ℕ
second = 1000000000

-- `MicroTime`: a time is stored in whole microseconds.
abbrev pub micro_time : ℕ → ℕ
micro_time now = now / 1000 * 1000

-- `checked_sub`: nothing before the earliest timestamp.
abbrev checked_sub : ℕ → ℕ → Option ℕ
checked_sub t d = if leb d t then some (t - d) else none

abbrev or_else {ℓ} : {A : Type ℓ} → Option A → A → A
or_else none a = a
or_else (some x) a = x

unfoldable pub lease_duration_of : Lease → ℤ
lease_duration_of l = or_else l.duration default_lease_duration

-- `Some(&holder) == id`.
unfoldable pub is_holder : Option Bytes → Bytes → Bool
is_holder none id = false
is_holder (some h) id = bytes_eq h id

-- What an attempt writes, if anything.
pub data Attempt : Type 0 where
  give_up : Attempt
  create : Lease → Attempt
  replace : Lease → Attempt

-- The answer of the API server to a write.
pub data Reply : Type 0 where
  accepted : Reply
  api_error : ℕ → Reply
  other_error : Reply

pub data Outcome : Type 0 where
  done : Bool → Outcome
  failed : Outcome

-- The first two fields of the result are those of `new_lease`; the server chooses the version.
unfoldable pub new_lease : LeaderConfig → ℕ → Bool → Lease
new_lease config now acquired = record {
  version = 0;
  holder = some config.holder_id;
  duration = some config.lease_duration;
  renew_time = some (micro_time now);
  acquire_time = if acquired then some (micro_time now) else none;
}

-- The lease that replaces `current`, whose version the write names.
unfoldable pub next_lease : LeaderConfig → ℕ → Lease → Bool → Lease
next_lease config now current is_owner = record {
  version = current.version;
  holder = some config.holder_id;
  duration = some config.lease_duration;
  renew_time = some (micro_time now);
  acquire_time = if is_owner then current.renew_time else some (micro_time now);
}

-- How a write ends: a conflict is no error.
unfoldable pub outcome_of : Attempt → Reply → Outcome
outcome_of give_up reply = done false
outcome_of _ accepted = done true
outcome_of _ (api_error code) = if code == 409 then done false else failed
outcome_of _ other_error = failed

-- What the loop stores in the flag.
unfoldable pub leader_flag : Outcome → Bool
leader_flag (done leader) = leader
leader_flag failed = false

module _ (latest : ℕ) where
  -- `checked_add`: nothing behind the latest timestamp.
  abbrev checked_add : ℕ → ℕ → Option ℕ
  checked_add t d = if leb (t + d) latest then some (t + d) else none

  unfoldable pub is_expired : Option ℕ → ℤ → ℕ → Bool
  unfolding as_u64
  is_expired renew_time duration now =
      let secs = as_u64 duration in
      let renew = or_else renew_time (or_else (checked_sub now (secs * 2 % 2 ^ 64 * second)) now) in
      ltb (or_else (checked_add renew (secs * second)) now) now

  -- `try_acquire_or_renew` at the time `now`, up to its write, on the lease that was read.
  unfoldable pub attempt : LeaderConfig → ℕ → Option Lease → Attempt
  unfolding is_expired lease_duration_of is_holder new_lease next_lease
  attempt config now none = create (new_lease config now true)
  attempt config now (some current) =
      let expired = is_expired current.renew_time (lease_duration_of current) now in
      let is_owner = is_holder current.holder config.holder_id in
      if not expired && not is_owner
      then give_up
      else replace (next_lease config now current is_owner)

-- The settings from the environment, whose variables are a parameter.
module _ (env : Bytes → Option Bytes) where
  -- `std::env::var(key)`, where it is not blank.
  set_var : Bytes → Option Bytes
  set_var key = elim (env key) [ none ↦ none | some v ↦ if is_empty (trim v) then none else some v ]

  unfoldable pub env_flag : Bytes → Bool → Bool
  env_flag key default = elim (env key) [
    | none ↦ default
    | some v ↦
        any (bytes_eq v) (codes "1" ∷ codes "true" ∷ codes "TRUE" ∷ codes "yes" ∷ codes "YES" ∷ [])
  ]

  -- The file of the service account is a parameter too.
  unfoldable pub resolve_namespace : Option Bytes → Bytes
  unfolding set_var
  resolve_namespace file = elim (set_var (codes "PERTISK_LEADER_ELECTION_NAMESPACE")) [
    | some ns ↦ ns
    | none ↦ elim (set_var (codes "POD_NAMESPACE")) [
      | some ns ↦ ns
      | none ↦ elim file [
        | none ↦ codes "default"
        | some text ↦ if is_empty (trim text) then codes "default" else trim text
      ]
    ]
  ]

  first_set : List Bytes → Option Bytes
  unfolding set_var
  first_set [] = none
  first_set (key ∷ keys) =
      let rest = first_set keys in elim (set_var key) [ none ↦ rest | some v ↦ some v ]

  -- `uuid` is the random name.
  unfoldable pub resolve_holder_id : Bytes → Bytes
  unfolding first_set
  resolve_holder_id uuid =
      or_else (first_set (codes "PERTISK_POD_NAME" ∷ codes "POD_NAME" ∷ codes "HOSTNAME" ∷ []))
        (codes "pertisk-" ++ uuid)

  unfoldable pub resolve_lease_name : Bytes → Bytes
  unfolding set_var
  resolve_lease_name default = or_else (set_var (codes "PERTISK_LEADER_ELECTION_NAME")) default

  -- A number above 0; negative ones are refused either way.
  positive_var : Bytes → ℕ → Option ℕ
  positive_var key bound = elim (env key) [
    | none ↦ none
    | some v ↦ elim (parse bound v) [ none ↦ none | some n ↦ if ltb 0 n then some n else none ]
  ]

  unfoldable pub resolve_lease_duration : ℤ
  unfolding positive_var
  resolve_lease_duration =
      or_else
        (Option.map pos
          (positive_var (codes "PERTISK_LEADER_ELECTION_LEASE_DURATION_SECONDS") 2147483647))
        default_lease_duration

  unfoldable pub resolve_renew_interval : ℕ
  unfolding positive_var
  resolve_renew_interval =
      or_else (positive_var (codes "PERTISK_LEADER_ELECTION_RENEW_INTERVAL_SECONDS") u64_max) 5
