-- ===== src/Tests/Leader.antt =====
-- Runs of src/ingress/leader_election.rs: two replicas and no lease.
use pertisk_proxy.Base.{ℕ, refl, false, none, arith, Bytes, ◌∷◌, []}
use pertisk_proxy.Ingress.Leader.{LeaderConfig, pos}
use pertisk_proxy.Ingress.Leader.System.{System, asleep}
use pertisk_proxy.Ingress.Leader.Takeover.{IsTakenOver, leader_takeover}

-- The name of replica `i` is `i + 1` letters.
abbrev name_of : ℕ → Bytes
name_of i = b'p' ∷ i ∷ []

abbrev configs : ℕ → LeaderConfig
configs i = record { holder_id = name_of i; lease_duration = pos 15 }

abbrev before_all : System
before_all = record {
  now = 7;
  lease = none;
  replicas = λ i. record { pc = asleep; flag = false; stamp = 0 };
}

abbrev third : ℕ
third = 3

leader_takeover_example : IsTakenOver 1000000 0 configs before_all 3 7
leader_takeover_example = leader_takeover 1000000 0 configs before_all 3 7 (omega arith) refl tt

abbrev led : System
led = leader_takeover_example.after
