-- ===== src/Edge/Policy.antt =====
-- src/edge/mod.rs: the settings of the edge features, global and for each route.
use pertisk_proxy.Base.{ℕ, Bool, true, false, Option, none, some, ◌==◌, if◌then◌else◌, Bytes}
use pertisk_proxy.Text.{codes}

pub data TlsGrade : Type 0 where
  high medium unsafe : TlsGrade

-- `TlsGrade::as_str`.
pub grade_name : TlsGrade → Bytes
grade_name high = codes "high"
grade_name medium = codes "medium"
grade_name unsafe = codes "unsafe"

pub record ConsulConfig : Type 0 where
  pub address : Bytes
  pub token : Option Bytes
  pub datacenter : Option Bytes

pub record EdgeGlobals : Type 0 where
  pub tls_grade : TlsGrade
  pub cache_size_mb : ℕ
  pub cache_ttl_secs : ℕ
  pub consul : Option ConsulConfig
  pub jwt_secret : Option Bytes

-- `EdgeGlobals::default`.
abbrev pub globals_default : EdgeGlobals
globals_default = record {
  tls_grade = medium;
  cache_size_mb = 0;
  cache_ttl_secs = 60;
  consul = none;
  jwt_secret = none;
}

pub data RouteAuth : Type 0 where
  basic : Bytes → Bytes → RouteAuth
  api_key : Bytes → RouteAuth
  jwt : Bytes → RouteAuth
  forward : Bytes → RouteAuth

pub record EdgePolicy : Type 0 where
  pub auth : Option RouteAuth
  pub rate_limit_rps : ℕ
  pub x4xx_limit_rps : ℕ
  pub cache : Option Bool

-- `EdgePolicy::default`.
abbrev pub edge_default : EdgePolicy
edge_default = record { auth = none; rate_limit_rps = 0; x4xx_limit_rps = 0; cache = none }

abbrev or_true : Option Bool → Bool
or_true none = true
or_true (some b) = b

-- `cache_enabled`.
unfoldable pub cache_enabled : EdgeGlobals → EdgePolicy → Bool
cache_enabled globals policy = if globals.cache_size_mb == 0 then false else or_true policy.cache
