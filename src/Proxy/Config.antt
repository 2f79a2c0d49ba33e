-- ===== src/Proxy/Config.antt =====
-- src/proxy_config.rs: the sites and the backends of a configuration, as far as the route table is built
-- from them.
use pertisk_proxy.Base.{
  ℕ, Bool, List, Option, none, some, if◌then◌else◌, Bytes, bytes_eq, find, is_empty,
}
use pertisk_proxy.Text.{codes, trim}
use pertisk_proxy.Geoip.{GeoIpPolicy, geoip_normalized}
use pertisk_proxy.Security.Pipeline.{SecurityPolicy, security_normalized}
use pertisk_proxy.Edge.Policy.{TlsGrade, ConsulConfig, RouteAuth}
use pertisk_proxy.Router.{PathMatchType, prefix}

pub record Upstream : Type 0 where
  pub addr : Bytes
  pub weight : ℕ

-- `Backend` of the configuration, without its health check.
pub record NamedBackend : Type 0 where
  pub name : Bytes
  pub upstreams : List Upstream

pub record PathRewrite : Type 0 where
  pub path_type : PathMatchType
  pub path : Bytes
  pub rewrite : Option Bytes
  pub upstream : Option Bytes
  pub auth : Option RouteAuth
  pub rate_limit_rps : ℕ
  pub x4xx_limit_rps : ℕ
  pub cache : Option Bool

-- `PathRewrite::default`.
abbrev pub rewrite_default : PathRewrite
rewrite_default = record {
  path_type = prefix;
  path = codes "/";
  rewrite = none;
  upstream = none;
  auth = none;
  rate_limit_rps = 0;
  x4xx_limit_rps = 0;
  cache = none;
}

pub record AccessList : Type 0 where
  pub id : Bytes
  pub geoip : GeoIpPolicy

pub record NamedWafPolicy : Type 0 where
  pub id : Bytes
  pub security : SecurityPolicy

pub record Site : Type 0 where
  pub host : Bytes
  pub routes : List PathRewrite
  pub backend : Bytes
  pub forward_client_ip : Bool
  pub access_list_id : Option Bytes
  pub waf_policy_id : Option Bytes
  pub geoip : GeoIpPolicy
  pub security : SecurityPolicy

pub record Config : Type 0 where
  pub backends : List NamedBackend
  pub sites : List Site
  pub access_lists : List AccessList
  pub waf_policies : List NamedWafPolicy
  pub tls_grade : TlsGrade
  pub cache_size_mb : ℕ
  pub cache_ttl_secs : ℕ
  pub consul : Option ConsulConfig
  pub jwt_secret : Option Bytes

-- `map(str::trim).filter(|s| !s.is_empty())`.
unfoldable pub trimmed_some : Option Bytes → Option Bytes
trimmed_some none = none
trimmed_some (some s) = if is_empty (trim s) then none else some (trim s)

list_or_own : Option AccessList → GeoIpPolicy → GeoIpPolicy
list_or_own none own = geoip_normalized own
list_or_own (some list) own = geoip_normalized list.geoip

access_list_for : List AccessList → Option Bytes → Option AccessList
access_list_for lists none = none
access_list_for lists (some id) = find (λ l. bytes_eq l.id id) lists

unfoldable pub resolve_site_geoip : Config → Site → GeoIpPolicy
unfolding list_or_own access_list_for trimmed_some
resolve_site_geoip config site =
    list_or_own (access_list_for config.access_lists (trimmed_some site.access_list_id)) site.geoip

policy_or_own : Option NamedWafPolicy → SecurityPolicy → SecurityPolicy
policy_or_own none own = security_normalized own
policy_or_own (some policy) own = security_normalized policy.security

waf_policy_for : List NamedWafPolicy → Option Bytes → Option NamedWafPolicy
waf_policy_for policies none = none
waf_policy_for policies (some id) = find (λ p. bytes_eq p.id id) policies

unfoldable pub resolve_site_security : Config → Site → SecurityPolicy
unfolding policy_or_own waf_policy_for trimmed_some
resolve_site_security config site =
    policy_or_own (waf_policy_for config.waf_policies (trimmed_some site.waf_policy_id))
      site.security
