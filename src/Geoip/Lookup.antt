-- ===== src/Geoip/Lookup.antt =====
-- src/geoip.rs: the decision on an address. The look-up in the loaded databases is a parameter.
use pertisk_proxy.Base.{Bool, Option, none, some, if◌then◌else◌, Bytes}
use pertisk_proxy.Geoip.{GeoIpPolicy, GeoInfo, Decision, geoip_is_active, geoip_evaluate}
use pertisk_proxy.Proxy.ClientIp.{IpAddr, normalize_maybe, is_public_routable_ip}

module _ (parse_ip : Bytes → Option IpAddr) (print_ip : IpAddr → Bytes)
    (country_loaded asn_loaded : Bool) (geo_lookup : Bytes → Option GeoInfo) where
  -- On the normal form of the address: one that is not public is let through.
  evaluate_normal : GeoIpPolicy → Option Bytes → Decision
  evaluate_normal policy none = geoip_evaluate country_loaded asn_loaded policy none
  evaluate_normal policy (some ip) =
      if is_public_routable_ip parse_ip print_ip ip
      then geoip_evaluate country_loaded asn_loaded policy (geo_lookup ip)
      else Decision.allow

  unfoldable pub evaluate_ip : GeoIpPolicy → Option Bytes → Decision
  unfolding evaluate_normal
  evaluate_ip policy ip =
      if geoip_is_active policy
      then evaluate_normal policy (normalize_maybe parse_ip print_ip ip)
      else Decision.allow
