-- ===== src/Tls.antt =====
-- src/proxy_config.rs: the certificate entries of a configuration, and how they are merged.
pub mod Store
use pertisk_proxy.Base.{
  ℕ, Bool, true, false, not, ◌&&◌, ◌||◌, List, [], ◌∷◌, ◌++◌, map, Option, none, some, ◌==◌, ltb,
  if◌then◌else◌, Bytes, Map, bytes_eq, any, find, keep, is_empty, length,
}
use mathlib.Core.Option
use pertisk_proxy.Text.{codes, trim, to_lower, eq_ignore_case, starts_with, strip_prefix, split}

pub record AcmeSource : Type 0 where
  pub email : Option Bytes
  pub challenge : Bytes
  pub dns_provider : Option Bytes
  pub dns_provider_type : Option Bytes
  pub dns_credentials : Option (Map Bytes)

pub data TlsSource : Type 0 where
  acme : AcmeSource → TlsSource
  -- The paths of the certificate and of its key.
  file : Bytes → Bytes → TlsSource
  kubernetes : TlsSource

pub record TlsConfig : Type 0 where
  pub hosts : List Bytes
  pub source : TlsSource
  pub expires_at : Option Bytes

-- The set as a list: only membership is asked of it.
tls_hosts_set : List Bytes → List Bytes
tls_hosts_set hosts = keep (λ s. not (is_empty s)) (map (λ s. to_lower (trim s)) hosts)

acme_wildcard_host : List Bytes → Option Bytes
acme_wildcard_host hosts =
    Option.map (λ h. to_lower (trim h)) (find (λ h. starts_with (codes "*.") (trim h)) hosts)

-- `==` on `Option<String>`.
option_eq : Option Bytes → Option Bytes → Bool
option_eq none none = true
option_eq (some a) (some b) = bytes_eq a b
option_eq _ _ = false

unfoldable pub acme_sources_equivalent : TlsSource → TlsSource → Bool
unfolding option_eq
acme_sources_equivalent (acme a) (acme b) =
    option_eq a.email b.email
    && (bytes_eq a.challenge b.challenge
        && (option_eq a.dns_provider b.dns_provider
            && option_eq a.dns_provider_type b.dns_provider_type))
acme_sources_equivalent (file c1 k1) (file c2 k2) = bytes_eq c1 c2 && bytes_eq k1 k2
acme_sources_equivalent _ _ = false

abbrev is_found {ℓ} : {A : Type ℓ} → Option A → Bool
is_found none = false
is_found (some a) = true

is_disjoint : List Bytes → List Bytes → Bool
is_disjoint a b = not (any (λ x. any (bytes_eq x) b) a)

acme_hosts_meet : List Bytes → List Bytes → Bool
unfolding acme_wildcard_host tls_hosts_set option_eq is_disjoint
acme_hosts_meet a b =
    if is_found (acme_wildcard_host a) && option_eq (acme_wildcard_host a) (acme_wildcard_host b)
    then true
    else not (is_disjoint (tls_hosts_set a) (tls_hosts_set b))

same_kind_merge : TlsConfig → TlsConfig → TlsSource → TlsSource → Bool
unfolding acme_hosts_meet
same_kind_merge a b (acme x) (acme y) = acme_hosts_meet a.hosts b.hosts
same_kind_merge a b (file c1 k1) (file c2 k2) = true
same_kind_merge a b _ _ = false

unfoldable pub tls_entries_should_merge : TlsConfig → TlsConfig → Bool
unfolding acme_sources_equivalent same_kind_merge
tls_entries_should_merge a b =
    if not (acme_sources_equivalent a.source b.source)
    then false
    else same_kind_merge a b a.source b.source

abbrev labels_of : Bytes → Option Bytes → List Bytes
labels_of h (some rest) = keep (λ p. not (is_empty p)) (split b'.' rest)
labels_of h none = keep (λ p. not (is_empty p)) (split b'.' h)

unfoldable pub is_invalid_acme_identifier : Bytes → Bool
is_invalid_acme_identifier host =
    let h = to_lower (trim host) in
    if is_empty h then true else ltb (length (labels_of h (strip_prefix (codes "*.") h))) 2

-- The hosts of a row that is merged into another one: trimmed, and none twice in any case.
unfoldable pub add_hosts : List Bytes → List Bytes → List Bytes
add_hosts hosts [] = hosts
add_hosts hosts (h ∷ hs) =
    add_hosts
      (if is_empty (trim h) || any (λ x. eq_ignore_case x (trim h)) hosts
        then hosts
        else hosts ++ (trim h ∷ []))
      hs

-- The first row that the entry goes with takes its hosts; else the entry is a new row.
unfoldable pub merge_entry : TlsConfig → List TlsConfig → List TlsConfig
unfolding tls_entries_should_merge add_hosts
merge_entry entry [] = entry ∷ []
merge_entry entry (e ∷ es) =
    let rest = merge_entry entry es in
    if tls_entries_should_merge e entry
    then record e { hosts = add_hosts e.hosts entry.hosts; expires_at = none } ∷ es
    else e ∷ rest

unfoldable pub merge_all : List TlsConfig → List TlsConfig → List TlsConfig
unfolding merge_entry
merge_all merged [] = merged
merge_all merged (entry ∷ tls) = merge_all (merge_entry entry merged) tls

drop_invalid_hosts : TlsSource → TlsConfig → TlsConfig
unfolding is_invalid_acme_identifier
drop_invalid_hosts (acme a) entry =
    let kept = keep (λ h. not (is_invalid_acme_identifier h)) entry.hosts in
    record entry {
      hosts = kept;
      expires_at = if not (length kept == length entry.hosts) then none else entry.expires_at;
    }
drop_invalid_hosts _ entry = entry

unfoldable pub clean_entry : TlsConfig → TlsConfig
unfolding drop_invalid_hosts
clean_entry entry = drop_invalid_hosts entry.source entry

unfoldable pub normalize_tls_config : List TlsConfig → List TlsConfig
unfolding merge_all clean_entry
normalize_tls_config tls = keep (λ t. not (is_empty t.hosts)) (map clean_entry (merge_all [] tls))

is_acme : TlsSource → Bool
is_acme (acme a) = true
is_acme _ = false

unfoldable pub tls_has_acme_config : List TlsConfig → Bool
unfolding is_acme
tls_has_acme_config tls = any (λ t. is_acme t.source) tls
