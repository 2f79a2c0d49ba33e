-- ===== src/Tls/Store.antt =====
-- src/tls/store.rs and src/tls/validate.rs: the certificates by host name. The check of a pair of files
-- and the reading of the names in a certificate file are parameters: they are the work of other crates
-- on the file system.
pub mod Reload
use pertisk_proxy.Base.{
  ℕ, ◌+◌, Bool, true, false, not, ◌&&◌, ◌||◌, List, [], ◌∷◌, ◌++◌, map, Option, none, some, ltb,
  if◌then◌else◌, Bytes, Map, lookup, insert, remove, has_key, bytes_eq, any, keep, is_empty, length,
}
use pertisk_proxy.Text.{codes, trim, ends_with, strip_prefix}
use pertisk_proxy.Hosts.{normalize_host, wildcard_covers_host}
use pertisk_proxy.Tls.{TlsSource, TlsConfig, acme, file, kubernetes}

pub record CertPaths : Type 0 where
  pub cert : Bytes
  pub key : Bytes

pub data StoredCert : Type 0 where
  files : CertPaths → StoredCert
  pem : Bytes → Bytes → StoredCert

-- `CertStoreInner`; of the expected hosts only membership is asked.
pub record CertStore : Type 0 where
  pub by_host : Map StoredCert
  pub default : Option StoredCert
  pub expected : List Bytes

abbrev pub empty_store : CertStore
empty_store = record { by_host = []; default = none; expected = [] }

abbrev pub or_some {ℓ} : {A : Type ℓ} → Option A → Option A → Option A
or_some none o = o
or_some (some a) o = some a

abbrev is_found {ℓ} : {A : Type ℓ} → Option A → Bool
is_found none = false
is_found (some a) = true

-- `by_host.values().next()`.
first_value : Map StoredCert → Option StoredCert
first_value [] = none
first_value ((k, c) ∷ m) = some c

unfoldable pub default_cert : CertStore → Option StoredCert
unfolding first_value
default_cert s = or_some s.default (first_value s.by_host)

paths_of : Option StoredCert → Option CertPaths
paths_of (some (files paths)) = some paths
paths_of _ = none

unfoldable pub default_paths : CertStore → Option CertPaths
unfolding first_value paths_of
default_paths s = paths_of (or_some s.default (first_value s.by_host))

-- `best` with its length: the longest suffix so far.
abbrev longer : Option (ℕ × StoredCert) → ℕ → Bool
longer none len = ltb 0 len
longer (some (l, c)) len = ltb l len

-- The suffix of a wildcard key covers the host: here any number of labels.
unfoldable pub suffix_covers : Bytes → Bytes → Bool
suffix_covers suffix host = ends_with suffix host && ltb (length suffix) (length host)

best_suffix : Bytes → Map StoredCert → Option (ℕ × StoredCert) → Option (ℕ × StoredCert)
unfolding suffix_covers
best_suffix host [] best = best
best_suffix host ((key, cert) ∷ m) best = elim (strip_prefix (codes "*.") key) [
  | none ↦ best_suffix host m best
  | some suffix ↦ best_suffix host m (
      if suffix_covers (b'.' ∷ suffix) host && longer best (length (b'.' ∷ suffix))
      then some (length (b'.' ∷ suffix), cert)
      else best)
]

cert_of : Option (ℕ × StoredCert) → Option StoredCert
cert_of none = none
cert_of (some (l, c)) = some c

-- On a host that is normalized.
unfoldable pub lookup_name : Bytes → Map StoredCert → Option StoredCert
unfolding best_suffix cert_of
lookup_name host m = or_some (lookup host m) (cert_of (best_suffix host m none))

unfoldable pub lookup_sni : Bytes → CertStore → Option StoredCert
unfolding lookup_name normalize_host
lookup_sni host s = lookup_name (normalize_host host) s.by_host

unfoldable pub has_cert_for_host : Bytes → CertStore → Bool
unfolding lookup_sni
has_cert_for_host host s = is_found (lookup_sni host s)

unfoldable pub get : Bytes → CertStore → Option StoredCert
unfolding lookup_sni default_cert
get host s = or_some (lookup_sni host s) (default_cert s)

unfoldable pub has_any_cert : CertStore → Bool
unfolding default_paths
has_any_cert s = ltb 0 (length s.by_host) || is_found (default_paths s)

-- `resolve` of a handshake: the default only for a client that names no host.
unfoldable pub resolve_sni : Option Bytes → CertStore → Option StoredCert
unfolding lookup_sni default_cert
resolve_sni none s = default_cert s
resolve_sni (some host) s = lookup_sni host s

unfoldable pub set_expected_hosts : List Bytes → CertStore → CertStore
unfolding normalize_host
set_expected_hosts hosts s = record s {
  expected = keep (λ h. not (is_empty h)) (map normalize_host hosts);
}

unfoldable pub expects_host : Bytes → CertStore → Bool
unfolding normalize_host
expects_host host s =
    let h = normalize_host host in
    if is_empty h
    then false
    else any (λ e. bytes_eq e h) s.expected || any (λ e. wildcard_covers_host e h) s.expected

insert_hosts : List Bytes → StoredCert → Map StoredCert → Map StoredCert
unfolding normalize_host
insert_hosts [] cert m = m
insert_hosts (host ∷ hosts) cert m =
    insert_hosts hosts cert
      (if is_empty (trim host) then m else insert (normalize_host (trim host)) cert m)

unfoldable pub insert_stored_for_hosts : List Bytes → StoredCert → CertStore → CertStore
unfolding insert_hosts
insert_stored_for_hosts hosts cert s = record s {
  default = or_some s.default (some cert);
  by_host = insert_hosts hosts cert s.by_host;
}

remove_hosts : List Bytes → Map StoredCert → Map StoredCert
unfolding normalize_host
remove_hosts [] m = m
remove_hosts (host ∷ hosts) m = remove_hosts hosts (remove (normalize_host (trim host)) m)

unfoldable pub remove_for_hosts : List Bytes → CertStore → CertStore
unfolding remove_hosts
remove_for_hosts hosts s = record s { by_host = remove_hosts hosts s.by_host }

-- The two maps that a reload builds.
pub record Loaded : Type 0 where
  pub hosts : Map StoredCert
  pub fallback : Option StoredCert

insert_exact : List Bytes → StoredCert → Map StoredCert → Map StoredCert
unfolding normalize_host
insert_exact [] cert m = m
insert_exact (host ∷ hosts) cert m = insert_exact hosts cert (insert (normalize_host host) cert m)

-- `validate_cert_pair`, and whether the names of the certificate can be read.
module _ (valid_pair : Bytes → Bytes → Bool) (readable : Bytes → Bool) where
  -- The store, and whether the call returned without an error.
  unfoldable pub set_global_fallback : Bytes → Bytes → CertStore → CertStore × Bool
  set_global_fallback cert key s =
      if valid_pair cert key
      then (
        record s { default = or_some s.default (some (files (record { cert = cert; key = key }))) },
        true,
      )
      else (s, false)

  -- One entry: none where its files are refused.
  load_entry : TlsConfig → TlsSource → Loaded → Option Loaded
  unfolding insert_exact
  load_entry entry (file cert key) l =
      let stored = files (record { cert = cert; key = key }) in
      if valid_pair cert key && readable cert
      then some (record {
        hosts = insert_exact entry.hosts stored l.hosts;
        fallback = or_some l.fallback (some stored);
      })
      else none
  load_entry entry _ l = some l

  unfoldable pub load_configs : List TlsConfig → Loaded → Option Loaded
  unfolding load_entry
  load_configs [] l = some l
  load_configs (entry ∷ configs) l =
      if is_empty entry.hosts
      then load_configs configs l
      else elim (load_entry entry entry.source l) [
        | none ↦ none
        | some l' ↦ load_configs configs l'
      ]

  -- The end of a reload, on the maps that were built.
  unfoldable pub settle : Option Loaded → CertStore → CertStore × Bool
  settle none s = (s, false)
  settle (some l) s = (record s { by_host = l.hosts; default = or_some l.fallback s.default }, true)

  unfoldable pub reload_from_configs : List TlsConfig → CertStore → CertStore × Bool
  unfolding load_configs settle
  reload_from_configs configs s =
      settle (load_configs configs (record { hosts = []; fallback = none })) s

-- src/tls/validate.rs: `host_matches_cert_name`.
unfoldable pub host_matches_cert_name : Bytes → Bytes → Bool
unfolding suffix_covers
host_matches_cert_name host cert_name =
    if bytes_eq host cert_name then true else elim (strip_prefix (codes "*.") cert_name) [
      | none ↦ false
      | some suffix ↦ suffix_covers (b'.' ∷ suffix) host
    ]

unfoldable pub cert_covers_host : List Bytes → Bytes → Bool
unfolding host_matches_cert_name
cert_covers_host cert_names host = any (λ name. host_matches_cert_name host name) cert_names
