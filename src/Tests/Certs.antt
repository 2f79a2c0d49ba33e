-- ===== src/Tests/Certs.antt =====
-- Runs of src/tls/store.rs.
use pertisk_proxy.Base.{
  ◌≡◌, Bool, true, not, [], ◌∷◌, List, none, Bytes, is_empty, any, lookup, if◌then◌else◌,
}
use pertisk_proxy.Text.{codes}
use pertisk_proxy.Tls.{TlsConfig, file, kubernetes}
use pertisk_proxy.Tls.Store.{empty_store, reload_from_configs, or_some}
use pertisk_proxy.Tls.Store.Reload.{is_refused, last_named, first_files, reload_from_configs-result}

-- A pair of files is refused where no key is named.
abbrev paired : Bytes → Bytes → Bool
paired cert key = not (is_empty key)

abbrev all_readable : Bytes → Bool
all_readable cert = true

abbrev rows : List TlsConfig
rows =
    record {
      hosts = codes "A.b" ∷ codes "c.d" ∷ [];
      source = file (codes "one.pem") (codes "one.key");
      expires_at = none;
    }
    ∷ record { hosts = codes "c.d" ∷ []; source = kubernetes; expires_at = none }
    ∷ record {
      hosts = codes "c.d" ∷ [];
      source = file (codes "two.pem") (codes "two.key");
      expires_at = none;
    }
    ∷ []

reload_from_configs-result_example :
    ((reload_from_configs paired all_readable rows empty_store).1
      ≡ not (any (is_refused paired all_readable) rows))
    × (lookup (codes "c.d") (reload_from_configs paired all_readable rows empty_store).0.by_host ≡ (
        if any (is_refused paired all_readable) rows
        then lookup (codes "c.d") empty_store.by_host
        else last_named paired all_readable (codes "c.d") rows none))
    × ((reload_from_configs paired all_readable rows empty_store).0.default ≡ (
        if any (is_refused paired all_readable) rows
        then empty_store.default
        else or_some (first_files paired all_readable rows) empty_store.default))
    × ((reload_from_configs paired all_readable rows empty_store).0.expected ≡ empty_store.expected)
reload_from_configs-result_example =
    reload_from_configs-result paired all_readable rows empty_store (codes "c.d")
