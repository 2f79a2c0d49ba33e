-- ===== src/Geoip.antt =====
-- src/geoip.rs: the country and ASN policy of a site, its decision on a lookup result, and the
-- search of the ASN table. The MaxMind reader and the parsing of addresses are not modelled: a
-- lookup result is an argument.
pub mod Decisions
pub mod Lookup
pub mod Ranges
pub mod Annotations
use pertisk_proxy.Base.{
  ℕ, suc, ◌-◌, Bool, true, false, not, ◌&&◌, ◌||◌, List, [], ◌∷◌, map, Option, none, some, ◌==◌,
  leb, ltb, if◌then◌else◌, Bytes, bytes_eq, any, keep, is_empty, get_elem?,
}
use pertisk_proxy.Text.{trim, to_upper}

pub record GeoIpPolicy : Type 0 where
  pub enabled : Bool
  pub allow_countries : List Bytes
  pub deny_countries : List Bytes
  pub allow_asns : List ℕ
  pub deny_asns : List ℕ

abbrev pub geoip_default : GeoIpPolicy
geoip_default = record {
  enabled = false;
  allow_countries = [];
  deny_countries = [];
  allow_asns = [];
  deny_asns = [];
}

unfoldable pub geoip_is_active : GeoIpPolicy → Bool
geoip_is_active p =
    p.enabled
    && (not (is_empty p.allow_countries)
        || (not (is_empty p.deny_countries)
            || (not (is_empty p.allow_asns) || not (is_empty p.deny_asns))))

unfoldable pub geoip_is_default : GeoIpPolicy → Bool
geoip_is_default p =
    not p.enabled
    && (is_empty p.allow_countries
        && (is_empty p.deny_countries && (is_empty p.allow_asns && is_empty p.deny_asns)))

-- The order of `String`: byte by byte.
bytes_leb : Bytes → Bytes → Bool
bytes_leb [] b = true
bytes_leb (x ∷ a) [] = false
bytes_leb (x ∷ a) (y ∷ b) = ltb x y || (x == y && bytes_leb a b)

module _ {A : Type 0} (below : A → A → Bool) where
  -- `sort_unstable`: equal elements of these types cannot be told apart.
  insert_sorted : A → List A → List A
  insert_sorted a [] = a ∷ []
  insert_sorted a (x ∷ xs) = if below a x then a ∷ x ∷ xs else x ∷ insert_sorted a xs

  pub sort : List A → List A
  unfolding insert_sorted
  sort [] = []
  sort (x ∷ xs) = insert_sorted x (sort xs)

module _ {A : Type 0} (same : A → A → Bool) where
  -- Runs of equal elements become one.
  pub dedup : List A → List A
  dedup [] = []
  dedup (x ∷ []) = x ∷ []
  dedup (x ∷ y ∷ xs) = let rest = dedup (y ∷ xs) in if same x y then rest else x ∷ rest

normalize_countries : List Bytes → List Bytes
unfolding bytes_leb sort dedup
normalize_countries list =
    dedup bytes_eq
      (sort bytes_leb (keep (λ c. not (is_empty c)) (map (λ c. to_upper (trim c)) list)))

normalize_asns : List ℕ → List ℕ
unfolding sort dedup
normalize_asns list = dedup ◌==◌ (sort leb list)

unfoldable pub geoip_normalized : GeoIpPolicy → GeoIpPolicy
unfolding normalize_countries normalize_asns
geoip_normalized p = record p {
  allow_countries = normalize_countries p.allow_countries;
  deny_countries = normalize_countries p.deny_countries;
  allow_asns = normalize_asns p.allow_asns;
  deny_asns = normalize_asns p.deny_asns;
}

pub record GeoInfo : Type 0 where
  pub country : Option Bytes
  pub asn : Option ℕ

pub data Decision : Type 0 where
  allow block_country block_asn : Decision

abbrev pub country_of : Option GeoInfo → Option Bytes
country_of none = none
country_of (some info) = info.country

abbrev pub asn_of : Option GeoInfo → Option ℕ
asn_of none = none
asn_of (some info) = info.asn

-- The two country tests, `loaded` whether the country database is there.
unfoldable pub country_blocked : GeoIpPolicy → Bool → Option Bytes → Bool
country_blocked p loaded (some code) =
    any (λ c. bytes_eq c code) p.deny_countries
    || (not (is_empty p.allow_countries) && not (any (λ c. bytes_eq c code) p.allow_countries))
country_blocked p loaded none = not (is_empty p.allow_countries) && loaded

unfoldable pub asn_blocked : GeoIpPolicy → Bool → Option ℕ → Bool
asn_blocked p loaded (some num) =
    any (λ c. c == num) p.deny_asns
    || (not (is_empty p.allow_asns) && not (any (λ c. c == num) p.allow_asns))
asn_blocked p loaded none = not (is_empty p.allow_asns) && loaded

-- `evaluate`, with what the global engine has loaded.
unfoldable pub geoip_evaluate : Bool → Bool → GeoIpPolicy → Option GeoInfo → Decision
unfolding geoip_is_active country_blocked asn_blocked
geoip_evaluate country_loaded asn_loaded p info =
    if not (geoip_is_active p)
    then allow
    else if country_blocked p country_loaded (country_of info)
    then block_country
    else if asn_blocked p asn_loaded (asn_of info)
    then block_asn
    else allow

-- A row of the ASN table: first and last address, as numbers, and the ASN.
pub record AsnRange : Type 0 where
  pub first : ℕ
  pub last : ℕ
  pub asn : ℕ

-- `partition_point(|(start, _, _)| *start <= key)` on a table sorted by start.
unfoldable pub partition_point : ℕ → List AsnRange → ℕ
partition_point key [] = 0
partition_point key (r ∷ rs) = if leb r.first key then suc (partition_point key rs) else 0

asn_if_inside : ℕ → Option AsnRange → Option ℕ
asn_if_inside key none = none
asn_if_inside key (some r) = if leb r.first key && leb key r.last then some r.asn else none

-- `AsnTsvDb::lookup` on one of its two tables.
unfoldable pub asn_lookup : List AsnRange → ℕ → Option ℕ
unfolding partition_point asn_if_inside
asn_lookup db key =
    let idx = partition_point key db in
    if idx == 0 then none else asn_if_inside key (get_elem? db (idx - 1))
