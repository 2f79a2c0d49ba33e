-- ===== src/Geoip/Annotations.antt =====
-- src/geoip.rs: the policy as annotations of a Kubernetes object, and the lists in them.
use pertisk_proxy.Base.{
  ℕ, ◌≡◌, refl, Bool-cases, inl, inr, Bool, true, false, not, ◌||◌, List, [], ◌∷◌, ◌++◌, map,
  Option, none, some, ◌==◌, if◌then◌else◌, Bytes, Map, lookup, is_empty,
}
use pertisk_proxy.Text.{codes, trim, cons_head, parse, print, u32_max}
use pertisk_proxy.Security.Pipeline.{join_commas}
use pertisk_proxy.Security.Annotations.{flag, remove_all, insert_all, exempt_key}
use pertisk_proxy.Geoip.{
  GeoIpPolicy, geoip_default, geoip_is_default, geoip_normalized, normalize_countries,
  normalize_asns, sort, dedup,
}

abbrev geoip_enabled_key : Bytes
geoip_enabled_key = codes "proxy.pertisk.tech/geoip-enabled"

abbrev allow_countries_key : Bytes
allow_countries_key = codes "proxy.pertisk.tech/geoip-allow-countries"

abbrev deny_countries_key : Bytes
deny_countries_key = codes "proxy.pertisk.tech/geoip-deny-countries"

abbrev allow_asns_key : Bytes
allow_asns_key = codes "proxy.pertisk.tech/geoip-allow-asns"

abbrev deny_asns_key : Bytes
deny_asns_key = codes "proxy.pertisk.tech/geoip-deny-asns"

abbrev geoip_exempt_key : Bytes
geoip_exempt_key = codes "proxy.pertisk.tech/geoip-exempt"

-- `ANNOTATION_KEYS`.
abbrev geoip_annotation_keys : List Bytes
geoip_annotation_keys =
    geoip_enabled_key ∷ allow_countries_key ∷ deny_countries_key ∷ allow_asns_key ∷ deny_asns_key
    ∷ []

abbrev is_separator : ℕ → Bool
is_separator c = c == b',' || (c == b' ' || c == b';')

-- `split([',', ' ', ';'])`.
split_list : Bytes → List Bytes
split_list [] = [] ∷ []
split_list (x ∷ s) =
    let rest = split_list s in if is_separator x then [] ∷ rest else cons_head x rest

unfoldable pub parse_countries : Bytes → List Bytes
unfolding split_list normalize_countries
parse_countries raw = normalize_countries (split_list raw)

abbrev is_as_letter : ℕ → Bool
is_as_letter c = (c == b'A' || c == b'S') || (c == b'a' || c == b's')

-- `trim_start_matches(['A', 'S', 'a', 's'])`.
trim_as : Bytes → Bytes
trim_as [] = []
trim_as (c ∷ s) = let rest = trim_as s in if is_as_letter c then rest else c ∷ s

parse_parts : List Bytes → List ℕ
unfolding trim_as
parse_parts [] = []
parse_parts (p ∷ ps) =
    let rest = parse_parts ps in
    elim (parse u32_max (trim_as (trim p))) [ none ↦ rest | some asn ↦ asn ∷ rest ]

unfoldable pub parse_asns : Bytes → List ℕ
unfolding split_list parse_parts normalize_asns
parse_asns raw = normalize_asns (parse_parts (split_list raw))

list_or_empty : {A : Type 0} → (Bytes → List A) → Option Bytes → List A
list_or_empty read none = []
list_or_empty read (some v) = read v

unfoldable pub geoip_policy_read : (Bytes → Option Bytes) → GeoIpPolicy
unfolding flag parse_countries parse_asns list_or_empty
geoip_policy_read get =
    let allow_c = list_or_empty parse_countries (get allow_countries_key) in
    let deny_c = list_or_empty parse_countries (get deny_countries_key) in
    let allow_a = list_or_empty parse_asns (get allow_asns_key) in
    let deny_a = list_or_empty parse_asns (get deny_asns_key) in
    record {
      enabled =
          flag (get geoip_enabled_key)
          || (not (is_empty allow_c)
              || (not (is_empty deny_c) || (not (is_empty allow_a) || not (is_empty deny_a))));
      allow_countries = allow_c;
      deny_countries = deny_c;
      allow_asns = allow_a;
      deny_asns = deny_a;
    }

-- `policy_from_annotations`.
unfoldable pub geoip_from_annotations : Option (Map Bytes) → GeoIpPolicy
unfolding geoip_policy_read flag
geoip_from_annotations none = geoip_default
geoip_from_annotations (some m) =
    if flag (lookup exempt_key m) || flag (lookup geoip_exempt_key m)
    then geoip_default
    else geoip_normalized (geoip_policy_read (λ key. lookup key m))

entry_unless_empty : {A : Type 0} → Bytes → List A → Bytes → Map Bytes
entry_unless_empty key [] text = []
entry_unless_empty key (x ∷ xs) text = (key, text) ∷ []

-- What is inserted for a policy that is normalized and not the default.
geoip_entries : GeoIpPolicy → Map Bytes
unfolding entry_unless_empty join_commas
geoip_entries p =
    (if p.enabled then (geoip_enabled_key, codes "true") ∷ [] else [])
    ++ (entry_unless_empty allow_countries_key p.allow_countries (join_commas p.allow_countries)
        ++ (entry_unless_empty deny_countries_key p.deny_countries (join_commas p.deny_countries)
            ++ (entry_unless_empty allow_asns_key p.allow_asns
                  (join_commas (map print p.allow_asns))
                ++ entry_unless_empty deny_asns_key p.deny_asns
                    (join_commas (map print p.deny_asns)))))

-- `apply_annotations`.
unfoldable pub geoip_to_annotations : Map Bytes → GeoIpPolicy → Map Bytes
unfolding geoip_entries remove_all insert_all
geoip_to_annotations m policy =
    let cleared = remove_all geoip_annotation_keys m in
    let p = geoip_normalized policy in
    if geoip_is_default p then cleared else insert_all (geoip_entries p) cleared

abbrev on_or_listed : Bool → List Bytes → List Bytes → List ℕ → List ℕ → Bool
on_or_listed on ac dc aa da =
    on || (not (is_empty ac) || (not (is_empty dc) || (not (is_empty aa) || not (is_empty da))))

off_unlisted :
    (on : Bool) (ac dc : List Bytes) (aa da : List ℕ)
    → on_or_listed on ac dc aa da ≡ false
    → geoip_normalized (record {
      enabled = on_or_listed on ac dc aa da;
      allow_countries = ac;
      deny_countries = dc;
      allow_asns = aa;
      deny_asns = da;
    })
      ≡ geoip_default
unfolding geoip_normalized normalize_countries normalize_asns sort dedup
off_unlisted false [] [] [] [] h = refl
off_unlisted true ac dc aa da h = cc
off_unlisted false (c ∷ ac) dc aa da h = cc
off_unlisted false [] (c ∷ dc) aa da h = cc
off_unlisted false [] [] (n ∷ aa) da h = cc
off_unlisted false [] [] [] (n ∷ da) h = cc

off_read :
    (m : Map Bytes)
    → (geoip_normalized (geoip_policy_read (λ key. lookup key m))).enabled ≡ false
    → geoip_normalized (geoip_policy_read (λ key. lookup key m)) ≡ geoip_default
unfolding geoip_policy_read geoip_normalized
off_read m h = off_unlisted _ _ _ _ _ h

-- A policy that is read from annotations, or from none, and is not enabled is the default: it has no
-- lists.
pub geoip_from_annotations-off :
    (annotations : Option (Map Bytes))
    → (geoip_from_annotations annotations).enabled ≡ false
    → geoip_from_annotations annotations ≡ geoip_default
unfolding geoip_from_annotations
geoip_from_annotations-off none h = refl
geoip_from_annotations-off (some m) h =
    elim (Bool-cases (flag (lookup exempt_key m) || flag (lookup geoip_exempt_key m))) [
      | inl exempt ↦ rw exempt refl
      | inr free ↦ rw free (off_read m (rw free at h))
    ]
