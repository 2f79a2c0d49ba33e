-- ===== src/Geoip/Decisions.antt =====
-- src/geoip.rs: when `evaluate` lets a request through.
use pertisk_proxy.Base.{
  ℕ, ◌≡◌, ◌↔◌, ◌⊎◌, inl, inr, refl, sym, Bool-cases, Bool, true, false, not, ◌&&◌, ◌||◌, List, [],
  ◌∷◌, Option, none, some, arith, Bytes, bytes_eq, bytes_eq_iff, any, In, is_empty, ◌==◌,
}
use pertisk_proxy.Geoip.{
  GeoIpPolicy, GeoInfo, allow, country_of, asn_of, country_blocked, asn_blocked, geoip_is_active,
  geoip_evaluate,
}

any_bytes_iff :
    (code : Bytes) (cs : List Bytes) → (any (λ c. bytes_eq c code) cs ≡ true) ↔ In code cs
any_bytes_iff code [] = ground arith
any_bytes_iff code (c ∷ cs) =
    let (to, from) = any_bytes_iff code cs in
    let (same, back) = bytes_eq_iff c code in
    (
      λ e. elim (Bool-cases (bytes_eq c code)) [
        | inl here ↦ inl (sym (same here))
        | inr there ↦ inr (to (ground arith))
      ],
      λ h. elim h [ inl e ↦ rw (back (sym e)) | inr k ↦ ground (arith, from k) ],
    )

any_asn_iff : (n : ℕ) (ns : List ℕ) → (any (λ c. c == n) ns ≡ true) ↔ In n ns
any_asn_iff n [] = ground arith
any_asn_iff n (m ∷ ns) =
    let (to, from) = any_asn_iff n ns in
    (
      λ e. elim (Bool-cases (m == n)) [
        | inl here ↦ inl (ground arith)
        | inr there ↦ inr (to (ground arith))
      ],
      λ h. elim h [ inl e ↦ ground arith | inr k ↦ ground (arith, from k) ],
    )

module _ {A : Type 0} where
  -- What a pair of lists lets through: nothing denied; and where there is an allow list, what is
  -- on it, or what is not known while the database is missing.
  abbrev pub Passes : List A → List A → Bool → Option A → Type 0
  Passes allowed denied loaded (some a) = ¬ (In a denied) × ((allowed ≡ []) ⊎ In a allowed)
  Passes allowed denied loaded none = (allowed ≡ []) ⊎ (loaded ≡ false)

  unknown_iff :
      (allowed denied : List A) (loaded : Bool)
      → ((not (is_empty allowed) && loaded) ≡ false) ↔ Passes allowed denied loaded none
  unknown_iff [] denied loaded = (λ e. inl refl, λ h. refl)
  unknown_iff (x ∷ xs) denied loaded = (λ e. inr e, λ h. ground arith)

  known_iff :
      (allowed denied : List A) (loaded : Bool) (a : A) (denies allows : Bool)
      → (denies ≡ true) ↔ In a denied
      → (allows ≡ true) ↔ In a allowed
      → ((denies || (not (is_empty allowed) && not allows)) ≡ false)
        ↔ Passes allowed denied loaded (some a)
  known_iff allowed denied loaded a true allows d w = (λ e. cc, λ h. absurd (h.0 (d.0 refl)))
  known_iff [] denied loaded a false allows d w = (λ e. (λ k. cc (d.1 k), inl refl), λ h. refl)
  known_iff (x ∷ xs) denied loaded a false true d w =
      (λ e. (λ k. cc (d.1 k), inr (w.0 refl)), λ h. refl)
  known_iff (x ∷ xs) denied loaded a false false d w =
      (λ e. cc, λ h. elim h.1 [ inl e ↦ cc | inr k ↦ cc (w.1 k) ])

country_blocked_iff :
    (p : GeoIpPolicy) (loaded : Bool) (c : Option Bytes)
    → (country_blocked p loaded c ≡ false) ↔ Passes p.allow_countries p.deny_countries loaded c
unfolding country_blocked
country_blocked_iff p loaded none = unknown_iff p.allow_countries p.deny_countries loaded
country_blocked_iff p loaded (some code) =
    known_iff p.allow_countries p.deny_countries loaded code _ _
      (any_bytes_iff code p.deny_countries) (any_bytes_iff code p.allow_countries)

asn_blocked_iff :
    (p : GeoIpPolicy) (loaded : Bool) (n : Option ℕ)
    → (asn_blocked p loaded n ≡ false) ↔ Passes p.allow_asns p.deny_asns loaded n
unfolding asn_blocked
asn_blocked_iff p loaded none = unknown_iff p.allow_asns p.deny_asns loaded
asn_blocked_iff p loaded (some num) =
    known_iff p.allow_asns p.deny_asns loaded num _ _ (any_asn_iff num p.deny_asns)
      (any_asn_iff num p.allow_asns)

allow_test_iff :
    (country_loaded asn_loaded : Bool) (p : GeoIpPolicy) (info : Option GeoInfo)
    → (geoip_evaluate country_loaded asn_loaded p info ≡ allow) ↔ (
        (geoip_is_active p ≡ false)
        ⊎ ((country_blocked p country_loaded (country_of info) ≡ false)
            × (asn_blocked p asn_loaded (asn_of info) ≡ false)))
unfolding geoip_evaluate
allow_test_iff country_loaded asn_loaded p info = (ground arith, ground arith)

-- A request is let through exactly when the policy is not active, or both its country and its ASN
-- pass: not denied, and on the allow list if there is one; an unknown country or ASN passes an
-- allow list only while the database is not loaded.
pub geoip_evaluate-allow_iff :
    (country_loaded asn_loaded : Bool) (p : GeoIpPolicy) (info : Option GeoInfo)
    → (geoip_evaluate country_loaded asn_loaded p info ≡ allow) ↔ (
        (geoip_is_active p ≡ false)
        ⊎ (Passes p.allow_countries p.deny_countries country_loaded (country_of info)
            × Passes p.allow_asns p.deny_asns asn_loaded (asn_of info)))
geoip_evaluate-allow_iff country_loaded asn_loaded p info =
    let (to, from) = allow_test_iff country_loaded asn_loaded p info in
    let c = country_blocked_iff p country_loaded (country_of info) in
    let n = asn_blocked_iff p asn_loaded (asn_of info) in
    (
      λ e. elim (to e) [ inl off ↦ inl off | inr (a, b) ↦ inr (c.0 a, n.0 b) ],
      λ h. elim h [ inl off ↦ from (inl off) | inr (a, b) ↦ from (inr (c.1 a, n.1 b)) ],
    )
