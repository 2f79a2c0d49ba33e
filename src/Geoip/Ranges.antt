-- ===== src/Geoip/Ranges.antt =====
-- src/geoip.rs: `AsnTsvDb::lookup` against a search from the front.
use pertisk_proxy.Base.{
  ℕ, ◌≤◌, ◌<◌, ◌≡◌, inl, inr, refl, sym, ◌∙◌, ◌&&◌, List, [], ◌∷◌, Option, none, some, arith, leb,
  Bool-cases, if◌then◌else◌,
}
use pertisk_proxy.Geoip.{AsnRange, asn_if_inside, asn_lookup}

-- Each range ends before the next one starts, and none is empty.
abbrev pub AreDisjoint : List AsnRange → Type 0
AreDisjoint [] = Unit
AreDisjoint (r ∷ []) = r.first ≤ r.last
AreDisjoint (r ∷ q ∷ rs) = (r.first ≤ r.last) × (r.last < q.first) × AreDisjoint (q ∷ rs)

-- The range of the table that holds the key: the reference search, from the front.
pub search_ranges : List AsnRange → ℕ → Option ℕ
search_ranges [] key = none
search_ranges (r ∷ rs) key =
    if leb r.first key && leb key r.last then some r.asn else search_ranges rs key

below_first :
    (r : AsnRange) (rs : List AsnRange) (key : ℕ)
    → AreDisjoint (r ∷ rs)
    → key < r.first
    → search_ranges (r ∷ rs) key ≡ none
unfolding search_ranges
below_first r [] key d h = ground arith
below_first r (q ∷ rs) key d h = ground (arith, below_first q rs key d.2)

lookup_step :
    (r q : AsnRange) (rs : List AsnRange) (key : ℕ)
    → r.first ≤ key
    → q.first ≤ key
    → asn_lookup (r ∷ q ∷ rs) key ≡ asn_lookup (q ∷ rs) key
unfolding asn_lookup
lookup_step r q rs key h k = ground arith

lookup_last :
    (r q : AsnRange) (rs : List AsnRange) (key : ℕ)
    → r.first ≤ key
    → key < q.first
    → asn_lookup (r ∷ q ∷ rs) key ≡ asn_if_inside key (some r)
unfolding asn_lookup
lookup_last r q rs key h k = ground arith

lookup_before :
    (r : AsnRange) (rs : List AsnRange) (key : ℕ) → key < r.first → asn_lookup (r ∷ rs) key ≡ none
unfolding asn_lookup
lookup_before r rs key h = ground arith

-- In a table of ranges that are sorted, not empty and disjoint, the lookup by partition point gives
-- what a search of the whole table gives.
pub asn_lookup-search_ranges :
    (db : List AsnRange) (key : ℕ) → AreDisjoint db → asn_lookup db key ≡ search_ranges db key
asn_lookup-search_ranges [] key d = unfold asn_lookup search_ranges in refl
asn_lookup-search_ranges (r ∷ []) key d = unfold asn_lookup search_ranges in ground arith
asn_lookup-search_ranges (r ∷ q ∷ rs) key d = elim (Bool-cases (leb r.first key)) [
  | inr low ↦
      lookup_before r (q ∷ rs) key (ground arith)
      ∙ sym (below_first r (q ∷ rs) key d (ground arith))
  | inl high ↦ elim (Bool-cases (leb q.first key)) [
    | inr between ↦
        lookup_last r q rs key (ground arith) (ground arith)
        ∙ unfold search_ranges asn_if_inside in
          ground (arith, below_first q rs key d.2 (ground arith))
    | inl beyond ↦
        lookup_step r q rs key (ground arith) (ground arith)
        ∙ asn_lookup-search_ranges (q ∷ rs) key d.2
        ∙ unfold search_ranges in ground arith
  ]
]
