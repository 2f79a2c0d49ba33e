-- ===== src/Hosts/Wildcards.antt =====
-- src/proxy_config.rs: which hosts a wildcard covers.
use pertisk_proxy.Base.{
  ◌-◌, ◌≡◌, ◌≢◌, ◌↔◌, refl, ap, sym, ◌∙◌, true, false, [], ◌∷◌, ◌++◌, some, arith, Bytes, take,
  length, length-append, leb, is_empty, Bool-cases, inl, inr,
}
use pertisk_proxy.Text.{
  to_lower, to_lower-append, to_lower-to_lower, length-to_lower, trim, has_byte, ends_with-append,
  ends_with-eq-true, split_once, split_once-append, strip_prefix,
}
use pertisk_proxy.Hosts.{is_label, pattern_covers, wildcard_covers_host}

take-append : (p t : Bytes) → take (length (p ++ t) - length t) (p ++ t) ≡ p
take-append p t = rw (length_front p t) (take_front p t)
  where
    length_front : (p t : Bytes) → length (p ++ t) - length t ≡ length p
    length_front p t = omega (arith, length-append p t)

    take_front : (p t : Bytes) → take (length p) (p ++ t) ≡ p
    take_front [] t = refl
    take_front (x ∷ p) t = ap (◌∷◌ x) (take_front p t)

-- A label: not empty, and without a dot.
abbrev pub IsLabel : Bytes → Type 0
IsLabel l = (l ≢ []) × (has_byte b'.' l ≡ false)

is_label_iff : (l : Bytes) → (is_label l ≡ true) ↔ IsLabel l
unfolding is_label
is_label_iff [] = (λ e. cc, λ h. absurd (h.0 refl))
is_label_iff (x ∷ l) = (λ e. (λ k. cc, ground arith), λ h. ground arith)

covers_to :
    (suffix h : Bytes)
    → pattern_covers (b'*' ∷ suffix) h ≡ true
    → (label : Bytes) × (h ≡ label ++ suffix) × IsLabel label
unfolding pattern_covers strip_prefix
covers_to suffix h e =
    let (label, same) = ends_with-eq-true suffix h (ground arith) in
    let short : is_label (take (length h - length suffix) h) ≡ true = ground arith in
    let front : take (length h - length suffix) h ≡ label =
      ap (λ (k : Bytes). take (length k - length suffix) k) same ∙ take-append label suffix in
    (label, same, (is_label_iff label).0 (ap is_label (sym front) ∙ short))

covers_from :
    (suffix label : Bytes) → IsLabel label → pattern_covers (b'*' ∷ suffix) (label ++ suffix) ≡ true
unfolding pattern_covers strip_prefix
covers_from suffix [] h = absurd (h.0 refl)
covers_from suffix (x ∷ label) h =
    let longer : leb (length ((x ∷ label) ++ suffix)) (length suffix) ≡ false =
      ground (arith, length-append label suffix) in
    rw (ends_with-append suffix (x ∷ label), longer, take-append (x ∷ label) suffix)
      ((is_label_iff (x ∷ label)).1 h)

not_empty : (l s : Bytes) → l ≢ [] → is_empty (l ++ s) ≡ false
not_empty [] s h = absurd (h refl)
not_empty (x ∷ l) s h = refl

-- A wildcard that is, trimmed, `*` before a suffix covers exactly the hosts that are, trimmed and in
-- lower case, one label before that suffix as it stands.
pub wildcard_covers_host_iff :
    (wildcard host suffix : Bytes)
    → trim wildcard ≡ b'*' ∷ suffix
    → (wildcard_covers_host wildcard host ≡ true)
      ↔ ((label : Bytes) × (to_lower (trim host) ≡ label ++ suffix) × IsLabel label)
unfolding wildcard_covers_host
wildcard_covers_host_iff wildcard host suffix w = (
  λ e. covers_to suffix (to_lower (trim host)) (rw w at (unfold_covers e)),
  λ (label, same, l). rw w (rw same (rw (not_empty label suffix l.0) (covers_from suffix label l))),
)
  where
    unfold_covers :
        wildcard_covers_host wildcard host ≡ true
        → pattern_covers (trim wildcard) (to_lower (trim host)) ≡ true
    unfold_covers e = ground arith

label_unique : (l m s t : Bytes) → IsLabel l → IsLabel m → l ++ (b'.' ∷ s) ≡ m ++ (b'.' ∷ t) → s ≡ t
label_unique l m s t hl hm e =
    let sides : some (l, s) ≡ some (m, t) =
      sym (split_once-append b'.' l s hl.1)
      ∙ ap (split_once b'.') e
      ∙ split_once-append b'.' m t hm.1 in
    ground (arith, sides)

-- Two wildcards that are, trimmed, `*.` before a text and cover the same host have the same text.
pub wildcard_unique :
    (wildcard other host s t : Bytes)
    → trim wildcard ≡ b'*' ∷ b'.' ∷ s
    → trim other ≡ b'*' ∷ b'.' ∷ t
    → wildcard_covers_host wildcard host ≡ true
    → wildcard_covers_host other host ≡ true
    → s ≡ t
wildcard_unique wildcard other host s t w o c d =
    let (l, hl, label_l) = (wildcard_covers_host_iff wildcard host (b'.' ∷ s) w).0 c in
    let (m, hm, label_m) = (wildcard_covers_host_iff other host (b'.' ∷ t) o).0 d in
    label_unique l m s t label_l label_m (sym hl ∙ hm)

append_cancel : (a b c d : Bytes) → a ++ b ≡ c ++ d → length a ≡ length c → b ≡ d
append_cancel [] b [] d e n = e
append_cancel [] b (y ∷ c) d e n = absurd (omega arith)
append_cancel (x ∷ a) b [] d e n = absurd (omega arith)
append_cancel (x ∷ a) b (y ∷ c) d e n = append_cancel a b c d (cc) (omega arith)

-- A wildcard that is, trimmed, `*` before a suffix that is not in lower case covers no host at all.
pub wildcard_upper_covers_none :
    (wildcard host suffix : Bytes)
    → trim wildcard ≡ b'*' ∷ suffix
    → to_lower suffix ≢ suffix
    → wildcard_covers_host wildcard host ≡ false
wildcard_upper_covers_none wildcard host suffix w upper =
    elim (Bool-cases (wildcard_covers_host wildcard host)) [
      | inr off ↦ off
      | inl on ↦
          let (l, same, label) = (wildcard_covers_host_iff wildcard host suffix w).0 on in
          let lowered : to_lower l ++ to_lower suffix ≡ l ++ suffix =
            sym (to_lower-append l suffix)
            ∙ ap to_lower (sym same)
            ∙ to_lower-to_lower (trim host)
            ∙ same in
          absurd (
            upper
              (append_cancel (to_lower l) (to_lower suffix) l suffix lowered (length-to_lower l)))
    ]
