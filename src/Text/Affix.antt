-- ===== src/Text/Affix.antt =====
-- `starts_with`, `strip_prefix`, `ends_with`, `strip_suffix` and `contains`.
use pertisk_proxy.Base.{
  ℕ, ◌≡◌, refl, ap, Bool, true, false, ◌&&◌, ◌||◌, [], ◌∷◌, ◌++◌, Option, none, some, arith, ◌==◌,
  if◌then◌else◌, Bytes, bytes_eq, bytes_eq_iff, inl, inr, Bool-cases,
}
use mathlib.Core.Option

-- `s.strip_prefix(p)`.
unfoldable pub strip_prefix : Bytes → Bytes → Option Bytes
strip_prefix [] s = some s
strip_prefix (c ∷ p) [] = none
strip_prefix (c ∷ p) (x ∷ s) = if c == x then strip_prefix p s else none

-- `s.starts_with(p)`.
unfoldable pub starts_with : Bytes → Bytes → Bool
starts_with [] s = true
starts_with (c ∷ p) [] = false
starts_with (c ∷ p) (x ∷ s) = c == x && starts_with p s

-- `s.strip_suffix(t)`: the tail of `s` that has the length of `t` comes first in no other place.
unfoldable pub strip_suffix : Bytes → Bytes → Option Bytes
unfolding bytes_eq
strip_suffix t [] = if bytes_eq [] t then some [] else none
strip_suffix t (x ∷ s) =
    if bytes_eq (x ∷ s) t then some [] else Option.map (λ r. x ∷ r) (strip_suffix t s)

-- `s.ends_with(t)`.
unfoldable pub ends_with : Bytes → Bytes → Bool
unfolding bytes_eq
ends_with t [] = bytes_eq [] t
ends_with t (x ∷ s) = bytes_eq (x ∷ s) t || ends_with t s

-- `s.contains(n)`.
unfoldable pub contains : Bytes → Bytes → Bool
unfolding starts_with
contains n [] = starts_with n []
contains n (x ∷ s) = starts_with n (x ∷ s) || contains n s

-- `s.contains(c)` for one byte.
unfoldable pub has_byte : ℕ → Bytes → Bool
has_byte c [] = false
has_byte c (x ∷ s) = x == c || has_byte c s

pub strip_prefix-append : (p s : Bytes) → strip_prefix p (p ++ s) ≡ some s
unfolding strip_prefix
strip_prefix-append [] s = refl
strip_prefix-append (c ∷ p) s = ground (arith, strip_prefix-append p s)

pub strip_prefix-eq-some : (p s r : Bytes) → strip_prefix p s ≡ some r → s ≡ p ++ r
unfolding strip_prefix
strip_prefix-eq-some [] s r h = ground arith
strip_prefix-eq-some (c ∷ p) [] r h = cc
strip_prefix-eq-some (c ∷ p) (x ∷ s) r h = ground (arith, strip_prefix-eq-some p s r)

pub starts_with-append : (p s : Bytes) → starts_with p (p ++ s) ≡ true
unfolding starts_with
starts_with-append [] s = refl
starts_with-append (c ∷ p) s = ground (arith, starts_with-append p s)

pub starts_with-eq-true : (p s : Bytes) → starts_with p s ≡ true → (r : Bytes) × (s ≡ p ++ r)
unfolding starts_with
starts_with-eq-true [] s h = (s, refl)
starts_with-eq-true (c ∷ p) [] h = cc
starts_with-eq-true (c ∷ p) (x ∷ s) h =
    let (r, e) = starts_with-eq-true p s (ground arith) in (r, ground (arith))

pub starts_with-append_right :
    (p s t : Bytes) → starts_with p s ≡ true → starts_with p (s ++ t) ≡ true
unfolding starts_with
starts_with-append_right [] s t h = refl
starts_with-append_right (c ∷ p) (x ∷ s) t h = ground (arith, starts_with-append_right p s t)
starts_with-append_right (c ∷ p) [] t h = cc

pub ends_with-append : (t s : Bytes) → ends_with t (s ++ t) ≡ true
unfolding ends_with
ends_with-append [] [] = refl
ends_with-append (c ∷ t) [] = ground (arith, (bytes_eq_iff (c ∷ t) (c ∷ t)).1 refl)
ends_with-append t (x ∷ s) = ground (arith, ends_with-append t s)

pub ends_with-eq-true : (t s : Bytes) → ends_with t s ≡ true → (p : Bytes) × (s ≡ p ++ t)
unfolding ends_with
ends_with-eq-true t [] h = ([], ground (arith, bytes_eq_iff [] t))
ends_with-eq-true t (x ∷ s) h = elim (Bool-cases (bytes_eq (x ∷ s) t)) [
  | inl same ↦ ([], (bytes_eq_iff (x ∷ s) t).0 same)
  | inr other ↦ let (p, e) = ends_with-eq-true t s (ground arith) in (x ∷ p, ap (◌∷◌ x) e)
]

pub contains-append : (n a b : Bytes) → contains n (a ++ (n ++ b)) ≡ true
unfolding contains
contains-append [] [] [] = refl
contains-append [] [] (x ∷ b) = refl
contains-append (c ∷ n) [] b = ground (arith, starts_with-append (c ∷ n) b)
contains-append n (x ∷ a) b = ground (arith, contains-append n a b)

pub contains-eq-true :
    (n s : Bytes) → contains n s ≡ true → (a : Bytes) × (b : Bytes) × (s ≡ a ++ (n ++ b))
unfolding contains
contains-eq-true n [] h = let (r, e) = starts_with-eq-true n [] h in ([], r, e)
contains-eq-true n (x ∷ s) h = elim (Bool-cases (starts_with n (x ∷ s))) [
  | inl here ↦ let (r, e) = starts_with-eq-true n (x ∷ s) here in ([], r, e)
  | inr later ↦ let (a, b, e) = contains-eq-true n s (ground arith) in (x ∷ a, b, ap (◌∷◌ x) e)
]

pub has_byte-append : (c : ℕ) (s t : Bytes) → has_byte c (s ++ t) ≡ (has_byte c s || has_byte c t)
unfolding has_byte
has_byte-append c [] t = refl
has_byte-append c (x ∷ s) t = ground (arith, has_byte-append c s t)
