-- ===== src/Text/Case.antt =====
-- ASCII case: `to_ascii_lowercase`, `to_ascii_uppercase`, `eq_ignore_ascii_case`.
use pertisk_proxy.Base.{
  ℕ, ◌+◌, ◌-◌, ◌≡◌, refl, ap, Bool, ◌&&◌, [], ◌∷◌, ◌++◌, arith, leb, if◌then◌else◌, Bytes, bytes_eq,
  length,
}

unfoldable pub is_upper : ℕ → Bool
is_upper c = leb b'A' c && leb c b'Z'

unfoldable pub lower_byte : ℕ → ℕ
unfolding is_upper
lower_byte c = if is_upper c then c + 32 else c

unfoldable pub upper_byte : ℕ → ℕ
upper_byte c = if leb b'a' c && leb c b'z' then c - 32 else c

unfoldable pub to_lower : Bytes → Bytes
unfolding lower_byte
to_lower [] = []
to_lower (c ∷ s) = lower_byte c ∷ to_lower s

unfoldable pub to_upper : Bytes → Bytes
unfolding upper_byte
to_upper [] = []
to_upper (c ∷ s) = upper_byte c ∷ to_upper s

unfoldable pub eq_ignore_case : Bytes → Bytes → Bool
unfolding to_lower bytes_eq
eq_ignore_case a b = bytes_eq (to_lower a) (to_lower b)

pub to_lower-to_lower : (s : Bytes) → to_lower (to_lower s) ≡ to_lower s
unfolding to_lower
to_lower-to_lower [] = refl
to_lower-to_lower (c ∷ s) = ground (arith, to_lower-to_lower s)

pub to_lower-append : (s t : Bytes) → to_lower (s ++ t) ≡ to_lower s ++ to_lower t
unfolding to_lower
to_lower-append [] t = refl
to_lower-append (c ∷ s) t = ap (◌∷◌ (lower_byte c)) (to_lower-append s t)

pub length-to_lower : (s : Bytes) → length (to_lower s) ≡ length s
unfolding to_lower
length-to_lower [] = refl
length-to_lower (c ∷ s) = omega (arith, length-to_lower s)
