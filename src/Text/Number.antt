-- ===== src/Text/Number.antt =====
-- `str::parse` for unsigned integers, and their decimal print.
use pertisk_proxy.Base.{
  ℕ, zero, suc, ◌+◌, ◌-◌, ◌*◌, ◌/◌, ◌%◌, ◌≤◌, ◌<◌, ◌≡◌, ◌≢◌, refl, Bool, true, false, ◌&&◌, [], ◌∷◌,
  Option, none, some, arith, ◌==◌, leb, if◌then◌else◌, Bytes, All, ◌∙◌,
}
use pertisk_proxy.Text.Trim.{is_solid, IsSolid}
use pertisk_proxy.Text.Affix.{has_byte}

abbrev pub u16_max : ℕ
u16_max = 65535

abbrev pub u32_max : ℕ
u32_max = 4294967295

abbrev pub u64_max : ℕ
u64_max = 18446744073709551615

unfoldable pub is_digit : ℕ → Bool
is_digit c = leb b'0' c && leb c b'9'

-- The digits of `s` behind the value `n` read so far, `none` at another byte or above `bound`.
scan : ℕ → ℕ → Bytes → Option ℕ
unfolding is_digit
scan bound n [] = some n
scan bound n (c ∷ s) =
    let rest = scan bound (n * 10 + (c - b'0')) s in
    if is_digit c && leb (n * 10 + (c - b'0')) bound then rest else none

-- `parse::<uN>()`, `bound` the greatest value of the type: a `+` may stand in front.
unfoldable pub parse : ℕ → Bytes → Option ℕ
unfolding scan
parse bound [] = none
parse bound (c ∷ []) = scan bound 0 (c ∷ [])
parse bound (c ∷ d ∷ s) = if c == b'+' then scan bound 0 (d ∷ s) else scan bound 0 (c ∷ d ∷ s)

-- The digits of `n` in front of `out`; the first number bounds how many are written.
digits : ℕ → ℕ → Bytes → Bytes
digits zero n out = out
digits (suc fuel) n out =
    let rest = digits fuel (n / 10) ((b'0' + n % 10) ∷ out) in
    if leb n 9 then (b'0' + n % 10) ∷ out else rest

-- `to_string()`.
unfoldable pub print : ℕ → Bytes
unfolding digits
print n = digits (suc n) n []

abbrev AreDigits : Bytes → Type 0
AreDigits = All (λ c. is_digit c ≡ true)

digits-AreDigits : (fuel n : ℕ) (out : Bytes) → AreDigits out → AreDigits (digits fuel n out)
unfolding digits is_digit
digits-AreDigits zero n out h = h
digits-AreDigits (suc fuel) n out h =
    ground (arith, digits-AreDigits fuel (n / 10) ((b'0' + n % 10) ∷ out))

-- A print holds digits only.
pub print-AreDigits : (n : ℕ) → AreDigits (print n)
unfolding print
print-AreDigits n = digits-AreDigits (suc n) n [] tt

scan-digits :
    (bound fuel n : ℕ) (out : Bytes)
    → n ≤ bound
    → n < fuel
    → scan bound 0 (digits fuel n out) ≡ scan bound n out
unfolding digits scan is_digit
scan-digits bound zero n out h k = elim k [ ]
scan-digits bound (suc fuel) n out h k =
    ground (arith, scan-digits bound fuel (n / 10) ((b'0' + n % 10) ∷ out))

parse-scan : (bound : ℕ) (s : Bytes) → AreDigits s → s ≢ [] → parse bound s ≡ scan bound 0 s
unfolding parse is_digit
parse-scan bound [] h k = absurd (k refl)
parse-scan bound (c ∷ []) h k = refl
parse-scan bound (c ∷ d ∷ s) h k = ground arith

digits-ne-nil : (fuel n : ℕ) (c : ℕ) (out : Bytes) → digits fuel n (c ∷ out) ≢ []
unfolding digits
digits-ne-nil zero n c out = λ e. cc
digits-ne-nil (suc fuel) n c out =
    ground (arith, digits-ne-nil fuel (n / 10) (b'0' + n % 10) (c ∷ out))

pub print-ne-nil : (n : ℕ) → print n ≢ []
unfolding print digits
print-ne-nil n = ground (arith, digits-ne-nil n (n / 10) (b'0' + n % 10) [])

-- Every number of the type is read back from its print.
pub parse-print : (bound n : ℕ) → n ≤ bound → parse bound (print n) ≡ some n
parse-print bound n h =
    parse-scan bound (print n) (print-AreDigits n) (print-ne-nil n)
    ∙ unfold print scan in scan-digits bound (suc n) n [] h (omega arith)

scan-le : (bound n : ℕ) (s : Bytes) (r : ℕ) → n ≤ bound → scan bound n s ≡ some r → r ≤ bound
unfolding scan
scan-le bound n [] r h e = ground arith
scan-le bound n (c ∷ s) r h e = ground (arith, scan-le bound (n * 10 + (c - b'0')) s r)

-- What is read fits the type.
pub parse-le : (bound : ℕ) (s : Bytes) (r : ℕ) → parse bound s ≡ some r → r ≤ bound
unfolding parse
parse-le bound [] r e = cc
parse-le bound (c ∷ []) r e = scan-le bound 0 (c ∷ []) r (omega arith) e
parse-le bound (c ∷ d ∷ s) r e =
    ground (arith, scan-le bound 0 (d ∷ s) r, scan-le bound 0 (c ∷ d ∷ s) r)

pub AreDigits-IsSolid : (s : Bytes) → AreDigits s → IsSolid s
unfolding is_digit is_solid
AreDigits-IsSolid [] h = tt
AreDigits-IsSolid (c ∷ s) (h, k) = (ground arith, AreDigits-IsSolid s k)

pub AreDigits-has_byte :
    (c : ℕ) (s : Bytes) → is_digit c ≡ false → AreDigits s → has_byte c s ≡ false
unfolding is_digit has_byte
AreDigits-has_byte c [] d h = refl
AreDigits-has_byte c (x ∷ s) d (h, k) = ground (arith, AreDigits-has_byte c s d k)
