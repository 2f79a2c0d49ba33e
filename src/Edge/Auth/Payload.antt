-- ===== src/Edge/Auth/Payload.antt =====
-- src/edge/mod.rs: the reading of the payload that `issue_jwt` writes.
use pertisk_proxy.Base.{
  ℕ, zero, suc, ◌%◌, ◌≤◌, ◌≡◌, ◌≢◌, Bool-cases, inl, inr, refl, ap, ◌∙◌, true, false, [], ◌∷◌, ◌++◌,
  Option, none, some, arith, ◌==◌, leb, Bytes, bytes_eq_refl, get_elem?, all, All, All-append,
}
use pertisk_proxy.Text.{
  codes, trim_start, trim_start_solid, print-ne-nil, AreDigits-has_byte, is_solid, strip_prefix,
  is_digit, parse-print, print, print-AreDigits, u64_max, from_utf8_lossy-IsAscii, IsAscii,
  has_byte, has_byte-append,
}
use pertisk_proxy.Edge.Base64.{b64url_encode, digit, symbol, alphabet, digit_or}
use pertisk_proxy.Edge.Auth.{
  from_utf8, split_at_text, cons_left, up_to, piece_behind, second_piece, leading_digits, exp_in,
  exp_of, jwt_payload,
}

no_dot_at :
    (i : ℕ) (xs : Bytes) → has_byte b'.' xs ≡ false → (digit_or (get_elem? xs i) == b'.') ≡ false
unfolding has_byte
no_dot_at i [] h = refl
no_dot_at zero (x ∷ xs) h = ground (arith, h)
no_dot_at (suc i) (x ∷ xs) h = no_dot_at i xs (ground (arith, h))

no_dot : (n : ℕ) → (digit n == b'.') ≡ false
unfolding digit symbol
no_dot n = no_dot_at (n % 64) alphabet (unfold has_byte in refl)

pub b64url_encode-has_byte : (s : Bytes) → has_byte b'.' (b64url_encode s) ≡ false
unfolding b64url_encode has_byte
b64url_encode-has_byte [] = refl
b64url_encode-has_byte (a ∷ []) = rw (no_dot, no_dot) refl
b64url_encode-has_byte (a ∷ b ∷ []) = rw (no_dot, no_dot, no_dot) refl
b64url_encode-has_byte (a ∷ b ∷ c ∷ s) =
    rw (no_dot, no_dot, no_dot, no_dot, b64url_encode-has_byte s) refl

prepend : Bytes → Option (Bytes × Bytes) → Option (Bytes × Bytes)
unfolding cons_left
prepend [] o = o
prepend (c ∷ a) o = cons_left c (prepend a o)

-- A text without the first character of a pattern is passed over.
split_at_text-append :
    (p : ℕ) (pattern a t : Bytes)
    → has_byte p a ≡ false
    → split_at_text (p ∷ pattern) (a ++ t) ≡ prepend a (split_at_text (p ∷ pattern) t)
unfolding split_at_text has_byte prepend strip_prefix
split_at_text-append p pattern [] t h = refl
split_at_text-append p pattern (c ∷ a) t h =
    let other : (p == c) ≡ false = ground (arith, h) in
    rw (other, split_at_text, strip_prefix)
      (ap (cons_left c) (split_at_text-append p pattern a t (ground (arith, h))))

split_at_text-none :
    (p : ℕ) (pattern s : Bytes) → has_byte p s ≡ false → split_at_text (p ∷ pattern) s ≡ none
unfolding split_at_text has_byte strip_prefix
split_at_text-none p pattern [] h = refl
split_at_text-none p pattern (c ∷ s) h =
    let other : (p == c) ≡ false = ground (arith, h) in
    rw (other, split_at_text, strip_prefix)
      (rw (split_at_text-none p pattern s (ground (arith, h))) (unfold cons_left in refl))

-- Texts without quotes before `":` and before `",`.
no_key :
    (q owner t : Bytes)
    → has_byte b'"' q ≡ false
    → has_byte b'"' owner ≡ false
    → strip_prefix (q ++ codes "\":") (owner ++ (codes "\"," ++ t)) ≡ none
unfolding strip_prefix has_byte
no_key [] [] t h k = refl
no_key [] (c ∷ owner) t h k = let other : (b'"' == c) ≡ false = ground (arith, k) in rw other refl
no_key (x ∷ q) [] t h k = let other : (x == b'"') ≡ false = ground (arith, h) in rw other refl
no_key (x ∷ q) (c ∷ owner) t h k = elim (Bool-cases (x == c)) [
  | inl same ↦ rw same (no_key q owner t (ground (arith, h)) (ground (arith, k)))
  | inr differ ↦ rw differ refl
]

trim_start-AreDigits :
    (s t : Bytes) → s ≢ [] → All (λ c. is_digit c ≡ true) s → trim_start (s ++ t) ≡ s ++ t
unfolding is_digit is_solid
trim_start-AreDigits [] t h k = elim (h refl) [ ]
trim_start-AreDigits (c ∷ s) t h (d, k) = trim_start_solid c (s ++ t) (ground (arith, d))

leading_digits-append :
    (s t : Bytes) (c : ℕ)
    → All (λ c. is_digit c ≡ true) s
    → is_digit c ≡ false
    → leading_digits (s ++ (c ∷ t)) ≡ s
unfolding leading_digits
leading_digits-append [] t c h e = rw e refl
leading_digits-append (x ∷ s) t c (d, h) e = rw (d, leading_digits-append s t c h e) refl

pub from_utf8-IsAscii : (s : Bytes) → IsAscii s → from_utf8 s ≡ some s
unfolding from_utf8
from_utf8-IsAscii s h = rw (from_utf8_lossy-IsAscii s h, bytes_eq_refl s) refl

AreDigits-IsAscii : (s : Bytes) → All (λ c. is_digit c ≡ true) s → IsAscii s
unfolding is_digit
AreDigits-IsAscii [] h = tt
AreDigits-IsAscii (c ∷ s) (h, k) = (ground (arith, h), AreDigits-IsAscii s k)

IsAscii-codes : (s t : Bytes) → all (λ c. leb c 0x7F) s ≡ true → IsAscii t → IsAscii (s ++ t)
IsAscii-codes [] t e k = k
IsAscii-codes (c ∷ s) t e k = (ground (arith, e), IsAscii-codes s t (ground (arith, e)) k)

pub jwt_payload-IsAscii :
    (owner : Bytes) (exp : ℕ) → IsAscii owner → IsAscii (jwt_payload owner exp)
unfolding jwt_payload
jwt_payload-IsAscii owner exp h =
    let tail : IsAscii (print exp ++ codes "}") =
      All-append (λ c. c ≤ 0x7F) (print exp) (codes "}")
        (AreDigits-IsAscii (print exp) (print-AreDigits exp)) (ground arith, tt) in
    let rest : IsAscii (codes "\",\"exp\":" ++ (print exp ++ codes "}")) =
      IsAscii-codes (codes "\",\"exp\":") _ refl tail in
    IsAscii-codes (codes "{\"sub\":\"") _ refl
      (All-append (λ c. c ≤ 0x7F) owner (codes "\",\"exp\":" ++ (print exp ++ codes "}")) h rest)

abbrev exp_key : Bytes
exp_key = codes "\"exp\":"

-- The end of the payload.
abbrev tail_of : ℕ → Bytes
tail_of exp = print exp ++ codes "}"

exp_in-tail_of : (exp : ℕ) → exp ≤ u64_max → exp_in (some (tail_of exp)) ≡ some exp
unfolding exp_in
exp_in-tail_of exp small =
    rw
      (
        trim_start-AreDigits (print exp) (codes "}") (print-ne-nil exp) (print-AreDigits exp),
        leading_digits-append (print exp) [] b'}' (print-AreDigits exp) (unfold is_digit in refl),
      )
      (parse-print u64_max exp small)

prepend-some : (a x y : Bytes) → prepend a (some (x, y)) ≡ some (a ++ x, y)
unfolding prepend cons_left
prepend-some [] x y = refl
prepend-some (c ∷ a) x y = ap (cons_left c) (prepend-some a x y)

passed_over :
    (c : ℕ) (pattern s : Bytes)
    → strip_prefix pattern (c ∷ s) ≡ none
    → split_at_text pattern (c ∷ s) ≡ cons_left c (split_at_text pattern s)
unfolding split_at_text
passed_over c pattern s e = rw (split_at_text, e) refl

split_tail :
    (exp : ℕ)
    → split_at_text exp_key (codes "\"," ++ (exp_key ++ tail_of exp))
      ≡ some (codes "\",", tail_of exp)
unfolding split_at_text cons_left strip_prefix
split_tail exp = refl

split-jwt_payload :
    (owner : Bytes) (exp : ℕ)
    → has_byte b'"' owner ≡ false
    → split_at_text exp_key (jwt_payload owner exp)
      ≡ some (codes "{\"sub\":\"" ++ (owner ++ codes "\","), tail_of exp)
unfolding jwt_payload split_at_text cons_left strip_prefix prepend
split-jwt_payload owner exp h =
    let rest = owner ++ (codes "\"," ++ (exp_key ++ tail_of exp)) in
    let behind : split_at_text exp_key rest ≡ some (owner ++ codes "\",", tail_of exp) =
      split_at_text-append b'"' (codes "exp\":") owner (codes "\"," ++ (exp_key ++ tail_of exp)) h
      ∙ ap (prepend owner) (split_tail exp)
      ∙ prepend-some owner (codes "\",") (tail_of exp) in
    let skipped : split_at_text exp_key (b'"' ∷ rest)
        ≡ cons_left b'"' (split_at_text exp_key rest) =
      passed_over b'"' exp_key rest
        (no_key (codes "exp") owner (exp_key ++ tail_of exp) (unfold has_byte in refl) h) in
    ap (λ o. prepend (codes "{\"sub\":") o) (skipped ∙ ap (cons_left b'"') behind)

pub exp_of-jwt_payload :
    (owner : Bytes) (exp : ℕ)
    → has_byte b'"' owner ≡ false
    → exp ≤ u64_max
    → exp_of (jwt_payload owner exp) ≡ some exp
unfolding exp_of second_piece piece_behind
exp_of-jwt_payload owner exp h small =
    let last : split_at_text exp_key (tail_of exp) ≡ none =
      split_at_text-none b'"' (codes "exp\":") (tail_of exp) (
        has_byte-append b'"' (print exp) (codes "}")
        ∙ rw (AreDigits-has_byte b'"' (print exp) (unfold is_digit in refl) (print-AreDigits exp))
            (unfold has_byte in refl)) in
    rw (split-jwt_payload owner exp h, last) (unfold up_to in exp_in-tail_of exp small)
