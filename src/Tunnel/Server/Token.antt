-- ===== src/Tunnel/Server/Token.antt =====
-- tunnel/server/src/main.rs: the comparison of tokens tells whether they are the same.
use pertisk_proxy.Base.{
  ℕ, zero, suc, ◌/◌, ◌%◌, ◌≤◌, max, ◌≡◌, refl, sym, ap, ◌∙◌, true, [], ◌∷◌, arith, ◌==◌, ==_iff,
  and_iff, Bytes,
}
use Prim.Native.Nat.{digits, differ, bit_or, bit_xor, bit_or-bitwise, bit_xor-bitwise}
use pertisk_proxy.Tunnel.Server.{diff_of, same_length, constant_time_eq}

differ-zero : (x y : ℕ) → differ x y ≡ 0 → x ≡ y
differ-zero zero y e = sym e
differ-zero (suc x) zero e = e
differ-zero (suc x) (suc y) e = ap suc (differ-zero x y e)

xor_digits : (n a b : ℕ) → a ≤ n → digits (λ d. d) differ n a b ≡ 0 → a ≡ b
xor_digits zero a b h e = omega arith
xor_digits (suc n) zero b h e = sym e
xor_digits (suc n) (suc a) b h e =
    let upper : suc a / 2 ≡ b / 2 = xor_digits n (suc a / 2) (b / 2) (omega arith) (omega arith) in
    let last : suc a % 2 ≡ b % 2 = differ-zero (suc a % 2) (b % 2) (omega arith) in omega arith

or_digits : (n a b : ℕ) → a ≤ n → digits (λ d. d) max n a b ≡ 0 → (a ≡ 0) × (b ≡ 0)
or_digits zero a b h e = (omega arith, e)
or_digits (suc n) zero b h e = (refl, e)
or_digits (suc n) (suc a) b h e =
    let (upper, lower) = or_digits n (suc a / 2) (b / 2) (omega arith) (omega arith) in
    let last : max (suc a % 2) (b % 2) ≡ 0 = omega arith in (omega arith, omega arith)

diff_of-zero :
    (diff : ℕ) (a b : Bytes) → same_length a b ≡ true → diff_of diff a b ≡ 0 → (diff ≡ 0) × (a ≡ b)
unfolding same_length diff_of
diff_of-zero diff [] [] h e = (e, refl)
diff_of-zero diff [] (y ∷ b) h e = absurd (ground (arith, h))
diff_of-zero diff (x ∷ a) [] h e = absurd (ground (arith, h))
diff_of-zero diff (x ∷ a) (y ∷ b) h e =
    let (both, rest) = diff_of-zero (bit_or diff (bit_xor x y)) a b h e in
    let (none_yet, same) =
      or_digits diff diff (bit_xor x y) (omega arith)
        (sym (λ i. bit_or-bitwise diff (bit_xor x y) i) ∙ both) in
    let head : x ≡ y = xor_digits x x y (omega arith) (sym (λ i. bit_xor-bitwise x y i) ∙ same) in
    (none_yet, ap (λ z. z ∷ a) head ∙ ap (λ bs. y ∷ bs) rest)

pub constant_time_eq-same : (a b : Bytes) → constant_time_eq a b ≡ true → a ≡ b
unfolding constant_time_eq
constant_time_eq-same a b e =
    let (h, z) = (and_iff (same_length a b) (diff_of 0 a b == 0)).0 e in
    (diff_of-zero 0 a b h ((==_iff (diff_of 0 a b) 0).0 z)).1
