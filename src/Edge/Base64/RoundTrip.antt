-- ===== src/Edge/Base64/RoundTrip.antt =====
-- src/edge/mod.rs: `b64url_decode` behind `b64url_encode`.
use mathlib.Core.Option
use pertisk_proxy.Base.{
  ℕ, zero, suc, ◌+◌, ◌-◌, ◌*◌, ◌/◌, ◌%◌, ◌^◌, ◌≤◌, ◌<◌, ◌≡◌, refl, subst, Bool-cases, inl, inr, ◌∙◌,
  Bool, true, false, not, ◌&&◌, [], ◌∷◌, Option, none, some, arith, ◌==◌, leb, Bytes, All,
}
use pertisk_proxy.Edge.Base64.{digit, symbol, val, decode_from, b64url_encode, b64url_decode}

is_some_of : Option ℕ → ℕ → Bool
is_some_of none n = false
is_some_of (some v) n = v == n

-- The digit of a number below 64 is read back, and is not the padding.
digit_ok : ℕ → Bool
digit_ok n = not (symbol n == b'=') && is_some_of (val (symbol n)) n

-- Every digit of the alphabet in a run of them is fine.
digits_ok : (first count : ℕ) → Bool
digits_ok first zero = true
digits_ok first (suc count) = digit_ok first && digits_ok (first + 1) count

digits_ok-one :
    (first count n : ℕ)
    → first ≤ n
    → n < first + count
    → digits_ok first count ≡ true
    → digit_ok n ≡ true
unfolding digits_ok
digits_ok-one first zero n low high h = absurd (omega arith)
digits_ok-one first (suc count) n low high h = elim (Bool-cases (first == n)) [
  | inl here ↦ subst (λ k. digit_ok k ≡ true) (ground arith) (and_left h)
  | inr there ↦ digits_ok-one (first + 1) count n (ground arith) (omega arith) (ground arith)
]
  where
    and_left : (digit_ok first && digits_ok (first + 1) count) ≡ true → digit_ok first ≡ true
    and_left e = ground arith

alphabet_ok : digits_ok 0 64 ≡ true
unfolding digits_ok digit_ok symbol val is_some_of
alphabet_ok = refl

is_some_of-eq : (o : Option ℕ) (n : ℕ) → is_some_of o n ≡ true → o ≡ some n
unfolding is_some_of
is_some_of-eq none n h = cc
is_some_of-eq (some v) n h = ground arith

digit_ok_sound :
    (n : ℕ) → digit_ok n ≡ true → ((symbol n == b'=') ≡ false) × (val (symbol n) ≡ some n)
unfolding digit_ok
digit_ok_sound n h = (ground arith, is_some_of-eq (val (symbol n)) n (ground arith))

digit_back : (n : ℕ) → ((digit n == b'=') ≡ false) × (val (digit n) ≡ some (n % 64))
unfolding digit
digit_back n =
    digit_ok_sound (n % 64) (digits_ok-one 0 64 (n % 64) (omega arith) (omega arith) alphabet_ok)

-- One digit, where it completes no byte, and where it completes one.
read_kept :
    (buf bits n : ℕ) (s : Bytes)
    → bits < 2
    → decode_from buf bits (digit n ∷ s) ≡ decode_from (buf * 64 + n % 64) (bits + 6) s
unfolding decode_from
read_kept buf bits n s h = rw ((digit_back n).0) (rw ((digit_back n).1) (ground arith))

read_emitted :
    (buf bits later n : ℕ) (s : Bytes)
    → bits + 6 ≡ later + 8
    → decode_from buf bits (digit n ∷ s)
      ≡ Option.map
          (λ r. (buf * 64 + n % 64) / 2 ^ later % 256 ∷ r)
          (decode_from ((buf * 64 + n % 64) % 2 ^ later) later s)
unfolding decode_from
read_emitted buf bits later n s h =
    let e : bits + 6 - 8 ≡ later = omega arith in
    let full : leb 8 (bits + 6) ≡ true = ground arith in
    rw ((digit_back n).0) (rw ((digit_back n).1) (rw e (rw full)))

abbrev pub AreBytes : Bytes → Type 0
AreBytes = All (λ b. b < 256)

-- The four digits of three bytes.
read_four :
    (a b c : ℕ) (s r : Bytes)
    → a < 256
    → b < 256
    → c < 256
    → decode_from 0 0 s ≡ some r
    → (let n = a * 2 ^ 16 + b * 2 ^ 8 + c in
        decode_from 0 0 (digit (n / 2 ^ 18) ∷ digit (n / 2 ^ 12) ∷ digit (n / 2 ^ 6) ∷ digit n ∷ s))
      ≡ some (a ∷ b ∷ c ∷ r)
read_four a b c s r ha hb hc h =
    let n = a * 2 ^ 16 + b * 2 ^ 8 + c in
    let v0 = 0 * 64 + n / 2 ^ 18 % 64 in
    let v1 = v0 * 64 + n / 2 ^ 12 % 64 in
    let v2 = v1 % 2 ^ 4 * 64 + n / 2 ^ 6 % 64 in
    let v3 = v2 % 2 ^ 2 * 64 + n % 64 in
    let whole : v3 % 2 ^ 0 ≡ 0 = omega arith in
    let first : v1 / 2 ^ 4 % 256 ≡ a = omega arith in
    let second : v2 / 2 ^ 2 % 256 ≡ b = omega arith in
    let third : v3 / 2 ^ 0 % 256 ≡ c = omega arith in
    read_kept 0 0 (n / 2 ^ 18) _ (omega arith)
    ∙ read_emitted v0 6 4 (n / 2 ^ 12) _ refl
    ∙ rw (read_emitted (v1 % 2 ^ 4) 4 2 (n / 2 ^ 6) (digit n ∷ s) refl)
        (rw (read_emitted (v2 % 2 ^ 2) 2 0 n s refl) (rw (whole, h, first, second, third)))

read_end : (buf bits : ℕ) → decode_from buf bits [] ≡ some []
unfolding decode_from
read_end buf bits = refl

read_two :
    (a : ℕ)
    → a < 256
    → (let n = a * 2 ^ 16 in decode_from 0 0 (digit (n / 2 ^ 18) ∷ digit (n / 2 ^ 12) ∷ []))
      ≡ some (a ∷ [])
read_two a ha =
    let n = a * 2 ^ 16 in
    let v0 = 0 * 64 + n / 2 ^ 18 % 64 in
    let v1 = v0 * 64 + n / 2 ^ 12 % 64 in
    let first : v1 / 2 ^ 4 % 256 ≡ a = omega arith in
    read_kept 0 0 (n / 2 ^ 18) _ (omega arith)
    ∙ read_emitted v0 6 4 (n / 2 ^ 12) [] refl
    ∙ rw (read_end (v1 % 2 ^ 4) 4, first)

read_three :
    (a b : ℕ)
    → a < 256
    → b < 256
    → (let n = a * 2 ^ 16 + b * 2 ^ 8 in
        decode_from 0 0 (digit (n / 2 ^ 18) ∷ digit (n / 2 ^ 12) ∷ digit (n / 2 ^ 6) ∷ []))
      ≡ some (a ∷ b ∷ [])
read_three a b ha hb =
    let n = a * 2 ^ 16 + b * 2 ^ 8 in
    let v0 = 0 * 64 + n / 2 ^ 18 % 64 in
    let v1 = v0 * 64 + n / 2 ^ 12 % 64 in
    let v2 = v1 % 2 ^ 4 * 64 + n / 2 ^ 6 % 64 in
    let first : v1 / 2 ^ 4 % 256 ≡ a = omega arith in
    let second : v2 / 2 ^ 2 % 256 ≡ b = omega arith in
    read_kept 0 0 (n / 2 ^ 18) _ (omega arith)
    ∙ read_emitted v0 6 4 (n / 2 ^ 12) _ refl
    ∙ rw (read_emitted (v1 % 2 ^ 4) 4 2 (n / 2 ^ 6) [] refl)
        (rw (read_end (v2 % 2 ^ 2) 2, first, second))

decode_from-encode :
    (data_in : Bytes) → AreBytes data_in → decode_from 0 0 (b64url_encode data_in) ≡ some data_in
unfolding b64url_encode
decode_from-encode [] h = read_end 0 0
decode_from-encode (a ∷ []) h = read_two a h.0
decode_from-encode (a ∷ b ∷ []) h = read_three a b h.0 h.1.0
decode_from-encode (a ∷ b ∷ c ∷ s) h =
    read_four a b c (b64url_encode s) s h.0 h.1.0 h.1.1.0 (decode_from-encode s h.1.1.1)

-- Every string of bytes, each below 256, is decoded to itself from what it is encoded to.
pub b64url_decode-encode :
    (data_in : Bytes) → AreBytes data_in → b64url_decode (b64url_encode data_in) ≡ some data_in
unfolding b64url_decode
b64url_decode-encode data_in h = decode_from-encode data_in h
