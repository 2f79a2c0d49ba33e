-- ===== src/Security/Captcha/Challenge.antt =====
-- src/security/captcha.rs: challenges from `mint_challenge` to `verify_challenge_token`.
use pertisk_proxy.Base.{
  ℕ, ◌+◌, ◌≤◌, ◌≡◌, refl, ap, ◌∙◌, false, ◌&&◌, [], ◌∷◌, ◌++◌, some, arith, ◌==◌, leb, min, Bytes,
  bytes_eq_refl, append_assoc,
}
use pertisk_proxy.Text.{
  codes, trim-IsSolid, split, split-append, split_whole, has_byte, parse, parse-print, print,
  print-AreDigits, AreDigits-IsSolid, u32_max, u64_max,
}
use pertisk_proxy.Security.Captcha.{
  sign, challenge_payload, challenge_ttl_secs, saturating_add_u64, mint_challenge, answer_matches,
  challenge_numbers_valid, challenge_parts_valid, verify_challenge_token,
}
use pertisk_proxy.Security.Captcha.Tokens.{AreHex, print-AreHex, AreHex-no_dot}
use pertisk_proxy.Security.Captcha.Cookie.{sig_verifies}

answer_print : (a b n : ℕ) → n ≤ u32_max → answer_matches a b (print n) ≡ (n == min (a + b) u32_max)
unfolding answer_matches
answer_print a b n h =
    let solid = AreDigits-IsSolid (print n) (print-AreDigits n) in
    let read = ap (parse u32_max) (trim-IsSolid (print n) solid) ∙ parse-print u32_max n h in
    rw (read, answer_matches)

module _ (mac hex_encode : Bytes → Bytes) (hex_law : (b : Bytes) → AreHex (hex_encode b)) where
  split_token :
      (c a b e s : Bytes)
      → has_byte b'.' c ≡ false
      → has_byte b'.' a ≡ false
      → has_byte b'.' b ≡ false
      → has_byte b'.' e ≡ false
      → has_byte b'.' s ≡ false
      → split b'.' (c ++ (b'.' ∷ ((a ++ (b'.' ∷ (b ++ (b'.' ∷ e)))) ++ (b'.' ∷ s))))
        ≡ c ∷ a ∷ b ∷ e ∷ s ∷ []
  split_token c a b e s hc ha hb he hs =
      let regroup : (a ++ (b'.' ∷ (b ++ (b'.' ∷ e)))) ++ (b'.' ∷ s)
          ≡ a ++ (b'.' ∷ (b ++ (b'.' ∷ (e ++ (b'.' ∷ s))))) =
        append_assoc a (b'.' ∷ (b ++ (b'.' ∷ e))) (b'.' ∷ s)
        ∙ ap (λ r. a ++ (b'.' ∷ r)) (append_assoc b (b'.' ∷ e) (b'.' ∷ s)) in
      split-append b'.' c _ hc
      ∙ ap (λ r. c ∷ split b'.' r) regroup
      ∙ ap (◌∷◌ c) (split-append b'.' a _ ha)
      ∙ ap (λ r. c ∷ a ∷ r) (split-append b'.' b _ hb)
      ∙ ap (λ r. c ∷ a ∷ b ∷ r) (split-append b'.' e s he)
      ∙ ap (λ r. c ∷ a ∷ b ∷ e ∷ r) (split_whole b'.' s hs)

  no_dot : (n : ℕ) → has_byte b'.' (print n) ≡ false
  no_dot n = AreHex-no_dot (print n) (print-AreHex n)

  split_minted :
      (now a b : ℕ)
      → split b'.' (mint_challenge mac hex_encode now a b)
        ≡ codes "c1"
          ∷ print a
          ∷ print b
          ∷ print (saturating_add_u64 now challenge_ttl_secs)
          ∷ sign mac hex_encode (challenge_payload a b (saturating_add_u64 now challenge_ttl_secs))
          ∷ []
  unfolding mint_challenge
  split_minted now a b =
      split_token (codes "c1") (print a) (print b)
        (print (saturating_add_u64 now challenge_ttl_secs)) _ (unfold has_byte in refl) (no_dot a)
        (no_dot b) (no_dot (saturating_add_u64 now challenge_ttl_secs))
        (AreHex-no_dot _ (
          unfold sign in
          hex_law (mac (challenge_payload a b (saturating_add_u64 now challenge_ttl_secs)))))

  numbers_valid :
      (t a b exp : ℕ) (answer : Bytes)
      → challenge_numbers_valid mac hex_encode t
          (some a)
          (some b)
          (some exp)
          (sign mac hex_encode (challenge_payload a b exp))
          answer
        ≡ (leb t exp && answer_matches a b answer)
  unfolding challenge_numbers_valid
  numbers_valid t a b exp answer =
      rw (sig_verifies mac hex_encode hex_law (challenge_payload a b exp)) (ground arith)

  parts_valid :
      (t a b exp : ℕ) (sig answer : Bytes)
      → a ≤ u32_max
      → b ≤ u32_max
      → exp ≤ u64_max
      → challenge_parts_valid mac hex_encode t
          (codes "c1" ∷ print a ∷ print b ∷ print exp ∷ sig ∷ [])
          answer
        ≡ challenge_numbers_valid mac hex_encode t (some a) (some b) (some exp) sig answer
  unfolding challenge_parts_valid
  parts_valid t a b exp sig answer ha hb he = rw (
    bytes_eq_refl (codes "c1"),
    parse-print u32_max a ha,
    parse-print u32_max b hb,
    parse-print u64_max exp he,
  )

  -- For a hex printer that gives hex digits, and two numbers whose sum fits 32 bits: their minted
  -- challenge, answered with a number `n` of 32 bits, is passed at the time `t` exactly when it has not
  -- expired and `n` is the sum.
  pub minted_challenge_passed :
      (now a b t n : ℕ)
      → a + b ≤ u32_max
      → n ≤ u32_max
      → verify_challenge_token mac hex_encode t (mint_challenge mac hex_encode now a b) (print n)
        ≡ (leb t (saturating_add_u64 now challenge_ttl_secs) && n == a + b)
  unfolding verify_challenge_token
  minted_challenge_passed now a b t n fits small =
      ap (λ ps. challenge_parts_valid mac hex_encode t ps (print n)) (split_minted now a b)
      ∙ parts_valid t a b (saturating_add_u64 now challenge_ttl_secs) _ (print n) (omega arith)
          (omega arith) (omega arith)
      ∙ numbers_valid t a b (saturating_add_u64 now challenge_ttl_secs) (print n)
      ∙ rw (answer_print a b n small) (ground arith)
