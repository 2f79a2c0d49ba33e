-- ===== src/Security/Captcha/Tokens.antt =====
-- src/security/captcha.rs: the bytes that tokens and cookies are written with.
use pertisk_proxy.Base.{
  ℕ, ◌≡◌, refl, Bool, true, false, ◌&&◌, ◌||◌, [], ◌∷◌, arith, ◌==◌, leb, Bytes, All,
}
use pertisk_proxy.Text.{IsSolid, is_solid, has_byte, is_digit, print, print-AreDigits}

-- A lower-case hex digit.
unfoldable pub is_hex : ℕ → Bool
is_hex c = (leb b'0' c && leb c b'9') || (leb b'a' c && leb c b'f')

abbrev pub AreHex : Bytes → Type 0
AreHex = All (λ c. is_hex c ≡ true)

-- A hex digit, `.`, `-`, or a letter.
pub is_token : ℕ → Bool
is_token c = is_hex c || (c == b'.' || (c == b'-' || (leb b'a' c && leb c b'z')))

abbrev pub AreToken : Bytes → Type 0
AreToken = All (λ c. is_token c ≡ true)

pub AreHex-AreToken : (s : Bytes) → AreHex s → AreToken s
unfolding is_token
AreHex-AreToken [] h = tt
AreHex-AreToken (c ∷ s) (h, k) = (rw h, AreHex-AreToken s k)

pub print-AreHex : (n : ℕ) → AreHex (print n)
print-AreHex n = go (print n) (print-AreDigits n)
  where
    go : (s : Bytes) → All (λ c. is_digit c ≡ true) s → AreHex s
    go [] h = tt
    go (c ∷ s) (h, k) = (unfold is_digit is_hex in ground arith, go s k)

pub AreToken-IsSolid : (s : Bytes) → AreToken s → IsSolid s
unfolding is_token is_hex is_solid
AreToken-IsSolid [] h = tt
AreToken-IsSolid (c ∷ s) (h, k) = (ground arith, AreToken-IsSolid s k)

pub AreToken-no_semicolon : (s : Bytes) → AreToken s → has_byte b';' s ≡ false
unfolding is_token is_hex has_byte
AreToken-no_semicolon [] h = refl
AreToken-no_semicolon (c ∷ s) (h, k) = ground (arith, AreToken-no_semicolon s k)

pub AreHex-no_dot : (s : Bytes) → AreHex s → has_byte b'.' s ≡ false
unfolding is_hex has_byte
AreHex-no_dot [] h = refl
AreHex-no_dot (c ∷ s) (h, k) = ground (arith, AreHex-no_dot s k)

pub AreHex-ne-dash : (s : Bytes) → AreHex s → (s ≡ b'-' ∷ []) → ⊥
unfolding is_hex
AreHex-ne-dash [] h e = cc
AreHex-ne-dash (c ∷ s) h e = ground arith

pub literal_tokens :
    AreToken (b'v' ∷ b'1' ∷ b'.' ∷ []) × AreToken (b'.' ∷ []) × AreToken (b'-' ∷ [])
unfolding is_token is_hex
literal_tokens = ((refl, (refl, (refl, tt))), (refl, tt), (refl, tt))
