-- ===== src/Tests/Captcha.antt =====
-- Runs of src/security/captcha.rs, with a digest that is the text itself and one hex text.
use pertisk_proxy.Base.{◌+◌, ◌≡◌, refl, ◌&&◌, ◌==◌, leb, [], ◌∷◌, some, Bytes, arith}
use pertisk_proxy.Text.{codes, before, print}
use pertisk_proxy.Security.Captcha.{
  mint_pass_cookie, has_valid_pass_cookie, pass_expiry, mint_challenge, verify_challenge_token,
  saturating_add_u64, challenge_ttl_secs,
}
use pertisk_proxy.Security.Captcha.Tokens.{AreHex, is_hex}
use pertisk_proxy.Security.Captcha.Cookie.{minted_cookie_valid, same_binding}
use pertisk_proxy.Security.Captcha.Challenge.{minted_challenge_passed}

abbrev pub digest : Bytes → Bytes
digest b = b

-- A hex printer that keeps the length of the text only.
abbrev pub as_hex : Bytes → Bytes
as_hex [] = []
as_hex (c ∷ s) = b'7' ∷ b'f' ∷ as_hex s

as_hex-AreHex : (b : Bytes) → AreHex (as_hex b)
unfolding is_hex
as_hex-AreHex [] = tt
as_hex-AreHex (c ∷ s) = (refl, (refl, as_hex-AreHex s))

minted_cookie_valid_example :
    has_valid_pass_cookie digest as_hex 1050
      (some (before b';' (mint_pass_cookie digest as_hex 1000 (some (codes "1.2.3.4")) 60)))
      (some (codes "1.2.3.4"))
    ≡ (leb 1050 (pass_expiry 1000 60)
        && same_binding digest as_hex as_hex-AreHex
            (some (codes "1.2.3.4"))
            (some (codes "1.2.3.4")))
minted_cookie_valid_example =
    minted_cookie_valid digest as_hex as_hex-AreHex 1000 60 1050 (some (codes "1.2.3.4"))
      (some (codes "1.2.3.4"))

minted_challenge_passed_example :
    verify_challenge_token digest as_hex 1500 (mint_challenge digest as_hex 1000 7 8) (print 15)
    ≡ (leb 1500 (saturating_add_u64 1000 challenge_ttl_secs) && 15 == 7 + 8)
minted_challenge_passed_example =
    minted_challenge_passed digest as_hex as_hex-AreHex 1000 7 8 1500 15 (omega arith) (omega arith)
