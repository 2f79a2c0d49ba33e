-- ===== src/Security/Captcha.antt =====
-- src/security/captcha.rs: challenge tokens and pass cookies. The HMAC-SHA256 keyed by the secret
-- and the hex printer are other crates' code: parameters, of a text and of a digest.
pub mod Tokens
pub mod Cookie
pub mod Challenge
use pertisk_proxy.Base.{
  ℕ, ◌+◌, Bool, true, false, not, ◌&&◌, ◌||◌, List, [], ◌∷◌, ◌++◌, Option, none, some, ◌==◌, ltb,
  leb, min, max, if◌then◌else◌, Bytes, bytes_eq, take, is_empty, get_elem?,
}
use pertisk_proxy.Text.{
  codes, eq_ignore_case, trim, split, split_once, before, starts_with, parse, print, u32_max,
  u64_max,
}

pub record CaptchaPolicy : Type 0 where
  pub enabled : Bool
  pub cookie_ttl_secs : ℕ

abbrev pub default_cookie_ttl : ℕ
default_cookie_ttl = 86400

abbrev pub captcha_default : CaptchaPolicy
captcha_default = record { enabled = false; cookie_ttl_secs = default_cookie_ttl }

-- `CaptchaPolicy::is_default`.
unfoldable pub captcha_is_default : CaptchaPolicy → Bool
captcha_is_default p = not p.enabled && p.cookie_ttl_secs == default_cookie_ttl

-- `CaptchaPolicy::normalized`.
unfoldable pub captcha_normalized : CaptchaPolicy → CaptchaPolicy
captcha_normalized p = record p {
  cookie_ttl_secs = if p.cookie_ttl_secs == 0 then default_cookie_ttl else p.cookie_ttl_secs;
}

abbrev pub captcha_path : Bytes
captcha_path = codes "/.pertisk/captcha"

abbrev pub captcha_verify_path : Bytes
captcha_verify_path = codes "/.pertisk/captcha/verify"

abbrev pub cookie_name : Bytes
cookie_name = codes "pertisk_captcha"

abbrev pub challenge_ttl_secs : ℕ
challenge_ttl_secs = 600

unfoldable pub is_captcha_path : Bytes → Bool
is_captcha_path path =
    bytes_eq (before b'?' path) captcha_path || bytes_eq (before b'?' path) captcha_verify_path

cookie_in : List Bytes → Bytes → Option Bytes
cookie_in [] name = none
cookie_in (part ∷ parts) name = elim (split_once b'=' (trim part)) [
  | none ↦ cookie_in parts name
  | some (k, v) ↦ if bytes_eq (trim k) name then some (trim v) else cookie_in parts name
]

-- The first cookie of that name in the header.
unfoldable pub parse_cookie_value : Bytes → Bytes → Option Bytes
unfolding cookie_in
parse_cookie_value header name = cookie_in (split b';' header) name

abbrev pub saturating_add_u64 : ℕ → ℕ → ℕ
saturating_add_u64 a b = min (a + b) u64_max

-- `ttl` and the time fit `u64`.
unfoldable pub pass_expiry : ℕ → ℕ → ℕ
pass_expiry now ttl = saturating_add_u64 now (max ttl 60)

-- `format!("v1.{exp}.{ip_tag}")`.
abbrev pub pass_payload : Bytes → Bytes → Bytes
pass_payload exp tag = codes "v1." ++ (exp ++ (b'.' ∷ tag))

-- `format!("c1.{a}.{b}.{exp}")`.
abbrev pub challenge_payload : ℕ → ℕ → ℕ → Bytes
challenge_payload a b exp = codes "c1." ++ (print a ++ (b'.' ∷ (print b ++ (b'.' ∷ print exp))))

unfoldable pub answer_matches : ℕ → ℕ → Bytes → Bool
answer_matches a b answer = elim (parse u32_max (trim answer)) [
  | none ↦ false
  | some ans ↦ ans == min (a + b) u32_max
]

module _ (mac hex_encode : Bytes → Bytes) where
  -- `sign`: the hex digest.
  unfoldable pub sign : Bytes → Bytes
  sign payload = hex_encode (mac payload)

  unfoldable pub verify_sig : Bytes → Bytes → Bool
  unfolding sign
  verify_sig payload sig = eq_ignore_case (sign payload) (trim sig)

  -- The hex digits of the first eight bytes of the digest.
  unfoldable pub short_ip_tag : Bytes → Bytes
  short_ip_tag ip = hex_encode (take 8 (mac ip))

  abbrev ip_tag : Option Bytes → Bytes
  ip_tag none = codes "-"
  ip_tag (some ip) = short_ip_tag ip

  unfoldable pub pass_value : ℕ → Option Bytes → Bytes
  pass_value exp ip =
      let payload = pass_payload (print exp) (ip_tag ip) in payload ++ (b'.' ∷ sign payload)

  -- `mint_pass_cookie` at the time `now`: the `Set-Cookie` line.
  unfoldable pub mint_pass_cookie : ℕ → Option Bytes → ℕ → Bytes
  unfolding pass_value pass_expiry
  mint_pass_cookie now client_ip ttl =
      cookie_name
      ++ (b'='
          ∷ (pass_value (pass_expiry now ttl) client_ip
              ++ (codes "; Path=/; HttpOnly; SameSite=Lax; Max-Age=" ++ print ttl)))

  -- The binding of a cookie to an address: a cookie without tag, or a request without address,
  -- is not bound.
  unfoldable pub ip_bound : Bytes → Option Bytes → Bool
  ip_bound tag none = true
  ip_bound tag (some ip) = if bytes_eq tag (codes "-") then true else bytes_eq tag (short_ip_tag ip)

  unfoldable pub pass_parts_valid : ℕ → List Bytes → Option Bytes → Bool
  unfolding verify_sig ip_bound
  pass_parts_valid now (v ∷ e ∷ tag ∷ sig ∷ []) ip =
      if not (bytes_eq v (codes "v1")) then false else elim (parse u64_max e) [
        | none ↦ false
        | some exp ↦
            if ltb exp now
            then false
            else if not (verify_sig (pass_payload e tag) sig)
            then false
            else ip_bound tag ip
      ]
  pass_parts_valid now _ ip = false

  -- `has_valid_pass_cookie` at the time `now`.
  unfoldable pub has_valid_pass_cookie : ℕ → Option Bytes → Option Bytes → Bool
  unfolding parse_cookie_value pass_parts_valid
  has_valid_pass_cookie now none ip = false
  has_valid_pass_cookie now (some header) ip = elim (parse_cookie_value header cookie_name) [
    | none ↦ false
    | some raw ↦ pass_parts_valid now (split b'.' raw) ip
  ]

  -- `mint_challenge` at the time `now`, for the numbers that were drawn.
  unfoldable pub mint_challenge : ℕ → ℕ → ℕ → Bytes
  unfolding sign
  mint_challenge now a b =
      let payload = challenge_payload a b (saturating_add_u64 now challenge_ttl_secs) in
      payload ++ (b'.' ∷ sign payload)

  challenge_numbers_valid : ℕ → Option ℕ → Option ℕ → Option ℕ → Bytes → Bytes → Bool
  unfolding verify_sig answer_matches
  challenge_numbers_valid now (some a) (some b) (some exp) sig answer =
      if ltb exp now
      then false
      else if not (verify_sig (challenge_payload a b exp) sig)
      then false
      else answer_matches a b answer
  challenge_numbers_valid now _ _ _ sig answer = false

  challenge_parts_valid : ℕ → List Bytes → Bytes → Bool
  unfolding challenge_numbers_valid
  challenge_parts_valid now (c ∷ a ∷ b ∷ e ∷ sig ∷ []) answer =
      if not (bytes_eq c (codes "c1"))
      then false
      else challenge_numbers_valid now (parse u32_max a) (parse u32_max b) (parse u64_max e) sig
          answer
  challenge_parts_valid now _ answer = false

  -- `verify_challenge_token` at the time `now`.
  unfoldable pub verify_challenge_token : ℕ → Bytes → Bytes → Bool
  unfolding challenge_parts_valid
  verify_challenge_token now token answer = challenge_parts_valid now (split b'.' token) answer

pub data Verified : Type 0 where
  -- The `Set-Cookie` line and where to go.
  passed : Bytes → Bytes → Verified
  refused : Bytes → Verified

-- A redirect stays on this host.
unfoldable pub local_target : Option Bytes → Bytes
local_target none = codes "/"
local_target (some next) =
    if starts_with (codes "/") next && not (starts_with (codes "//") next) then next else codes "/"

module _ (mac hex_encode : Bytes → Bytes) where
  unfoldable pub verify_and_pass_cookie :
      ℕ → Option Bytes → Option Bytes → Option Bytes → Option Bytes → ℕ → Verified
  unfolding local_target verify_challenge_token mint_pass_cookie
  verify_and_pass_cookie now none answer next ip ttl = refused (codes "missing token")
  verify_and_pass_cookie now (some token) none next ip ttl = refused (codes "missing answer")
  verify_and_pass_cookie now (some token) (some answer) next ip ttl =
      if not (verify_challenge_token mac hex_encode now token answer)
      then refused (codes "incorrect answer")
      else passed (mint_pass_cookie mac hex_encode now ip ttl) (local_target next)
