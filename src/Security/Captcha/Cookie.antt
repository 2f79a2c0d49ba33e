-- ===== src/Security/Captcha/Cookie.antt =====
-- src/security/captcha.rs: cookies from `mint_pass_cookie` to `has_valid_pass_cookie`.
use pertisk_proxy.Base.{
  ℕ, ◌≡◌, refl, ap, sym, ◌∙◌, Bool, true, false, ◌&&◌, [], ◌∷◌, ◌++◌, Option, none, some, arith,
  ◌≤◌, leb, take, All-of_all, Bytes, bytes_eq, bytes_eq_refl, All-append, append_assoc,
  bytes_eq-false,
}
use pertisk_proxy.Text.{
  codes, trim, trim-IsSolid, IsSolid, is_solid, split, split-append, split_whole, split_once,
  split_once-append, before, before-append, has_byte, parse-print, print, u64_max, eq_ignore_case,
  to_lower,
}
use pertisk_proxy.Security.Captcha.{
  cookie_name, parse_cookie_value, cookie_in, sign, verify_sig, short_ip_tag, ip_tag, pass_payload,
  pass_value, pass_expiry, mint_pass_cookie, ip_bound, pass_parts_valid, has_valid_pass_cookie,
}
use pertisk_proxy.Security.Captcha.Tokens.{
  AreHex, AreToken, AreHex-AreToken, print-AreHex, AreToken-IsSolid, AreToken-no_semicolon,
  AreHex-no_dot, AreHex-ne-dash, literal_tokens,
}

-- A header that holds the one cookie `name=value`.
abbrev pub header_of : Bytes → Bytes
header_of value = cookie_name ++ (b'=' ∷ value)

cookie_name-IsSolid : IsSolid cookie_name
unfolding is_solid
cookie_name-IsSolid = All-of_all is_solid cookie_name refl

header-IsSolid : (value : Bytes) → IsSolid value → IsSolid (header_of value)
unfolding is_solid
header-IsSolid value h = All-append _ cookie_name (b'=' ∷ value) cookie_name-IsSolid (refl, h)

header_no_semicolon :
    (value : Bytes) → has_byte b';' value ≡ false → has_byte b';' (header_of value) ≡ false
unfolding has_byte
header_no_semicolon value h = h

cookie_in_single :
    (part k v name : Bytes)
    → split_once b'=' (trim part) ≡ some (k, v)
    → bytes_eq (trim k) name ≡ true
    → cookie_in (part ∷ []) name ≡ some (trim v)
unfolding cookie_in
cookie_in_single part k v name e same = rw (e, cookie_in) (rw same refl)

pub parse_header :
    (value : Bytes) → AreToken value → parse_cookie_value (header_of value) cookie_name ≡ some value
unfolding parse_cookie_value
parse_header value h =
    let solid = AreToken-IsSolid value h in
    let one =
      split_whole b';' (header_of value)
        (header_no_semicolon value (AreToken-no_semicolon value h)) in
    let sides : split_once b'=' (header_of value) ≡ some (cookie_name, value) =
      split_once-append b'=' cookie_name value (unfold has_byte in refl) in
    ap (λ ps. cookie_in ps cookie_name) one
    ∙ cookie_in_single (header_of value) cookie_name value cookie_name
        (ap (split_once b'=') (trim-IsSolid (header_of value) (header-IsSolid value solid)) ∙ sides)
        (rw (trim-IsSolid cookie_name cookie_name-IsSolid) (bytes_eq_refl cookie_name))
    ∙ ap some (trim-IsSolid value solid)

module _ (mac hex_encode : Bytes → Bytes) (hex_law : (b : Bytes) → AreHex (hex_encode b)) where
  tag_no_dot : (ip : Option Bytes) → has_byte b'.' (ip_tag mac hex_encode ip) ≡ false
  unfolding short_ip_tag has_byte
  tag_no_dot none = refl
  tag_no_dot (some ip) = AreHex-no_dot _ (hex_law _)

  tag-AreHex : (ip : Bytes) → AreHex (short_ip_tag mac hex_encode ip)
  unfolding short_ip_tag
  tag-AreHex ip = hex_law (take 8 (mac ip))

  tag-AreToken : (ip : Option Bytes) → AreToken (ip_tag mac hex_encode ip)
  unfolding short_ip_tag
  tag-AreToken none = literal_tokens.2
  tag-AreToken (some ip) = AreHex-AreToken _ (hex_law _)

  sign-AreHex : (payload : Bytes) → AreHex (sign mac hex_encode payload)
  unfolding sign
  sign-AreHex payload = hex_law (mac payload)

  payload-AreToken :
      (exp : ℕ) (ip : Option Bytes) → AreToken (pass_payload (print exp) (ip_tag mac hex_encode ip))
  payload-AreToken exp ip = All-append _ (codes "v1.") _ literal_tokens.0 (
      All-append _ (print exp) _ (AreHex-AreToken _ (print-AreHex exp))
        (literal_tokens.1.0, tag-AreToken ip))

  pass_value-AreToken : (exp : ℕ) (ip : Option Bytes) → AreToken (pass_value mac hex_encode exp ip)
  unfolding pass_value
  pass_value-AreToken exp ip =
      All-append _ (pass_payload (print exp) (ip_tag mac hex_encode ip)) _ (payload-AreToken exp ip)
        (literal_tokens.1.0, AreHex-AreToken _ (sign-AreHex _))

  split_three :
      (v e t s : Bytes)
      → has_byte b'.' v ≡ false
      → has_byte b'.' e ≡ false
      → has_byte b'.' t ≡ false
      → has_byte b'.' s ≡ false
      → split b'.' (v ++ (b'.' ∷ ((e ++ (b'.' ∷ t)) ++ (b'.' ∷ s)))) ≡ v ∷ e ∷ t ∷ s ∷ []
  split_three v e t s hv he ht hs =
      split-append b'.' v _ hv
      ∙ ap (◌∷◌ v) (
          ap (split b'.') (append_assoc e (b'.' ∷ t) (b'.' ∷ s))
          ∙ split-append b'.' e _ he
          ∙ ap (◌∷◌ e) (split-append b'.' t s ht ∙ ap (◌∷◌ t) (split_whole b'.' s hs)))

  split-pass_value :
      (exp : ℕ) (ip : Option Bytes)
      → split b'.' (pass_value mac hex_encode exp ip)
        ≡ codes "v1"
          ∷ print exp
          ∷ ip_tag mac hex_encode ip
          ∷ sign mac hex_encode (pass_payload (print exp) (ip_tag mac hex_encode ip))
          ∷ []
  unfolding pass_value
  split-pass_value exp ip =
      split_three (codes "v1") (print exp) (ip_tag mac hex_encode ip) _ (unfold has_byte in refl)
        (AreHex-no_dot _ (print-AreHex exp)) (tag_no_dot ip) (AreHex-no_dot _ (sign-AreHex _))

  pub sig_verifies :
      (payload : Bytes) → verify_sig mac hex_encode payload (sign mac hex_encode payload) ≡ true
  unfolding verify_sig eq_ignore_case
  sig_verifies payload =
      rw (trim-IsSolid _ (AreToken-IsSolid _ (AreHex-AreToken _ (sign-AreHex payload))))
        (bytes_eq_refl (to_lower (sign mac hex_encode payload)))

  -- Whether a cookie minted for the first address binds the second.
  abbrev pub same_binding : Option Bytes → Option Bytes → Bool
  same_binding none _ = true
  same_binding (some ip) none = true
  same_binding (some ip) (some other) =
      bytes_eq (short_ip_tag mac hex_encode ip) (short_ip_tag mac hex_encode other)

  ip_bound-tag :
      (ip other : Option Bytes)
      → ip_bound mac hex_encode (ip_tag mac hex_encode ip) other ≡ same_binding ip other
  unfolding ip_bound
  ip_bound-tag none none = refl
  ip_bound-tag none (some b) = rw (bytes_eq_refl (codes "-"))
  ip_bound-tag (some a) none = refl
  ip_bound-tag (some a) (some b) = rw (
      bytes_eq-false (short_ip_tag mac hex_encode a) (codes "-")
        (AreHex-ne-dash (short_ip_tag mac hex_encode a) (tag-AreHex a)))

  parts_of_minted :
      (t exp : ℕ) (ip other : Option Bytes)
      → exp ≤ u64_max
      → pass_parts_valid mac hex_encode t (split b'.' (pass_value mac hex_encode exp ip)) other
        ≡ (leb t exp && same_binding ip other)
  unfolding pass_parts_valid
  parts_of_minted t exp ip other fits =
      rw (split-pass_value exp ip, bytes_eq_refl (codes "v1"), parse-print u64_max exp fits)
        (rw
          (
            sig_verifies (pass_payload (print exp) (ip_tag mac hex_encode ip)),
            ip_bound-tag ip other,
          )
          (ground arith))

  minted_header :
      (now ttl : ℕ) (ip : Option Bytes)
      → before b';' (mint_pass_cookie mac hex_encode now ip ttl)
        ≡ header_of (pass_value mac hex_encode (pass_expiry now ttl) ip)
  unfolding mint_pass_cookie
  minted_header now ttl ip =
      let value = pass_value mac hex_encode (pass_expiry now ttl) ip in
      let rest = codes " Path=/; HttpOnly; SameSite=Lax; Max-Age=" ++ print ttl in
      ap (before b';') (sym (append_assoc cookie_name (b'=' ∷ value) (b';' ∷ rest)))
      ∙ before-append b';' (header_of value) rest
          (header_no_semicolon value (AreToken-no_semicolon value (pass_value-AreToken _ ip)))

  valid_of_header :
      (t : ℕ) (header raw : Bytes) (ip : Option Bytes)
      → parse_cookie_value header cookie_name ≡ some raw
      → has_valid_pass_cookie mac hex_encode t (some header) ip
        ≡ pass_parts_valid mac hex_encode t (split b'.' raw) ip
  unfolding has_valid_pass_cookie
  valid_of_header t header raw ip e = rw (e, has_valid_pass_cookie)

  -- For a hex printer that gives hex digits: the cookie that is minted for an address (or for none) is
  -- accepted at the time `t` exactly when its expiry has not passed and one of the two addresses is
  -- missing or both have the same tag.
  pub minted_cookie_valid :
      (now ttl t : ℕ) (ip other : Option Bytes)
      → has_valid_pass_cookie mac hex_encode t
          (some (before b';' (mint_pass_cookie mac hex_encode now ip ttl)))
          other
        ≡ (leb t (pass_expiry now ttl) && same_binding ip other)
  minted_cookie_valid now ttl t ip other =
      let value = pass_value mac hex_encode (pass_expiry now ttl) ip in
      ap (λ h. has_valid_pass_cookie mac hex_encode t (some h) other) (minted_header now ttl ip)
      ∙ valid_of_header t (header_of value) value other
          (parse_header value (pass_value-AreToken (pass_expiry now ttl) ip))
      ∙ parts_of_minted t (pass_expiry now ttl) ip other (unfold pass_expiry in ground arith)
