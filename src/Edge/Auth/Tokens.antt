-- ===== src/Edge/Auth/Tokens.antt =====
-- src/edge/mod.rs: `verify_jwt` on what `issue_jwt` gives.
use pertisk_proxy.Base.{
  ℕ, ◌+◌, ◌*◌, ◌≤◌, ◌≡◌, refl, ap, ◌∙◌, true, false, [], ◌∷◌, ◌++◌, min, max, arith, leb, Bytes,
  bytes_eq_refl, append_assoc,
}
use pertisk_proxy.Text.{split, split-append, split_whole, u64_max, IsAscii, has_byte}
use pertisk_proxy.Edge.Base64.{b64url_encode, b64url_decode}
use pertisk_proxy.Edge.Base64.RoundTrip.{AreBytes, b64url_decode-encode}
use pertisk_proxy.Edge.Auth.Payload.{
  b64url_encode-has_byte, exp_of-jwt_payload, from_utf8-IsAscii, jwt_payload-IsAscii,
}
use pertisk_proxy.Edge.Auth.{
  is_running, text_of, payload_runs, jwt_expiry, jwt_payload, jwt_header, sign_hs256, hmac_eq,
  is_digest, issue_jwt, verify_parts, verify_jwt,
}

split_three :
    (h p s : Bytes)
    → has_byte b'.' h ≡ false
    → has_byte b'.' p ≡ false
    → has_byte b'.' s ≡ false
    → split b'.' ((h ++ (b'.' ∷ p)) ++ (b'.' ∷ s)) ≡ h ∷ p ∷ s ∷ []
split_three h p s no_h no_p no_s =
    ap (split b'.') (append_assoc h (b'.' ∷ p) (b'.' ∷ s))
    ∙ split-append b'.' h (p ++ (b'.' ∷ s)) no_h
    ∙ ap (λ r. h ∷ r) (split-append b'.' p s no_p ∙ ap (λ r. p ∷ r) (split_whole b'.' s no_s))

IsAscii-AreBytes : (s : Bytes) → IsAscii s → AreBytes s
IsAscii-AreBytes [] h = tt
IsAscii-AreBytes (c ∷ s) (h, k) = (omega arith, IsAscii-AreBytes s k)

jwt_expiry-le : (valid_minutes now : ℕ) → jwt_expiry valid_minutes now ≤ u64_max
unfolding jwt_expiry
jwt_expiry-le valid_minutes now = omega arith

module _ (hmac : Bytes → Bytes → Bytes)
    (digests : (secret msg : Bytes) → AreBytes (hmac secret msg)) where
  signed : (secret msg : Bytes) → hmac_eq hmac secret msg (sign_hs256 hmac secret msg) ≡ true
  unfolding hmac_eq is_digest sign_hs256
  signed secret msg =
      rw (b64url_decode-encode (hmac secret msg) (digests secret msg))
        (bytes_eq_refl (hmac secret msg))

  payload_read :
      (owner : Bytes) (exp now : ℕ)
      → IsAscii owner
      → has_byte b'"' owner ≡ false
      → exp ≤ u64_max
      → payload_runs (text_of (b64url_decode (b64url_encode (jwt_payload owner exp)))) now
        ≡ leb now exp
  unfolding payload_runs text_of is_running
  payload_read owner exp now h k small =
      let ascii = jwt_payload-IsAscii owner exp h in
      rw
        (
          b64url_decode-encode (jwt_payload owner exp)
              (IsAscii-AreBytes (jwt_payload owner exp) ascii),
          from_utf8-IsAscii (jwt_payload owner exp) ascii,
          exp_of-jwt_payload owner exp k small,
        )
        refl

  -- For a keyed digest that gives bytes, and an owner in ASCII without a double quote: a token that is
  -- issued at one time is accepted under its secret at another exactly when that is not after its
  -- expiry, which is the minutes it is valid for, but at least one, behind the time of issue, and at
  -- most the greatest number of 64 bits.
  pub verify_jwt-issue_jwt :
      (secret owner : Bytes) (valid_minutes issued now : ℕ)
      → IsAscii owner
      → has_byte b'"' owner ≡ false
      → verify_jwt hmac secret (issue_jwt hmac secret owner valid_minutes issued) now
        ≡ leb now (min (issued + max (min (valid_minutes * 60) u64_max) 60) u64_max)
  unfolding verify_jwt issue_jwt verify_parts
  verify_jwt-issue_jwt secret owner valid_minutes issued now h k =
      let exp = jwt_expiry valid_minutes issued in
      let header = b64url_encode jwt_header in
      let payload = b64url_encode (jwt_payload owner exp) in
      let signing = header ++ (b'.' ∷ payload) in
      ap (λ parts. verify_parts hmac secret parts now)
        (split_three header payload (sign_hs256 hmac secret signing)
          (b64url_encode-has_byte jwt_header) (b64url_encode-has_byte (jwt_payload owner exp))
          (unfold sign_hs256 in b64url_encode-has_byte (hmac secret signing)))
      ∙ rw (signed secret signing) (
          payload_read owner exp now h k (jwt_expiry-le valid_minutes issued)
          ∙ unfold jwt_expiry in refl)
