-- ===== src/Security/Waf/Decode.antt =====
-- src/security/waf.rs: `percent_decode_lossy` against the ways to write a text percent-encoded.
use pertisk_proxy.Base.{ℕ, ◌≡◌, ◌≢◌, refl, ap, [], ◌∷◌, some, arith, Bytes, ◌∙◌}
use pertisk_proxy.Text.{IsAscii, from_utf8_lossy, from_utf8_lossy-IsAscii}
use pertisk_proxy.Security.Waf.{hex_pair, percent_decode, percent_decode_lossy}

-- `Encodes s e`: the sender wrote the bytes `s` as `e`, each byte as it is, as `%XX` in any case of
-- the digits, or a space as `+`.
pub data Encodes : Bytes → Bytes → Type 0 where
  done : Encodes [] []
  plain : {c : ℕ} {s e : Bytes} → c ≢ b'%' → c ≢ b'+' → Encodes s e → Encodes (c ∷ s) (c ∷ e)
  escaped :
      {v h1 h2 : ℕ} {s e : Bytes}
      → hex_pair h1 h2 ≡ some v
      → Encodes s e
      → Encodes (v ∷ s) (b'%' ∷ h1 ∷ h2 ∷ e)
  space : {s e : Bytes} → Encodes s e → Encodes (b' ' ∷ s) (b'+' ∷ e)

decode_plain :
    (c : ℕ) (e : Bytes) → c ≢ b'%' → c ≢ b'+' → percent_decode (c ∷ e) ≡ c ∷ percent_decode e
unfolding percent_decode
decode_plain c [] h k = ground arith
decode_plain c (a ∷ []) h k = ground arith
decode_plain c (a ∷ b ∷ e) h k = ground arith

decode_escaped :
    (v h1 h2 : ℕ) (e : Bytes)
    → hex_pair h1 h2 ≡ some v
    → percent_decode (b'%' ∷ h1 ∷ h2 ∷ e) ≡ v ∷ percent_decode e
unfolding percent_decode
decode_escaped v h1 h2 e h = rw h

decode_space : (e : Bytes) → percent_decode (b'+' ∷ e) ≡ b' ' ∷ percent_decode e
unfolding percent_decode
decode_space [] = refl
decode_space (a ∷ []) = refl
decode_space (a ∷ b ∷ e) = refl

-- Decoding gives back what was encoded.
pub percent_decode-Encodes : {s e : Bytes} → Encodes s e → percent_decode e ≡ s
percent_decode-Encodes done = unfold percent_decode in refl
percent_decode-Encodes (plain {c} {e} h k t) =
    decode_plain c e h k ∙ ap (◌∷◌ c) (percent_decode-Encodes t)
percent_decode-Encodes (escaped {v} {h1} {h2} {e} h t) =
    decode_escaped v h1 h2 e h ∙ ap (◌∷◌ v) (percent_decode-Encodes t)
percent_decode-Encodes (space {e} t) = decode_space e ∙ ap (◌∷◌ b' ') (percent_decode-Encodes t)

-- A percent encoding of an ASCII text is decoded to that text.
pub percent_decode_lossy-Encodes :
    {s e : Bytes} → Encodes s e → IsAscii s → percent_decode_lossy e ≡ s
unfolding percent_decode_lossy
percent_decode_lossy-Encodes {s} t h =
    ap from_utf8_lossy (percent_decode-Encodes t) ∙ from_utf8_lossy-IsAscii s h
