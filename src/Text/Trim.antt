-- ===== src/Text/Trim.antt =====
-- `trim`: white space at both ends, Unicode's included, in its UTF-8 form.
use mathlib.Core.List.{reverse, reverse-append, reverse-reverse}
use pertisk_proxy.Base.{
  sym, ◌∙◌, ℕ, zero, suc, ◌-◌, ◌≡◌, refl, ap, Bool, true, false, ◌&&◌, ◌||◌, [], ◌∷◌, ◌++◌, arith,
  ◌==◌, leb, if◌then◌else◌, Bytes, All,
}

-- Tab, line feed, vertical tab, form feed, carriage return and space.
unfoldable pub is_space : ℕ → Bool
is_space c = (leb 9 c && leb c 13) || c == 32

-- U+0085, U+00A0.
abbrev is_space2 : ℕ → ℕ → Bool
is_space2 a b = a == 0xC2 && (b == 0x85 || b == 0xA0)

-- U+1680, U+2000 to U+200A, U+2028, U+2029, U+202F, U+205F, U+3000.
abbrev is_space3 : ℕ → ℕ → ℕ → Bool
is_space3 a b c =
    (a == 0xE1 && (b == 0x9A && c == 0x80))
    || ((a == 0xE2
          && (b == 0x80 && ((leb 0x80 c && leb c 0x8A) || (c == 0xA8 || (c == 0xA9 || c == 0xAF)))))
        || ((a == 0xE2 && (b == 0x81 && c == 0x9F)) || (a == 0xE3 && (b == 0x80 && c == 0x80))))

-- How many bytes the white-space character at the front takes; 0 where there is none.
white_len : Bytes → ℕ
unfolding is_space
white_len [] = 0
white_len (a ∷ []) = if is_space a then 1 else 0
white_len (a ∷ b ∷ []) = if is_space a then 1 else if is_space2 a b then 2 else 0
white_len (a ∷ b ∷ c ∷ s) =
    if is_space a then 1 else if is_space2 a b then 2 else if is_space3 a b c then 3 else 0

-- The same of the character at the end, on the reversed text.
white_len_back : Bytes → ℕ
unfolding is_space
white_len_back [] = 0
white_len_back (a ∷ []) = if is_space a then 1 else 0
white_len_back (a ∷ b ∷ []) = if is_space a then 1 else if is_space2 b a then 2 else 0
white_len_back (a ∷ b ∷ c ∷ s) =
    if is_space a then 1 else if is_space2 b a then 2 else if is_space3 c b a then 3 else 0

-- Drops characters as long as `width` finds one; the number is what is left of the last one.
drop_white : (Bytes → ℕ) → ℕ → Bytes → Bytes
drop_white width skip [] = []
drop_white width (suc skip) (x ∷ s) = drop_white width skip s
drop_white width zero (x ∷ s) =
    let rest = drop_white width (width (x ∷ s) - 1) s in if width (x ∷ s) == 0 then x ∷ s else rest

unfoldable pub trim_start : Bytes → Bytes
unfolding drop_white white_len
trim_start s = drop_white white_len 0 s

unfoldable pub trim_end : Bytes → Bytes
unfolding drop_white white_len_back
trim_end s = reverse (drop_white white_len_back 0 (reverse s))

unfoldable pub trim : Bytes → Bytes
unfolding trim_start trim_end
trim s = trim_end (trim_start s)

-- A byte that stands in no white-space character.
unfoldable pub is_solid : ℕ → Bool
is_solid c = leb 33 c && leb c 0x7F

abbrev pub IsSolid : Bytes → Type 0
IsSolid = All (λ c. is_solid c ≡ true)

is_space_solid : (c : ℕ) → is_solid c ≡ true → is_space c ≡ false
unfolding is_solid is_space
is_space_solid c h = ground arith

is_space2_solid : (a b : ℕ) → is_solid b ≡ true → is_space2 a b ≡ false
unfolding is_solid
is_space2_solid a b h = ground arith

is_space2_ascii : (a b : ℕ) → is_solid a ≡ true → is_space2 a b ≡ false
unfolding is_solid
is_space2_ascii a b h = ground arith

is_space3_ascii : (a b c : ℕ) → is_solid a ≡ true → is_space3 a b c ≡ false
unfolding is_solid
is_space3_ascii a b c h = ground arith

is_space3_solid : (a b c : ℕ) → is_solid c ≡ true → is_space3 a b c ≡ false
unfolding is_solid
is_space3_solid a b c h = ground arith

white_len_solid : (c : ℕ) (s : Bytes) → is_solid c ≡ true → white_len (c ∷ s) ≡ 0
unfolding white_len
white_len_solid c [] h = rw (is_space_solid c h)
white_len_solid c (a ∷ []) h = rw (is_space_solid c h, is_space2_ascii c a h)
white_len_solid c (a ∷ b ∷ s) h =
    rw (is_space_solid c h, is_space2_ascii c a h, is_space3_ascii c a b h)

white_len_back_solid : (c : ℕ) (s : Bytes) → is_solid c ≡ true → white_len_back (c ∷ s) ≡ 0
unfolding white_len_back
white_len_back_solid c [] h = rw (is_space_solid c h)
white_len_back_solid c (a ∷ []) h = rw (is_space_solid c h, is_space2_solid a c h)
white_len_back_solid c (a ∷ b ∷ s) h =
    rw (is_space_solid c h, is_space2_solid a c h, is_space3_solid b a c h)

drop_white_none :
    (width : Bytes → ℕ) (c : ℕ) (s : Bytes) → width (c ∷ s) ≡ 0 → drop_white width 0 (c ∷ s) ≡ c ∷ s
unfolding drop_white
drop_white_none width c s h = rw h

pub trim_start_solid : (c : ℕ) (s : Bytes) → is_solid c ≡ true → trim_start (c ∷ s) ≡ c ∷ s
unfolding trim_start
trim_start_solid c s h = drop_white_none white_len c s (white_len_solid c s h)

pub trim_end_solid : (d : ℕ) (s : Bytes) → is_solid d ≡ true → trim_end (s ++ d ∷ []) ≡ s ++ d ∷ []
unfolding trim_end
trim_end_solid d s h =
    let back : reverse (s ++ d ∷ []) ≡ d ∷ reverse s = reverse-append s (d ∷ []) in
    let stays =
      drop_white_none white_len_back d (reverse s) (white_len_back_solid d (reverse s) h) in
    ap reverse (ap (drop_white white_len_back 0) back ∙ stays ∙ sym back)
    ∙ reverse-reverse (s ++ d ∷ [])

pub trim_nil : trim [] ≡ []
unfolding trim
trim_nil = refl

-- A text of solid bytes is left as it is.
split_last :
    (c : ℕ) (s : Bytes)
    → IsSolid (c ∷ s)
    → (t : Bytes) × (d : ℕ) × (c ∷ s ≡ t ++ d ∷ []) × (is_solid d ≡ true)
split_last c [] h = ([], c, refl, h.0)
split_last c (x ∷ s) (h, k) =
    let (t, d, e, last) = split_last x s k in (c ∷ t, d, ap (◌∷◌ c) e, last)

pub trim-IsSolid : (s : Bytes) → IsSolid s → trim s ≡ s
unfolding trim
trim-IsSolid [] h = trim_nil
trim-IsSolid (c ∷ s) h =
    let (t, d, e, last) = split_last c s h in
    rw (trim_start_solid c s h.0) (ap trim_end e ∙ trim_end_solid d t last ∙ sym e)
