-- ===== src/Text/Utf8.antt =====
-- `String::from_utf8_lossy` and `String::from_utf8`, byte by byte.
use pertisk_proxy.Base.{
  ℕ, ◌-◌, ◌≤◌, ◌≡◌, refl, Bool, ◌&&◌, [], ◌∷◌, ◌++◌, arith, ◌==◌, leb, if◌then◌else◌, Bytes, All,
}

-- A character that is not complete: the bytes still to come, the range of the next one, and the
-- bytes read. `need` is 0 between characters.
pub record Pending : Type 0 where
  pub need : ℕ
  pub low : ℕ
  pub high : ℕ
  pub held : Bytes

abbrev between : Pending
between = record { need = 0; low = 0; high = 0; held = [] }

abbrev in_range : ℕ → ℕ → ℕ → Bool
in_range lo hi c = leb lo c && leb c hi

-- U+FFFD.
abbrev replacement : Bytes
replacement = 0xEF ∷ 0xBF ∷ 0xBD ∷ []

abbrev expect : ℕ → ℕ → ℕ → ℕ → Pending
expect n lo hi c = record { need = n; low = lo; high = hi; held = c ∷ [] }

-- A byte at the start of a character: the state behind it, what is put out, and whether it was one
-- that no character starts with.
start : ℕ → Pending × Bytes
start c =
    if leb c 0x7F
    then (between, c ∷ [])
    else if in_range 0xC2 0xDF c
    then (expect 1 0x80 0xBF c, [])
    else if c == 0xE0
    then (expect 2 0xA0 0xBF c, [])
    else if c == 0xED
    then (expect 2 0x80 0x9F c, [])
    else if in_range 0xE1 0xEF c
    then (expect 2 0x80 0xBF c, [])
    else if c == 0xF0
    then (expect 3 0x90 0xBF c, [])
    else if in_range 0xF1 0xF3 c
    then (expect 3 0x80 0xBF c, [])
    else if c == 0xF4
    then (expect 3 0x80 0x8F c, [])
    else (between, replacement)

feed : Pending → ℕ → Pending × Bytes
unfolding start
feed p c =
    if p.need == 0
    then start c
    else if in_range p.low p.high c
    then (if p.need == 1
        then (between, p.held ++ c ∷ [])
        else (record { need = p.need - 1; low = 0x80; high = 0xBF; held = p.held ++ c ∷ [] }, []))
    else let (q, out) = start c in (q, replacement ++ out)

lossy_from : Pending → Bytes → Bytes
unfolding feed
lossy_from p [] = if p.need == 0 then [] else replacement
lossy_from p (c ∷ s) = let (q, out) = feed p c in out ++ lossy_from q s

unfoldable pub from_utf8_lossy : Bytes → Bytes
unfolding lossy_from
from_utf8_lossy s = lossy_from between s

abbrev pub IsAscii : Bytes → Type 0
IsAscii = All (λ c. c ≤ 0x7F)

-- ASCII bytes are kept.
pub from_utf8_lossy-IsAscii : (s : Bytes) → IsAscii s → from_utf8_lossy s ≡ s
unfolding from_utf8_lossy
from_utf8_lossy-IsAscii [] h = refl
from_utf8_lossy-IsAscii (c ∷ s) (h, k) = ground (arith, from_utf8_lossy-IsAscii s k)
