-- ===== src/Text/Split.antt =====
-- `split(c)`, `split(c).next()`, `split_once(c)` and `rsplit_once(c)` for one byte.
use pertisk_proxy.Base.{
  ℕ, ◌≡◌, refl, false, List, [], ◌∷◌, ◌++◌, Option, none, some, arith, ◌==◌, if◌then◌else◌, Bytes,
}
use pertisk_proxy.Text.Affix.{has_byte}

abbrev pub cons_head : ℕ → List Bytes → List Bytes
cons_head x [] = (x ∷ []) ∷ []
cons_head x (p ∷ ps) = (x ∷ p) ∷ ps

-- All pieces; a text without `c` is one piece.
unfoldable pub split : ℕ → Bytes → List Bytes
split c [] = [] ∷ []
split c (x ∷ s) = let rest = split c s in if x == c then [] ∷ rest else cons_head x rest

-- The first piece.
unfoldable pub before : ℕ → Bytes → Bytes
before c [] = []
before c (x ∷ s) = if x == c then [] else x ∷ before c s

-- The two sides of the first `c`.
unfoldable pub split_once : ℕ → Bytes → Option (Bytes × Bytes)
split_once c [] = none
split_once c (x ∷ s) =
    if x == c
    then some ([], s)
    else elim (split_once c s) [ none ↦ none | some (a, b) ↦ some (x ∷ a, b) ]

-- The two sides of the last `c`.
unfoldable pub rsplit_once : ℕ → Bytes → Option (Bytes × Bytes)
rsplit_once c [] = none
rsplit_once c (x ∷ s) = elim (rsplit_once c s) [
  | some (a, b) ↦ some (x ∷ a, b)
  | none ↦ if x == c then some ([], s) else none
]

pub split-append :
    (c : ℕ) (a b : Bytes) → has_byte c a ≡ false → split c (a ++ (c ∷ b)) ≡ a ∷ split c b
unfolding split has_byte
split-append c [] b h = ground arith
split-append c (x ∷ a) b h = ground (arith, split-append c a b)

pub split_whole : (c : ℕ) (a : Bytes) → has_byte c a ≡ false → split c a ≡ a ∷ []
unfolding split has_byte
split_whole c [] h = refl
split_whole c (x ∷ a) h = ground (arith, split_whole c a)

pub before-append : (c : ℕ) (a b : Bytes) → has_byte c a ≡ false → before c (a ++ (c ∷ b)) ≡ a
unfolding before has_byte
before-append c [] b h = ground arith
before-append c (x ∷ a) b h = ground (arith, before-append c a b)

pub before_whole : (c : ℕ) (a : Bytes) → has_byte c a ≡ false → before c a ≡ a
unfolding before has_byte
before_whole c [] h = refl
before_whole c (x ∷ a) h = ground (arith, before_whole c a)

pub has_byte-before : (c : ℕ) (s : Bytes) → has_byte c (before c s) ≡ false
unfolding before has_byte
has_byte-before c [] = refl
has_byte-before c (x ∷ s) = ground (arith, has_byte-before c s)

pub split_once-append :
    (c : ℕ) (a b : Bytes) → has_byte c a ≡ false → split_once c (a ++ (c ∷ b)) ≡ some (a, b)
unfolding split_once has_byte
split_once-append c [] b h = ground arith
split_once-append c (x ∷ a) b h = ground (arith, split_once-append c a b)

rsplit_once-none : (c : ℕ) (b : Bytes) → has_byte c b ≡ false → rsplit_once c b ≡ none
unfolding rsplit_once has_byte
rsplit_once-none c [] h = refl
rsplit_once-none c (x ∷ b) h = ground (arith, rsplit_once-none c b)

pub rsplit_once-append :
    (c : ℕ) (a b : Bytes) → has_byte c b ≡ false → rsplit_once c (a ++ (c ∷ b)) ≡ some (a, b)
unfolding rsplit_once
rsplit_once-append c [] b h = ground (arith, rsplit_once-none c b h)
rsplit_once-append c (x ∷ a) b h = ground (arith, rsplit_once-append c a b h)
