-- ===== src/Base/Maps.antt =====
-- A map of the source as an association list: its order is the order of iteration, which the
-- source leaves open and the theorems leave free. Keys are texts, held as bytes.
use Prim.Native.Nat.{ℕ}
use mathlib.Core.Path.{◌≡◌, refl}
use mathlib.Core.Logic.{◌≢◌, ◌↔◌, inl, inr}
use mathlib.Core.Bool.{Bool, true, false, ◌&&◌}
use mathlib.Core.Option.{Option, none, some}
use mathlib.Core.List.{List, [], ◌∷◌}
use native.Mathlib.Omega.{arith}
use pertisk_proxy.Base.Tests.{if◌then◌else◌, Bool-cases, ◌==◌}
use pertisk_proxy.Base.Lists.{In}

-- A text, as its UTF-8 bytes.
abbrev pub Bytes : Type 0
Bytes = List ℕ

-- `==` on texts.
unfoldable pub bytes_eq : Bytes → Bytes → Bool
bytes_eq [] [] = true
bytes_eq (x ∷ xs) (y ∷ ys) = x == y && bytes_eq xs ys
bytes_eq _ _ = false

pub bytes_eq_iff : (a b : Bytes) → (bytes_eq a b ≡ true) ↔ (a ≡ b)
unfolding bytes_eq
bytes_eq_iff [] [] = ground arith
bytes_eq_iff (x ∷ a) (y ∷ b) = ground (arith, bytes_eq_iff a b)
bytes_eq_iff _ _ = ground arith

pub bytes_eq_refl : (a : Bytes) → bytes_eq a a ≡ true
bytes_eq_refl a = (bytes_eq_iff a a).1 refl

pub bytes_eq-sym : (a b : Bytes) → bytes_eq a b ≡ bytes_eq b a
bytes_eq-sym a b = ground (arith, bytes_eq_iff a b, bytes_eq_iff b a)

pub bytes_eq-false : (a b : Bytes) → a ≢ b → bytes_eq a b ≡ false
bytes_eq-false a b h = ground (arith, bytes_eq_iff a b)

abbrev pub Map {ℓ} : Type ℓ → Type ℓ
Map V = List (Bytes × V)

module _ {ℓ} {V : Type ℓ} where
  -- `get`.
  unfoldable pub lookup : Bytes → Map V → Option V
  lookup k [] = none
  lookup k ((j, v) ∷ m) = if bytes_eq j k then some v else lookup k m

  -- `contains_key`.
  unfoldable pub has_key : Bytes → Map V → Bool
  has_key k [] = false
  has_key k ((j, v) ∷ m) = if bytes_eq j k then true else has_key k m

  -- `insert`: an entry of that key is overwritten, a new one takes some place.
  unfoldable pub insert : Bytes → V → Map V → Map V
  insert k v [] = (k, v) ∷ []
  insert k v ((j, w) ∷ m) = if bytes_eq j k then (k, v) ∷ m else (j, w) ∷ insert k v m

  -- `remove`, the map that is left.
  unfoldable pub remove : Bytes → Map V → Map V
  remove k [] = []
  remove k ((j, w) ∷ m) = if bytes_eq j k then m else (j, w) ∷ remove k m

  pub lookup-insert :
      (k j : Bytes) (v : V) (m : Map V)
      → lookup j (insert k v m) ≡ (if bytes_eq k j then some v else lookup j m)
  unfolding lookup insert
  lookup-insert k j v [] = refl
  lookup-insert k j v ((i, w) ∷ m) =
      ground (arith, bytes_eq_iff k j, bytes_eq_iff i k, bytes_eq_iff i j, lookup-insert k j v m)

  pub lookup-insert_self : (k : Bytes) (v : V) (m : Map V) → lookup k (insert k v m) ≡ some v
  lookup-insert_self k v m = simp (lookup-insert, bytes_eq_refl)

  pub lookup-insert_ne :
      (k j : Bytes) (v : V) (m : Map V) → k ≢ j → lookup j (insert k v m) ≡ lookup j m
  lookup-insert_ne k j v m h = rw (lookup-insert, bytes_eq-false k j h)

  pub has_key_iff : (k : Bytes) (m : Map V) → (has_key k m ≡ false) ↔ (lookup k m ≡ none)
  unfolding lookup has_key
  has_key_iff k [] = ground arith
  has_key_iff k ((j, v) ∷ m) = ground (arith, has_key_iff k m)

  -- Distinct keys: what a map of the source always has.
  abbrev pub HasDistinctKeys : Map V → Type 0
  HasDistinctKeys [] = Unit
  HasDistinctKeys ((k, v) ∷ m) = (has_key k m ≡ false) × HasDistinctKeys m

  pub has_key-insert :
      (k j : Bytes) (v : V) (m : Map V)
      → has_key j (insert k v m) ≡ (if bytes_eq k j then true else has_key j m)
  unfolding has_key insert
  has_key-insert k j v [] = refl
  has_key-insert k j v ((i, w) ∷ m) =
      ground (arith, bytes_eq_iff k j, bytes_eq_iff i k, bytes_eq_iff i j, has_key-insert k j v m)

  pub insert-HasDistinctKeys :
      (k : Bytes) (v : V) (m : Map V) → HasDistinctKeys m → HasDistinctKeys (insert k v m)
  unfolding insert has_key
  insert-HasDistinctKeys k v [] h = (refl, tt)
  insert-HasDistinctKeys k v ((j, w) ∷ m) (new, h) = elim (Bool-cases (bytes_eq j k)) [
    | inl same ↦ rw (same, ← (bytes_eq_iff j k).0 same) (new, h)
    | inr other ↦
        rw other
          (ground (arith, has_key-insert k j v m, bytes_eq-sym j k), insert-HasDistinctKeys k v m h)
  ]

  has_key-remove : (k j : Bytes) (m : Map V) → has_key j m ≡ false → has_key j (remove k m) ≡ false
  unfolding has_key remove
  has_key-remove k j [] h = refl
  has_key-remove k j ((i, w) ∷ m) h = ground (arith, has_key-remove k j m)

  pub remove-HasDistinctKeys :
      (k : Bytes) (m : Map V) → HasDistinctKeys m → HasDistinctKeys (remove k m)
  unfolding remove
  remove-HasDistinctKeys k [] h = tt
  remove-HasDistinctKeys k ((j, w) ∷ m) (new, h) = elim (Bool-cases (bytes_eq j k)) [
    | inl same ↦ rw same h
    | inr other ↦ rw other (has_key-remove k j m new, remove-HasDistinctKeys k m h)
  ]

  pub lookup-remove :
      (k j : Bytes) (m : Map V)
      → HasDistinctKeys m
      → lookup j (remove k m) ≡ (if bytes_eq k j then none else lookup j m)
  unfolding lookup remove
  lookup-remove k j [] h = ground arith
  lookup-remove k j ((i, w) ∷ m) (new, h) = ground (
    arith,
    bytes_eq_iff k j,
    bytes_eq_iff i k,
    bytes_eq_iff i j,
    (has_key_iff i m).0 new,
    lookup-remove k j m h,
  )

module _ {V : Type 0} where
  pub In-of_lookup : (k : Bytes) (m : Map V) (v : V) → lookup k m ≡ some v → In (k, v) m
  unfolding lookup
  In-of_lookup k [] v h = cc
  In-of_lookup k ((j, w) ∷ m) v h = elim (Bool-cases (bytes_eq j k)) [
    | inl same ↦ inl (ground (arith, (bytes_eq_iff j k).0 same))
    | inr other ↦ inr (In-of_lookup k m v (rw (other, lookup) at h))
  ]
