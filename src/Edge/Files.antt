-- ===== src/Edge/Files.antt =====
-- src/edge/mod.rs: `safe_file`, the file that a URL names below a root. A path is the list of the
-- components that are pushed onto the root.
use mathlib.Core.Option
use pertisk_proxy.Base.{
  ℕ, ◌≡◌, refl, false, ◌||◌, List, [], ◌∷◌, Option, none, some, arith, ◌==◌, if◌then◌else◌, Bytes,
  bytes_eq, is_empty, All, Bool-cases, inl, inr, subst,
}
use pertisk_proxy.Text.{codes, before, split, cons_head, has_byte}

trim_leading_slashes : Bytes → Bytes
trim_leading_slashes [] = []
trim_leading_slashes (c ∷ s) =
    let rest = trim_leading_slashes s in if c == b'/' then rest else c ∷ s

-- The loop over `Path::components`: an empty part and a `.` are no step, and `..` is refused.
unfoldable pub push_parts : List Bytes → Option (List Bytes)
push_parts [] = some []
push_parts (p ∷ ps) =
    let rest = push_parts ps in
    if is_empty p || bytes_eq p (codes ".")
    then rest
    else if bytes_eq p (codes "..")
    then none
    else Option.map (◌∷◌ p) rest

-- The root itself stands for its index page.
index_page : List Bytes → List Bytes
index_page [] = codes "index.html" ∷ []
index_page (p ∷ ps) = p ∷ ps

unfoldable pub safe_file : Bytes → Option (List Bytes)
unfolding trim_leading_slashes push_parts index_page
safe_file url_path =
    let rel = trim_leading_slashes (before b'?' url_path) in
    if has_byte 0 rel then none else Option.map index_page (push_parts (split b'/' rel))

-- A name of one directory entry: not empty, not `.` or `..`, and without a slash.
pub record IsEntry (p : Bytes) : Type 0 where
  pub not_empty : is_empty p ≡ false
  pub not_here : bytes_eq p (codes ".") ≡ false
  pub not_up : bytes_eq p (codes "..") ≡ false
  pub one_level : has_byte b'/' p ≡ false

cons_head-All :
    (c x : ℕ) (ps : List Bytes)
    → (x == c) ≡ false
    → All (λ p. has_byte c p ≡ false) ps
    → All (λ p. has_byte c p ≡ false) (cons_head x ps)
unfolding has_byte
cons_head-All c x [] ne h = (ground arith, tt)
cons_head-All c x (p ∷ ps) ne (one, h) = (ground arith, h)

split-All : (c : ℕ) (s : Bytes) → All (λ p. has_byte c p ≡ false) (split c s)
unfolding split has_byte
split-All c [] = (refl, tt)
split-All c (x ∷ s) = elim (Bool-cases (x == c)) [
  | inl same ↦ rw same (refl, split-All c s)
  | inr other ↦ simp other (cons_head-All c x (split c s) other (split-All c s))
]

-- What the loop gives, refusal included.
AreEntries : Option (List Bytes) → Type 0
AreEntries none = Unit
AreEntries (some qs) = All IsEntry qs

AreEntries-map :
    (p : Bytes)
    → IsEntry p
    → (o : Option (List Bytes)) → AreEntries o
    → AreEntries (Option.map (◌∷◌ p) o)
unfolding AreEntries
AreEntries-map p e none h = tt
AreEntries-map p e (some qs) h = (e, h)

push_parts-AreEntries :
    (ps : List Bytes) → All (λ p. has_byte b'/' p ≡ false) ps → AreEntries (push_parts ps)
unfolding push_parts AreEntries
push_parts-AreEntries [] h = tt
push_parts-AreEntries (p ∷ ps) (one, h) =
    let below = push_parts-AreEntries ps h in
    elim (Bool-cases (is_empty p || bytes_eq p (codes "."))) [
      | inl skipped ↦ rw skipped below
      | inr step ↦ elim (Bool-cases (bytes_eq p (codes ".."))) [
        | inl up ↦ rw (step, up) tt
        | inr plain ↦
            let entry : IsEntry p = record {
              not_empty = ground arith;
              not_here = ground arith;
              not_up = plain;
              one_level = one;
            } in
            rw (step, plain) (AreEntries-map p entry (push_parts ps) below)
      ]
    ]

index_page-AreEntries : (qs : List Bytes) → All IsEntry qs → All IsEntry (index_page qs)
unfolding index_page has_byte bytes_eq
index_page-AreEntries [] h =
    (record { not_empty = refl; not_here = refl; not_up = refl; one_level = refl }, tt)
index_page-AreEntries (p ∷ ps) h = h

index_page-filled : (qs : List Bytes) → is_empty (index_page qs) ≡ false
unfolding index_page
index_page-filled [] = refl
index_page-filled (p ∷ ps) = refl

served :
    (o : Option (List Bytes)) (path : List Bytes)
    → AreEntries o
    → Option.map index_page o ≡ some path
    → (is_empty path ≡ false) × All IsEntry path
unfolding AreEntries
served none path h e = cc
served (some qs) path h e =
    let same : index_page qs ≡ path = ground arith in
    subst (λ r. (is_empty r ≡ false) × All IsEntry r) same
      (index_page-filled qs, index_page-AreEntries qs h)

-- The file that a URL names is one or more steps below the root, and each step is the name of an
-- entry of a directory: not empty, not `.` or `..`, and without a slash.
pub safe_file-AreEntries :
    (url_path : Bytes) (path : List Bytes)
    → safe_file url_path ≡ some path
    → (is_empty path ≡ false) × All IsEntry path
unfolding safe_file
safe_file-AreEntries url_path path e =
    let rel = trim_leading_slashes (before b'?' url_path) in
    served (push_parts (split b'/' rel)) path
      (push_parts-AreEntries (split b'/' rel) (split-All b'/' rel)) (ground arith)
