-- ===== src/Proxy/Headers.antt =====
-- The header maps of src/proxy/: the entries in their order, the names in lower case as the header type
-- keeps them. All names and values are texts that the header type takes.
use pertisk_proxy.Base.{
  ◌≡◌, refl, ap, ◌∙◌, inl, inr, Bool, true, false, List, [], ◌∷◌, ◌++◌, Option, arith,
  if◌then◌else◌, Bytes, lookup, bytes_eq, bytes_eq_iff, bytes_eq-sym, Bool-cases, sym, append-nil,
}

abbrev pub Headers : Type 0
Headers = List (Bytes × Bytes)

-- `get(name)`: the first value.
abbrev pub header : Bytes → Headers → Option Bytes
header name headers = lookup name headers

-- `get_all(name)`.
unfoldable pub header_all : Bytes → Headers → List Bytes
header_all name [] = []
header_all name ((n, v) ∷ hs) =
    let rest = header_all name hs in if bytes_eq n name then v ∷ rest else rest

unfoldable pub remove_header : Bytes → Headers → Headers
remove_header name [] = []
remove_header name ((n, v) ∷ hs) =
    let rest = remove_header name hs in if bytes_eq n name then rest else (n, v) ∷ rest

-- `insert_header`: the only entry of its name.
unfoldable pub insert_header : Bytes → Bytes → Headers → Headers
unfolding remove_header
insert_header name value hs = remove_header name hs ++ ((name, value) ∷ [])

unfoldable pub insert_headers : Headers → Headers → Headers
unfolding insert_header
insert_headers [] hs = hs
insert_headers ((n, v) ∷ more) hs = insert_headers more (insert_header n v hs)

unfoldable pub remove_headers : List Bytes → Headers → Headers
unfolding remove_header
remove_headers [] hs = hs
remove_headers (n ∷ ns) hs = remove_headers ns (remove_header n hs)

if_again :
    (b c : Bool) (v : Bytes) (vs : List Bytes)
    → c ≡ b
    → (if b then [] else vs) ≡ (if b then [] else if c then v ∷ vs else vs)
if_again true c v vs e = refl
if_again false c v vs e = rw e refl

pub header_all-remove_header :
    (name other : Bytes) (hs : Headers)
    → header_all other (remove_header name hs)
      ≡ (if bytes_eq name other then [] else header_all other hs)
unfolding header_all remove_header
header_all-remove_header name other [] = ground arith
header_all-remove_header name other ((n, v) ∷ hs) = elim (Bool-cases (bytes_eq n name)) [
  | inl same ↦
      let at = (bytes_eq_iff n name).0 same in
      rw same (
        header_all-remove_header name other hs
        ∙ if_again (bytes_eq name other) (bytes_eq n other) v (header_all other hs)
            (ap (λ x. bytes_eq x other) at))
  | inr differs ↦ elim (Bool-cases (bytes_eq n other)) [
    | inr away ↦ rw (differs, away) (header_all-remove_header name other hs)
    | inl here ↦
        let apart : bytes_eq name other ≡ false =
          ap (bytes_eq name) (sym ((bytes_eq_iff n other).0 here))
          ∙ bytes_eq-sym name n
          ∙ differs in
        rw (differs, here, apart)
          (ap (λ vs. v ∷ vs) (header_all-remove_header name other hs ∙ rw apart refl))
  ]
]

pub header_all-append :
    (name : Bytes) (hs ks : Headers)
    → header_all name (hs ++ ks) ≡ header_all name hs ++ header_all name ks
unfolding header_all
header_all-append name [] ks = refl
header_all-append name ((n, v) ∷ hs) ks = elim (Bool-cases (bytes_eq n name)) [
  | inl same ↦ rw same (ap (λ vs. v ∷ vs) (header_all-append name hs ks))
  | inr other ↦ rw other (header_all-append name hs ks)
]

pub header_all-insert_header :
    (name value other : Bytes) (hs : Headers)
    → header_all other (insert_header name value hs)
      ≡ (if bytes_eq name other then value ∷ [] else header_all other hs)
unfolding insert_header header_all
header_all-insert_header name value other hs =
    header_all-append other (remove_header name hs) ((name, value) ∷ [])
    ∙ ap (λ vs. vs ++ header_all other ((name, value) ∷ []))
        (header_all-remove_header name other hs)
    ∙ (elim (Bool-cases (bytes_eq name other)) [
      | inl same ↦ rw (header_all, same) refl
      | inr differs ↦ rw (header_all, differs) (append-nil (header_all other hs))
    ])
