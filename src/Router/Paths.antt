-- ===== src/Router/Paths.antt =====
-- src/router.rs: what a path rule matches, told by segments.
use pertisk_proxy.Base.{
  ◌≡◌, ◌↔◌, ◌⊎◌, inl, inr, refl, ap, sym, ◌∙◌, true, false, [], ◌∷◌, ◌++◌, arith, Bytes, bytes_eq,
  bytes_eq_iff, append_assoc, append-nil, Bool-cases,
}
use pertisk_proxy.Text.{codes, starts_with, starts_with-append, starts_with-eq-true, ends_with}
use pertisk_proxy.Router.{prefix, path_matches}

-- `rest` is empty or begins a new segment.
abbrev pub AtBoundary : Bytes → Type 0
AtBoundary rest = (rest ≡ []) ⊎ ((more : Bytes) × (rest ≡ b'/' ∷ more))

starts_with_of_split :
    (rule request rest : Bytes) → request ≡ rule ++ rest → starts_with rule request ≡ true
starts_with_of_split rule request rest split =
    ap (starts_with rule) split ∙ starts_with-append rule rest

-- A prefix rule without a slash at its end matches a path exactly when the path is the rule, or goes
-- on behind it with a new segment: "/api" matches "/api" and "/api/v1", not "/apix".
pub path_matches-prefix_iff :
    (rule request : Bytes)
    → ends_with (codes "/") rule ≡ false
    → (path_matches prefix rule request ≡ true)
      ↔ ((rest : Bytes) × (request ≡ rule ++ rest) × AtBoundary rest)
unfolding path_matches
path_matches-prefix_iff rule request plain = (to, from)
  where
    to :
        path_matches prefix rule request ≡ true
        → (rest : Bytes) × (request ≡ rule ++ rest) × AtBoundary rest
    to e = elim (Bool-cases (bytes_eq request rule)) [
      | inl same ↦ ([], (bytes_eq_iff request rule).0 same ∙ sym (append-nil rule), inl refl)
      | inr other ↦
          let (more, split) = starts_with-eq-true (rule ++ codes "/") request (ground arith) in
          (b'/' ∷ more, split ∙ append_assoc rule (codes "/") more, inr (more, refl))
    ]

    from :
        (rest : Bytes) × (request ≡ rule ++ rest) × AtBoundary rest
        → path_matches prefix rule request ≡ true
    from (rest, split, inl none_left) =
        let same =
          (bytes_eq_iff request rule).1 (split ∙ ap (◌++◌ rule) none_left ∙ append-nil rule) in
        rw same
    from (rest, split, inr (more, e)) =
        let longer =
          starts_with_of_split (rule ++ codes "/") request more
            (split ∙ ap (◌++◌ rule) e ∙ sym (append_assoc rule (codes "/") more)) in
        rw (plain, longer) (ground arith)

-- A prefix rule with a slash at its end matches exactly the paths that begin with it.
path_matches-slash_iff :
    (rule request : Bytes)
    → ends_with (codes "/") rule ≡ true
    → (path_matches prefix rule request ≡ true) ↔ ((rest : Bytes) × (request ≡ rule ++ rest))
unfolding path_matches
path_matches-slash_iff rule request slash = (
  λ e. elim (Bool-cases (bytes_eq request rule)) [
    | inl same ↦ ([], (bytes_eq_iff request rule).0 same ∙ sym (append-nil rule))
    | inr other ↦ starts_with-eq-true rule request (ground arith)
  ],
  λ (rest, split). rw (slash, starts_with_of_split rule request rest split) (ground arith),
)
