-- ===== src/Tls/Store/Reload.antt =====
-- src/tls/store.rs: when a reload is refused, and what it leaves.
use pertisk_proxy.Base.{
  ◌≡◌, ◌↔◌, inl, inr, refl, ap, Bool, true, false, not, ◌&&◌, List, [], ◌∷◌, Option, none, some,
  arith, Bytes, is_empty, any, Bool-cases, Option-cases, if◌then◌else◌, Map, lookup, insert,
  lookup-insert, bytes_eq, sym, ◌∙◌,
}
use pertisk_proxy.Tls.{TlsSource, TlsConfig, acme, file, kubernetes}
use pertisk_proxy.Hosts.{normalize_host}
use pertisk_proxy.Tls.Store.{
  files, CertStore, StoredCert, Loaded, insert_exact, load_entry, load_configs, reload_from_configs,
  settle, or_some,
}

module _ (valid_pair : Bytes → Bytes → Bool) (readable : Bytes → Bool) where
  -- The files of an entry are refused; an entry without hosts is passed over.
  abbrev refused_source : TlsSource → Bool
  refused_source (file cert key) = not (valid_pair cert key && readable cert)
  refused_source _ = false

  abbrev pub is_refused : TlsConfig → Bool
  is_refused t = not (is_empty t.hosts) && refused_source t.source

  load_entry-none :
      (t : TlsConfig) (s : TlsSource) (l : Loaded)
      → (load_entry valid_pair readable t s l ≡ none) ↔ (refused_source s ≡ true)
  unfolding load_entry
  load_entry-none t (file cert key) l = (ground arith, ground arith)
  load_entry-none t (acme a) l = (ground arith, ground arith)
  load_entry-none t kubernetes l = (ground arith, ground arith)

  load_configs-none :
      (ts : List TlsConfig) (l : Loaded)
      → (load_configs valid_pair readable ts l ≡ none) ↔ (any is_refused ts ≡ true)
  unfolding load_configs
  load_configs-none [] l = (ground arith, ground arith)
  load_configs-none (t ∷ ts) l = elim (Option-cases (load_entry valid_pair readable t t.source l)) [
    | inl bad ↦ ground (arith, bad, load_entry-none t t.source l, load_configs-none ts l)
    | inr (l', good) ↦
        ground (
          arith,
          good,
          load_entry-none t t.source l,
          load_configs-none ts l,
          load_configs-none ts l',
        )
  ]

  -- The certificate that the rows give a name: that of the last row with files that lists it.
  abbrev row_names : Bytes → TlsConfig → Bool
  row_names k t = any (λ h. bytes_eq (normalize_host h) k) t.hosts

  abbrev given_by : Bytes → TlsConfig → TlsSource → Option StoredCert → Option StoredCert
  given_by k t (file cert key) o =
      if row_names k t then some (files (record { cert = cert; key = key })) else o
  given_by k t _ o = o

  abbrev pub last_named : Bytes → List TlsConfig → Option StoredCert → Option StoredCert
  last_named k [] o = o
  last_named k (t ∷ ts) o = last_named k ts (given_by k t t.source o)

  lookup-insert_exact :
      (k : Bytes) (hosts : List Bytes) (c : StoredCert) (m : Map StoredCert)
      → lookup k (insert_exact hosts c m)
        ≡ (if any (λ h. bytes_eq (normalize_host h) k) hosts then some c else lookup k m)
  unfolding insert_exact
  lookup-insert_exact k [] c m = refl
  lookup-insert_exact k (h ∷ hosts) c m = ground (
    arith,
    lookup-insert_exact k hosts c (insert (normalize_host h) c m),
    lookup-insert (normalize_host h) k c m,
  )

  hosts_of : Bytes → Option Loaded → Option StoredCert
  hosts_of k none = none
  hosts_of k (some x) = lookup k x.hosts

  load_entry-lookup :
      (k : Bytes) (t : TlsConfig) (s : TlsSource) (l l' : Loaded)
      → load_entry valid_pair readable t s l ≡ some l'
      → lookup k l'.hosts ≡ given_by k t s (lookup k l.hosts)
  unfolding load_entry hosts_of
  load_entry-lookup k t (file cert key) l l' e =
      let stored = files (record { cert = cert; key = key }) in
      let hosts : insert_exact t.hosts stored l.hosts ≡ l'.hosts = ground (arith, e) in
      ap (lookup k) (sym hosts) ∙ lookup-insert_exact k t.hosts stored l.hosts
  load_entry-lookup k t (acme a) l l' e = ap (hosts_of k) (sym e)
  load_entry-lookup k t kubernetes l l' e = ap (hosts_of k) (sym e)

  no_rows :
      (k : Bytes) (hosts : List Bytes)
      → is_empty hosts ≡ true
      → any (λ h. bytes_eq (normalize_host h) k) hosts ≡ false
  no_rows k [] e = refl
  no_rows k (h ∷ hosts) e = ground (arith, e)

  given_nothing :
      (k : Bytes) (t : TlsConfig) (s : TlsSource) (o : Option StoredCert)
      → is_empty t.hosts ≡ true
      → given_by k t s o ≡ o
  given_nothing k t (file cert key) o e = rw (no_rows k t.hosts e) refl
  given_nothing k t (acme a) o e = refl
  given_nothing k t kubernetes o e = refl

  load_configs-lookup :
      (k : Bytes) (ts : List TlsConfig) (l l' : Loaded)
      → load_configs valid_pair readable ts l ≡ some l'
      → lookup k l'.hosts ≡ last_named k ts (lookup k l.hosts)
  unfolding load_configs hosts_of
  load_configs-lookup k [] l l' e = ap (hosts_of k) (sym e)
  load_configs-lookup k (t ∷ ts) l l' e = elim (Bool-cases (is_empty t.hosts)) [
    | inl bare ↦
        load_configs-lookup k ts l l' (rw bare at e)
        ∙ ap (last_named k ts) (sym (given_nothing k t t.source (lookup k l.hosts) bare))
    | inr named ↦ elim (Option-cases (load_entry valid_pair readable t t.source l)) [
      | inl bad ↦ ground (arith, e, named, bad)
      | inr (m, good) ↦
          load_configs-lookup k ts m l' (rw (named, good) at e)
          ∙ ap (last_named k ts) (load_entry-lookup k t t.source l m good)
    ]
  ]

  -- The default that the rows give: the certificate of the first row with hosts and files.
  files_of : TlsSource → Option StoredCert
  files_of (file cert key) = some (files (record { cert = cert; key = key }))
  files_of _ = none

  abbrev pub first_files : List TlsConfig → Option StoredCert
  unfolding files_of
  first_files [] = none
  first_files (t ∷ ts) =
      let rest = first_files ts in
      if is_empty t.hosts then rest else or_some (files_of t.source) rest

  fallback_of : Option Loaded → Option StoredCert
  fallback_of none = none
  fallback_of (some x) = x.fallback

  or_some_assoc : (a b c : Option StoredCert) → or_some (or_some a b) c ≡ or_some a (or_some b c)
  or_some_assoc none b c = refl
  or_some_assoc (some x) b c = refl

  or_some-none : (a : Option StoredCert) → or_some a none ≡ a
  or_some-none none = refl
  or_some-none (some x) = refl

  load_entry_fallback :
      (t : TlsConfig) (s : TlsSource) (l l' : Loaded)
      → load_entry valid_pair readable t s l ≡ some l'
      → l'.fallback ≡ or_some l.fallback (files_of s)
  unfolding load_entry fallback_of files_of
  load_entry_fallback t (file cert key) l l' e = ground (arith, e)
  load_entry_fallback t (acme a) l l' e = ap fallback_of (sym e) ∙ sym (or_some-none l.fallback)
  load_entry_fallback t kubernetes l l' e = ap fallback_of (sym e) ∙ sym (or_some-none l.fallback)

  load_configs_fallback :
      (ts : List TlsConfig) (l l' : Loaded)
      → load_configs valid_pair readable ts l ≡ some l'
      → l'.fallback ≡ or_some l.fallback (first_files ts)
  unfolding load_configs fallback_of first_files
  load_configs_fallback [] l l' e = ap fallback_of (sym e) ∙ sym (or_some-none l.fallback)
  load_configs_fallback (t ∷ ts) l l' e = elim (Bool-cases (is_empty t.hosts)) [
    | inl bare ↦ rw bare (load_configs_fallback ts l l' (rw bare at e))
    | inr named ↦ elim (Option-cases (load_entry valid_pair readable t t.source l)) [
      | inl bad ↦ ground (arith, e, named, bad)
      | inr (m, good) ↦
          load_configs_fallback ts m l' (rw (named, good) at e)
          ∙ ap (λ o. or_some o (first_files ts)) (load_entry_fallback t t.source l m good)
          ∙ or_some_assoc l.fallback (files_of t.source) (first_files ts)
          ∙ rw named refl
    ]
  ]

  Result : List TlsConfig → CertStore → Bytes → CertStore × Bool → Type 0
  Result configs s k (s', fine) =
      (fine ≡ not (any is_refused configs))
      × (lookup k s'.by_host
          ≡ (if any is_refused configs then lookup k s.by_host else last_named k configs none))
      × (s'.default
          ≡ (if any is_refused configs then s.default else or_some (first_files configs) s.default))
      × (s'.expected ≡ s.expected)

  settle-Result :
      (configs : List TlsConfig) (s : CertStore) (k : Bytes) (o : Option Loaded)
      → load_configs valid_pair readable configs (record { hosts = []; fallback = none }) ≡ o
      → Result configs s k (settle valid_pair readable o s)
  unfolding settle Result
  settle-Result configs s k none bad =
      let blank : Loaded = record { hosts = []; fallback = none } in
      let yes : any is_refused configs ≡ true =
        ground (arith, bad, load_configs-none configs blank) in
      rw yes (refl, refl, refl, refl)
  settle-Result configs s k (some l) good =
      let blank : Loaded = record { hosts = []; fallback = none } in
      let fine : any is_refused configs ≡ false =
        ground (arith, good, load_configs-none configs blank) in
      let found : lookup k l.hosts ≡ last_named k configs none =
        load_configs-lookup k configs blank l good ∙ (unfold lookup in refl) in
      let default : l.fallback ≡ first_files configs = load_configs_fallback configs blank l good in
      rw fine (refl, found, ap (λ o. or_some o s.default) default, refl)

  -- A reload is refused exactly when the files of some row that has hosts are refused, and then every
  -- name keeps its certificate and the default stays. Else every name gets the certificate of the last
  -- row with files that lists it, and none where no row does; the default becomes the certificate of
  -- the first row with hosts and files, where there is one. The expected hosts stay.
  pub reload_from_configs-result :
      (configs : List TlsConfig) (s : CertStore) (k : Bytes)
      → ((reload_from_configs valid_pair readable configs s).1 ≡ not (any is_refused configs))
        × (lookup k (reload_from_configs valid_pair readable configs s).0.by_host
            ≡ (if any is_refused configs then lookup k s.by_host else last_named k configs none))
        × ((reload_from_configs valid_pair readable configs s).0.default ≡ (
            if any is_refused configs then s.default else or_some (first_files configs) s.default))
        × ((reload_from_configs valid_pair readable configs s).0.expected ≡ s.expected)
  unfolding reload_from_configs Result
  reload_from_configs-result configs s k =
      settle-Result configs s k
        (load_configs valid_pair readable configs (record { hosts = []; fallback = none })) refl
