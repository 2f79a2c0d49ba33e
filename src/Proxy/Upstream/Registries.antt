-- ===== src/Proxy/Upstream/Registries.antt =====
-- src/proxy/mod.rs: what an image registry is told by `upstream_request_filter`.
use pertisk_proxy.Base.{
  ◌≡◌, refl, sym, ap, ◌∙◌, ◌⊎◌, subst, inl, inr, Bool, true, false, not, ◌&&◌, ◌||◌, List, [], ◌∷◌,
  Option, none, some, arith, Bytes, bytes_eq, bytes_eq_iff, has_key, All, Bool-cases,
}
use pertisk_proxy.Text.{codes}
use pertisk_proxy.Proxy.Headers.{
  Headers, header_all, insert_header, insert_headers, remove_headers, header_all-insert_header,
}
use pertisk_proxy.Proxy.Session.{Session, request_host, is_downstream_tls}
use pertisk_proxy.Proxy.Grpc.{
  merge_cookie_headers, rewrite_upstream_grpc_path, prepare_upstream_streaming_request,
  prepare_upstream_request,
}
use pertisk_proxy.Proxy.Registry.{
  forwarding_names, normalize_registry_token_request, is_oci_registry_path,
}
use pertisk_proxy.Proxy.Registry.Trust.{
  IsProxyWord, is_one_of, header_all-remove_headers, prepare_registry_upstream_request-IsProxyWord,
}
use pertisk_proxy.Proxy.Context.{Outside, RequestCtx}
use pertisk_proxy.Proxy.Upstream.{
  strip_request, announced, lower_pairs, UpstreamRequest, registry_step, streaming_step, grpc_step,
  finish, upstream_request_filter,
}

abbrev told_names : List Bytes
told_names = codes "cookie" ∷ forwarding_names

untouched :
    (name other : Bytes)
    → is_one_of name told_names ≡ true
    → is_one_of other told_names ≡ false
    → bytes_eq other name ≡ false
untouched name other told away = elim (Bool-cases (bytes_eq other name)) [
  | inl same ↦
      let one : is_one_of other told_names ≡ is_one_of name told_names =
        ap (λ n. is_one_of n told_names) ((bytes_eq_iff other name).0 same) in
      absurd (ground (arith, sym away ∙ one ∙ told))
  | inr differs ↦ differs
]

IsSameTold : Headers → Headers → Type 0
IsSameTold ks hs =
    (name : Bytes) → is_one_of name told_names ≡ true → header_all name ks ≡ header_all name hs

insert-IsSameTold :
    (other value : Bytes) (hs : Headers)
    → is_one_of other told_names ≡ false
    → IsSameTold (insert_header other value hs) hs
unfolding IsSameTold
insert-IsSameTold other value hs away name told =
    header_all-insert_header other value name hs ∙ rw (untouched name other told away) refl

AreAway : List Bytes → Type 0
AreAway names = All (λ n. is_one_of n told_names ≡ false) names

away_from :
    (name : Bytes) (names : List Bytes)
    → is_one_of name told_names ≡ true
    → AreAway names
    → is_one_of name names ≡ false
unfolding is_one_of AreAway
away_from name [] told away = refl
away_from name (n ∷ ns) told (here, there) =
    ground (arith, untouched name n told here, away_from name ns told there)

remove-IsSameTold :
    (names : List Bytes) (hs : Headers) → AreAway names → IsSameTold (remove_headers names hs) hs
unfolding IsSameTold
remove-IsSameTold names hs away name told =
    header_all-remove_headers name names hs ∙ rw (away_from name names told away) refl

IsProxyWord-same :
    (host : Bytes) (client_ip : Option Bytes) (tls : Bool) (ks hs : Headers)
    → IsSameTold ks hs
    → IsProxyWord host client_ip tls hs
    → IsProxyWord host client_ip tls ks
unfolding IsSameTold is_one_of bytes_eq
IsProxyWord-same host client_ip tls ks hs same w = record {
  proto = same (codes "x-forwarded-proto") refl ∙ w.proto;
  port = same (codes "x-forwarded-port") refl ∙ w.port;
  ssl = same (codes "x-forwarded-ssl") refl ∙ w.ssl;
  forwarded_host = same (codes "x-forwarded-host") refl ∙ w.forwarded_host;
  real_ip = same (codes "x-real-ip") refl ∙ w.real_ip;
  client_address = same (codes "x-forwarded-for") refl ∙ w.client_address;
  cookies = same (codes "cookie") refl ∙ w.cookies;
}

streaming-IsSameTold : (hs : Headers) → IsSameTold (prepare_upstream_streaming_request hs) hs
unfolding prepare_upstream_streaming_request is_one_of bytes_eq
streaming-IsSameTold hs = insert-IsSameTold (codes "accept-encoding") (codes "identity") hs refl

grpc-IsSameTold : (web : Bool) (hs : Headers) → IsSameTold (prepare_upstream_request web hs) hs
unfolding prepare_upstream_request is_one_of bytes_eq AreAway IsSameTold
grpc-IsSameTold web hs =
    let dropped =
      codes "connection"
      ∷ codes "upgrade"
      ∷ codes "transfer-encoding"
      ∷ codes "keep-alive"
      ∷ codes "proxy-connection"
      ∷ [] in
    let left = remove_headers dropped hs in
    let removed : IsSameTold left hs =
      remove-IsSameTold dropped hs (refl, (refl, (refl, (refl, (refl, tt))))) in
    elim (Bool-cases (not web && not (has_key (codes "te") left))) [
      | inl adds ↦ λ name told.
          rw (prepare_upstream_request, adds)
            (insert-IsSameTold (codes "te") (codes "trailers") left refl name told
              ∙ removed name told)
      | inr leaves ↦ λ name told. rw (prepare_upstream_request, leaves) (removed name told)
    ]

abbrev headers_of : Option UpstreamRequest → Headers
headers_of none = []
headers_of (some u) = u.headers

module _ (s : Session) where
  abbrev IsWord : Headers → Type 0
  IsWord hs = IsProxyWord (request_host s) s.client_addr (is_downstream_tls s) hs

  registry_step-IsWord :
      (u : UpstreamRequest)
      → is_oci_registry_path u.path ≡ true
      → IsWord (registry_step s u).headers
  unfolding registry_step
  registry_step-IsWord u registry =
      let (method, headers) =
        normalize_registry_token_request u.path u.query (u.method, u.headers) in
      rw (registry_step, registry)
        (prepare_registry_upstream_request-IsProxyWord method u.path (request_host s) s.client_addr
          (is_downstream_tls s) headers)

  streaming_step-IsWord :
      (ctx : RequestCtx) (u : UpstreamRequest)
      → IsWord u.headers
      → IsWord (streaming_step ctx u).headers
  unfolding streaming_step
  streaming_step-IsWord ctx u w = elim (Bool-cases (ctx.is_grpc || ctx.is_long_lived_stream)) [
    | inl streams ↦
        rw (streaming_step, streams)
          (IsProxyWord-same (request_host s) s.client_addr (is_downstream_tls s)
            (prepare_upstream_streaming_request u.headers) u.headers
            (streaming-IsSameTold u.headers) w)
    | inr plain ↦ rw (streaming_step, plain) w
  ]

  -- Either the headers stay or those of gRPC are prepared.
  grpc_step-headers :
      (valid_path : Bytes → Bool) (ctx : RequestCtx) (u v : UpstreamRequest)
      → grpc_step valid_path ctx u ≡ some v
      → (v.headers ≡ u.headers) ⊎ (v.headers ≡ prepare_upstream_request ctx.is_grpc_web u.headers)
  unfolding grpc_step
  grpc_step-headers valid_path ctx u v e =
      let new_path = rewrite_upstream_grpc_path u.path in
      elim (Bool-cases ctx.is_grpc) [
        | inr other ↦ inl (sym (ap headers_of (rw (grpc_step, other) at e)))
        | inl grpc ↦ elim (Bool-cases ctx.is_grpc_web) [
          | inl web ↦ inr (sym (ap headers_of (rw (grpc_step, grpc, web) at e)) ∙ rw web refl)
          | inr native ↦ elim (Bool-cases (valid_path new_path || bytes_eq new_path u.path)) [
            | inl valid ↦
                inr
                  (sym (ap headers_of (rw (grpc_step, grpc, native, valid) at e)) ∙ rw native refl)
            | inr invalid ↦
                let none_sent : none ≡ some v = rw (grpc_step, grpc, native, invalid) at e in
                absurd (ground (arith, none_sent))
          ]
        ]
      ]

  grpc_step-IsWord :
      (valid_path : Bytes → Bool) (ctx : RequestCtx) (u v : UpstreamRequest)
      → grpc_step valid_path ctx u ≡ some v
      → IsWord u.headers
      → IsWord v.headers
  grpc_step-IsWord valid_path ctx u v e w = elim (grpc_step-headers valid_path ctx u v e) [
    | inl same ↦ subst IsWord (sym same) w
    | inr sent ↦ subst IsWord (sym sent) (
        IsProxyWord-same (request_host s) s.client_addr (is_downstream_tls s)
          (prepare_upstream_request ctx.is_grpc_web u.headers) u.headers
          (grpc-IsSameTold ctx.is_grpc_web u.headers) w)
  ]

  -- Where no prefix is stripped and the path is that of a registry, a request that is sent has, each in
  -- one header, the scheme, the port and the TLS mark that `is_downstream_tls` decides (which takes an
  -- X-Forwarded-Proto of `https` from the client for TLS), the host that was asked for, and the address
  -- of the connection in X-Real-IP and X-Forwarded-For, or none there where it is not known; it has no
  -- cookie, and no other values of these headers, from the client or from the route, also when it is a
  -- stream or a gRPC request.
  pub upstream_request_filter-IsProxyWord :
      (o : Outside) (valid_path : Bytes → Bool) (ctx : RequestCtx) (u v : UpstreamRequest)
      → ctx.action.strip_prefix ≡ none
      → is_oci_registry_path u.path ≡ true
      → upstream_request_filter o valid_path s ctx u ≡ some v
      → IsProxyWord (request_host s) s.client_addr (is_downstream_tls s) v.headers
  unfolding upstream_request_filter finish strip_request
  upstream_request_filter-IsProxyWord o valid_path ctx u v whole registry e =
      let sent = record u { headers = announced o s ctx u.headers } in
      let merged = record u {
        headers =
            merge_cookie_headers
              (insert_headers (lower_pairs ctx.action.request_headers) sent.headers);
      } in
      grpc_step-IsWord valid_path ctx (streaming_step ctx (registry_step s merged)) v
        (rw (upstream_request_filter, whole) at e)
        (streaming_step-IsWord ctx (registry_step s merged) (registry_step-IsWord merged registry))
