-- ===== src/Lib.antt =====
-- Verification of pertisk-proxy, a reverse proxy and Kubernetes ingress controller.
--
-- A request passes these parts of the program: the routing table chooses the routes of its host and
-- among them the one of its path (src/router.rs); the policies that the route carries judge it, first
-- by country and network (src/geoip.rs), then by the security pipeline of firewall, bot score and
-- captcha (src/security/); the edge features ask for credentials, limit its rate and answer from a cache
-- (src/edge/mod.rs); and the plan of the request names the peer it goes to (src/proxy/forward.rs). The
-- order of all this is that of the request filter (src/proxy/mod.rs). The
-- table is built from the sites of the configuration (src/proxy/apply.rs), whose certificate rows say
-- which hosts are served (src/proxy_config.rs) and fill the certificate store (src/tls/store.rs). Of the
-- replicas of the ingress controller one leads (src/ingress/leader_election.rs).
--
-- Base holds what all files share: Boolean tests, lists measured by native numbers, and maps. A map of
-- the source is an association list whose order stands for the order of iteration, which is left open.
-- Text holds the operations of `str`; a text is the list of its UTF-8 bytes.
--
-- * Router (src/router.rs): `RouteTable`, `match_route_entry`, `routes_for_host`, `find_route`,
--   `path_matches`, `from_routes`. Router/Paths and Router/Order are about path rules and the order of
--   routes, Router/Select about the choice of the host. Router/Edges models the edge policies of a
--   table (`insert_edge`, `edge_for`, `consul_services`, `accepts_jwt_secret`), Router/Upstream the
--   reading of an upstream text (`parse_upstream`); the URL parser is a parameter there. Router/Ingresses
--   builds the table of Ingress objects, Router/Specs that of the route file (src/routes_config.rs).
-- * Hosts (src/router.rs and src/proxy_config.rs): `normalize_host` and `wildcard_covers_host`.
-- * Tls (src/proxy_config.rs): `normalize_tls_config` and what it calls.
-- * Geoip (src/geoip.rs): the policy, `evaluate` as `geoip_evaluate`, and `AsnTsvDb::lookup` as
--   `asn_lookup`; addresses are numbers. Geoip/Annotations models the two annotation functions, as
--   `geoip_from_annotations` and `geoip_to_annotations`, Geoip/Lookup `evaluate_ip`.
-- * Security/Waf, Security/Bot, Security/Captcha (src/security/waf.rs, bot.rs, captcha.rs): one file for
--   each. The rate windows of bot.rs are an explicit map that `record_rate` takes and gives; a time is a
--   number of seconds that the operations take. The keyed digest and the hex printer of captcha.rs are
--   parameters; what is asked of the printer is that it prints hex digits.
-- * Security/Pipeline (src/security/mod.rs): `evaluate`, with the rate windows before and after it.
--   Security/Annotations models `apply_annotations` and `policy_from_annotations`.
-- * Edge/Cache, Edge/Limits, Edge/Base64, Edge/Policy (src/edge/mod.rs): the cache and the windows are
--   explicit states. The key that the cache drops to make room is a parameter, of which is asked that it
--   is a key of the map. The loop that drops keys has one round for each entry as its bound, which is
--   enough, since each round removes one.
-- * Edge/Files (src/edge/mod.rs): `safe_file`; a path is the list of components that are pushed.
-- * Edge/Auth, Edge/Credentials (src/edge/mod.rs): `issue_jwt`, `verify_jwt`, `auth_header_ok` and what
--   they call; the keyed digest is a parameter. Edge/Consul: `consul_pick`, `consul_refresh` and
--   `probe_upstream_tls` over explicit states; the replies of Consul and the connection of a probe are
--   parameters, and a lock is never poisoned.
-- * Proxy/Forward, Proxy/ClientIp (src/proxy/forward.rs): `resolve_forward`, which takes and gives the
--   state of the endpoints and probes, and `resolve_client_ip`. Addresses are numbers of 32 and 128 bits;
--   their reader and printer are parameters that read back what is printed.
-- * Proxy/Filter (src/proxy/mod.rs): `request_filter`, one definition for each of its stages, and the
--   answers as values; Proxy/Filter/Stages and Policies are about single stages, Passed about the whole.
--   Proxy/Context has `Gateway` and `RequestCtx`, what requests share (windows, cache, endpoints), and
--   in `Outside` the code of other crates and of the network. Counters, the log and time-outs are left
--   out. Proxy/Session (also src/health.rs, src/deny.rs) has what is read of a request. Proxy/Headers
--   has header maps: the entries in their order, with names in lower case and values that are texts.
-- * Proxy/Upstream (src/proxy/mod.rs): `upstream_request_filter`; Proxy/Upstream/Registries is about its
--   requests to registries. Which paths the URI type takes is a parameter. Proxy/Peer
--   (src/proxy/mod.rs): `upstream_peer`, which plans the request again and may replace its context;
--   Proxy/Peer/Forgotten is about what is lost there.
-- * Proxy/Response (src/proxy/mod.rs): `response_filter`, `upstream_response_filter` and
--   `response_body_filter`; Proxy/Response/Collected is about the bodies that reach the cache,
--   Blank about a context that asks for nothing.
-- * Proxy/Grpc, Proxy/Registry (src/proxy/grpc.rs, registry.rs): the classes of requests and the
--   rewritten headers; Proxy/Registry/Trust is about those that go to a registry.
-- * Tunnel/Frames (tunnel/proto/src/lib.rs): `write_frame` and `read_frame` over the bytes of a stream;
--   the serializer is a parameter. Tunnel/Server (tunnel/server/src/main.rs): the checks of `main`, the
--   greeting of `handle_connection`, what clears the session, and `forward_accepted`; whether the answer
--   to a greeting can be written is an argument. Sessions has the runs of these as a list of events, Token
--   the comparison of tokens.
-- * Proxy/Config, Proxy/Apply (src/proxy_config.rs, src/proxy/apply.rs): the sites and backends of a
--   configuration and `config_to_route_table`, with its errors as values; Proxy/Apply/SiteRoutes has the
--   routes of one site, Tables the whole table.
-- * Tls/Store (src/tls/store.rs, validate.rs, resolver.rs): `CertStore` and its operations; of the files
--   it is a parameter whether a pair is valid and the certificate can be read.
-- * Ingress/Leader (src/ingress/leader_election.rs): `try_acquire_or_renew` as `attempt`, the settings,
--   and in Ingress/Leader/System the loops of all replicas as a step relation, against a lease that the
--   API server keeps as its documentation says. A time is a number of nanoseconds, of which a lease keeps
--   the whole microseconds. Each replica reads a clock of its own, which is at most `drift` ahead of the
--   time of the system; how far it may lag is left open.
--
-- Numbers of the machine are native numbers with their bounds written out where the source saturates.
-- `to_lowercase` changes ASCII letters only, which is what it does to host names in ASCII.
-- Not modelled: network, database, Kubernetes and mail calls, the servers over other crates, the HTML
-- of the captcha page, the reading of MaxMind files, the client and the copy loops of the tunnel, and the
-- management API; of src/proxy/mod.rs the options of the peer, metrics
-- and the log; and, of the files above, forward
-- authentication and the files of certificates.
pub mod Base
pub mod Text
pub mod Edge
pub mod Geoip
pub mod Hosts
pub mod Ingress
pub mod Proxy
pub mod Tunnel
pub mod Router
pub mod Security
pub mod Tls
pub mod Tests
