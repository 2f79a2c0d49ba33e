-- ===== src/Edge/Consul.antt =====
-- src/edge/mod.rs: the endpoints of Consul services, taken in turn, and the memory of TLS probes. The
-- connection that a probe makes is a parameter. A time is a number of nanoseconds of the monotonic
-- clock.
pub mod Endpoints
use pertisk_proxy.Base.{
  ℕ, ◌+◌, ◌-◌, ◌*◌, ◌%◌, ◌^◌, Bool, true, false, List, [], ◌∷◌, ◌++◌, Option, none, some, ltb,
  if◌then◌else◌, Bytes, Map, lookup, insert, is_empty, length, get_elem?, ◌==◌,
}
use pertisk_proxy.Text.{print}

-- `rr` is a counter of 64 bits.
pub record ConsulState : Type 0 where
  pub endpoints : Map (List (Bytes × ℕ))
  pub rr : ℕ

abbrev pub consul_empty : ConsulState
consul_empty = record { endpoints = []; rr = 0 }

pick_from : Option (List (Bytes × ℕ)) → ConsulState → Option (Bytes × ℕ) × ConsulState
pick_from none s = (none, s)
pick_from (some list) s =
    if is_empty list
    then (none, s)
    else (get_elem? list (s.rr % length list), record s { rr = (s.rr + 1) % 2 ^ 64 })

unfoldable pub consul_pick : Bytes → ConsulState → Option (Bytes × ℕ) × ConsulState
unfolding pick_from
consul_pick service s = pick_from (lookup service s.endpoints) s

unfoldable pub consul_set : Bytes → List (Bytes × ℕ) → ConsulState → ConsulState
consul_set service endpoints s = record s { endpoints = insert service endpoints s.endpoints }

pub record TlsProbe : Type 0 where
  pub use_tls : Bool
  pub at : ℕ

-- The memory is kept for 300 seconds.
fresh_probe : Option TlsProbe → ℕ → Option Bool
fresh_probe none now = none
fresh_probe (some hit) now = if ltb (now - hit.at) (300 * 10 ^ 9) then some hit.use_tls else none

module _ (tcp_looks_like_tls : Bytes → ℕ → Bool) where
  remembered_or_probed : Option Bool → Bytes → ℕ → ℕ → Map TlsProbe → Bool × Map TlsProbe
  remembered_or_probed (some use_tls) host port later probes = (use_tls, probes)
  remembered_or_probed none host port later probes =
      let use_tls = tcp_looks_like_tls host port in
      (
        use_tls,
        insert (host ++ (b':' ∷ print port)) (record { use_tls = use_tls; at = later }) probes,
      )

  -- At `now`; the connection is made until `later`.
  unfoldable pub probe_upstream_tls : Bytes → ℕ → ℕ → ℕ → Map TlsProbe → Bool × Map TlsProbe
  unfolding fresh_probe remembered_or_probed
  probe_upstream_tls host port now later probes =
      remembered_or_probed (fresh_probe (lookup (host ++ (b':' ∷ print port)) probes) now) host port
        later probes

-- What is read of one entry of the reply of Consul.
pub record ConsulItem : Type 0 where
  pub port : Option ℕ
  pub service_address : Option Bytes
  pub node_address : Option Bytes

-- `as_u64().unwrap_or(0) as u16`.
port_of : Option ℕ → ℕ
port_of none = 0
port_of (some n) = n % 2 ^ 16

filled : Option Bytes → Option Bytes
filled none = none
filled (some s) = if is_empty s then none else some s

address_of_item : Option Bytes → Option Bytes → Option Bytes
address_of_item (some s) other = some s
address_of_item none other = other

add_endpoint : Option Bytes → ℕ → List (Bytes × ℕ) → List (Bytes × ℕ)
add_endpoint none port rest = rest
add_endpoint (some addr) port rest = (addr, port) ∷ rest

unfoldable pub endpoints_of : List ConsulItem → List (Bytes × ℕ)
unfolding port_of filled address_of_item add_endpoint
endpoints_of [] = []
endpoints_of (item ∷ items) =
    let rest = endpoints_of items in
    if port_of item.port == 0
    then rest
    else add_endpoint (address_of_item (filled item.service_address) (filled item.node_address))
        (port_of item.port) rest

-- One service: the reply is none where the request fails or is not a list.
refresh_one : Bytes → Option (List ConsulItem) → ConsulState → ConsulState
unfolding endpoints_of consul_set
refresh_one service none s = s
refresh_one service (some items) s =
    if is_empty (endpoints_of items) then s else consul_set service (endpoints_of items) s

-- The replies to the requests are a parameter.
unfoldable pub consul_refresh :
    (Bytes → Option (List ConsulItem)) → List Bytes → ConsulState → ConsulState
unfolding refresh_one
consul_refresh reply [] s = s
consul_refresh reply (service ∷ services) s =
    consul_refresh reply services (refresh_one service (reply service) s)
