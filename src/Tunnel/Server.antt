-- ===== src/Tunnel/Server.antt =====
-- tunnel/server/src/main.rs: the checks of the configuration, the greeting of a client, and the session
-- that its tunnels are forwarded to. Connections are named by the address of the client; listeners,
-- time-outs and the log are left out.
pub mod Config
pub mod Token
pub mod Sessions
use pertisk_proxy.Base.{
  ℕ, ◌+◌, ◌%◌, ◌^◌, Bool, true, false, not, ◌&&◌, ◌||◌, List, [], ◌∷◌, ◌++◌, map, Option, none,
  some, ◌==◌, any, if◌then◌else◌, Bytes, Map, lookup, has_key, insert, bytes_eq, is_empty,
}
use Prim.Native.Nat.{bit_or, bit_xor}
use pertisk_proxy.Text.{codes, trim}
use pertisk_proxy.Tunnel.Frames.{
  TunnelGranted, ClientControl, hello, ping, ServerControl, hello_ok, hello_err, pong,
}

pub record TunnelDef : Type 0 where
  pub name : Bytes
  pub remote_port : ℕ

pub data TunnelsError : Type 0 where
  no_tunnels empty_name : TunnelsError
  zero_port : Bytes → TunnelsError
  duplicate_port : ℕ → TunnelsError
  duplicate_name : Bytes → TunnelsError

pub data TunnelsLoaded : Type 0 where
  loaded : Map ℕ → TunnelsLoaded
  refused : TunnelsError → TunnelsLoaded

-- One pass over the tunnels, with the ports that are taken and the map of those in front.
unfoldable pub load_from : List TunnelDef → List ℕ → Map ℕ → TunnelsLoaded
load_from [] seen m = loaded m
load_from (t ∷ ts) seen m =
    let rest = load_from ts (t.remote_port ∷ seen) (insert t.name t.remote_port m) in
    if is_empty (trim t.name)
    then refused empty_name
    else if t.remote_port == 0
    then refused (zero_port t.name)
    else if any (λ p. p == t.remote_port) seen
    then refused (duplicate_port t.remote_port)
    else if has_key t.name m
    then refused (duplicate_name t.name)
    else rest

-- The checks of `main` on the tunnels of the configuration.
unfoldable pub load_tunnels : List TunnelDef → TunnelsLoaded
unfolding load_from
load_tunnels tunnels = if is_empty tunnels then refused no_tunnels else load_from tunnels [] []

pub record ClientSession : Type 0 where
  pub tunnels : List Bytes
  pub addr : Bytes

pub record TunnelCounters : Type 0 where
  pub bytes_to_client : ℕ
  pub bytes_from_client : ℕ
  pub streams : ℕ

-- The token and the tunnels are those of the configuration and do not change.
pub record AppState : Type 0 where
  pub token : Bytes
  pub tunnels : Map ℕ
  pub counters : Map TunnelCounters
  pub session : Option ClientSession

-- `constant_time_eq`: the lengths, and then the bits in which the bytes differ.
diff_of : ℕ → Bytes → Bytes → ℕ
diff_of diff (x ∷ a) (y ∷ b) = diff_of (bit_or diff (bit_xor x y)) a b
diff_of diff _ _ = diff

same_length : Bytes → Bytes → Bool
same_length [] [] = true
same_length (x ∷ a) (y ∷ b) = same_length a b
same_length _ _ = false

unfoldable pub constant_time_eq : Bytes → Bytes → Bool
unfolding diff_of same_length
constant_time_eq a b = same_length a b && diff_of 0 a b == 0

-- What is granted, or the first name that the server does not have.
pub data Grant : Type 0 where
  granted : List TunnelGranted → Grant
  unknown : Bytes → Grant

with_grant : TunnelGranted → Grant → Grant
with_grant g (granted gs) = granted (g ∷ gs)
with_grant g (unknown name) = unknown name

grant_one : Bytes → Option ℕ → Grant → Grant
unfolding with_grant
grant_one name none rest = unknown name
grant_one name (some port) rest = with_grant (record { name = name; remote_port = port }) rest

unfoldable pub grant_all : Map ℕ → List Bytes → Grant
unfolding grant_one
grant_all tunnels [] = granted []
grant_all tunnels (name ∷ wanted) = grant_one name (lookup name tunnels) (grant_all tunnels wanted)

-- The end of the greeting: a refusal with its message, or the session and the tunnels granted.
pub data Greeting : Type 0 where
  no_hello invalid_token no_request : Greeting
  unknown_tunnel : Bytes → Greeting
  welcome : List TunnelGranted → Greeting
  -- The answer cannot be written: the handler ends with the session set.
  unanswered : Greeting

abbrev pub names_of : List TunnelGranted → List Bytes
names_of gs = map (λ g. g.name) gs

-- `Replace any previous client`. The flag tells whether the answer behind it can be written.
welcomed : Bytes → Bool → Grant → AppState → Greeting × AppState
welcomed addr sent (unknown name) st = (unknown_tunnel name, st)
welcomed addr sent (granted []) st = (no_request, st)
welcomed addr sent (granted (g ∷ gs)) st = (
  if sent then welcome (g ∷ gs) else unanswered,
  record st { session = some (record { tunnels = names_of (g ∷ gs); addr = addr }) },
)

unfoldable pub greet : Bytes → ClientControl → Bool → AppState → Greeting × AppState
unfolding welcomed constant_time_eq grant_all
greet addr ping sent st = (no_hello, st)
greet addr (hello token wanted) sent st =
    if constant_time_eq token st.token
    then welcomed addr sent (grant_all st.tunnels wanted) st
    else (invalid_token, st)

-- One turn of the control loop: the answer, or the end.
pub control : ClientControl → Option ServerControl
control ping = some pong
control (hello token wanted) = none

is_active : Bytes → Option ClientSession → Bool
is_active addr none = false
is_active addr (some s) = bytes_eq s.addr addr

-- `Clear session only if we are still the active client`.
unfoldable pub disconnect : Bytes → AppState → AppState
unfolding is_active
disconnect addr st = if is_active addr st.session then record st { session = none } else st

serves : Bytes → Option ClientSession → Option Bytes
serves name none = none
serves name (some s) = if any (λ n. bytes_eq n name) s.tunnels then some s.addr else none

-- The client that an accepted connection is forwarded to: `forward_accepted`.
unfoldable pub forward_to : Bytes → AppState → Option Bytes
unfolding serves
forward_to name st = serves name st.session

count_both : ℕ → ℕ → Option TunnelCounters → Bytes → Map TunnelCounters → Map TunnelCounters
count_both to from none name m = m
count_both to from (some c) name m =
    insert name
      (record {
        bytes_to_client = (c.bytes_to_client + to) % 2 ^ 64;
        bytes_from_client = (c.bytes_from_client + from) % 2 ^ 64;
        streams = (c.streams + 1) % 2 ^ 64;
      })
      m

-- The counters behind a connection that was forwarded; they are 64 bits wide.
unfoldable pub count_stream : Bytes → ℕ → ℕ → AppState → AppState
unfolding count_both
count_stream name to from st = record st {
  counters = count_both to from (lookup name st.counters) name st.counters;
}
