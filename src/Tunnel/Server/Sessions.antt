-- ===== src/Tunnel/Server/Sessions.antt =====
-- tunnel/server/src/main.rs: the sessions that clients can bring about.
use pertisk_proxy.Base.{
  ℕ, ◌≡◌, ◌≢◌, ◌⊎◌, refl, sym, ap, ◌∙◌, inl, inr, Bool, true, false, List, [], ◌∷◌, ◌++◌, Option,
  none, some, arith, any, All, Bytes, Map, lookup, bytes_eq, bytes_eq_iff, Bool-cases, Option-cases,
}
use pertisk_proxy.Tunnel.Frames.{TunnelGranted, ClientControl, hello, ping}
use pertisk_proxy.Tunnel.Server.Token.{constant_time_eq-same}
use pertisk_proxy.Tunnel.Server.{
  ClientSession, AppState, constant_time_eq, Grant, granted, unknown, with_grant, grant_one,
  grant_all, names_of, welcomed, greet, is_active, disconnect, serves, forward_to, count_stream,
}

-- What reaches the server: the first message of a client, with whether an answer to it can be written;
-- the end of the connection of a client, which is handled only if it was answered; and the end of a stream of a tunnel, with
-- the bytes of both directions.
pub data Event : Type 0 where
  said : Bytes → ClientControl → Bool → Event
  left : Bytes → Event
  piped : Bytes → ℕ → ℕ → Event

unfoldable pub step : Event → AppState → AppState
unfolding greet disconnect count_stream
step (said addr message sent) st = (greet addr message sent st).1
step (left addr) st = disconnect addr st
step (piped name to from) st = count_stream name to from st

-- The latest event first.
unfoldable pub run : List Event → AppState → AppState
unfolding step
run [] st = st
run (e ∷ earlier) st = step e (run earlier st)

-- A client has greeted with the token of the server for a tunnel that the server has, and the server has
-- not seen its connection end since.
pub record IsClient (st : AppState) (events : List Event) (name addr : Bytes) : Type 0 where
  pub token : Bytes
  pub wanted : List Bytes
  pub later : List Event
  pub earlier : List Event
  pub sent : Bool
  pub port : ℕ
  pub happened : events ≡ later ++ (said addr (hello token wanted) sent ∷ earlier)
  pub admitted : token ≡ st.token
  pub requested : any (λ n. bytes_eq n name) wanted ≡ true
  pub known : lookup name st.tunnels ≡ some port
  pub stays : All (λ e. e ≢ left addr) later

IsSameServer : AppState → AppState → Type 0
IsSameServer a b = (a.token ≡ b.token) × (a.tunnels ≡ b.tunnels)

welcomed-IsSameServer :
    (addr : Bytes) (sent : Bool) (gr : Grant) (st : AppState)
    → IsSameServer (welcomed addr sent gr st).1 st
unfolding welcomed IsSameServer
welcomed-IsSameServer addr sent (unknown name) st = (refl, refl)
welcomed-IsSameServer addr sent (granted []) st = (refl, refl)
welcomed-IsSameServer addr sent (granted (g ∷ gs)) st = (refl, refl)

step-IsSameServer : (e : Event) (st : AppState) → IsSameServer (step e st) st
unfolding step IsSameServer
step-IsSameServer (said addr ping sent) st = (refl, refl)
step-IsSameServer (said addr (hello token wanted) sent) st =
    elim (Bool-cases (constant_time_eq token st.token)) [
      | inr wrong ↦ rw (step, wrong) (refl, refl)
      | inl right ↦
          rw (step, right) (welcomed-IsSameServer addr sent (grant_all st.tunnels wanted) st)
    ]
step-IsSameServer (left addr) st = elim (Bool-cases (is_active addr st.session)) [
  | inl active ↦ rw (step, active) (refl, refl)
  | inr gone ↦ rw (step, gone) (refl, refl)
]
step-IsSameServer (piped name to from) st = (refl, refl)

run-IsSameServer : (events : List Event) (st : AppState) → IsSameServer (run events st) st
unfolding run IsSameServer
run-IsSameServer [] st = (refl, refl)
run-IsSameServer (e ∷ earlier) st =
    let (token, tunnels) = step-IsSameServer e (run earlier st) in
    let (token', tunnels') = run-IsSameServer earlier st in (token ∙ token', tunnels ∙ tunnels')

Grant-cases :
    (x : Grant)
    → ((name : Bytes) × (x ≡ unknown name)) ⊎ ((gs : List TunnelGranted) × (x ≡ granted gs))
Grant-cases (unknown name) = inl (name, refl)
Grant-cases (granted gs) = inr (gs, refl)

-- What is granted are the names that are wanted, and the server has each.
HasAll : Map ℕ → List Bytes → Type 0
HasAll tunnels wanted =
    (name : Bytes)
    → any (λ n. bytes_eq n name) wanted ≡ true
    → (port : ℕ) × (lookup name tunnels ≡ some port)

HasAll-cons :
    (tunnels : Map ℕ) (w : Bytes) (wanted : List Bytes) (port : ℕ)
    → lookup w tunnels ≡ some port
    → HasAll tunnels wanted
    → HasAll tunnels (w ∷ wanted)
unfolding HasAll
HasAll-cons tunnels w wanted port has more name e = elim (Bool-cases (bytes_eq w name)) [
  | inl same ↦ (port, ap (λ k. lookup k tunnels) (sym ((bytes_eq_iff w name).0 same)) ∙ has)
  | inr other ↦ more name (ground (arith, e, other))
]

grant_all-names :
    (tunnels : Map ℕ) (wanted : List Bytes) (gs : List TunnelGranted)
    → grant_all tunnels wanted ≡ granted gs
    → (names_of gs ≡ wanted) × HasAll tunnels wanted
unfolding grant_all grant_one with_grant HasAll
grant_all-names tunnels [] gs e =
    let nothing : [] ≡ gs = ground (arith, e) in
    (ap names_of (sym nothing), λ name h. absurd (ground (arith, h)))
grant_all-names tunnels (w ∷ wanted) gs e = elim (Option-cases (lookup w tunnels)) [
  | inl missing ↦ absurd (ground (arith, rw missing at e))
  | inr (port, has) ↦ elim (Grant-cases (grant_all tunnels wanted)) [
    | inl (name, bad) ↦ absurd (ground (arith, rw (has, bad) at e))
    | inr (more, good) ↦
        let (names, all_there) = grant_all-names tunnels wanted more good in
        let r : TunnelGranted = record { name = w; remote_port = port } in
        let same : r ∷ more ≡ gs = ground (arith, rw (has, good) at e) in
        (
          sym (ap names_of same) ∙ ap (λ ns. w ∷ ns) names,
          HasAll-cons tunnels w wanted port has all_there,
        )
  ]
]

-- The session of a greeting that succeeds.
record IsWelcome (addr : Bytes) (message : ClientControl) (st st' : AppState) : Type 0 where
  pub token : Bytes
  pub wanted : List Bytes
  pub is_hello : message ≡ hello token wanted
  pub right : token ≡ st.token
  pub all_known : HasAll st.tunnels wanted
  pub now : st'.session ≡ some (record { tunnels = wanted; addr = addr })

welcomed-IsWelcome :
    (sent : Bool) (addr token : Bytes) (wanted : List Bytes) (st : AppState)
    → constant_time_eq token st.token ≡ true
    → ((welcomed addr sent (grant_all st.tunnels wanted) st).1.session ≡ st.session)
      ⊎ IsWelcome addr
          (hello token wanted)
          st
          (welcomed addr sent (grant_all st.tunnels wanted) st).1
unfolding welcomed
welcomed-IsWelcome sent addr token wanted st right =
    elim (Grant-cases (grant_all st.tunnels wanted)) [
      | inl (name, bad) ↦ inl (rw (welcomed, bad) refl)
      | inr ([], good) ↦ inl (rw (welcomed, good) refl)
      | inr (g ∷ gs, good) ↦
          let (names, all_there) = grant_all-names st.tunnels wanted (g ∷ gs) good in
          inr (record {
            token = token;
            wanted = wanted;
            is_hello = refl;
            right = constant_time_eq-same token st.token right;
            all_known = all_there;
            now =
                rw (welcomed, good) (ap (λ ns. some (record { tunnels = ns; addr = addr })) names);
          })
    ]

greet-IsWelcome :
    (sent : Bool) (addr : Bytes) (message : ClientControl) (st : AppState)
    → ((greet addr message sent st).1.session ≡ st.session)
      ⊎ IsWelcome addr message st (greet addr message sent st).1
unfolding greet
greet-IsWelcome sent addr ping st = inl refl
greet-IsWelcome sent addr (hello token wanted) st =
    elim (Bool-cases (constant_time_eq token st.token)) [
      | inr wrong ↦ inl (rw (greet, wrong) refl)
      | inl right ↦ rw (greet, right) (welcomed-IsWelcome sent addr token wanted st right)
    ]

serves-some :
    (name addr : Bytes) (s : ClientSession)
    → serves name (some s) ≡ some addr
    → (s.addr ≡ addr) × (any (λ n. bytes_eq n name) s.tunnels ≡ true)
unfolding serves
serves-some name addr s e = elim (Bool-cases (any (λ n. bytes_eq n name) s.tunnels)) [
  | inl has ↦ (ground (arith, rw has at e), has)
  | inr lacks ↦ absurd (ground (arith, rw lacks at e))
]

serves-none : (name addr : Bytes) → serves name none ≢ some addr
unfolding serves
serves-none name addr e = ground (arith, e)

not_active :
    (other name addr : Bytes) (o : Option ClientSession)
    → is_active other o ≡ false
    → serves name o ≡ some addr
    → addr ≢ other
unfolding is_active
not_active other name addr none idle e same = serves-none name addr e
not_active other name addr (some s) idle e same =
    let at = (serves-some name addr s e).0 ∙ same in
    ground (arith, idle, (bytes_eq_iff s.addr other).1 at)

disconnect-session :
    (addr other name : Bytes) (st : AppState)
    → forward_to name (disconnect other st) ≡ some addr
    → (forward_to name st ≡ some addr) × (addr ≢ other)
unfolding disconnect forward_to serves is_active
disconnect-session addr other name st e = elim (Bool-cases (is_active other st.session)) [
  | inl active ↦ absurd (serves-none name addr (rw (disconnect, active) at e))
  | inr idle ↦
      let on : forward_to name st ≡ some addr = rw (disconnect, idle) at e in
      (on, not_active other name addr st.session idle on)
]

IsClient-later :
    (e : Event) (st : AppState) (events : List Event) (name addr : Bytes)
    → e ≢ left addr
    → IsClient st events name addr
    → IsClient st (e ∷ events) name addr
IsClient-later e st events name addr n c = record {
  token = c.token;
  wanted = c.wanted;
  later = e ∷ c.later;
  earlier = c.earlier;
  sent = c.sent;
  port = c.port;
  happened = ap (λ es. e ∷ es) c.happened;
  admitted = c.admitted;
  requested = c.requested;
  known = c.known;
  stays = (n, c.stays);
}

IsWelcome-IsClient :
    (sent : Bool) (a addr name : Bytes) (message : ClientControl) (start st st' : AppState)
    (events : List Event)
    → IsWelcome a message st st'
    → IsSameServer st start
    → forward_to name st' ≡ some addr
    → IsClient start (said a message sent ∷ events) name addr
unfolding forward_to serves IsSameServer HasAll
IsWelcome-IsClient sent a addr name message start st st' events w (token, tunnels) e =
    let (same, asked) =
      serves-some name addr (record { tunnels = w.wanted; addr = a })
        (ap (serves name) (sym w.now) ∙ e) in
    let (port, has) = w.all_known name asked in
    record {
      token = w.token;
      wanted = w.wanted;
      later = [];
      earlier = events;
      sent = sent;
      port = port;
      happened =
          ap (λ m. said a m sent ∷ events) w.is_hello
          ∙ ap (λ x. said x (hello w.token w.wanted) sent ∷ events) same;
      admitted = w.right ∙ token;
      requested = asked;
      known = ap (lookup name) (sym tunnels) ∙ has;
      stays = tt;
    }

-- From a server without a session, a connection to a tunnel is forwarded only to a client that has
-- greeted with the very token of the server and has asked for that tunnel, which the server has, and the
-- end of whose connection the server has not handled since.
pub forward_to-IsClient :
    (st : AppState) (events : List Event) (name addr : Bytes)
    → st.session ≡ none
    → forward_to name (run events st) ≡ some addr
    → IsClient st events name addr
unfolding run step forward_to
forward_to-IsClient st [] name addr idle e =
    absurd (serves-none name addr (ap (serves name) (sym idle) ∙ e))
forward_to-IsClient st (said a message sent ∷ events) name addr idle e =
    elim (greet-IsWelcome sent a message (run events st)) [
      | inl same ↦
          IsClient-later (said a message sent) st events name addr (λ h. ground (arith, h))
            (forward_to-IsClient st events name addr idle (ap (serves name) (sym same) ∙ e))
      | inr w ↦
          IsWelcome-IsClient sent a addr name message st (run events st)
            (greet a message sent (run events st)).1 events w (run-IsSameServer events st) e
    ]
forward_to-IsClient st (left other ∷ events) name addr idle e =
    let (before, away) = disconnect-session addr other name (run events st) e in
    IsClient-later (left other) st events name addr (λ h. away (ground (arith, h)))
      (forward_to-IsClient st events name addr idle before)
forward_to-IsClient st (piped tunnel to from ∷ events) name addr idle e =
    IsClient-later (piped tunnel to from) st events name addr (λ h. ground (arith, h))
      (forward_to-IsClient st events name addr idle e)
