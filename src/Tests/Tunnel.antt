-- ===== src/Tests/Tunnel.antt =====
-- Runs of tunnel/.
use pertisk_proxy.Base.{
  ◌≡◌, refl, true, [], ◌∷◌, ◌++◌, List, none, some, Bytes, arith, lookup, insert, has_key, bytes_eq,
}
use pertisk_proxy.Text.{codes, trim}
use pertisk_proxy.Tunnel.Frames.{ok, err, io, hello, read_frame}
use pertisk_proxy.Tunnel.Frames.Streams.{
  AllSendable, write_frames, read_frames, read_frames-write_frames, read_frame_truncated,
}
use pertisk_proxy.Tunnel.Server.{TunnelDef, AppState, loaded, load_tunnels, forward_to}
use pertisk_proxy.Tunnel.Server.Config.{IsPortMapOf, load_tunnels-IsPortMapOf}
use pertisk_proxy.Tunnel.Server.Sessions.{Event, said, piped, run, IsClient, forward_to-IsClient}

-- A serializer of texts as they are.
abbrev two_texts : List Bytes
two_texts = codes "ab" ∷ codes "" ∷ []

two_sendable : AllSendable some some two_texts
two_sendable = (
  record { body = codes "ab"; written = refl; fits = omega arith; reads_back = refl },
  (record { body = []; written = refl; fits = omega arith; reads_back = refl }, tt),
)

read_frames-write_frames_example :
    read_frames some some 2 (write_frames some some two_texts [] ++ codes "rest")
    ≡ (ok (codes "ab") ∷ ok [] ∷ [], codes "rest")
read_frames-write_frames_example =
    read_frames-write_frames some some two_texts two_sendable (codes "rest")

read_frame_truncated_example : (read_frame {A = Bytes} some (0 ∷ 0 ∷ 0 ∷ 2 ∷ b'a' ∷ [])).0 ≡ err io
read_frame_truncated_example = read_frame_truncated some (codes "ab") 5 (omega arith) (omega arith)

abbrev two_tunnels : List TunnelDef
two_tunnels =
    record { name = codes "app"; remote_port = 8001 }
    ∷ record { name = codes "db"; remote_port = 8002 }
    ∷ []

two_loaded : load_tunnels two_tunnels ≡ loaded ((codes "app", 8001) ∷ (codes "db", 8002) ∷ [])
unfolding load_tunnels trim insert has_key bytes_eq
two_loaded = refl

load_tunnels-IsPortMapOf_example :
    IsPortMapOf two_tunnels ((codes "app", 8001) ∷ (codes "db", 8002) ∷ [])
load_tunnels-IsPortMapOf_example =
    load_tunnels-IsPortMapOf two_tunnels ((codes "app", 8001) ∷ (codes "db", 8002) ∷ []) two_loaded

abbrev idle_server : AppState
idle_server = record {
  token = codes "key";
  tunnels = (codes "app", 8001) ∷ [];
  counters = [];
  session = none;
}

-- A client greets, one with a wrong token after it, and a stream ends.
abbrev three_events : List Event
three_events =
    piped (codes "app") 10 20
    ∷ said (codes "b") (hello (codes "kex") (codes "app" ∷ [])) true
    ∷ said (codes "a") (hello (codes "key") (codes "app" ∷ [])) true
    ∷ []

a_serves : forward_to (codes "app") (run three_events idle_server) ≡ some (codes "a")
unfolding run forward_to bytes_eq lookup
a_serves = refl

forward_to-IsClient_example : IsClient idle_server three_events (codes "app") (codes "a")
forward_to-IsClient_example =
    forward_to-IsClient idle_server three_events (codes "app") (codes "a") refl a_serves
