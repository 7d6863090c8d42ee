-- ===== src/Server/Sockets.antt =====
-- Which sockets are open in which state.
use bharatiya_beagle_bone.Common.{◌≡◌, refl, arith, true, false, List, [], ◌∷◌}
use bharatiya_beagle_bone.Server.{
  ServerStatus, setup_listening_socket, listen_for_client_socket, accept_client_socket, send_status,
  get_data_from_client, analyze_query, close_socket, Replies, Server, socket_server_action,
  server_action, socket_send_response,
}
use bharatiya_beagle_bone.Server.Serving.{actions}

-- The socket that the next action uses is open.
abbrev pub Uses : ServerStatus → Server → Type 0
Uses setup_listening_socket s = s.listen_open ≡ true
Uses listen_for_client_socket s = s.listen_open ≡ true
Uses accept_client_socket s = s.listen_open ≡ true
Uses send_status s = s.client_open ≡ true
Uses get_data_from_client s = s.client_open ≡ true
Uses analyze_query s = s.client_open ≡ true
Uses close_socket s = s.client_open ≡ true
Uses _ s = Unit {0}

abbrev pub IsSound : Server → Type 0
IsSound s = Uses s.status s

abbrev pub EverySent : List Replies → Type 0
EverySent [] = Unit {0}
EverySent (r ∷ rs) = (r.send ≡ true) × EverySent rs

-- A `send` that fails while the status is sent closes the client's socket and leaves the server in the
-- state in which it reads from that socket.
pub send_fails :
    (r : Replies) (s : Server)
    → s.status ≡ send_status
    → r.send ≡ false
    → let s' = socket_server_action r s in
      (s'.client_open ≡ false) × (s'.status ≡ get_data_from_client) × ¬ IsSound s'
unfolding socket_server_action server_action socket_send_response
send_fails r s h failed = ground arith

abbrev pub EveryShutDown : List Replies → Type 0
EveryShutDown [] = Unit {0}
EveryShutDown (r ∷ rs) = (r.shutdown ≡ true) × EveryShutDown rs

close_socket_stays :
    (r : Replies) (s : Server)
    → s.status ≡ close_socket
    → r.shutdown ≡ true
    → socket_server_action r s ≡ s
unfolding socket_server_action server_action
close_socket_stays r s h ok = ground arith

-- Once the client has ended its stream, no action changes the server while `shutdown` succeeds: the
-- socket stays open, and no other client is accepted.
pub actions_closing :
    (rs : List Replies) (s : Server) → s.status ≡ close_socket → EveryShutDown rs → actions rs s ≡ s
actions_closing [] s h ok = refl
actions_closing (r ∷ rs) s h (here, later) =
    let e = close_socket_stays r s h here in rw e (actions_closing rs s h later)
