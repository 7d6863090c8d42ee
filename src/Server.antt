-- ===== src/Server.antt =====
-- The socket server of the earlier version `simple_test_GivingUpOnThisVersionAfter15DaysEffort.c` in
-- SOEM/test/linux/simple_test: `socketServerAction` and `SocketSendResponse` as one step function.
pub mod Serving
pub mod Sockets
mod Tests
use bharatiya_beagle_bone.Common.{ℕ, Bool, true, false, ◌&&◌, not, if◌then◌else◌}

-- SOCKET_SERVER_*; the two failure states that the `switch` has no case for are its `default`.
pub data ServerStatus : Type 0 where
  app_start_init create_socket_to_listen_for_client create_socket_failure_action : ServerStatus
  setup_listening_socket listening_socket_setup_failure_action listen_for_client_socket :
      ServerStatus
  listen_for_client_socket_failure_action accept_client_socket send_status : ServerStatus
  get_data_from_client analyze_query close_socket : ServerStatus

-- What `recv` returns: a number of bytes, 0 or an error.
pub data Received : Type 0 where
  some_bytes end_of_stream recv_error : Received

-- What the calls of the socket library return in one action; `true` is success.
-- `not_initialised` is `WSAGetLastError() == WSANOTINITIALISED`.
pub record Replies : Type 0 where
  pub startup : Bool
  pub getaddrinfo : Bool
  pub socket : Bool
  pub not_initialised : Bool
  pub bind : Bool
  pub listen : Bool
  pub accept : Bool
  pub send : Bool
  pub recv : Received
  pub shutdown : Bool

-- `uiServerSocketStatus`, `sktConnectedToClient`, and whether `ListenSocket` and `ClientSocket` are open:
-- the last two follow the calls of `socket`, `accept` and `closesocket`.
pub record Server : Type 0 where
  pub status : ServerStatus
  pub connected : Bool
  pub listen_open : Bool
  pub client_open : Bool

-- `SocketSendResponse`
unfoldable pub socket_send_response : Bool → Server → Server
socket_send_response sent s =
    if sent
    then record s { status = get_data_from_client }
    else record s { client_open = false; status = app_start_init }

-- The case of the `switch` for each status.
unfoldable pub server_action : ServerStatus → Replies → Server → Server
unfolding socket_send_response
server_action app_start_init r s = record s {
  connected = false;
  status = if r.startup && r.getaddrinfo then create_socket_to_listen_for_client else s.status;
}
server_action create_socket_to_listen_for_client r s =
    if r.socket
    then record s { listen_open = true; status = setup_listening_socket }
    else record s { listen_open = false; status = create_socket_failure_action }
server_action create_socket_failure_action r s = record s {
  status = if r.not_initialised then app_start_init else create_socket_to_listen_for_client;
}
server_action setup_listening_socket r s =
    if r.bind
    then record s { status = listen_for_client_socket }
    else record s { listen_open = false; status = app_start_init }
server_action listen_for_client_socket r s =
    if r.listen
    then record s { status = accept_client_socket }
    else record s { listen_open = false; status = app_start_init }
server_action accept_client_socket r s =
    if r.accept
    then record s {
      connected = true;
      client_open = true;
      listen_open = false;
      status = send_status;
    }
    else record s { client_open = false; listen_open = false; status = app_start_init }
server_action send_status r s = record (socket_send_response r.send s) {
  status = get_data_from_client;
}
server_action get_data_from_client r s = elim r.recv [
  | some_bytes ↦ record s { status = analyze_query }
  | end_of_stream ↦ record s { status = close_socket }
  | recv_error ↦ record s { client_open = false; status = app_start_init }
]
server_action analyze_query r s = record s { status = send_status }
server_action close_socket r s =
    if r.shutdown then s else record s { client_open = false; status = app_start_init }
server_action _ r s = record s { status = app_start_init }

-- `socketServerAction`
unfoldable pub socket_server_action : Replies → Server → Server
unfolding server_action
socket_server_action r s = server_action s.status r s
