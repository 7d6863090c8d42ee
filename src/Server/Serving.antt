-- ===== src/Server/Serving.antt =====
-- Serving a client.
use bharatiya_beagle_bone.Common.{◌≡◌, ◌⊎◌, arith, true, List, [], ◌∷◌}
use bharatiya_beagle_bone.Server.{
  app_start_init, create_socket_to_listen_for_client, setup_listening_socket,
  listen_for_client_socket, accept_client_socket, send_status, get_data_from_client, analyze_query,
  some_bytes, Replies, Server, socket_server_action, server_action, socket_send_response,
}

-- Every call succeeds, and the client goes on sending.
pub record AllWell (r : Replies) : Type 0 where
  pub startup : r.startup ≡ true
  pub getaddrinfo : r.getaddrinfo ≡ true
  pub socket : r.socket ≡ true
  pub bind : r.bind ≡ true
  pub listen : r.listen ≡ true
  pub accept : r.accept ≡ true
  pub send : r.send ≡ true
  pub recv : r.recv ≡ some_bytes

-- A client is served.
pub record IsServing (s : Server) : Type 0 where
  pub connected : s.connected ≡ true
  pub client : s.client_open ≡ true
  pub status :
      (s.status ≡ send_status) ⊎ ((s.status ≡ get_data_from_client) ⊎ (s.status ≡ analyze_query))

abbrev pub actions : List Replies → Server → Server
actions [] s = s
actions (r ∷ rs) s = actions rs (socket_server_action r s)

abbrev pub EveryWell : List Replies → Type 0
EveryWell [] = Unit {0}
EveryWell (r ∷ rs) = AllWell r × EveryWell rs

action-IsServing :
    (r : Replies) (s : Server) → AllWell r → IsServing s → IsServing (socket_server_action r s)
unfolding socket_server_action server_action socket_send_response
action-IsServing r s well h = ground arith

actions-IsServing :
    (rs : List Replies) (s : Server) → EveryWell rs → IsServing s → IsServing (actions rs s)
actions-IsServing [] s well h = h
actions-IsServing (r ∷ rs) s (here, later) h =
    actions-IsServing rs (socket_server_action r s) later (action-IsServing r s here h)

-- The way from the start to a client.
well_next :
    (r : Replies) (s : Server)
    → AllWell r
    → let s' = socket_server_action r s in
      (s.status ≡ app_start_init → s'.status ≡ create_socket_to_listen_for_client)
      × (s.status ≡ create_socket_to_listen_for_client → s'.status ≡ setup_listening_socket)
      × (s.status ≡ setup_listening_socket → s'.status ≡ listen_for_client_socket)
      × (s.status ≡ listen_for_client_socket → s'.status ≡ accept_client_socket)
      × (s.status ≡ accept_client_socket → IsServing s')
unfolding socket_server_action server_action
well_next r s well =
    (λ h. ground arith, λ h. ground arith, λ h. ground arith, λ h. ground arith, λ h. ground arith)

-- When every call succeeds and the client goes on sending, then from the start state the server serves
-- a client after five actions, and after any number more.
pub actions_serve :
    (a b c d e : Replies) (rs : List Replies) (s : Server)
    → s.status ≡ app_start_init
    → EveryWell (a ∷ b ∷ c ∷ d ∷ e ∷ rs)
    → IsServing (actions (a ∷ b ∷ c ∷ d ∷ e ∷ rs) s)
actions_serve a b c d e rs s start (wa, (wb, (wc, (wd, (we, ws))))) =
    let s1 = socket_server_action a s in
    let s2 = socket_server_action b s1 in
    let s3 = socket_server_action c s2 in
    let s4 = socket_server_action d s3 in
    let h1 = (well_next a s wa).0 start in
    let h2 = (well_next b s1 wb).1 h1 in
    let h3 = (well_next c s2 wc).2 h2 in
    let h4 = (well_next d s3 wd).3 h3 in
    actions-IsServing rs (socket_server_action e s4) ws ((well_next e s4 we).4 h4)
