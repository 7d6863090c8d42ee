-- ===== src/Server/Tests.antt =====
-- Runs of the server.
use bharatiya_beagle_bone.Common.{refl, true, false, List, [], ◌∷◌}
use bharatiya_beagle_bone.Server.{
  Replies, Server, app_start_init, send_status, close_socket, some_bytes,
}
use bharatiya_beagle_bone.Server.Serving.{AllWell, IsServing, actions, actions_serve}

abbrev good : Replies
good = record {
  startup = true;
  getaddrinfo = true;
  socket = true;
  not_initialised = false;
  bind = true;
  listen = true;
  accept = true;
  send = true;
  recv = some_bytes;
  shutdown = true;
}

good-AllWell : AllWell good
good-AllWell = record {
  startup = refl;
  getaddrinfo = refl;
  socket = refl;
  bind = refl;
  listen = refl;
  accept = refl;
  send = refl;
  recv = refl;
}

abbrev at_start : Server
at_start = record {
  status = app_start_init;
  connected = false;
  listen_open = false;
  client_open = false;
}

abbrev two_more : List Replies
two_more = good ∷ good ∷ []

actions_serve_example : IsServing (actions (good ∷ good ∷ good ∷ good ∷ good ∷ two_more) at_start)
actions_serve_example = actions_serve good good good good good two_more at_start refl (
  good-AllWell,
  (
    good-AllWell,
    (good-AllWell, (good-AllWell, (good-AllWell, (good-AllWell, (good-AllWell, tt))))),
  ),
)

-- No socket can be made.
abbrev no_socket : Replies
no_socket = record good { socket = false }

abbrev sending : Server
sending = record { status = send_status; connected = true; listen_open = false; client_open = true }

abbrev closing : Server
closing = record sending { status = close_socket }
