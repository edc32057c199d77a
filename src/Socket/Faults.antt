-- ===== src/Socket/Faults.antt =====
-- A socket path that does not fit its address.
use caldera_sandbox.Base.{◌≤◌, ◌≡◌, true, false, arith, length}
use caldera_sandbox.Socket.Server.{
  SocketServer, Outcome, listens, parse_unix_endpoint, sun_path_size, bind_socket, ensure_socket,
  start,
}

-- When the path is too long for an address, `start` fails but leaves the new socket in
-- `listen_fd_`. The next `start` takes that for a listening socket: it runs, whatever the operating
-- system would answer, on a socket that was never bound.
pub start-long_path :
    (os : Outcome) (s : SocketServer)
    → s.running ≡ false
    → s.listening ≡ false
    → (parse_unix_endpoint s.config.endpoint s.uds_path).0 ≡ true
    → sun_path_size ≤ length (parse_unix_endpoint s.config.endpoint s.uds_path).1
    → ((start listens s).running ≡ false) × ((start os (start listens s)).running ≡ true)
unfolding start ensure_socket bind_socket
start-long_path os s off closed ok long = ground arith
