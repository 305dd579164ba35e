-- ===== src/Socks2Socks/Client.antt =====
-- A SOCKS5 client's connection as the server side of socks5-impl presents it, and what the program
-- does to it.
use socks_hub.Prelude.{Bool}
use socks_hub.Io.{Result}
use socks_hub.Net.{SocketAddr, Address}
use socks_hub.Network.{Network, NetAction}

-- The output of the authentication adaptor; the program looks for an `io::Result<bool>` in it.
pub data AuthOutput : Type 0 where
  no_verdict : AuthOutput
  verdict : Result Bool → AuthOutput

-- `ClientConnection`
pub data ClientRequest : Type 0 where
  udp_associate : ClientRequest
  bind : ClientRequest
  connect : Address → ClientRequest

-- `Reply`, as far as the program sends it.
pub data Reply : Type 0 where
  succeeded general_failure command_not_supported : Reply

-- What one connection answers: its authentication, its request, a reply and a shutdown. `tracing`
-- says whether the log level makes `log::trace!` evaluate its arguments.
pub record Client (n : Network) : Type 0 where
  pub authenticate : Result AuthOutput
  pub wait_request : Result ClientRequest
  pub reply : Reply → Address → Result n.Stream
  pub shutdown : n.Stream → Result (Unit {0})
  pub peer_addr : n.Stream → Result SocketAddr
  pub tracing : Bool
  -- `Address::unspecified()`
  pub unspecified : Address

pub data ClientAction (n : Network) : Type 0 where
  net : NetAction n → ClientAction n
  do_authenticate : ClientAction n
  do_wait_request : ClientAction n
  send_reply : Reply → Address → ClientAction n
  do_shutdown : ClientAction n
  start_udp : ClientAction n
