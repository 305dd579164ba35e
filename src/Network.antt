-- ===== src/Network.antt =====
-- The network as src/lib.rs, src/http2socks.rs and src/socks2socks.rs use it. Sockets, the name
-- resolver and the SOCKS client of socks5-impl are the fields of `Network`.
pub mod Sessions
use socks_hub.Prelude.{ℕ, ◌≡◌, arith, List, [], ◌∷◌, Option}
use socks_hub.Text.{Text, codes}
use socks_hub.Io.{Error, other, Result, ok, err}
use socks_hub.Net.{SocketAddr, Address}
use socks_hub.Credentials.{UserKey}
use socks_hub.Effects.{Run, pure, raise, act, ◌>>=◌}

pub record Network : Type 1 where
  pub Stream : Type 0
  -- `TcpStream::connect` to a name and port, to an address, and to an address under a timeout of
  -- so many seconds
  pub connect_host : Text → ℕ → Result Stream
  pub connect_addr : SocketAddr → Result Stream
  pub connect_timeout : SocketAddr → ℕ → Result Stream
  -- `socks5_impl::client::connect`
  pub socks_connect : Stream → Address → Option UserKey → Result (Unit {0})
  pub copy_bidirectional : Stream → Stream → Result (Unit {0})
  -- `Address::from((host, port))`, `Address::domain`, `Address::to_socket_addrs`
  pub address_from : Text → ℕ → Address
  pub domain : Address → Text
  pub to_socket_addrs : Address → Result (List SocketAddr)

module _ (n : Network) where
  pub data NetAction : Type 0 where
    dial_host : Text → ℕ → NetAction
    dial_addr : SocketAddr → NetAction
    dial_timeout : SocketAddr → ℕ → NetAction
    socks_request : n.Stream → Address → Option UserKey → NetAction
    copy : n.Stream → n.Stream → NetAction

-- `CONNECT_TIMEOUT`, in seconds
abbrev pub connect_timeout_secs : ℕ
connect_timeout_secs = 5

-- `std_io_error_other`
abbrev pub std_io_error_other : Text → Error
std_io_error_other message = record { kind = other; message = message }

-- `.map_err(std_io_error_other)`
abbrev pub map_err_other {ℓ} : {A : Type ℓ} → Result A → Result A
map_err_other (ok a) = ok a
map_err_other (err e) = err (std_io_error_other e.message)

module _ {n : Network} {Act : Type 0} (net : NetAction n → Act) where
  -- `create_s5_connect`: dial the SOCKS5 server under the timeout and ask it for the target.
  unfoldable pub create_s5_connect : SocketAddr → ℕ → Address → Option UserKey → Run Act n.Stream
  create_s5_connect server dur dst auth = do
    stream ← act (net (dial_timeout server dur)) (n.connect_timeout server dur)
    done ← act (net (socks_request stream dst auth)) (n.socks_connect stream dst auth)
    pure stream

  -- `dst.to_socket_addrs()?.next().ok_or(std_io_error_other("no address found"))?`
  unfoldable pub first_address : Address → Run Act SocketAddr
  first_address dst = elim (n.to_socket_addrs dst) [
    | err e ↦ raise e
    | ok addrs ↦ elim addrs [
      | [] ↦ raise (std_io_error_other (codes "no address found"))
      | addr ∷ _ ↦ pure addr
    ]
  ]

  -- A SOCKS5 connection that is made was dialled and granted.
  pub create_s5_connect-eq-ok :
      (server : SocketAddr) (dur : ℕ) (dst : Address) (auth : Option UserKey) (stream : n.Stream)
      → (create_s5_connect server dur dst auth).1 ≡ ok stream
      → (n.connect_timeout server dur ≡ ok stream) × (n.socks_connect stream dst auth ≡ ok tt)
  unfolding create_s5_connect
  create_s5_connect-eq-ok server dur dst auth stream e = ground arith

  -- Resolving takes no action of its own, and gives the first address that there is.
  pub first_address-quiet : (dst : Address) → (first_address dst).0 ≡ []
  unfolding first_address
  first_address-quiet dst = ground arith

  pub first_address-eq-ok :
      (dst : Address) (addr : SocketAddr)
      → (first_address dst).1 ≡ ok addr
      → (rest : List SocketAddr) × (n.to_socket_addrs dst ≡ ok (addr ∷ rest))
  unfolding first_address
  first_address-eq-ok dst addr e = ground arith
