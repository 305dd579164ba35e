-- ===== src/Tests/Toy.antt =====
-- A concrete network, where every connection succeeds and a stream is a number, and concrete HTTP
-- and base64 crates, where a header map is a function and encoding changes nothing.
use socks_hub.Prelude.{ℕ, ◌≡◌, ◌≢◌, refl, ◌∷◌, [], Option, none, some}
use socks_hub.Text.{Text, codes}
use socks_hub.Io.{ok}
use socks_hub.Net.{SocketAddr, v4, Address, socket_address, domain_address}
use socks_hub.Base64.{EngineCrate, EngineLaws}
use socks_hub.Config.{Config, default}
use socks_hub.Network.{Network}
use socks_hub.Http2Socks.World.{World, HeaderLaws, HeaderName, authorization, proxy_authorization}

abbrev pub server : SocketAddr
server = record { ip = v4 7; port = 1080 }

abbrev domain_of : Address → Text
domain_of (socket_address addr) = codes "address"
domain_of (domain_address host port) = host

abbrev pub toy_network : Network
toy_network = record {
  Stream = ℕ;
  connect_host = λ host port. ok 1;
  connect_addr = λ addr. ok 2;
  connect_timeout = λ addr secs. ok 3;
  socks_connect = λ stream dst key. ok tt;
  copy_bidirectional = λ a b. ok tt;
  address_from = domain_address;
  domain = domain_of;
  to_socket_addrs = λ dst. ok (server ∷ []);
}

abbrev pub toy_base64 : EngineCrate
toy_base64 = record {
  Engine = Unit;
  standard_engine = tt;
  standard_no_pad_engine = tt;
  url_safe_engine = tt;
  url_safe_no_pad_engine = tt;
  encode = λ engine bytes. bytes;
  decode = λ engine text. some text;
}

abbrev pub toy_base64_laws : EngineLaws toy_base64
toy_base64_laws = record { decode-encode = λ engine bytes. refl }

abbrev pub HeaderMap : Type 0
HeaderMap = HeaderName → Option Text

abbrev pub remove : HeaderMap → HeaderName → HeaderMap
remove m authorization authorization = none
remove m authorization proxy_authorization = m proxy_authorization
remove m proxy_authorization authorization = m authorization
remove m proxy_authorization proxy_authorization = none

abbrev pub toy_world : World
toy_world = record {
  network = toy_network;
  base64 = toy_base64;
  HeaderMap = HeaderMap;
  HeaderValue = Text;
  Incoming = Text;
  Sender = ℕ;
  Body = Text;
  get = λ m h. m h;
  remove = remove;
  to_str = some;
  handshake = λ stream. ok stream;
  send = λ sender req. ok (codes "hello");
}

pub get-remove_self_lem : (m : HeaderMap) (h : HeaderName) → remove m h h ≡ none
get-remove_self_lem m authorization = refl
get-remove_self_lem m proxy_authorization = refl

pub get-remove_ne_lem : (m : HeaderMap) (h k : HeaderName) → h ≢ k → remove m h k ≡ m k
get-remove_ne_lem m authorization authorization ne = absurd (ne refl)
get-remove_ne_lem m authorization proxy_authorization ne = refl
get-remove_ne_lem m proxy_authorization authorization ne = refl
get-remove_ne_lem m proxy_authorization proxy_authorization ne = absurd (ne refl)

abbrev pub toy_laws : HeaderLaws toy_world
toy_laws = record { get-remove_self = get-remove_self_lem; get-remove_ne = get-remove_ne_lem }

-- A server that asks for a user name and a password.
abbrev pub guarded : Config
guarded = record default { username = some (codes "ann"); password = some (codes "pw") }

-- A server that has only a user name.
abbrev pub half_set : Config
half_set = record default { username = some (codes "ann") }
