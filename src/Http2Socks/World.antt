-- ===== src/Http2Socks/World.antt =====
-- The HTTP library as src/http2socks.rs uses it: requests, answers, header maps, connections.
use socks_hub.Prelude.{ℕ, ◌≡◌, ◌≢◌, List, [], Option, none}
use socks_hub.Text.{Text}
use socks_hub.Text.Utf8.{as_bytes}
use socks_hub.Io.{Result}
use socks_hub.Net.{SocketAddr, Address}
use socks_hub.Base64.{EngineCrate}
use socks_hub.Credentials.{UserKey}
use socks_hub.Network.{Network, NetAction}

-- `hyper::Method`, of which the program tells CONNECT from the others.
pub data Method : Type 0 where
  connect : Method
  other_method : Text → Method

-- The two headers that the program reads.
pub data HeaderName : Type 0 where
  authorization proxy_authorization : HeaderName

-- `hyper::Request`; `host` and `port` are those of its URI.
pub record Request (HeaderMap Incoming : Type 0) : Type 0 where
  pub method : Method
  pub host : Option Text
  pub port : Option ℕ
  pub headers : HeaderMap
  pub body : Incoming

pub record World : Type 1 where
  pub network : Network
  pub base64 : EngineCrate
  pub HeaderMap : Type 0
  pub HeaderValue : Type 0
  pub Incoming : Type 0
  pub Sender : Type 0
  pub Body : Type 0
  -- `HeaderMap::get`, `HeaderMap::remove`, `HeaderValue::to_str`
  pub get : HeaderMap → HeaderName → Option HeaderValue
  pub remove : HeaderMap → HeaderName → HeaderMap
  pub to_str : HeaderValue → Option Text
  -- the client's `handshake` and `SendRequest::send_request`
  pub handshake : network.Stream → Result Sender
  pub send : Sender → Request HeaderMap Incoming → Result Body

-- What the http crate documents of `remove`: no value of the header is left, and the other header
-- keeps its values.
pub record HeaderLaws (w : World) : Type 0 where
  pub get-remove_self : (m : w.HeaderMap) (h : HeaderName) → w.get (w.remove m h) h ≡ none
  pub get-remove_ne :
      (m : w.HeaderMap) (h k : HeaderName) → h ≢ k → w.get (w.remove m h) k ≡ w.get m k

-- `empty` and `full`: the bodies of the program's own answers, as bytes.
abbrev pub empty : List ℕ
empty = []

abbrev pub full : Text → List ℕ
full chunk = as_bytes chunk

-- An answer of the program's own, by status and body, or the one that came from upstream.
pub data Response (Body : Type 0) : Type 0 where
  local : ℕ → List ℕ → Response Body
  upstream : Body → Response Body

module _ (w : World) where
  abbrev pub HttpRequest : Type 0
  HttpRequest = Request w.HeaderMap w.Incoming

  pub data Action : Type 0 where
    net : NetAction w.network → Action
    shake_hands : w.network.Stream → Action
    send_request : w.Sender → HttpRequest → Action
    spawn_tunnel : HttpRequest → Address → SocketAddr → Option UserKey → Action
