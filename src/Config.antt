-- ===== src/Config.antt =====
-- src/config.rs, but for `Credentials`: the configuration, its builder methods, and the two
-- enumerations with their texts.
pub mod Arguments
pub mod Builder
pub mod Verbosity
use socks_hub.Prelude.{ℕ, Option, none, some}
use socks_hub.Text.{Text, codes}
use socks_hub.Net.{SocketAddr, v4}
use socks_hub.Credentials.{Credentials}

pub data ProxyType : Type 0 where
  http socks5 : ProxyType

-- `Display for ProxyType`
unfoldable pub proxy_type_text : ProxyType → Text
proxy_type_text http = codes "http"
proxy_type_text socks5 = codes "socks5"

pub data ArgVerbosity : Type 0 where
  off error warn info debug trace : ArgVerbosity

pub record Config : Type 0 where
  pub source_type : ProxyType
  pub listen_addr : SocketAddr
  pub username : Option Text
  pub password : Option Text
  pub server_addr : SocketAddr
  pub s5_username : Option Text
  pub s5_password : Option Text
  pub acl_file : Option Text
  pub verbosity : ArgVerbosity

-- 127.0.0.1
abbrev localhost : ℕ
localhost = 0x7f000001

-- `Config::default`
abbrev pub default : Config
default = record {
  source_type = http;
  listen_addr = record { ip = v4 localhost; port = 8080 };
  username = none;
  password = none;
  server_addr = record { ip = v4 localhost; port = 1080 };
  s5_username = none;
  s5_password = none;
  acl_file = none;
  verbosity = info;
}

-- `Config::new`
unfoldable pub new_config : SocketAddr → SocketAddr → Config
new_config listen_addr server_addr = record default {
  listen_addr = listen_addr;
  server_addr = server_addr;
}

unfoldable pub get_credentials : Config → Credentials
get_credentials c = record { username = c.username; password = c.password }

unfoldable pub get_s5_credentials : Config → Credentials
get_s5_credentials c = record { username = c.s5_username; password = c.s5_password }
