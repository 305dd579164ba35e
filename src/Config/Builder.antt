-- ===== src/Config/Builder.antt =====
-- The builder methods of `Config` in src/config.rs; each returns the configuration it has changed.
use socks_hub.Prelude.{some}
use socks_hub.Text.{Text}
use socks_hub.Net.{SocketAddr}
use socks_hub.Config.{Config, ProxyType, ArgVerbosity}

unfoldable pub source_type : Config → ProxyType → Config
source_type c t = record c { source_type = t }

unfoldable pub listen_addr : Config → SocketAddr → Config
listen_addr c a = record c { listen_addr = a }

unfoldable pub server_addr : Config → SocketAddr → Config
server_addr c a = record c { server_addr = a }

unfoldable pub username : Config → Text → Config
username c t = record c { username = some t }

unfoldable pub password : Config → Text → Config
password c t = record c { password = some t }

unfoldable pub s5_username : Config → Text → Config
s5_username c t = record c { s5_username = some t }

unfoldable pub s5_password : Config → Text → Config
s5_password c t = record c { s5_password = some t }

unfoldable pub acl_file : Config → Text → Config
acl_file c t = record c { acl_file = some t }

unfoldable pub verbosity : Config → ArgVerbosity → Config
verbosity c v = record c { verbosity = v }
