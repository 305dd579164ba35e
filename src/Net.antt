-- ===== src/Net.antt =====
-- `std::net` addresses, and the target address that the SOCKS library's requests carry. An IPv4
-- address is its 32-bit number, an IPv6 address its 128-bit number.
use socks_hub.Prelude.{
  ℕ, ◌+◌, ◌*◌, ◌/◌, ◌%◌, ◌^◌, ◌<◌, ◌≡◌, Option, none, some, ◌==◌, if◌then◌else◌, arith,
}
use socks_hub.Text.{Text}

pub data IpAddr : Type 0 where
  v4 : ℕ → IpAddr
  v6 : ℕ → IpAddr

pub record SocketAddr : Type 0 where
  pub ip : IpAddr
  pub port : ℕ

-- `socks5_impl::protocol::Address`
pub data Address : Type 0 where
  socket_address : SocketAddr → Address
  domain_address : Text → ℕ → Address

-- `Ipv4Addr::to_ipv6_mapped`: ::ffff:a.b.c.d
unfoldable pub to_ipv6_mapped : ℕ → ℕ
to_ipv6_mapped a = 0xffff * 2 ^ 32 + a

-- `Ipv6Addr::to_ipv4_mapped`
unfoldable pub to_ipv4_mapped : ℕ → Option ℕ
to_ipv4_mapped a = if a / 2 ^ 32 == 0xffff then some (a % 2 ^ 32) else none

-- An IPv4 address is found again in its mapped form.
pub to_ipv4_mapped-to_ipv6_mapped :
    (a : ℕ) → a < 2 ^ 32 → to_ipv4_mapped (to_ipv6_mapped a) ≡ some a
unfolding to_ipv4_mapped to_ipv6_mapped
to_ipv4_mapped-to_ipv6_mapped a h = ground arith
