-- ===== src/Net/InetAddress.antt =====
-- mymuduo/net/InetAddress.h and InetAddress.cpp: an IPv4 address with a port. The text of an address
-- is what `inet_ntop` gives for it, 15 bytes at most, such as `255.255.255.255`.
use simple_http_server.Common.{ℕ, ◌^◌, ◌%◌, ◌≤◌, ◌<◌, arith, ◌++◌, length, length-append}
use simple_http_server.Common.Bytes.{Bytes, codes}
use simple_http_server.Common.Decimal.{decimal, length-decimal_below}

pub record InetAddress : Type 0 where
  pub ip : Bytes
  pub port : ℕ

-- The constructor, whose port is a `uint16_t`; `dotted` is what `inet_ntop` gives for what
-- `inet_addr` makes of the text.
unfoldable pub new_address : (Bytes → Bytes) → ℕ → Bytes → InetAddress
new_address dotted port ip = record { ip = dotted ip; port = port % 2 ^ 16 }

unfoldable pub to_ip : InetAddress → Bytes
to_ip a = a.ip

unfoldable pub to_port : InetAddress → ℕ
to_port a = a.port

unfoldable pub to_ip_port : InetAddress → Bytes
unfolding decimal
to_ip_port a = a.ip ++ (codes ":" ++ decimal a.port)

-- A dotted address and a port of 16 bits.
pub record IsValid (a : InetAddress) : Type 0 where
  pub dotted : length a.ip ≤ 15
  pub port_bits : a.port < 2 ^ 16

-- The text of a valid address with its port has 21 bytes at most; so the 64 bytes of the buffer that
-- `sprintf` writes it into suffice.
pub length-to_ip_port : (a : InetAddress) → IsValid a → length (to_ip_port a) ≤ 21
unfolding to_ip_port
length-to_ip_port a v = omega (
  arith,
  length-append a.ip (codes ":" ++ decimal a.port),
  length-decimal_below 4 a.port (omega (arith, v.port_bits)),
  v.dotted,
)
