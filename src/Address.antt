-- ===== src/Address.antt =====
-- Internet addresses, as the standard library reads and prints them: `ipaddress.ip_address`, the
-- properties `is_loopback`, `is_unspecified`, `version` and `ipv4_mapped`, and `socket.inet_ntop`.
-- `is_loopback` at the end is the program's own function (remnanode-xhttp-clean.py).
pub mod Parse
pub mod Print
use Parse.{ip_address, Ip, v4, v6}
use remnanode_xhttp_cleaner.Base.{
  ℕ, ◌≡◌, Bool, true, false, ◌&&◌, Option, none, some, List, [], ◌∷◌, ◌==◌, ◌/◌, ◌%◌, ◌^◌,
  if◌then◌else◌,
}
use remnanode_xhttp_cleaner.Base.Text.{Text}

-- `address.split("%", 1)[0]`
unfoldable pub without_scope : Text → Text
without_scope [] = []
without_scope (c ∷ s) = let rest = without_scope s in if c == b'%' then [] else c ∷ rest

-- The IPv6 loopback address is ::1 alone (Python up to 3.12).
unfoldable pub ip_is_loopback : Ip → Bool
ip_is_loopback (v4 n) = n / 2 ^ 24 == 127
ip_is_loopback (v6 n) = n == 1

unfoldable pub is_unspecified : Ip → Bool
is_unspecified (v4 n) = n == 0
is_unspecified (v6 n) = n == 0

unfoldable pub version : Ip → ℕ
version (v4 n) = 4
version (v6 n) = 6

-- `ipv4_mapped` of an IPv6 address; an IPv4 address has none.
unfoldable pub ipv4_mapped : Ip → Option Ip
ipv4_mapped (v4 n) = none
ipv4_mapped (v6 n) = if n / 2 ^ 32 == 0xffff then some (v4 (n % 2 ^ 32)) else none

unfoldable pub ip_eq : Ip → Ip → Bool
ip_eq (v4 a) (v4 b) = a == b
ip_eq (v6 a) (v6 b) = a == b
ip_eq _ _ = false

-- `_normalized_ip`: `none` where `ip_address` raises `ValueError`
unfoldable pub normalized_ip : Text → Option Ip
unfolding without_scope ip_address
normalized_ip address = ip_address (without_scope address)

abbrev loopback_or_false : Option Ip → Bool
loopback_or_false none = false
loopback_or_false (some ip) = ip_is_loopback ip

unfoldable pub is_loopback : Text → Bool
unfolding normalized_ip ip_is_loopback
is_loopback address = loopback_or_false (normalized_ip address)
