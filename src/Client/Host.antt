-- ===== src/Client/Host.antt =====
-- The address that src/statsd_client.c sends to.
use statsd_c.Base.{ℕ, ◌%◌, ◌-◌, ◌^◌, Option, none, some, [], ◌∷◌, Bytes, ◌==◌, take, if◌then◌else◌}
use statsd_c.Strings.Decimal.{ℤ, pos, negsuc}
use statsd_c.Client.{Settings}

-- What `gethostbyname_r` gives: an error, no entry, or an entry with its first address, if it has
-- one, and the length of its addresses.
pub data HostLookup : Type 0 where
  failed no_entry : HostLookup
  entry : Option Bytes → ℕ → HostLookup

-- 0.0.0.0
abbrev pub no_address : Bytes
no_address = 0 ∷ 0 ∷ 0 ∷ 0 ∷ []

-- The four bytes of the address, in the order of the network.
unfoldable pub resolve_host : HostLookup → Bytes
resolve_host failed = no_address
resolve_host no_entry = no_address
resolve_host (entry none h_length) = no_address
resolve_host (entry (some h_addr) h_length) = if h_length == 4 then take 4 h_addr else no_address

-- `htons` of an `int`
abbrev pub port_number : ℤ → ℕ
port_number (pos n) = n % 2 ^ 16
port_number (negsuc n) = 2 ^ 16 - 1 - n % 2 ^ 16

-- `sa`: the address and the port.
abbrev pub destination : HostLookup → Settings → Bytes × ℕ
destination lookup s = (resolve_host lookup, port_number s.port)
