-- ===== src/Health.antt =====
-- internal/core/healthcheck.go: `healthCheckSOCKS5Connect` on a connection to the proxy. The bytes that
-- the proxy sends before the connection ends, or its time does, are one sequence.
pub mod Granted
mod Tests
use sudoku_desktop.Prelude.{
  ℕ, ◌+◌, ◌/◌, ◌%◌, not, ◌||◌, List, [], ◌∷◌, ◌++◌, Option, none, some, if◌then◌else◌, ◌==◌, ltb,
  length,
}

abbrev pub Bytes : Type 0
Bytes = List ℕ

-- An address with its four or sixteen bytes.
pub data Ip : Type 0 where
  ip4 ip6 : Bytes → Ip

pub data SocksError : Type 0 where
  cut_off : SocksError
  auth_failed : ℕ → ℕ → SocksError
  bad_version connect_failed unexpected_atyp : ℕ → SocksError

abbrev pub greeting : Bytes
greeting = 5 ∷ 1 ∷ 0 ∷ []

-- `binary.BigEndian.PutUint16` of the port
abbrev pub port_bytes : ℕ → Bytes
port_bytes port = (port / 256 % 256) ∷ (port % 256) ∷ []

unfoldable pub connect_request : Ip → ℕ → Bytes
connect_request (ip4 a) port = 5 ∷ 1 ∷ 0 ∷ 1 ∷ (a ++ port_bytes port)
connect_request (ip6 a) port = 5 ∷ 1 ∷ 0 ∷ 4 ∷ (a ++ port_bytes port)

-- `ioReadFull` into bytes that are not looked at
unfoldable pub read_full : ℕ → Bytes → Option SocksError
read_full n s = if ltb (length s) n then some cut_off else none

-- The address of a reply with its port
unfoldable pub read_domain : Bytes → Option SocksError
unfolding read_full
read_domain [] = some cut_off
read_domain (l ∷ s) = read_full (l + 2) s

unfoldable pub read_address : ℕ → Bytes → Option SocksError
unfolding read_full read_domain
read_address atyp s =
    if atyp == 1
    then read_full 6 s
    else if atyp == 4
    then read_full 18 s
    else if atyp == 3
    then read_domain s
    else some (unexpected_atyp atyp)

unfoldable pub read_reply : Bytes → Option SocksError
unfolding read_address
read_reply (ver ∷ rep ∷ rsv ∷ atyp ∷ s) =
    if not (ver == 5)
    then some (bad_version ver)
    else if not (rep == 0)
    then some (connect_failed rep)
    else read_address atyp s
read_reply _ = some cut_off

-- What is written to the proxy, and the error.
unfoldable pub socks5_connect : Ip → ℕ → Bytes → List Bytes × Option SocksError
unfolding connect_request read_reply
socks5_connect ip port (ver ∷ method ∷ s) =
    if not (ver == 5) || not (method == 0)
    then (greeting ∷ [], some (auth_failed ver method))
    else (greeting ∷ connect_request ip port ∷ [], read_reply s)
socks5_connect ip port _ = (greeting ∷ [], some cut_off)
