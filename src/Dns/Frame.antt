-- ===== src/Dns/Frame.antt =====
-- dns_proxy.go: the framing of messages over TCP.
use sudoku_desktop.Prelude.{
  ◌+◌, ◌*◌, ◌/◌, ◌%◌, ◌≤◌, ◌≡◌, ◌⊎◌, refl, ap, [], ◌∷◌, ◌++◌, none, some, length, take, drop,
  length-append, arith,
}
use sudoku_desktop.Dns.{Bytes, write_dns_over_tcp, read_dns_over_tcp}

take-append : (xs ys : Bytes) → take (length xs) (xs ++ ys) ≡ xs
take-append [] ys = refl
take-append (x ∷ xs) ys = ap (◌∷◌ x) (take-append xs ys)

drop-append : (xs ys : Bytes) → drop (length xs) (xs ++ ys) ≡ ys
drop-append [] ys = refl
drop-append (x ∷ xs) ys = drop-append xs ys

-- A message of 1 to 65535 bytes is written with its length, and read back from the stream as it was,
-- whatever follows it; a message of any other length is refused.
pub read-write_dns_over_tcp :
    (msg rest : Bytes)
    → (1 ≤ length msg
        → length msg ≤ 65535
        → (framed : Bytes) × (write_dns_over_tcp msg ≡ some framed)
          × (read_dns_over_tcp (framed ++ rest) ≡ some (msg, rest)))
      × ((length msg ≡ 0) ⊎ (65536 ≤ length msg) → write_dns_over_tcp msg ≡ none)
unfolding write_dns_over_tcp read_dns_over_tcp
read-write_dns_over_tcp msg rest = (
  λ low high. (
    length msg / 256 % 256 ∷ length msg % 256 ∷ msg,
    ground arith,
    (let n : length msg / 256 % 256 * 256 + length msg % 256 ≡ length msg = omega arith in
        let fits = length-append msg rest in
        rw (n, take-append msg rest, drop-append msg rest) (ground (arith, fits))),
  ),
  λ wrong. ground arith,
)
