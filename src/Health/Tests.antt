-- ===== src/Health/Tests.antt =====
-- The theorem on the check through the proxy, at a proxy that connects.
use sudoku_desktop.Prelude.{◌≡◌, ◌↔◌, none, [], ◌∷◌}
use sudoku_desktop.Health.{Bytes, Ip, greeting, connect_request, socks5_connect}
use sudoku_desktop.Health.Granted.{IsGranted, socks5_connect_iff}

abbrev target : Ip
target = Ip.ip4 (1 ∷ 1 ∷ 1 ∷ 1 ∷ [])

abbrev answer : Bytes
answer = 5 ∷ 0 ∷ 5 ∷ 0 ∷ 0 ∷ 1 ∷ 127 ∷ 0 ∷ 0 ∷ 1 ∷ 4 ∷ 56 ∷ []

socks5_connect_iff_example :
    (((socks5_connect target 443 answer).1 ≡ none) ↔ IsGranted answer)
    × ((socks5_connect target 443 answer).1 ≡ none
        → (socks5_connect target 443 answer).0 ≡ greeting ∷ connect_request target 443 ∷ [])
socks5_connect_iff_example = socks5_connect_iff target 443 answer
