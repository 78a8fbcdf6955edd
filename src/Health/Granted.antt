-- ===== src/Health/Granted.antt =====
-- internal/core/healthcheck.go, `healthCheckSOCKS5Connect`, against the messages of RFC 1928.
use sudoku_desktop.Prelude.{
  ℕ, zero, suc, ◌+◌, ◌≤◌, ◌≡◌, refl, ap, sym, subst, ◌↔◌, ◌⊎◌, inl, inr, true, Bool-cases, [], ◌∷◌,
  ◌++◌, none, ◌==◌, length, length-append, arith,
}
use sudoku_desktop.Health.{
  Bytes, Ip, greeting, connect_request, read_full, read_domain, read_address, read_reply,
  socks5_connect,
}

-- An address of the given type with its port (RFC 1928, 5): four bytes, sixteen, or a name with its length.
pub IsBound : ℕ → Bytes → Type 0
IsBound atyp b =
    ((atyp ≡ 1) × (length b ≡ 6))
    ⊎ ((atyp ≡ 4) × (length b ≡ 18))
    ⊎ ((atyp ≡ 3) × (l : ℕ) × (name : Bytes) × (b ≡ l ∷ name) × (length name ≡ l + 2))

-- The proxy chooses no authentication (3) and replies that it is connected (6).
pub IsGranted : Bytes → Type 0
IsGranted s =
    (rsv : ℕ) × (atyp : ℕ) × (bound : Bytes) × (rest : Bytes) × (s
      ≡ 5 ∷ 0 ∷ 5 ∷ 0 ∷ rsv ∷ atyp ∷ (bound ++ rest))
    × IsBound atyp bound

-- A sequence that is long enough starts with so many bytes.
split_at :
    (n : ℕ) (s : Bytes) → n ≤ length s → (b : Bytes) × (r : Bytes) × (s ≡ b ++ r) × (length b ≡ n)
split_at zero s h = ([], s, refl, refl)
split_at (suc n) [] h = absurd (omega arith)
split_at (suc n) (x ∷ s) h =
    let (b, r, e, l) = split_at n s (omega arith) in (x ∷ b, r, ap (λ t. x ∷ t) e, ap suc l)

read_full_enough : (n : ℕ) (s : Bytes) → read_full n s ≡ none → n ≤ length s
unfolding read_full
read_full_enough n s h = ground (arith, h)

read_full-append : (n : ℕ) (b r : Bytes) → length b ≡ n → read_full n (b ++ r) ≡ none
unfolding read_full
read_full-append n b r h = ground (arith, h, length-append b r)

-- What is left to read is an address and more.
Starts : ℕ → Bytes → Type 0
Starts atyp s = (b : Bytes) × (r : Bytes) × (s ≡ b ++ r) × IsBound atyp b

read_address-Starts : (atyp : ℕ) (s : Bytes) → read_address atyp s ≡ none → Starts atyp s
unfolding read_address read_domain Starts IsBound
read_address-Starts atyp s h = elim (Bool-cases (atyp == 1)) [
  | inl one ↦
      let (b, r, e, l) = split_at 6 s (read_full_enough 6 s (ground (arith, h, one))) in
      (b, r, e, inl (ground (arith, one), l))
  | inr not_one ↦ elim (Bool-cases (atyp == 4)) [
    | inl four ↦
        let (b, r, e, l) =
          split_at 18 s (read_full_enough 18 s (ground (arith, h, not_one, four))) in
        (b, r, e, inr (inl (ground (arith, four), l)))
    | inr not_four ↦ elim (Bool-cases (atyp == 3)) [
      | inl three ↦ domain s (ground (arith, h, not_one, not_four, three)) three
      | inr other ↦ absurd (ground (arith, h, not_one, not_four, other))
    ]
  ]
]
  where
    domain : (t : Bytes) → read_domain t ≡ none → (atyp == 3) ≡ true → Starts atyp t
    domain [] e three = cc e
    domain (l ∷ t) e three =
        let (b, r, split, n) = split_at (l + 2) t (read_full_enough (l + 2) t e) in
        (l ∷ b, r, ap (λ u. l ∷ u) split, inr (inr (ground (arith, three), l, b, refl, n)))

read_address-append : (atyp : ℕ) (b r : Bytes) → IsBound atyp b → read_address atyp (b ++ r) ≡ none
unfolding read_address read_domain IsBound
read_address-append atyp b r (inl (one, l)) = rw one (read_full-append 6 b r l)
read_address-append atyp b r (inr (inl (four, l))) = rw four (read_full-append 18 b r l)
read_address-append atyp b r (inr (inr (three, l, name, e, n))) =
    rw (three, e) (read_full-append (l + 2) name r n)

same_header :
    (a m b c d e : ℕ) (s t : Bytes)
    → a ≡ 5
    → m ≡ 0
    → b ≡ 5
    → c ≡ 0
    → s ≡ t
    → ◌≡◌ {A = Bytes} (a ∷ m ∷ b ∷ c ∷ d ∷ e ∷ s) (5 ∷ 0 ∷ 5 ∷ 0 ∷ d ∷ e ∷ t)
same_header a m b c d e s t a5 m0 b5 c0 same = cc

sound : (ip : Ip) (port : ℕ) (s : Bytes) → (socks5_connect ip port s).1 ≡ none → IsGranted s
unfolding socks5_connect read_reply IsGranted Starts
sound ip port [] h = cc h
sound ip port (a ∷ []) h = cc h
sound ip port (a ∷ m ∷ []) h = absurd (ground (arith, h))
sound ip port (a ∷ m ∷ b ∷ []) h = absurd (ground (arith, h))
sound ip port (a ∷ m ∷ b ∷ c ∷ []) h = absurd (ground (arith, h))
sound ip port (a ∷ m ∷ b ∷ c ∷ d ∷ []) h = absurd (ground (arith, h))
sound ip port (a ∷ m ∷ b ∷ c ∷ d ∷ e ∷ s) h =
    let a5 : a ≡ 5 = ground (arith, h) in
    let m0 : m ≡ 0 = ground (arith, h) in
    let b5 : b ≡ 5 = ground (arith, h) in
    let c0 : c ≡ 0 = ground (arith, h) in
    let (bound, rest, split, ok) = read_address-Starts e s (ground (arith, h)) in
    (d, e, bound, rest, same_header a m b c d e s (bound ++ rest) a5 m0 b5 c0 split, ok)

complete : (ip : Ip) (port : ℕ) (s : Bytes) → IsGranted s → (socks5_connect ip port s).1 ≡ none
unfolding socks5_connect read_reply IsGranted
complete ip port s (rsv, atyp, b, r, e, bound) =
    subst (λ t. (socks5_connect ip port t).1 ≡ none) (sym e) (read_address-append atyp b r bound)

-- The check succeeds exactly if the proxy's bytes start with its choice of no authentication and a reply
-- that the connection is made, both whole; and then the greeting and the request for the address were
-- written, in this order.
pub socks5_connect_iff :
    (ip : Ip) (port : ℕ) (s : Bytes)
    → (((socks5_connect ip port s).1 ≡ none) ↔ IsGranted s)
      × ((socks5_connect ip port s).1 ≡ none
          → (socks5_connect ip port s).0 ≡ greeting ∷ connect_request ip port ∷ [])
unfolding socks5_connect
socks5_connect_iff ip port s = ((sound ip port s, complete ip port s), written s)
  where
    written :
        (t : Bytes)
        → (socks5_connect ip port t).1 ≡ none
        → (socks5_connect ip port t).0 ≡ greeting ∷ connect_request ip port ∷ []
    written [] h = cc h
    written (a ∷ []) h = cc h
    written (a ∷ m ∷ t) h = ground (arith, h)
