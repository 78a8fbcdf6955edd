-- ===== src/Dns/Reply.antt =====
-- dns_proxy.go: what the cache holds, and that every query is answered under its own identifier.
use text.Mathlib.TextPositions.{eq_refl}
use mathlib.Core.List.{Memᴰ}
use sudoku_desktop.Prelude.{
  ◌⊎◌, not, ◌&&◌, ◌==◌, if◌then◌else◌, Option, ℕ, ◌+◌, ◌≤◌, ◌<◌, ◌≡◌, Bool, refl, List, [], ◌∷◌,
  Option, some, length, inl, inr, arith, ltb, ◌||◌, false, Bool-cases, Option-cases, String,
}
use sudoku_desktop.Dns.{
  Bytes, Cache, dns_id, with_id, lookup, delete, put, load_cache, store_cache, Resolver, is_empty,
  resolve, handle_query, forward_direct, ask_doh, ask_udp, cache_key, Header, Question,
  build_servfail_with_id, build_nodata, build_nodata_with_id, should_direct, no_data_ttl,
  answer_ttl, type_aaaa, is_likely_local_hostname,
}

length-delete : (key : String) (cache : Cache) → length (delete key cache) ≤ length cache
unfolding delete
length-delete key [] = omega arith
length-delete key (e ∷ es) = ground (arith, length-delete key es)

with_id-with_id : (a b : ℕ) (m : Bytes) → with_id a (with_id b m) ≡ with_id a m
unfolding with_id
with_id-with_id a b [] = refl
with_id-with_id a b (x ∷ []) = refl
with_id-with_id a b (x ∷ y ∷ m) = refl

length-with_id : (a : ℕ) (m : Bytes) → length (with_id a m) ≡ length m
unfolding with_id
length-with_id a [] = refl
length-with_id a (x ∷ []) = refl
length-with_id a (x ∷ y ∷ m) = refl

dns_id-with_id : (id : ℕ) (m : Bytes) → id < 65536 → 2 ≤ length m → dns_id (with_id id m) ≡ id
unfolding with_id dns_id
dns_id-with_id id [] low long = absurd (omega arith)
dns_id-with_id id (x ∷ []) low long = absurd (omega arith)
dns_id-with_id id (x ∷ y ∷ m) low long = omega arith

-- An answer that was stored is loaded, until it expires, with the identifier of the query that asks and
-- else unchanged; after that it is not loaded. The cache never holds more than 1025 answers.
pub load-store_cache :
    (now later id ttl : ℕ) (key : String) (resp : Bytes) (cache : Cache)
    → 2 ≤ length resp
    → (later ≤ now + ttl
        → (load_cache later key id (store_cache now key resp ttl cache)).1 ≡ with_id id resp)
      × (now + ttl < later → (load_cache later key id (store_cache now key resp ttl cache)).1 ≡ [])
      × (length cache ≤ 1025 → length (store_cache now key resp ttl cache) ≤ 1025)
unfolding load_cache store_cache put lookup
load-store_cache now later id ttl key resp cache long = (
  λ h. ground (arith, eq_refl key, with_id-with_id id 0 resp, length-with_id 0 resp),
  λ h. ground (arith, eq_refl key, with_id-with_id id 0 resp, length-with_id 0 resp),
  λ h. ground (arith, length-delete key cache),
)

-- `dnsmessage.Builder` makes a message that starts with the identifier of its header.
pub record IsBuilder (r : Resolver) : Type 0 where
  pub id : (h : Header) (q : Option Question) → h.id < 65536 → dns_id (r.build h q) ≡ h.id
  pub full : (h : Header) (q : Option Question) → is_empty (r.build h q) ≡ false

-- A reply as MapDNS, a DoH client or a server asked over UDP gave it.
abbrev pub IsUpstream : Resolver → Bytes → Bytes → Type 0
IsUpstream r req m =
    (m ≡ r.forward_map_dns req)
    ⊎ (((c : Bytes → Option Bytes) × Memᴰ c r.doh_direct × (c req ≡ some m))
        ⊎ ((server : String) × (m ≡ r.exchange_udp server req)))

-- Nothing, or a message under this identifier.
abbrev pub BearsId : ℕ → Bytes → Type 0
BearsId id m = is_empty m ≡ false → dns_id m ≡ id

FromDoh : List (Bytes → Option Bytes) → Bytes → Bytes → Type 0
FromDoh cs req m = (c : Bytes → Option Bytes) × Memᴰ c cs × (c req ≡ some m)

ask_doh-FromDoh :
    (req : Bytes) (cs : List (Bytes → Option Bytes))
    → is_empty (ask_doh cs req) ≡ false
    → FromDoh cs req (ask_doh cs req)
unfolding ask_doh FromDoh
ask_doh-FromDoh req [] full = cc full
ask_doh-FromDoh req (c ∷ cs) full = elim (Option-cases (c req)) [
  | inl failed ↦ rw failed (later (ask_doh-FromDoh req cs (rw (ask_doh, failed) at full)))
  | inr (m, answered) ↦ elim (Bool-cases (is_empty m)) [
    | inl blank ↦
        rw (answered, blank)
          (later (ask_doh-FromDoh req cs (rw (ask_doh, answered, blank) at full)))
    | inr some_reply ↦ rw (answered, some_reply) (c, Memᴰ.head refl, answered)
  ]
]
  where
    later : {m : Bytes} → FromDoh cs req m → FromDoh (c ∷ cs) req m
    later (d, at, answered) = (d, Memᴰ.tail at, answered)

ask_udp-server :
    (r : Resolver) (req : Bytes) (servers : List String)
    → is_empty (ask_udp r servers req) ≡ false
    → (server : String) × (ask_udp r servers req ≡ r.exchange_udp server req)
unfolding ask_udp
ask_udp-server r req [] full = cc full
ask_udp-server r req (s ∷ ss) full =
    elim (Bool-cases
      (not (is_empty (r.exchange_udp s req)) && not (r.hijacked (r.exchange_udp s req)))) [
        | inl good ↦ (s, rw good refl)
        | inr bad ↦ rw bad (ask_udp-server r req ss (rw (ask_udp, bad) at full))
      ]

forward_direct-IsUpstream :
    (r : Resolver) (req : Bytes)
    → is_empty (forward_direct r req) ≡ false
    → IsUpstream r req (forward_direct r req)
unfolding forward_direct FromDoh
forward_direct-IsUpstream r req full = elim (Bool-cases (is_empty (ask_doh r.doh_direct req))) [
  | inl silent ↦ rw silent (
      inr (
        inr (
          ask_udp-server r req ("223.5.5.5:53" ∷ "119.29.29.29:53" ∷ [])
            (rw (forward_direct, silent) at full))))
  | inr heard ↦ rw heard (inr (inl (ask_doh-FromDoh req r.doh_direct heard)))
]

-- A message under the identifier of the query, or an upstream's.
abbrev pub Answers : Resolver → Bytes → Bytes → Type 0
Answers r req m = (is_empty m ≡ false) × ((dns_id m ≡ dns_id req) ⊎ IsUpstream r req m)

module _ (r : Resolver) (req : Bytes) (builder : IsBuilder r) (low : dns_id req < 65536) where
  servfail-Answers : Answers r req (build_servfail_with_id r (dns_id req))
  unfolding build_servfail_with_id
  servfail-Answers = (builder.full _ _, inl (builder.id _ _ low))

  nodata-Answers : Answers r req (build_nodata r req)
  unfolding build_nodata build_nodata_with_id
  nodata-Answers = (builder.full _ _, inl (builder.id _ _ low))

  or_servfail-Answers :
      (m : Bytes)
      → (is_empty m ≡ false → IsUpstream r req m)
      → Answers r req (if is_empty m then build_servfail_with_id r (dns_id req) else m)
  or_servfail-Answers m from = elim (Bool-cases (is_empty m)) [
    | inl silent ↦ rw silent servfail-Answers
    | inr heard ↦ rw heard (heard, inr (from heard))
  ]

  resolve-Answers : (name : String) → Answers r req (resolve r req name)
  unfolding resolve
  resolve-Answers name = or_servfail-Answers _ (elim (Bool-cases (should_direct r name)) [
    | inl direct ↦ rw direct (forward_direct-IsUpstream r req)
    | inr proxied ↦ rw proxied (elim (Bool-cases (is_empty (r.forward_map_dns req))) [
      | inl silent ↦ rw silent (forward_direct-IsUpstream r req)
      | inr heard ↦ rw heard (λ full. inl refl)
    ])
  ])

load_cache-BearsId :
    (now id : ℕ) (key : String) (cache : Cache)
    → id < 65536
    → BearsId id (load_cache now key id cache).1
unfolding load_cache
load_cache-BearsId now id key cache low = elim (Option-cases (lookup key cache)) [
  | inl missing ↦ rw (load_cache, missing) (λ h. cc)
  | inr (e, found) ↦ elim (Bool-cases (ltb e.expires now || ltb (length e.resp) 2)) [
    | inl stale ↦ rw (load_cache, found, stale) (λ h. cc)
    | inr fresh ↦ rw (load_cache, found, fresh) (λ h. dns_id-with_id id e.resp low (ground arith))
  ]
]

chosen-Answers :
    (r : Resolver) (req : Bytes)
    → IsBuilder r
    → dns_id req < 65536
    → (cached m : Bytes) (x y z : Cache) (b : Bool) → BearsId (dns_id req) cached
    → Answers r req m
    → Answers r req (
        let out : Cache × Bytes =
          if not (is_empty cached)
          then (x, cached)
          else if b
          then (y, build_nodata r req)
          else (z, m) in
        out.1)
chosen-Answers r req builder low cached m x y z b bears answers =
    elim (Bool-cases (is_empty cached)) [
      | inr hit ↦ rw hit (hit, inl (bears hit))
      | inl miss ↦ rw miss (elim (Bool-cases b) [
        | inl none_of_type ↦ rw none_of_type (nodata-Answers r req builder low)
        | inr asked ↦ rw asked answers
      ])
    ]

-- Every query gets an answer, and under its own identifier, unless it is the reply of an upstream, which
-- is passed on as it came: whether the question cannot be read, the answer is in the cache (where it may
-- stand for another query), is refused as IPv6, or none of the upstreams has one.
pub handle_query-id :
    (r : Resolver) (now : ℕ) (req : Bytes) (cache : Cache)
    → IsBuilder r
    → dns_id req < 65536
    → (is_empty (handle_query r now req cache).1 ≡ false)
      × ((dns_id (handle_query r now req cache).1 ≡ dns_id req)
          ⊎ IsUpstream r req (handle_query r now req cache).1)
unfolding handle_query
handle_query-id r now req cache builder low = elim (Option-cases (r.question req)) [
  | inl unread ↦ rw (handle_query, unread) (servfail-Answers r req builder low)
  | inr (q, read) ↦
      rw (handle_query, read)
        (let key = cache_key r q.0 q.1 in
          let seen : Cache = (load_cache now key (dns_id req) cache).0 in
          chosen-Answers r req builder low _ (resolve r req q.0) seen
            (store_cache now key (build_nodata r req) no_data_ttl seen)
            (store_cache now key (resolve r req q.0) answer_ttl seen)
            (r.prefer_ipv4 && (q.1 == type_aaaa) && not (is_likely_local_hostname q.0))
            (load_cache-BearsId now (dns_id req) (cache_key r q.0 q.1) cache low)
            (resolve-Answers r req builder low q.0))
]
