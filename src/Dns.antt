-- ===== src/Dns.antt =====
-- internal/core/dns_proxy.go: the cache, the framing over TCP, and how a query is answered. A byte is a
-- number below 256. What the module golang.org/x/net/dns/dnsmessage, the sockets, the DoH servers and
-- the rules answer is in `Resolver`.
pub mod Reply
pub mod Frame
mod Tests
use sudoku_desktop.Prelude.{
  ℕ, ◌+◌, ◌*◌, ◌/◌, ◌%◌, Bool, true, false, not, ◌&&◌, ◌||◌, List, [], ◌∷◌, ◌++◌, Option, none,
  some, String, text_append, str_eq, if◌then◌else◌, ltb, leb, ◌==◌, length, keep, take, drop,
  trim_space, to_lower, contains_char, itoa,
}

abbrev pub Bytes : Type 0
Bytes = List ℕ

-- `dnsCacheEntry`; a time is its nanoseconds.
pub record Entry : Type 0 where
  pub expires : ℕ
  pub resp : Bytes

abbrev pub Cache : Type 0
Cache = List (String × Entry)

-- `dnsID`
unfoldable pub dns_id : Bytes → ℕ
dns_id [] = 0
dns_id (a ∷ []) = 0
dns_id (a ∷ b ∷ rest) = a * 256 + b

-- `out[0] = byte(id >> 8); out[1] = byte(id)`, on a message of at least two bytes
unfoldable pub with_id : ℕ → Bytes → Bytes
with_id id [] = []
with_id id (a ∷ []) = a ∷ []
with_id id (a ∷ b ∷ rest) = id / 256 % 256 ∷ id % 256 ∷ rest

unfoldable pub lookup : String → Cache → Option Entry
lookup key [] = none
lookup key (e ∷ es) = let rest = lookup key es in if str_eq e.0 key then some e.1 else rest

unfoldable pub delete : String → Cache → Cache
delete key [] = []
delete key (e ∷ es) = let rest = delete key es in if str_eq e.0 key then rest else e ∷ rest

-- `s.cache[key] = entry`
unfoldable pub put : String → Entry → Cache → Cache
unfolding delete
put key entry cache = (key, entry) ∷ delete key cache

-- `loadCache`; nil is the empty message.
unfoldable pub load_cache : ℕ → String → ℕ → Cache → Cache × Bytes
load_cache now key id cache = elim (lookup key cache) [
  | none ↦ (cache, [])
  | some e ↦
      (if ltb e.expires now || ltb (length e.resp) 2
        then (delete key cache, [])
        else (cache, with_id id e.resp))
]

abbrev pub cache_limit : ℕ
cache_limit = 1024

-- `storeCache`
unfoldable pub store_cache : ℕ → String → Bytes → ℕ → Cache → Cache
store_cache now key resp ttl cache =
    let room = if ltb cache_limit (length cache) then [] else cache in
    if ltb (length resp) 2
    then cache
    else put key (record { expires = now + ttl; resp = with_id 0 resp }) room

-- The fields of `dnsmessage.Header` that are set; a question is kept as its bytes.
pub record Header : Type 0 where
  pub id : ℕ
  pub response : Bool
  pub recursion_available : Bool
  pub rcode : ℕ

abbrev pub Question : Type 0
Question = Bytes

-- What the server asks of everything outside: `parseDNSQuestion` (name and type, the name in lower case
-- without its final dot), `net.ParseIP`, `DirectMatch`, MapDNS (the empty message where it has no
-- answer), the DoH clients, an exchange over UDP with a server, `dnsResponseLooksHijacked`, the question
-- of a message as `Parser.Question` gives it, and what a `Builder` makes of a header and a question.
pub record Resolver : Type 0 where
  pub question : Bytes → Option (String × ℕ)
  pub is_ip : String → Bool
  pub direct_match : String → Bool
  pub forward_map_dns : Bytes → Bytes
  pub doh_direct : List (Bytes → Option Bytes)
  pub exchange_udp : String → Bytes → Bytes
  pub hijacked : Bytes → Bool
  pub prefer_ipv4 : Bool
  pub parser_question : Bytes → Option Question
  pub build : Header → Option Question → Bytes

-- `buildSERVFAILWithID`; `dnsmessage.RCodeServerFailure` is 2.
unfoldable pub build_servfail_with_id : Resolver → ℕ → Bytes
build_servfail_with_id r id =
    r.build (record { id = id; response = true; recursion_available = true; rcode = 2 }) none

-- `buildNODATAWithID`
unfoldable pub build_nodata_with_id : Resolver → ℕ → Option Question → Bytes
build_nodata_with_id r id q =
    r.build (record { id = id; response = true; recursion_available = true; rcode = 0 }) q

-- `buildNODATA`
unfoldable pub build_nodata : Resolver → Bytes → Bytes
unfolding build_nodata_with_id
build_nodata r req = build_nodata_with_id r (dns_id req) (r.parser_question req)

-- `strings.HasSuffix`
unfoldable pub has_suffix : String → String → Bool
has_suffix String.[] suffix = str_eq "" suffix
has_suffix (String.◌∷◌ c s) suffix = str_eq (String.◌∷◌ c s) suffix || has_suffix s suffix

-- `isLikelyLocalHostname`
unfoldable pub is_likely_local_hostname : String → Bool
unfolding contains_char has_suffix
is_likely_local_hostname host =
    if str_eq host ""
    then false
    else if not (contains_char 46 host)
    then true
    else has_suffix host ".local" || has_suffix host ".lan"

-- `strings.TrimSuffix(s, ".")`
unfoldable pub trim_dot : String → String
trim_dot String.[] = ""
trim_dot (String.◌∷◌ c s) =
    let rest = trim_dot s in if str_eq (String.◌∷◌ c s) "." then "" else String.◌∷◌ c rest

-- `shouldDirect`
unfoldable pub should_direct : Resolver → String → Bool
unfolding trim_dot is_likely_local_hostname
should_direct r name =
    let host = to_lower (trim_dot (trim_space name)) in
    if str_eq host ""
    then false
    else if r.is_ip host
    then true
    else if is_likely_local_hostname host
    then true
    else r.direct_match host

abbrev pub bool_text : Bool → String
bool_text true = "true"
bool_text false = "false"

-- `cacheKey`
unfoldable pub cache_key : Resolver → String → ℕ → String
unfolding should_direct
cache_key r name qtype = text_append (to_lower (trim_space name)) (
    text_append "|" (text_append (itoa qtype) (text_append "|" (bool_text (should_direct r name)))))

-- `dnsmessage.TypeAAAA`
abbrev pub type_aaaa : ℕ
type_aaaa = 28

-- 20 s and 25 s
abbrev pub no_data_ttl : ℕ
no_data_ttl = 20000000000

abbrev pub answer_ttl : ℕ
answer_ttl = 25000000000

abbrev pub is_empty : Bytes → Bool
is_empty [] = true
is_empty (a ∷ rest) = false

-- The two loops of `forwardDirect`: a DoH client may fail or answer nothing.
unfoldable pub ask_doh : List (Bytes → Option Bytes) → Bytes → Bytes
ask_doh [] req = []
ask_doh (c ∷ cs) req =
    let rest = ask_doh cs req in
    elim (c req) [ none ↦ rest | some resp ↦ (if is_empty resp then rest else resp) ]

unfoldable pub ask_udp : Resolver → List String → Bytes → Bytes
ask_udp r [] req = []
ask_udp r (server ∷ servers) req =
    let rest = ask_udp r servers req in
    let resp = r.exchange_udp server req in
    if not (is_empty resp) && not (r.hijacked resp) then resp else rest

-- `forwardDirect`; nil is the empty message.
unfoldable pub forward_direct : Resolver → Bytes → Bytes
unfolding ask_doh ask_udp
forward_direct r req =
    let resp = ask_doh r.doh_direct req in
    if is_empty resp then ask_udp r ("223.5.5.5:53" ∷ "119.29.29.29:53" ∷ []) req else resp

-- The upstreams, in their order, and SERVFAIL where none has an answer.
unfoldable pub resolve : Resolver → Bytes → String → Bytes
resolve r req name =
    let direct = forward_direct r req in
    let mapped = r.forward_map_dns req in
    let resp =
      if should_direct r name then direct else if is_empty mapped then direct else mapped in
    if is_empty resp then build_servfail_with_id r (dns_id req) else resp

-- `handleQuery` at one time
unfoldable pub handle_query : Resolver → ℕ → Bytes → Cache → Cache × Bytes
handle_query r now req cache = elim (r.question req) [
  | none ↦ (cache, build_servfail_with_id r (dns_id req))
  | some q ↦
      let key = cache_key r q.0 q.1 in
      let (cache', cached) = load_cache now key (dns_id req) cache in
      let none_of_type = r.prefer_ipv4 && q.1 == type_aaaa && not (is_likely_local_hostname q.0) in
      let resp = resolve r req q.0 in
      if not (is_empty cached)
      then (cache', cached)
      else if none_of_type
      then (store_cache now key (build_nodata r req) no_data_ttl cache', build_nodata r req)
      else (store_cache now key resp answer_ttl cache', resp)
]

-- `writeDNSOverTCP`: what is written, `none` for its error.
unfoldable pub write_dns_over_tcp : Bytes → Option Bytes
write_dns_over_tcp msg =
    if length msg == 0 || ltb 65535 (length msg)
    then none
    else some (length msg / 256 % 256 ∷ length msg % 256 ∷ msg)

-- `readDNSOverTCP`: the message and what is left of the stream, `none` for its error.
unfoldable pub read_dns_over_tcp : Bytes → Option (Bytes × Bytes)
read_dns_over_tcp [] = none
read_dns_over_tcp (a ∷ []) = none
read_dns_over_tcp (a ∷ b ∷ rest) =
    let n = a * 256 + b in
    if n == 0 || ltb 65535 n || ltb (length rest) n then none else some (take n rest, drop n rest)
