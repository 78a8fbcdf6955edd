-- ===== src/Dns/Tests.antt =====
-- dns_proxy.go on concrete messages.
use sudoku_desktop.Prelude.{
  ◌+◌, ◌≤◌, ◌<◌, ◌≡◌, ◌⊎◌, refl, true, false, [], ◌∷◌, ◌++◌, none, some, drop, length, ◌/◌, ◌%◌,
  arith,
}
use sudoku_desktop.Dns.{
  Bytes, Cache, Resolver, dns_id, with_id, is_empty, handle_query, load_cache, store_cache,
  write_dns_over_tcp, read_dns_over_tcp,
}
use sudoku_desktop.Dns.Reply.{IsBuilder, IsUpstream, handle_query-id, load-store_cache}
use sudoku_desktop.Dns.Frame.{read-write_dns_over_tcp}

abbrev query : Bytes
query = 18 ∷ 52 ∷ 1 ∷ 0 ∷ []

-- An upstream that echoes the query.
abbrev resolver : Resolver
resolver = record {
  question = λ m. some ("example.org", 1);
  is_ip = λ s. false;
  direct_match = λ s. false;
  forward_map_dns = λ m. m;
  doh_direct = [];
  exchange_udp = λ server m. [];
  hijacked = λ m. false;
  prefer_ipv4 = true;
  parser_question = λ m. some (drop 12 m);
  build = λ h q. h.id / 256 ∷ h.id % 256 ∷ 129 ∷ h.rcode ∷ [];
}

resolver-IsBuilder : IsBuilder resolver
unfolding dns_id
resolver-IsBuilder = record { id = λ h q low. omega arith; full = λ h q. refl }

low_id : dns_id query < 65536
unfolding dns_id
low_id = omega arith

handle_query-id_example :
    (is_empty (handle_query resolver 5 query []).1 ≡ false)
    × ((dns_id (handle_query resolver 5 query []).1 ≡ dns_id query)
        ⊎ IsUpstream resolver query (handle_query resolver 5 query []).1)
handle_query-id_example = handle_query-id resolver 5 query [] resolver-IsBuilder low_id

load-store_cache_example :
    (6 ≤ 5 + 10 → (load_cache 6 "a" 7 (store_cache 5 "a" query 10 [])).1 ≡ with_id 7 query)
    × (5 + 10 < 6 → (load_cache 6 "a" 7 (store_cache 5 "a" query 10 [])).1 ≡ [])
    × (length {A = Cache} [] ≤ 1025 → length (store_cache 5 "a" query 10 []) ≤ 1025)
load-store_cache_example = load-store_cache 5 6 7 10 "a" query [] (omega arith)

read-write_dns_over_tcp_example :
    (1 ≤ length query
      → length query ≤ 65535
      → (framed : Bytes) × (write_dns_over_tcp query ≡ some framed)
        × (read_dns_over_tcp (framed ++ 9 ∷ []) ≡ some (query, 9 ∷ [])))
    × ((length query ≡ 0) ⊎ (65536 ≤ length query) → write_dns_over_tcp query ≡ none)
read-write_dns_over_tcp_example = read-write_dns_over_tcp query (9 ∷ [])
