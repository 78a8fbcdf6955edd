-- ===== src/ShareLink/RoundTrip.antt =====
-- internal/core/shortlink.go: what a node keeps over a link.
use sudoku_desktop.Prelude.{
  cut_prefix-append, ◌≡◌, refl, sym, ap, ◌∙◌, Bool, true, false, not, Option, none, some, String,
  text_append, str_eq, eq_iff, ℤ, pos, nonpos, trim_space, trim_space_idem, Bool-cases, inl, inr,
}
use sudoku_desktop.Failure.{ok}
use sudoku_desktop.Config.{NodeConfig}
use sudoku_desktop.Config.Normalize.{Platform, Draw, new_id, normalize_ascii, or_default}
use sudoku_desktop.ShareLink.{
  Codec, scheme, encode_ascii, decode_ascii, payload_of, build_short_link, node_of, checked_node,
  parse_short_link, hide_default,
}

-- `NormalizeASCIIMode` knows the short names and its own results.
pub record KnowsModes (pl : Platform) : Type 0 where
  pub ascii : pl.normalize_ascii_mode "ascii" ≡ some "prefer_ascii"
  pub entropy : pl.normalize_ascii_mode "entropy" ≡ some "prefer_entropy"
  pub default : pl.normalize_ascii_mode "prefer_entropy" ≡ some "prefer_entropy"
  pub stable :
      (s m : String) → pl.normalize_ascii_mode s ≡ some m → pl.normalize_ascii_mode m ≡ some m

normalize_ascii-stable :
    (pl : Platform)
    → KnowsModes pl
    → (v : String) → pl.normalize_ascii_mode (normalize_ascii pl v) ≡ some (normalize_ascii pl v)
unfolding normalize_ascii
normalize_ascii-stable pl k v = go (pl.normalize_ascii_mode v) refl
  where
    go :
        (o : Option String)
        → pl.normalize_ascii_mode v ≡ o
        → pl.normalize_ascii_mode (normalize_ascii pl v) ≡ some (normalize_ascii pl v)
    go none e = rw (normalize_ascii, e) k.default
    go (some m) e = rw (normalize_ascii, e) (k.stable v m e)

decode_ascii-some :
    (pl : Platform) (s m : String) → pl.normalize_ascii_mode s ≡ some m → decode_ascii pl s ≡ m
unfolding decode_ascii
decode_ascii-some pl s m e = rw (decode_ascii, e) refl

decode_ascii-encode_ascii :
    (pl : Platform)
    → KnowsModes pl
    → (v : String) → decode_ascii pl (encode_ascii pl v) ≡ normalize_ascii pl v
unfolding encode_ascii
decode_ascii-encode_ascii pl k v =
    let m = normalize_ascii pl v in
    elim (Bool-cases (str_eq m "prefer_ascii")) [
      | inl a ↦ rw a (
          decode_ascii-some pl "ascii" "prefer_ascii" k.ascii ∙ sym ((eq_iff m "prefer_ascii").0 a))
      | inr not_a ↦ elim (Bool-cases (str_eq m "prefer_entropy")) [
        | inl e ↦
            rw (not_a, e)
              (decode_ascii-some pl "entropy" "prefer_entropy" k.entropy
                ∙ sym ((eq_iff m "prefer_entropy").0 e))
        | inr not_e ↦ rw (not_a, not_e) (decode_ascii-some pl m m (normalize_ascii-stable pl k v))
      ]
    ]

or_default-same : (d : String) → or_default d d ≡ d
or_default-same d = elim (Bool-cases (str_eq d "")) [
  | inl blank ↦ rw blank refl
  | inr set ↦ rw set refl
]

-- A default that is left out of the link is filled in again.
or_default-hide_default : (d s : String) → or_default (hide_default d s) d ≡ or_default s d
or_default-hide_default d s = elim (Bool-cases (str_eq s d)) [
  | inl same ↦ rw same (sym (ap (λ t. or_default t d) ((eq_iff s d).0 same) ∙ or_default-same d))
  | inr other ↦ rw other refl
]

trim-hide_default :
    (d s : String) → trim_space s ≡ s → trim_space (hide_default d s) ≡ hide_default d s
unfolding trim_space
trim-hide_default d s h = elim (Bool-cases (str_eq s d)) [
  | inl same ↦ rw same refl
  | inr other ↦ rw other h
]

-- What a link keeps of a node: its trimmed texts with the defaults filled in, under a new number and
-- with the default paddings.
unfoldable pub carried : Codec → Platform → Draw → NodeConfig → String → ℤ → NodeConfig
carried c pl d n host port = record {
  id = new_id "node_" d;
  name = or_default (trim_space n.name) host;
  server_address = c.join_host_port host port;
  key = trim_space n.key;
  aead = or_default (trim_space n.aead) "chacha20-poly1305";
  ascii = or_default (normalize_ascii pl n.ascii) "prefer_entropy";
  padding_min = pos 5;
  padding_max = pos 15;
  enable_pure_downlink = n.enable_pure_downlink;
  custom_table = trim_space n.custom_table;
  custom_tables = n.custom_tables;
  multiplex = or_default (trim_space n.multiplex) "off";
  http_mask = record {
    disable = n.http_mask.disable;
    mode = or_default (trim_space n.http_mask.mode) "legacy";
    tls = n.http_mask.tls;
    host = trim_space n.http_mask.host;
    path_root = trim_space n.http_mask.path_root;
    multiplex = "";
  };
}

or_default-twice : (d s : String) → or_default (or_default s d) d ≡ or_default s d
or_default-twice d s = elim (Bool-cases (str_eq s "")) [
  | inl blank ↦ rw blank (or_default-same d)
  | inr other ↦ rw (other, other) refl
]

not-not : (b : Bool) → not (not b) ≡ b
not-not true = refl
not-not false = refl

node_of-payload_of :
    (c : Codec) (pl : Platform)
    → KnowsModes pl
    → (d : Draw) (n : NodeConfig) (host : String) (port : ℤ)
    → node_of c pl d (payload_of pl n host port) ≡ carried c pl d n host port
unfolding node_of payload_of carried
node_of-payload_of c pl k d n host port = simp (
  decode_ascii-encode_ascii pl k n.ascii,
  trim_space_idem,
  or_default-twice "chacha20-poly1305" (trim_space n.aead),
  not-not n.enable_pure_downlink,
  trim-hide_default "off" (trim_space n.multiplex) (trim_space_idem n.multiplex),
  or_default-hide_default "off" (trim_space n.multiplex),
  or_default-hide_default "legacy" (trim_space n.http_mask.mode),
)

-- A link that is built from a node is parsed to the node that it carries, where Go's library can take
-- back what it encoded and knows the modes, the address has a host and a positive port, and the key is
-- not blank.
pub parse_short_link-build_short_link :
    (c : Codec) (pl : Platform)
    → KnowsModes pl
    → (d : Draw) (n : NodeConfig) (host port_text : String) (port : ℤ) (raw : String)
    → c.split_host_port (trim_space n.server_address) ≡ ok (host, port_text)
    → c.atoi port_text ≡ ok port
    → c.marshal (payload_of pl n host port) ≡ ok raw
    → c.decode_string (c.encode_to_string raw) ≡ ok raw
    → c.unmarshal raw ≡ ok (payload_of pl n host port)
    → str_eq host "" ≡ false
    → nonpos port ≡ false
    → str_eq (trim_space n.key) "" ≡ false
    → (link : String) × (build_short_link c pl n ≡ ok link)
      × (parse_short_link c pl d link ≡ ok (carried c pl d n host port))
unfolding build_short_link parse_short_link checked_node payload_of
parse_short_link-build_short_link c pl k d n host port_text port raw split_e atoi_e marshal_e
      decode_e unmarshal_e host_e port_e key_e =
    (
      text_append scheme (c.encode_to_string raw),
      rw (build_short_link, split_e, atoi_e, marshal_e) refl,
      rw
          (
            parse_short_link,
            cut_prefix-append scheme (c.encode_to_string raw),
            decode_e,
            unmarshal_e,
            checked_node,
            host_e,
            port_e,
            key_e,
          )
          (ap ok (node_of-payload_of c pl k d n host port)),
    )
