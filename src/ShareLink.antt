-- ===== src/ShareLink.antt =====
-- internal/core/shortlink.go: a node as a link. What it calls of Go's library is a field of `Codec`.
pub mod RoundTrip
mod Tests
use sudoku_desktop.Prelude.{
  cut_prefix, ◌≡◌, Bool, not, ◌||◌, List, none, some, String, text_append, str_eq, if◌then◌else◌,
  ◌==◌, ℤ, pos, nonpos, trim_space,
}
use sudoku_desktop.Failure.{Result, ok, err, new_error, wrap}
use sudoku_desktop.Config.{NodeConfig, proxy_port}
use sudoku_desktop.Config.Normalize.{Platform, Draw, new_id, normalize_ascii, or_default}

-- `shortLinkPayload`
pub record ShortLinkPayload : Type 0 where
  pub name : String
  pub host : String
  pub port : ℤ
  pub key : String
  pub ascii : String
  pub aead : String
  pub mix_port : ℤ
  pub packed_downlink : Bool
  pub custom_table : String
  pub custom_tables : List String
  pub disable_http_mask : Bool
  pub http_mask_mode : String
  pub http_mask_tls : Bool
  pub http_mask_host : String
  pub http_mask_mux : String
  pub http_mask_path : String

-- `json.Marshal` and `json.Unmarshal` of the payload, `base64.RawURLEncoding`, and the functions of
-- `net` and `strconv` that take an address apart and put it together.
pub record Codec : Type 0 where
  pub marshal : ShortLinkPayload → Result String
  pub unmarshal : String → Result ShortLinkPayload
  pub encode_to_string : String → String
  pub decode_string : String → Result String
  pub split_host_port : String → Result (String × String)
  pub join_host_port : String → ℤ → String
  pub atoi : String → Result ℤ

abbrev pub scheme : String
scheme = "sudoku://"

-- `encodeASCII`
unfoldable pub encode_ascii : Platform → String → String
unfolding normalize_ascii
encode_ascii pl v =
    let mode = normalize_ascii pl v in
    if str_eq mode "prefer_ascii"
    then "ascii"
    else if str_eq mode "prefer_entropy"
    then "entropy"
    else mode

-- `decodeASCII`
unfoldable pub decode_ascii : Platform → String → String
decode_ascii pl v = elim (pl.normalize_ascii_mode v) [ none ↦ "prefer_entropy" | some mode ↦ mode ]

-- An empty text for the value that the parser fills in.
abbrev pub hide_default : String → String → String
hide_default value s = if str_eq s value then "" else s

unfoldable pub payload_of : Platform → NodeConfig → String → ℤ → ShortLinkPayload
unfolding encode_ascii trim_space
payload_of pl n host port = record {
  name = trim_space n.name;
  host = host;
  port = port;
  key = trim_space n.key;
  ascii = encode_ascii pl n.ascii;
  aead = or_default (trim_space n.aead) "chacha20-poly1305";
  mix_port = if nonpos proxy_port then pos 1080 else proxy_port;
  packed_downlink = not n.enable_pure_downlink;
  custom_table = trim_space n.custom_table;
  custom_tables = n.custom_tables;
  disable_http_mask = n.http_mask.disable;
  http_mask_mode = hide_default "legacy" (trim_space n.http_mask.mode);
  http_mask_tls = n.http_mask.tls;
  http_mask_host = trim_space n.http_mask.host;
  http_mask_mux = hide_default "off" (trim_space n.multiplex);
  http_mask_path = trim_space n.http_mask.path_root;
}

-- `BuildShortLink`
unfoldable pub build_short_link : Codec → Platform → NodeConfig → Result String
unfolding payload_of trim_space
build_short_link c pl n = elim (c.split_host_port (trim_space n.server_address)) [
  | err e ↦ err (wrap "invalid serverAddress: " e)
  | ok (host, port_text) ↦ elim (c.atoi port_text) [
    | err e ↦ err (wrap "invalid server port: " e)
    | ok port ↦ elim (c.marshal (payload_of pl n host port)) [
      | err e ↦ err e
      | ok raw ↦ ok (text_append scheme (c.encode_to_string raw))
    ]
  ]
]

unfoldable pub node_of : Codec → Platform → Draw → ShortLinkPayload → NodeConfig
unfolding new_id decode_ascii trim_space
node_of c pl d p = record {
  id = new_id "node_" d;
  name = or_default (trim_space p.name) p.host;
  server_address = c.join_host_port p.host p.port;
  key = p.key;
  aead = or_default p.aead "chacha20-poly1305";
  ascii = or_default (decode_ascii pl p.ascii) "prefer_entropy";
  padding_min = pos 5;
  padding_max = pos 15;
  enable_pure_downlink = not p.packed_downlink;
  custom_table = trim_space p.custom_table;
  custom_tables = p.custom_tables;
  multiplex = or_default (trim_space p.http_mask_mux) "off";
  http_mask = record {
    disable = p.disable_http_mask;
    mode = or_default p.http_mask_mode "legacy";
    tls = p.http_mask_tls;
    host = p.http_mask_host;
    path_root = p.http_mask_path;
    multiplex = "";
  };
}

unfoldable pub checked_node : Codec → Platform → Draw → Result ShortLinkPayload → Result NodeConfig
unfolding node_of
checked_node c pl d (err e) = err (wrap "parse short link: " e)
checked_node c pl d (ok p) =
    if str_eq p.host "" || nonpos p.port || str_eq p.key ""
    then err (new_error "short link missing required fields")
    else ok (node_of c pl d p)

-- `ParseShortLink`
unfoldable pub parse_short_link : Codec → Platform → Draw → String → Result NodeConfig
unfolding cut_prefix checked_node
parse_short_link c pl d link = elim (cut_prefix scheme link) [
  | none ↦ err (new_error "invalid scheme")
  | some encoded ↦ elim (c.decode_string encoded) [
    | err e ↦ err (wrap "decode short link: " e)
    | ok raw ↦ checked_node c pl d (c.unmarshal raw)
  ]
]
