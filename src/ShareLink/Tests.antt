-- ===== src/ShareLink/Tests.antt =====
-- The theorem on links, at a concrete node.
use sudoku_desktop.Prelude.{
  ◌≡◌, refl, subst, Bool-cases, inl, inr, Option, some, none, String, str_eq, if◌then◌else◌, ◌||◌,
  pos, text_append, trim_space, is_space, trim_left, trim_right,
}
use sudoku_desktop.Failure.{ok, err, new_error}
use sudoku_desktop.Config.Normalize.{Platform, normalize_ascii}
use sudoku_desktop.Examples.{platform, node, draw}
use sudoku_desktop.ShareLink.{
  Codec, ShortLinkPayload, payload_of, build_short_link, parse_short_link, encode_ascii,
}
use sudoku_desktop.ShareLink.RoundTrip.{KnowsModes, carried, parse_short_link-build_short_link}

abbrev mode_of : String → Option String
mode_of s =
    if str_eq s "ascii" || str_eq s "prefer_ascii"
    then some "prefer_ascii"
    else if str_eq s "entropy" || str_eq s "prefer_entropy"
    then some "prefer_entropy"
    else none

abbrev machine : Platform
machine = record platform { normalize_ascii_mode = mode_of }

abbrev IsMode : Option String → Type 0
IsMode none = Unit {0}
IsMode (some m) = mode_of m ≡ some m

mode_of-IsMode : (s : String) → IsMode (mode_of s)
mode_of-IsMode s = elim (Bool-cases (str_eq s "ascii" || str_eq s "prefer_ascii")) [
  | inl a ↦ rw a refl
  | inr not_a ↦ elim (Bool-cases (str_eq s "entropy" || str_eq s "prefer_entropy")) [
    | inl e ↦ rw (not_a, e) refl
    | inr not_e ↦ rw (not_a, not_e) tt
  ]
]

knows : KnowsModes machine
knows = record {
  ascii = refl;
  entropy = refl;
  default = refl;
  stable = λ s m e. subst IsMode e (mode_of-IsMode s);
}

abbrev payload : ShortLinkPayload
payload = payload_of machine node "example.org" (pos 443)

abbrev codec : Codec
codec = record {
  marshal = λ _. ok "{}";
  unmarshal = λ _. ok payload;
  encode_to_string = λ s. text_append "e" s;
  decode_string = λ s. elim s [ String.[] ↦ err (new_error "short") | String.◌∷◌ c t ↦ ok t ];
  split_host_port = λ _. ok ("example.org", "443");
  join_host_port = λ h _. text_append h ":443";
  atoi = λ _. ok (pos 443);
}

parse_short_link-build_short_link_example :
    (link : String) × (build_short_link codec machine node ≡ ok link)
    × (parse_short_link codec machine draw link
        ≡ ok (carried codec machine draw node "example.org" (pos 443)))
unfolding trim_space trim_left trim_right is_space payload_of encode_ascii normalize_ascii
parse_short_link-build_short_link_example =
    parse_short_link-build_short_link codec machine knows draw node "example.org" "443" (pos 443)
      "{}" refl refl refl refl refl refl refl refl
