-- ===== src/Nodes/Same.antt =====
-- backend_config_nodes.go, `reflect.DeepEqual`: the comparisons field by field are equality.
use text.Mathlib.TextPositions.{eq_refl}
use sudoku_desktop.Prelude.{
  ◌≡◌, refl, sym, ap, ap₂, Bool, true, false, List, [], ◌∷◌, Option, none, some, String, str_eq,
  eq_iff, ◌&&◌, ℤ, pos, negsuc, eqb_ℤ, arith,
}
use sudoku_desktop.Config.{
  HttpMaskSettings, NodeConfig, ReverseRoute, ReverseClientSettings, TunSettings,
  ControllerSettings,
}
use sudoku_desktop.Nodes.Compare.{
  bool_eq, list_eq, option_eq, mask_eq, node_eq, controller_eq, route_eq, reverse_eq, tun_eq,
}

pub bool_refl : (a : Bool) → bool_eq a a ≡ true
bool_refl true = refl
bool_refl false = refl

pub int_refl : (a : ℤ) → eqb_ℤ a a ≡ true
int_refl a = ground arith

pub list_refl {ℓ} :
    {A : Type ℓ} (eq : A → A → Bool) (h : (a : A) → eq a a ≡ true) (xs : List A)
    → list_eq eq xs xs ≡ true
list_refl eq h [] = refl
list_refl eq h (x ∷ xs) = rw (h x, list_refl eq h xs)

pub strip_refl : (o : Option Bool) → option_eq bool_eq o o ≡ true
strip_refl none = refl
strip_refl (some b) = bool_refl b

pub ruleset same = (eq_refl, bool_refl, int_refl, strip_refl)

pub node_refl : (n : NodeConfig) → node_eq n n ≡ true
unfolding node_eq mask_eq
node_refl n = simp (same, list_refl str_eq eq_refl)

pub controller_refl : (c : ControllerSettings) → controller_eq c c ≡ true
unfolding controller_eq
controller_refl c = simp same

route_refl : (r : ReverseRoute) → route_eq r r ≡ true
unfolding route_eq
route_refl r = simp same

pub reverse_refl : (r : ReverseClientSettings) → reverse_eq r r ≡ true
unfolding reverse_eq
reverse_refl r = simp (same, list_refl route_eq route_refl)

pub bool_sound : (a b : Bool) → bool_eq a b ≡ true → a ≡ b
bool_sound true true h = refl
bool_sound true false h = cc h
bool_sound false true h = cc h
bool_sound false false h = refl

pub int_sound : (a b : ℤ) → eqb_ℤ a b ≡ true → a ≡ b
int_sound (pos a) (pos b) h = ap pos (ground (arith, h))
int_sound (pos a) (negsuc b) h = ground (arith, h)
int_sound (negsuc a) (pos b) h = ground (arith, h)
int_sound (negsuc a) (negsuc b) h = ap negsuc (ground (arith, h))

pub text_sound : (a b : String) → str_eq a b ≡ true → a ≡ b
text_sound a b h = (eq_iff a b).0 h

pub both : (a b : Bool) → a && b ≡ true → (a ≡ true) × (b ≡ true)
both true b h = (refl, h)
both false b h = cc h

pub list_sound {ℓ} :
    {A : Type ℓ} (eq : A → A → Bool) (sound : (a b : A) → eq a b ≡ true → a ≡ b) (xs ys : List A)
    → list_eq eq xs ys ≡ true
    → xs ≡ ys
list_sound eq sound [] [] h = refl
list_sound eq sound [] (y ∷ ys) h = cc h
list_sound eq sound (x ∷ xs) [] h = cc h
list_sound eq sound (x ∷ xs) (y ∷ ys) h =
    let (first, later) = both (eq x y) _ h in
    ap₂ (λ a bs. a ∷ bs) (sound x y first) (list_sound eq sound xs ys later)

strip_sound : (a b : Option Bool) → option_eq bool_eq a b ≡ true → a ≡ b
strip_sound none none h = refl
strip_sound none (some b) h = cc h
strip_sound (some a) none h = cc h
strip_sound (some a) (some b) h = ap some (bool_sound a b h)

mask_sound : (a b : HttpMaskSettings) → mask_eq a b ≡ true → a ≡ b
unfolding mask_eq
mask_sound a b h =
    let (h5, p5) = both _ _ h in
    let (h4, p4) = both _ _ h5 in
    let (h3, p3) = both _ _ h4 in
    let (h2, p2) = both _ _ h3 in
    let (p0, p1) = both _ _ h2 in
    λ i. record {
      disable = (bool_sound a.disable b.disable p0) i;
      mode = (text_sound a.mode b.mode p1) i;
      tls = (bool_sound a.tls b.tls p2) i;
      host = (text_sound a.host b.host p3) i;
      path_root = (text_sound a.path_root b.path_root p4) i;
      multiplex = (text_sound a.multiplex b.multiplex p5) i;
    }

pub node_sound : (a b : NodeConfig) → node_eq a b ≡ true → a ≡ b
unfolding node_eq
node_sound a b h =
    let (h12, p12) = both _ _ h in
    let (h11, p11) = both _ _ h12 in
    let (h10, p10) = both _ _ h11 in
    let (h9, p9) = both _ _ h10 in
    let (h8, p8) = both _ _ h9 in
    let (h7, p7) = both _ _ h8 in
    let (h6, p6) = both _ _ h7 in
    let (h5, p5) = both _ _ h6 in
    let (h4, p4) = both _ _ h5 in
    let (h3, p3) = both _ _ h4 in
    let (h2, p2) = both _ _ h3 in
    let (p0, p1) = both _ _ h2 in
    λ i. record {
      id = (text_sound a.id b.id p0) i;
      name = (text_sound a.name b.name p1) i;
      server_address = (text_sound a.server_address b.server_address p2) i;
      key = (text_sound a.key b.key p3) i;
      aead = (text_sound a.aead b.aead p4) i;
      ascii = (text_sound a.ascii b.ascii p5) i;
      padding_min = (int_sound a.padding_min b.padding_min p6) i;
      padding_max = (int_sound a.padding_max b.padding_max p7) i;
      enable_pure_downlink = (bool_sound a.enable_pure_downlink b.enable_pure_downlink p8) i;
      custom_table = (text_sound a.custom_table b.custom_table p9) i;
      custom_tables = (list_sound str_eq text_sound a.custom_tables b.custom_tables p10) i;
      multiplex = (text_sound a.multiplex b.multiplex p11) i;
      http_mask = (mask_sound a.http_mask b.http_mask p12) i;
    }

pub controller_sound : (a b : ControllerSettings) → controller_eq a b ≡ true → a ≡ b
unfolding controller_eq
controller_sound a b h =
    let (h2, p2) = both _ _ h in
    let (p0, p1) = both _ _ h2 in
    λ i. record {
      port = (int_sound a.port b.port p0) i;
      secret = (text_sound a.secret b.secret p1) i;
      allow_lan = (bool_sound a.allow_lan b.allow_lan p2) i;
    }

route_sound : (a b : ReverseRoute) → route_eq a b ≡ true → a ≡ b
unfolding route_eq
route_sound a b h =
    let (h3, p3) = both _ _ h in
    let (h2, p2) = both _ _ h3 in
    let (p0, p1) = both _ _ h2 in
    λ i. record {
      path = (text_sound a.path b.path p0) i;
      target = (text_sound a.target b.target p1) i;
      strip_prefix = (strip_sound a.strip_prefix b.strip_prefix p2) i;
      host_header = (text_sound a.host_header b.host_header p3) i;
    }

pub reverse_sound : (a b : ReverseClientSettings) → reverse_eq a b ≡ true → a ≡ b
unfolding reverse_eq
reverse_sound a b h =
    let (p0, p1) = both _ _ h in
    λ i. record {
      client_id = (text_sound a.client_id b.client_id p0) i;
      routes = (list_sound route_eq route_sound a.routes b.routes p1) i;
    }

pub tun_sound : (a b : TunSettings) → tun_eq a b ≡ true → b ≡ record a { enabled = b.enabled }
unfolding tun_eq
tun_sound a b h =
    let (h17, p17) = both _ _ h in
    let (h16, p16) = both _ _ h17 in
    let (h15, p15) = both _ _ h16 in
    let (h14, p14) = both _ _ h15 in
    let (h13, p13) = both _ _ h14 in
    let (h12, p12) = both _ _ h13 in
    let (h11, p11) = both _ _ h12 in
    let (h10, p10) = both _ _ h11 in
    let (h9, p9) = both _ _ h10 in
    let (h8, p8) = both _ _ h9 in
    let (h7, p7) = both _ _ h8 in
    let (h6, p6) = both _ _ h7 in
    let (h5, p5) = both _ _ h6 in
    let (h4, p4) = both _ _ h5 in
    let (h3, p3) = both _ _ h4 in
    let (h2, p2) = both _ _ h3 in
    let (p0, p1) = both _ _ h2 in
    λ i. record {
      enabled = b.enabled;
      interface_name = (sym (text_sound a.interface_name b.interface_name p0)) i;
      mtu = (sym (int_sound a.mtu b.mtu p1)) i;
      ipv4 = (sym (text_sound a.ipv4 b.ipv4 p2)) i;
      ipv6 = (sym (text_sound a.ipv6 b.ipv6 p3)) i;
      block_quic = (sym (bool_sound a.block_quic b.block_quic p4)) i;
      socks_udp = (sym (text_sound a.socks_udp b.socks_udp p5)) i;
      socks_mark = (sym (int_sound a.socks_mark b.socks_mark p6)) i;
      route_table = (sym (int_sound a.route_table b.route_table p7)) i;
      log_level = (sym (text_sound a.log_level b.log_level p8)) i;
      map_dns_enabled = (sym (bool_sound a.map_dns_enabled b.map_dns_enabled p9)) i;
      map_dns_address = (sym (text_sound a.map_dns_address b.map_dns_address p10)) i;
      map_dns_port = (sym (int_sound a.map_dns_port b.map_dns_port p11)) i;
      map_dns_network = (sym (text_sound a.map_dns_network b.map_dns_network p12)) i;
      map_dns_netmask = (sym (text_sound a.map_dns_netmask b.map_dns_netmask p13)) i;
      task_stack_size = (sym (int_sound a.task_stack_size b.task_stack_size p14)) i;
      tcp_buffer_size = (sym (int_sound a.tcp_buffer_size b.tcp_buffer_size p15)) i;
      max_session = (sym (int_sound a.max_session b.max_session p16)) i;
      connect_timeout = (sym (int_sound a.connect_timeout b.connect_timeout p17)) i;
    }
