-- ===== src/Usage.antt =====
-- internal/core/stats.go and usage_history.go: the split of the traffic between direct and proxied
-- connections, and the usage by day. Counters are `uint64`; a map is an association list. The rates
-- per second are left out: they are floating-point numbers for display only.
pub mod Split
pub mod Days
mod Tests
use sudoku_desktop.Prelude.{
  ℕ, zero, suc, ◌+◌, ◌-◌, ◌%◌, ◌^◌, Bool, true, false, not, ◌&&◌, ◌||◌, List, [], ◌∷◌, ◌++◌, Option,
  none, some, String, str_eq, if◌then◌else◌, length, ltb, leb, ◌==◌, drop,
}
use Prim.Native.Char.{code}

-- A sum of two `uint64`
infixl 6 ◌+w◌
abbrev pub ◌+w◌ : ℕ → ℕ → ℕ
a +w b = (a + b) % 2 ^ 64

-- `counterDelta`: a counter below the last one has restarted.
unfoldable pub counter_delta : ℕ → ℕ → ℕ
counter_delta cur last = if leb last cur then cur - last else cur

-- The fields of `ctlConnection` that are counted.
pub record Connection : Type 0 where
  pub id : String
  pub upload : ℕ
  pub download : ℕ
  pub chains : List String

-- `connSnap`
pub record ConnSnap : Type 0 where
  pub up : ℕ
  pub down : ℕ

-- `trafficAcc`, without the rates.
pub record TrafficAcc : Type 0 where
  pub dir_tx : ℕ
  pub dir_rx : ℕ
  pub prx_tx : ℕ
  pub prx_rx : ℕ
  pub dir_conns : ℕ
  pub prx_conns : ℕ
  pub conns : ℕ
  pub prev : List (String × ConnSnap)

-- `reset`
abbrev pub reset : TrafficAcc
reset = record {
  dir_tx = 0;
  dir_rx = 0;
  prx_tx = 0;
  prx_rx = 0;
  dir_conns = 0;
  prx_conns = 0;
  conns = 0;
  prev = [];
}

pub data Direction : Type 0 where
  direct reject proxied : Direction

-- `strings.ToUpper(c) == "DIRECT"`: beside the ASCII letters, the upper case of `ı` is `I`.
upper_eq : String → String → Bool
upper_eq String.[] String.[] = true
upper_eq String.[] (String.◌∷◌ d t) = false
upper_eq (String.◌∷◌ c s) String.[] = false
upper_eq (String.◌∷◌ c s) (String.◌∷◌ d t) =
    (code c == code d
      || (leb 97 (code c) && leb (code c) 122 && (code c - 32) == code d)
      || (code c == 305 && code d == 73))
    && upper_eq s t

-- The loop of `connDirection`.
unfoldable pub chain_direction : List String → Option Direction
unfolding upper_eq
chain_direction [] = none
chain_direction (c ∷ cs) =
    let rest = chain_direction cs in
    if upper_eq c "DIRECT" then some direct else if upper_eq c "REJECT" then some reject else rest

-- `connDirection`
unfoldable pub conn_direction : List String → Direction
unfolding chain_direction
conn_direction chains = elim (chain_direction chains) [
  | some d ↦ d
  | none ↦ (if length chains == 0 then direct else proxied)
]

abbrev pub is_direct : Direction → Bool
is_direct direct = true
is_direct reject = false
is_direct proxied = false

unfoldable pub snap_of : String → List (String × ConnSnap) → Option ConnSnap
snap_of id [] = none
snap_of id (e ∷ es) = let rest = snap_of id es in if str_eq e.0 id then some e.1 else rest

-- `dUp, dDown`
unfoldable pub deltas : List (String × ConnSnap) → Connection → ℕ × ℕ
unfolding snap_of counter_delta
deltas prev c = elim (snap_of c.id prev) [
  | none ↦ (c.upload, c.download)
  | some p ↦ (counter_delta c.upload p.up, counter_delta c.download p.down)
]

-- One connection in the loop of `accumulateConnections`; `prev` is the map of the poll before, and the
-- one of the accumulator is built anew (`cur`).
unfoldable pub count : List (String × ConnSnap) → Connection → TrafficAcc → TrafficAcc
count prev c a =
    let d = deltas prev c in
    let cur = (c.id, record { up = c.upload; down = c.download }) ∷ a.prev in
    if is_direct (conn_direction c.chains)
    then record a {
      dir_tx = a.dir_tx +w d.0;
      dir_rx = a.dir_rx +w d.1;
      dir_conns = a.dir_conns + 1;
      prev = cur;
    }
    else record a {
      prx_tx = a.prx_tx +w d.0;
      prx_rx = a.prx_rx +w d.1;
      prx_conns = a.prx_conns + 1;
      prev = cur;
    }

unfoldable pub count_all : List (String × ConnSnap) → List Connection → TrafficAcc → TrafficAcc
count_all prev [] a = a
count_all prev (c ∷ cs) a = count_all prev cs (count prev c a)

-- `accumulateConnections`
unfoldable pub accumulate_connections : List Connection → TrafficAcc → TrafficAcc
unfolding count_all
accumulate_connections cs a =
    record (count_all a.prev cs (record a { dir_conns = 0; prx_conns = 0; prev = [] })) {
      conns = length cs;
    }

-- model.go, `UsageDay`
pub record UsageDay : Type 0 where
  pub date : String
  pub tx : ℕ
  pub rx : ℕ
  pub direct_tx : ℕ
  pub direct_rx : ℕ
  pub proxy_tx : ℕ
  pub proxy_rx : ℕ

-- What is added to a day.
pub record Delta : Type 0 where
  pub tx : ℕ
  pub rx : ℕ
  pub direct_tx : ℕ
  pub direct_rx : ℕ
  pub proxy_tx : ℕ
  pub proxy_rx : ℕ

abbrev pub new_day : String → Delta → UsageDay
new_day key d = record {
  date = key;
  tx = d.tx;
  rx = d.rx;
  direct_tx = d.direct_tx;
  direct_rx = d.direct_rx;
  proxy_tx = d.proxy_tx;
  proxy_rx = d.proxy_rx;
}

abbrev pub more : Delta → UsageDay → UsageDay
more d u = record u {
  tx = u.tx +w d.tx;
  rx = u.rx +w d.rx;
  direct_tx = u.direct_tx +w d.direct_tx;
  direct_rx = u.direct_rx +w d.direct_rx;
  proxy_tx = u.proxy_tx +w d.proxy_tx;
  proxy_rx = u.proxy_rx +w d.proxy_rx;
}

-- `addUsageToDay`
unfoldable pub add_usage_to_day : List UsageDay → String → Delta → List UsageDay
add_usage_to_day [] key d = new_day key d ∷ []
add_usage_to_day (u ∷ us) key d =
    let rest = add_usage_to_day us key d in if str_eq u.date key then more d u ∷ us else u ∷ rest

-- `<` on texts
unfoldable pub text_lt : String → String → Bool
text_lt String.[] String.[] = false
text_lt String.[] (String.◌∷◌ d t) = true
text_lt (String.◌∷◌ c s) String.[] = false
text_lt (String.◌∷◌ c s) (String.◌∷◌ d t) =
    let rest = text_lt s t in
    if ltb (code c) (code d) then true else if code c == code d then rest else false

-- `sort.Slice` by date, as an insertion sort: the dates of a history are distinct.
unfoldable pub insert : UsageDay → List UsageDay → List UsageDay
insert u [] = u ∷ []
insert u (v ∷ vs) = let rest = insert u vs in if text_lt v.date u.date then v ∷ rest else u ∷ v ∷ vs

unfoldable pub sort : List UsageDay → List UsageDay
unfolding insert
sort [] = []
sort (u ∷ us) = insert u (sort us)

-- `trimUsageDays`, for a bound above 0
unfoldable pub trim_usage_days : List UsageDay → ℕ → List UsageDay
trim_usage_days days most =
    if most == 0 || leb (length days) most then days else drop (length days - most) (sort days)

-- `usageTracker.list`
unfoldable pub list : List UsageDay → ℕ → List UsageDay
list days limit =
    let sorted = sort days in
    if ltb 0 limit && ltb limit (length sorted) then drop (length sorted - limit) sorted else sorted

abbrev pub history_days : ℕ
history_days = 120

-- `usageTracker`: `path`'s content, and the clock of the last flush in nanoseconds.
pub record Tracker : Type 0 where
  pub days : List UsageDay
  pub dirty : Bool
  pub last_flush : ℕ
  pub saved : List UsageDay

-- `flushLocked`; `writable` says whether `saveUsageHistory` succeeds.
unfoldable pub flush : Bool → ℕ → Tracker → Tracker
flush writable now u =
    let saved = if writable then sort u.days else u.saved in
    if u.dirty then record u { saved = saved; dirty = false; last_flush = now } else u

-- `usageTracker.add`
unfoldable pub add : Bool → ℕ → String → Delta → Tracker → Tracker
add writable now key d u =
    let u' = record u {
      days = trim_usage_days (add_usage_to_day u.days key d) history_days;
      dirty = true;
    } in
    if ltb 30000000000 (now - u.last_flush) then flush writable now u' else u'
