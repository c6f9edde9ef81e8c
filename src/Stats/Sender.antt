-- ===== src/Stats/Sender.antt =====
-- snap_counters, stats_send_once and the loop of stats_task of main/stats.c. The counters may be bumped
-- between two loads of a snapshot, so a snapshot is taken of the counters at each load. The socket, the
-- resolver and the clock are arguments.
pub mod Counted
pub mod Deltas
use esp_hole.Base.Text.{codes, decimal}
use esp_hole.Stats.Counters.{hist_buckets, Counters, zero_counters}
use esp_hole.Base.{
  ℕ, zero, suc, ◌+◌, ◌-◌, ◌*◌, ◌/◌, ◌%◌, ◌^◌, ◌≤◌, ◌<◌, bit_and, bit_or, bit_xor, ◌≡◌, refl, sym,
  ap, ap₂, ◌∙◌, subst, ◌≢◌, ◌↔◌, ◌⊎◌, inl, inr, Bool, true, false, ◌&&◌, ◌||◌, not, Option, none,
  some, List, [], ◌∷◌, ◌++◌, map, append-nil, append_assoc, map-append, arith, ltb, leb, ◌==◌,
  if◌then◌else◌, ltb→lt, lt→ltb, ltb_false→le, le→ltb_false, leb→le, le→leb, ==→eq, ==_false→ne,
  ==_refl, ne→==_false, tests, Bool-cases, Option-cases, length, get_elem?, get_or, set, take, drop,
  replicate, length-append, get_elem?-eq-get_or, get_elem?-none, get_elem?-append_length,
  length-set, get_elem?-set_self, length-take, take-append, drop-append, elem, bytes_eq,
  bytes_eq→eq, bytes_eq_refl, All, All-mono, All-elem_self, take_all, take_enough, length-map,
  All-get, elem-append, elem_of_get, not_elem_of_get, Above, IsAscending, Above-lt, IsAscending-lt,
  u8_mod, u32_mod, u64_mod, add32, sub32, mul32, mul64, Exec, ret, fault, no_fuel, ◌>>=◌, read,
}

-- The `n` indices from `i` on.
abbrev pub indices : ℕ → ℕ → List ℕ
indices i zero = []
indices i (suc n) = i ∷ indices (suc i) n

-- The loads, in order: the four counters, then the buckets.
unfoldable pub snap_counters : (ℕ → Counters) → Counters
snap_counters at_load = record {
  blocked = (at_load 0).blocked;
  forwarded = (at_load 1).forwarded;
  timeouts = (at_load 2).timeouts;
  lat_sum_us = (at_load 3).lat_sum_us;
  hist = map (λ i. get_or (at_load (4 + i)).hist i 0) (indices 0 hist_buckets);
}

abbrev pub sub_each : List ℕ → List ℕ → List ℕ
sub_each (a ∷ xs) (b ∷ ys) = sub32 a b ∷ sub_each xs ys
sub_each _ _ = []

unfoldable pub deltas : Counters → Counters → Counters
deltas cur last = record {
  blocked = sub32 cur.blocked last.blocked;
  forwarded = sub32 cur.forwarded last.forwarded;
  timeouts = sub32 cur.timeouts last.timeouts;
  lat_sum_us = sub32 cur.lat_sum_us last.lat_sum_us;
  hist = sub_each cur.hist last.hist;
}

unfoldable pub field : List ℕ → ℕ → List ℕ
field key v = key ++ (codes "=" ++ (decimal v ++ codes "i"))

-- The fields of the line, in the order of the format string.
unfoldable pub fields : Counters → ℕ → List (List ℕ)
fields d uptime_s =
    field (codes "blocked") d.blocked
    ∷ field (codes "forwarded") d.forwarded
    ∷ field (codes "timeouts") d.timeouts
    ∷ field (codes "lat_sum_us") d.lat_sum_us
    ∷ field (codes "uptime_s") uptime_s
    ∷ map (λ i. field (codes "h" ++ decimal i) (get_or d.hist i 0)) (indices 0 hist_buckets)

abbrev pub join : List (List ℕ) → List ℕ
join [] = []
join (f ∷ []) = f
join (f ∷ fs) = f ++ 44 ∷ join fs

unfoldable pub stats_line : List ℕ → Counters → ℕ → List ℕ
stats_line node d uptime_s = codes "esphole,node=" ++ (node ++ 32 ∷ join (fields d uptime_s))

abbrev pub line_size : ℕ
line_size = 512

abbrev pub stats_reresolve_us : ℕ
stats_reresolve_us = 3600 * 1000000

-- The statics of the sender and the two variables of its task.
pub record Sender : Type 0 where
  pub node : List ℕ
  pub has_sock : Bool
  pub target_valid : Bool
  pub last : Counters
  pub last_resolve_us : ℕ

-- What one interval meets.
pub record Interval : Type 0 where
  pub at_load : ℕ → Counters
  pub socket : Bool
  pub resolved : Bool
  pub now : ℕ
  pub later : ℕ

-- From the open socket on: the datagram, where one is sent.
unfoldable pub send_line : Sender → Interval → Counters → Sender × Option (List ℕ)
send_line s i d =
    let line = stats_line s.node d (i.later / 1000000) in
    if leb line_size (length line) then (s, none) else (s, some line)

unfoldable pub resolve_step : Sender → Interval → Counters → Sender × Option (List ℕ)
unfolding send_line
resolve_step s i d =
    if not s.target_valid || ltb (s.last_resolve_us + stats_reresolve_us) i.now
    then (if i.resolved
        then send_line (record s { target_valid = true; last_resolve_us = i.now }) i d
        else (record s { target_valid = false }, none))
    else send_line s i d

unfoldable pub stats_send_once : Sender → Interval → Sender × Option (List ℕ)
unfolding resolve_step
stats_send_once s i =
    let cur = snap_counters i.at_load in
    let d = deltas cur s.last in
    let advanced = record s { last = cur } in
    if not s.has_sock && not i.socket
    then (advanced, none)
    else resolve_step (record advanced { has_sock = true }) i d

-- The loop of stats_task, over as many intervals as there are records: the datagrams sent.
unfoldable pub stats_task : Sender → List Interval → Sender × List (List ℕ)
stats_task s [] = (s, [])
stats_task s (i ∷ intervals) =
    let (s', line) = stats_send_once s i in
    let (s'', lines) = stats_task s' intervals in
    (s'', elim line [ none ↦ lines | some l ↦ l ∷ lines ])

-- What stats_start and stats_task begin with.
unfoldable pub stats_start : List ℕ → Sender
stats_start node_ip = record {
  node = take 15 node_ip;
  has_sock = false;
  target_valid = false;
  last = zero_counters;
  last_resolve_us = 0;
}
