-- ===== src/Generator/Page.antt =====
-- find_or_create_node, ingest_line and stats_json_handler of generator-node/main/stats_ui.c. A text is
-- what stands before its NUL. Listener has the loops of stats_listener_task.
pub mod Fields
pub mod Buckets
pub mod Ingested
pub mod Listener
pub mod Slots
use esp_hole.Base.Text.{codes, read_digits}
use esp_hole.Stats.Counters.{hist_buckets}
use esp_hole.Base.{
  ℕ, zero, suc, ◌+◌, ◌-◌, ◌*◌, ◌/◌, ◌%◌, ◌^◌, ◌≤◌, ◌<◌, bit_and, bit_or, bit_xor, ◌≡◌, refl, sym,
  ap, ap₂, ◌∙◌, subst, ◌≢◌, ◌↔◌, ◌⊎◌, inl, inr, Bool, true, false, ◌&&◌, ◌||◌, not, Option, none,
  some, List, [], ◌∷◌, ◌++◌, map, append-nil, append_assoc, map-append, arith, ltb, leb, ◌==◌,
  if◌then◌else◌, ltb→lt, lt→ltb, ltb_false→le, le→ltb_false, leb→le, le→leb, ==→eq, ==_false→ne,
  ==_refl, ne→==_false, tests, Bool-cases, Option-cases, length, get_elem?, get_or, set, take, drop,
  replicate, length-append, get_elem?-eq-get_or, get_elem?-none, get_elem?-append_length,
  length-set, get_elem?-set_self, length-take, take-append, drop-append, elem, bytes_eq,
  bytes_eq→eq, bytes_eq_refl, All, All-mono, All-elem_self, take_all, take_enough, length-map,
  All-get, elem-append, elem_of_get, not_elem_of_get, Above, IsAscending, Above-lt, IsAscending-lt,
  u8_mod, u32_mod, u64_mod, add32, sub32, mul32, mul64, Exec, ret, fault, no_fuel, ◌>>=◌, read,
}

-- A `long` of 32 bits.
pub record Long : Type 0 where
  pub negative : Bool
  pub magnitude : ℕ

-- `stats_node_t`. `node` has 16 bytes.
pub record StatsNode : Type 0 where
  pub used : Bool
  pub node : List ℕ
  pub blocked : ℕ
  pub forwarded : ℕ
  pub timeouts : ℕ
  pub lat_sum_us : ℕ
  pub uptime_s : Long
  pub last_seen_us : ℕ
  pub hist : List ℕ

-- strncmp is 0.
unfoldable pub same_prefix : ℕ → List ℕ → List ℕ → Bool
same_prefix zero s t = true
same_prefix (suc n) s t =
    let more = same_prefix n (drop 1 s) (drop 1 t) in
    if not (get_or s 0 0 == get_or t 0 0) then false else if get_or s 0 0 == 0 then true else more

abbrev pub is_node : StatsNode → List ℕ → ℕ → Bool
is_node n tag len = n.used && (same_prefix len n.node tag && get_or n.node len 0 == 0)

-- The loop over the nodes, from index `i` with the first free one before it.
unfoldable pub node_loop : List ℕ → ℕ → List StatsNode → ℕ → Option ℕ → Option ℕ
node_loop tag len [] i free_slot = free_slot
node_loop tag len (n ∷ ns) i free_slot =
    let rest = node_loop tag len ns (suc i) in
    if is_node n tag len
    then some i
    else rest (elim free_slot [ none ↦ if not n.used then some i else none | some f ↦ some f ])

-- memset, memcpy and `used`.
abbrev pub claimed : List ℕ → ℕ → StatsNode
claimed tag len = record {
  used = true;
  node = take len tag ++ replicate (16 - len) 0;
  blocked = 0;
  forwarded = 0;
  timeouts = 0;
  lat_sum_us = 0;
  uptime_s = record { negative = false; magnitude = 0 };
  last_seen_us = 0;
  hist = replicate hist_buckets 0;
}

abbrev pub node_at : List StatsNode → ℕ → StatsNode
node_at nodes i = get_or nodes i (claimed [] 0)

-- The index of the node, and the node as it stands there.
unfoldable pub find_or_create_node : List StatsNode → List ℕ → ℕ → Option (ℕ × StatsNode)
unfolding node_loop
find_or_create_node nodes tag len =
    if len == 0 || leb 16 len then none else elim (node_loop tag len nodes 0 none) [
      | none ↦ none
      | some i ↦
          some (i, if is_node (node_at nodes i) tag len then node_at nodes i else claimed tag len)
    ]

unfoldable pub c_string : List ℕ → List ℕ
c_string [] = []
c_string (c ∷ s) = let rest = c_string s in if c == 0 then [] else c ∷ rest

-- What stands before the first `sep` and behind it: memchr and strchr.
unfoldable pub split_at : ℕ → List ℕ → Option (List ℕ × List ℕ)
split_at sep [] = none
split_at sep (c ∷ s) =
    let rest = split_at sep s in
    if c == sep then some ([], s) else elim rest [ none ↦ none | some r ↦ some (c ∷ r.0, r.1) ]

-- The texts that the loop cuts off at the commas.
unfoldable pub pieces : List ℕ → List ℕ → List (List ℕ)
pieces piece [] = piece ∷ []
pieces piece (c ∷ s) =
    let here = pieces [] s in
    let more = pieces (piece ++ c ∷ []) s in if c == 44 then piece ∷ here else more

abbrev pub long_max : ℕ
long_max = 2 ^ 31 - 1

abbrev pub is_white : ℕ → Bool
is_white c = c == 32 || (leb 9 c && leb c 13)

unfoldable pub skip_white : List ℕ → List ℕ
skip_white [] = []
skip_white (c ∷ s) = let rest = skip_white s in if is_white c then rest else c ∷ s

abbrev pub saturate : Bool → ℕ → Long
saturate negative v =
    let most = if negative then suc long_max else long_max in
    record { negative = negative; magnitude = if ltb most v then most else v }

unfoldable pub strtol : List ℕ → Long
strtol s =
    let t = skip_white s in
    if get_or t 0 0 == 45
    then saturate true (read_digits 0 (drop 1 t))
    else if get_or t 0 0 == 43
    then saturate false (read_digits 0 (drop 1 t))
    else saturate false (read_digits 0 t)

-- `(uint32_t)v`.
abbrev pub to_u32 : Long → ℕ
to_u32 v = if v.negative then sub32 0 v.magnitude else v.magnitude

unfoldable pub set_bucket : StatsNode → List ℕ → Long → StatsNode
set_bucket n key v =
    let bucket = (strtol (drop 1 key)).magnitude in
    if ltb bucket hist_buckets
    then record n { hist = set n.hist bucket (add32 (get_or n.hist bucket 0) (to_u32 v)) }
    else n

unfoldable pub set_field : StatsNode → List ℕ → Long → StatsNode
unfolding set_bucket
set_field n key v =
    if bytes_eq key (codes "blocked")
    then record n { blocked = add32 n.blocked (to_u32 v) }
    else if bytes_eq key (codes "forwarded")
    then record n { forwarded = add32 n.forwarded (to_u32 v) }
    else if bytes_eq key (codes "timeouts")
    then record n { timeouts = add32 n.timeouts (to_u32 v) }
    else if bytes_eq key (codes "lat_sum_us")
    then record n { lat_sum_us = add32 n.lat_sum_us (to_u32 v) }
    else if bytes_eq key (codes "uptime_s")
    then record n { uptime_s = v }
    else if get_or key 0 0 == 104 && (leb 48 (get_or key 1 0) && leb (get_or key 1 0) 57)
    then set_bucket n key v
    else n

-- One field: without an equal sign nothing is done.
unfoldable pub field_step : StatsNode → List ℕ → StatsNode
field_step n piece = elim (split_at 61 piece) [ none ↦ n | some r ↦ set_field n r.0 (strtol r.1) ]

unfoldable pub field_loop : StatsNode → List (List ℕ) → StatsNode
field_loop n [] = n
field_loop n (piece ∷ ps) = field_loop (field_step n piece) ps

-- From the node on.
abbrev pub ingest_fields : ℕ → List StatsNode → List ℕ → Option (ℕ × StatsNode) → List StatsNode
ingest_fields now nodes text none = nodes
ingest_fields now nodes text (some r) =
    set nodes r.0 (field_loop (record r.1 { last_seen_us = now }) (pieces [] (c_string text)))

abbrev pub prefix : List ℕ
prefix = codes "esphole,node="

-- `line` is all that the buffer holds from the line on; `now` is the clock.
unfoldable pub ingest_line : ℕ → List StatsNode → List ℕ → ℕ → List StatsNode
ingest_line now nodes line len =
    if leb len 13 || not (same_prefix 13 line prefix)
    then nodes
    else elim (split_at 32 (take (len - 13) (drop 13 line))) [
      | none ↦ nodes
      | some r ↦
          ingest_fields now nodes (drop (suc (length r.0)) (drop 13 line))
            (find_or_create_node nodes r.0 (length r.0))
    ]

-- What the page shows of a node.
pub record Row : Type 0 where
  pub id : List ℕ
  pub blocked : ℕ
  pub forwarded : ℕ
  pub timeouts : ℕ
  pub lat_sum_us : ℕ
  pub uptime_s : Long
  pub last_seen_s : ℕ

-- The rows that stats_json_handler prints, where the clock has not gone back.
unfoldable pub stats_rows : ℕ → List StatsNode → List Row
stats_rows now [] = []
stats_rows now (n ∷ ns) =
    let rest = stats_rows now ns in
    if not n.used
    then rest
    else record {
      id = c_string n.node;
      blocked = n.blocked;
      forwarded = n.forwarded;
      timeouts = n.timeouts;
      lat_sum_us = n.lat_sum_us;
      uptime_s = n.uptime_s;
      last_seen_s = (now - n.last_seen_us) / 1000000;
    }
      ∷ rest
