-- ===== src/Tests/Reports.antt =====
-- A report of the statistics, from the counters to the receiver's table.
use esp_hole.Base.Text.{codes}
use esp_hole.Stats.Counters.{Counters, zero_counters}
use esp_hole.Stats.Sender.{snap_counters, stats_line, line_size, Sender, Interval, stats_send_once}
use esp_hole.Stats.Sender.Counted.{Event, blocked, forwarded, IsSnapshot}
use esp_hole.Stats.Sender.Deltas.{later, IsInterval, Tallies, stats_send_once-Tallies}
use esp_hole.Generator.Page.{
  split_at, c_string, pieces, field_loop, field_step, set_field, set_bucket, strtol, skip_white,
  StatsNode, same_prefix, node_loop, claimed, find_or_create_node, ingest_line,
}
use esp_hole.Stats.Sender.{fields, field}
use esp_hole.Base.Text.{decimal, read_digits}
use esp_hole.Generator.Page.Ingested.{IsReport, Reported}
use esp_hole.Generator.Page.Listener.{
  unused, lines_loop, line_end, cut_line, cut_fields, no_nodes, ingest_datagram,
  stats_listener_task,
}
use esp_hole.Generator.Page.Listener.Table.{IsTable, no_nodes-IsTable}
use esp_hole.Generator.Page.Listener.Lines.{stats_listener_task-IsTable}
use esp_hole.Generator.Page.Listener.Received.{ingest_datagram-Reported}
use esp_hole.Base.{
  ℕ, zero, suc, ◌+◌, Option, ret, ◌-◌, ◌/◌, ◌^◌, ◌≤◌, ◌<◌, ◌≡◌, refl, ◌⊎◌, true, false, none, some,
  List, [], ◌∷◌, arith, length, get_or, set, replicate, u32_mod,
}

abbrev start : ℕ → Counters
start _ = zero_counters

abbrev happened : ℕ → List Event
happened _ = blocked ∷ forwarded 1000 ∷ blocked ∷ []

zeros_get : (n b : ℕ) → get_or (replicate n 0) b 0 < u32_mod
zeros_get zero b = omega arith
zeros_get (suc n) zero = omega arith
zeros_get (suc n) (suc b) = zeros_get n b

zero-IsSnapshot : IsSnapshot zero_counters
zero-IsSnapshot = record {
  blocked = omega arith;
  forwarded = omega arith;
  timeouts = omega arith;
  lat_sum_us = omega arith;
  buckets = refl;
  words = zeros_get 16;
}

happened-IsInterval : IsInterval start happened
happened-IsInterval = record {
  snapshot = λ _. zero-IsSnapshot;
  blocked = omega arith;
  forwarded = omega arith;
  timeouts = omega arith;
  lat_sum_us = omega arith;
  buckets = λ b. ground arith;
}

abbrev sender : Sender
sender = record {
  node = codes "10.0.0.2";
  has_sock = true;
  target_valid = false;
  last = snap_counters start;
  last_resolve_us = 0;
}

abbrev interval : Interval
interval = record {
  at_load = later start happened;
  socket = true;
  resolved = true;
  now = 60000000;
  later = 60000100;
}

stats_send_once-Tallies_example :
    ((stats_send_once sender interval).0.last ≡ snap_counters (later start happened))
    × (d : Counters) × Tallies start happened d
    × (((stats_send_once sender interval).1 ≡ none)
        ⊎ (((stats_send_once sender interval).1
              ≡ some (stats_line (codes "10.0.0.2") d (60000100 / 1000000)))
            × (length (stats_line (codes "10.0.0.2") d (60000100 / 1000000)) < line_size)))
stats_send_once-Tallies_example =
    stats_send_once-Tallies start happened sender interval happened-IsInterval refl refl

abbrev pub report : Counters
report = record {
  blocked = 2;
  forwarded = 1;
  timeouts = 0;
  lat_sum_us = 1000;
  hist = replicate 16 0;
}

zeros_small : (n b : ℕ) → get_or (replicate n 0) b 0 ≤ 2 ^ 31 - 1
zeros_small zero b = omega arith
zeros_small (suc n) zero = omega arith
zeros_small (suc n) (suc b) = zeros_small n b

pub report-IsReport : IsReport report 60
report-IsReport = record {
  blocked = omega arith;
  forwarded = omega arith;
  timeouts = omega arith;
  lat_sum_us = omega arith;
  uptime = omega arith;
  buckets = zeros_small 16;
}

abbrev tag : List ℕ
tag = codes "10.0.0.2"

first_slot : find_or_create_node no_nodes tag (length tag) ≡ some (0, claimed tag 8)
unfolding find_or_create_node node_loop same_prefix
first_slot = refl

fits : length (stats_line tag report 60) < line_size
unfolding stats_line fields field decimal
fits = omega arith

ingest_datagram-Reported_example :
    (n' : StatsNode) × (ingest_datagram (λ i. 5 + i) no_nodes (stats_line tag report 60)
      ≡ ret (set no_nodes 0 n'))
    × Reported 5 (claimed tag 8) report 60 n'
ingest_datagram-Reported_example =
    ingest_datagram-Reported (λ i. 5 + i) no_nodes tag report 60 0 (claimed tag 8) refl refl refl
      fits first_slot refl report-IsReport

-- A line, an empty datagram, two lines in one, and garbage.
abbrev datagrams : List ((ℕ → ℕ) × Option (List ℕ))
datagrams =
    ((λ i. 5), some (codes "esphole,node=10.0.0.2 blocked=2i,h3=1i"))
    ∷ ((λ i. 6), none)
    ∷ ((λ i. 7), some (codes "esphole,node=a x=1\nesphole,node=b blocked=3i"))
    ∷ ((λ i. 8), some (0 ∷ 61 ∷ 44 ∷ []))
    ∷ []

stats_listener_task-IsTable_example :
    (ns : List StatsNode) × (stats_listener_task datagrams no_nodes ≡ ret ns) × IsTable ns
stats_listener_task-IsTable_example =
    stats_listener_task-IsTable datagrams no_nodes no_nodes-IsTable

-- Of two lines in a datagram the first node gets what is left of the second, and the second node nothing.
two_lines :
    ingest_datagram
      (λ i. 7)
      no_nodes
      (codes "esphole,node=a x=1,y=2\nesphole,node=b blocked=3i,forwarded=4i")
    ≡ ret (record (claimed (codes "a") 1) { forwarded = 4; last_seen_us = 7 } ∷ replicate 15 unused)
unfolding ingest_datagram lines_loop line_end ingest_line find_or_create_node node_loop same_prefix
    split_at c_string cut_line cut_fields pieces field_loop field_step set_field set_bucket strtol
    skip_white read_digits
two_lines = refl
