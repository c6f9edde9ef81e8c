-- ===== src/Generator/Page/Listener/Received.antt =====
-- The listener of generator-node/main/stats_ui.c on the datagram that main/stats.c sends.
use esp_hole.Base.Text.{codes, decimal}
use esp_hole.Stats.Counters.{Counters, hist_buckets}
use esp_hole.Stats.Sender.{indices, field, join, fields, stats_line, line_size}
use esp_hole.Generator.Page.{StatsNode, c_string, split_at, find_or_create_node, ingest_line}
use esp_hole.Generator.Page.Fields.{elem-none, join-plain, c_string-end, absent-cons}
use esp_hole.Generator.Page.Ingested.{IsReport, Reported, fields-IsPlain, ingest_line-Reported}
use esp_hole.Generator.Page.Listener.{line_end, lines_loop, ingest_datagram}
use esp_hole.Base.{
  ℕ, suc, ◌<◌, ◌≡◌, refl, ap, ◌∙◌, false, none, some, List, [], ◌∷◌, ◌++◌, map, arith, ◌==◌, length,
  get_or, set, take, elem, take_enough, ret,
}

-- What does not occur cuts nothing.
split_at-absent : (sep : ℕ) (s : List ℕ) → elem sep s ≡ false → split_at sep s ≡ none
unfolding split_at
split_at-absent sep [] h = refl
split_at-absent sep (c ∷ s) h =
    let (ne, rest) = absent-cons sep c s h in rw (ne, split_at-absent sep s rest) refl

stats_line-plain :
    (tag : List ℕ) (d : Counters) (uptime_s c : ℕ)
    → elem c (codes "esphole,node=") ≡ false
    → (32 == c) ≡ false
    → elem c tag ≡ false
    → elem c (join (fields d uptime_s)) ≡ false
    → elem c (stats_line tag d uptime_s) ≡ false
unfolding stats_line
stats_line-plain tag d uptime_s c p space t f =
    elem-none c (codes "esphole,node=") (tag ++ 32 ∷ join (fields d uptime_s)) p
      (elem-none c tag (32 ∷ join (fields d uptime_s)) t (rw space f))

fields-plain :
    (d : Counters) (uptime_s : ℕ)
    → (elem 0 (join (fields d uptime_s)) ≡ false) × (elem 10 (join (fields d uptime_s)) ≡ false)
unfolding fields
fields-plain d uptime_s =
    let all = fields-IsPlain d uptime_s in
    join-plain (field (codes "blocked") d.blocked)
      (field (codes "forwarded") d.forwarded
        ∷ field (codes "timeouts") d.timeouts
        ∷ field (codes "lat_sum_us") d.lat_sum_us
        ∷ field (codes "uptime_s") uptime_s
        ∷ map (λ i. field (codes "h" ++ decimal i) (get_or d.hist i 0)) (indices 0 hist_buckets))
      all

one_end :
    (s : List ℕ) → elem 0 s ≡ false → elem 10 s ≡ false → line_end (s ++ 0 ∷ []) ≡ (length s, false)
unfolding line_end
one_end s zeros lines =
    let text : c_string (s ++ 0 ∷ []) ≡ s = c_string-end s [] zeros in
    rw (text, split_at-absent 10 s lines, line_end) (ap (λ (t : List ℕ). (length t, false)) text)

last_line :
    (fuel : ℕ) (now : ℕ → ℕ) (nodes : List StatsNode) (line : List ℕ) (len : ℕ)
    → line_end line ≡ (len, false)
    → (get_or line 0 0 == 0) ≡ false
    → (0 == len) ≡ false
    → lines_loop (suc fuel) now 0 nodes line ≡ ret (ingest_line (now 0) nodes line len)
unfolding lines_loop
last_line fuel now nodes line len e nz ne = rw (nz, e, ne) refl

-- A datagram without NUL and newline is one line.
one_line :
    (now : ℕ → ℕ) (nodes : List StatsNode) (c : ℕ) (s : List ℕ)
    → elem 0 (c ∷ s) ≡ false
    → elem 10 (c ∷ s) ≡ false
    → length (c ∷ s) < line_size
    → ingest_datagram now nodes (c ∷ s)
      ≡ ret (ingest_line (now 0) nodes ((c ∷ s) ++ 0 ∷ []) (length (c ∷ s)))
unfolding ingest_datagram
one_line now nodes c s zeros lines fits =
    let whole : take 511 (c ∷ s) ≡ c ∷ s = take_enough 511 (c ∷ s) (omega (arith, fits)) in
    let (nz, _) = absent-cons 0 c s zeros in
    ap (λ (t : List ℕ). lines_loop (suc (length (t ++ 0 ∷ []))) now 0 nodes (t ++ 0 ∷ [])) whole
    ∙ last_line (length ((c ∷ s) ++ 0 ∷ [])) now nodes ((c ∷ s) ++ 0 ∷ []) (length (c ∷ s))
        (one_end (c ∷ s) zeros lines) nz (ground arith)

sent_line :
    (now : ℕ → ℕ) (nodes : List StatsNode) (tag : List ℕ) (d : Counters) (uptime_s : ℕ)
    → elem 0 (stats_line tag d uptime_s) ≡ false
    → elem 10 (stats_line tag d uptime_s) ≡ false
    → length (stats_line tag d uptime_s) < line_size
    → ingest_datagram now nodes (stats_line tag d uptime_s)
      ≡ ret (
          ingest_line
            (now 0)
            nodes
            (stats_line tag d uptime_s ++ 0 ∷ [])
            (length (stats_line tag d uptime_s)))
unfolding stats_line
sent_line now nodes tag d uptime_s a b l =
    one_line now nodes 101 (codes "sphole,node=" ++ (tag ++ 32 ∷ join (fields d uptime_s))) a b l

-- A datagram that main/stats.c sends is read back by the listener, byte for byte off the wire: for a node
-- that has an entry or gets a free one, its sums grow by exactly the numbers that were sent, in 32 bits,
-- bucket by bucket, its uptime is the one sent, it was last seen now, and no other entry changes. The tag
-- has no NUL, newline or space, the line fits the sender's buffer, and no number is 2 ^ 31 or more, which
-- is all that strtol reads.
pub ingest_datagram-Reported :
    (now : ℕ → ℕ) (nodes : List StatsNode) (tag : List ℕ) (d : Counters) (uptime_s i : ℕ)
    (n : StatsNode)
    → elem 0 tag ≡ false
    → elem 10 tag ≡ false
    → elem 32 tag ≡ false
    → length (stats_line tag d uptime_s) < line_size
    → find_or_create_node nodes tag (length tag) ≡ some (i, n)
    → length n.hist ≡ hist_buckets
    → IsReport d uptime_s
    → (n' : StatsNode) × (ingest_datagram now nodes (stats_line tag d uptime_s)
        ≡ ret (set nodes i n'))
      × Reported (now 0) n d uptime_s n'
ingest_datagram-Reported now nodes tag d uptime_s i n zeros lines spaces fits found buckets report =
    let plain = fields-plain d uptime_s in
    let no_nul = stats_line-plain tag d uptime_s 0 refl refl zeros plain.0 in
    let no_line = stats_line-plain tag d uptime_s 10 refl refl lines plain.1 in
    let (n', run, shown) =
      ingest_line-Reported (now 0) nodes tag d uptime_s i n [] spaces found buckets report in
    (n', sent_line now nodes tag d uptime_s no_nul no_line fits ∙ ap ret run, shown)
