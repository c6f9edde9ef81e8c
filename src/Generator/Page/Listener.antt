-- ===== src/Generator/Page/Listener.antt =====
-- stats_listener_task of generator-node/main/stats_ui.c: the loop over the lines of a datagram, with what
-- ingest_line writes into the buffer. What recv and the clock give is an argument.
pub mod Table
pub mod Lines
pub mod Received
use esp_hole.Generator.Page.{
  StatsNode, c_string, split_at, same_prefix, prefix, claimed, find_or_create_node, ingest_line,
}
use esp_hole.Base.{
  ℕ, zero, suc, ◌+◌, ◌-◌, ◌*◌, ◌/◌, ◌%◌, ◌^◌, ◌≤◌, ◌<◌, bit_and, bit_or, bit_xor, ◌≡◌, refl, sym,
  ap, ap₂, ◌∙◌, subst, ◌≢◌, ◌↔◌, ◌⊎◌, inl, inr, Bool, true, false, ◌&&◌, ◌||◌, not, Option, none,
  some, List, [], ◌∷◌, ◌++◌, map, append-nil, append_assoc, map-append, arith, ltb, leb, ◌==◌,
  if◌then◌else◌, ltb→lt, lt→ltb, ltb_false→le, le→ltb_false, leb→le, le→leb, ==→eq, ==_false→ne,
  ==_refl, ne→==_false, tests, Bool-cases, Option-cases, length, get_elem?, get_or, set, take, drop,
  replicate, length-append, get_elem?-eq-get_or, get_elem?-none, get_elem?-append_length,
  length-set, get_elem?-set_self, get_or-set_self, get_or-set_other, length-take, take-append,
  drop-append, elem, bytes_eq, bytes_eq→eq, bytes_eq_refl, All, All-mono, All-elem_self, take_all,
  take_enough, length-map, All-get, elem-append, elem_of_get, not_elem_of_get, Above, IsAscending,
  Above-lt, IsAscending-lt, u8_mod, u32_mod, u64_mod, add32, sub32, mul32, mul64, Exec, ret, fault,
  no_fuel, ◌>>=◌, read,
}

-- `STATS_MAX_LINE`
abbrev pub stats_max_line : ℕ
stats_max_line = 512

-- `s_nodes` at boot.
abbrev pub unused : StatsNode
unused = record (claimed [] 0) { used = false }

abbrev pub no_nodes : List StatsNode
no_nodes = replicate 16 unused

-- What the loop over the fields leaves of the text: a NUL on every comma, and on the first equal sign of
-- every piece. `seen` says whether the piece has had its equal sign.
unfoldable pub cut_fields : Bool → List ℕ → List ℕ
cut_fields seen [] = []
cut_fields seen (c ∷ s) =
    let next = cut_fields false s in
    let valued = cut_fields true s in
    let same = cut_fields seen s in
    if c == 0
    then c ∷ s
    else if c == 44
    then 0 ∷ next
    else if c == 61 && not seen
    then 0 ∷ valued
    else c ∷ same

-- The buffer from the line on as ingest_line leaves it.
unfoldable pub cut_line : List StatsNode → List ℕ → ℕ → List ℕ
cut_line nodes line len =
    if leb len 13 || not (same_prefix 13 line prefix)
    then line
    else elim (split_at 32 (take (len - 13) (drop 13 line))) [
      | none ↦ line
      | some r ↦
          let text : List ℕ = drop (suc (length r.0)) (drop 13 line) in
          take 13 line
          ++ (r.0
              ++ 0 ∷ elim (find_or_create_node nodes r.0 (length r.0)) [
                | none ↦ text
                | some _ ↦ cut_fields false text
              ])
    ]

-- The length of the line, and whether a newline ends it.
unfoldable pub line_end : List ℕ → ℕ × Bool
line_end line = elim (split_at 10 (c_string line)) [
  | none ↦ (length (c_string line), false)
  | some r ↦ (length r.0, true)
]

-- The loop over the lines, from the `i`th on; `now i` is the clock when it is read for the `i`th.
unfoldable pub lines_loop : ℕ → (ℕ → ℕ) → ℕ → List StatsNode → List ℕ → Exec (List StatsNode)
lines_loop zero now i nodes line = no_fuel
lines_loop (suc fuel) now i nodes line =
    let (len, ended) = line_end line in
    let nodes' = if 0 == len then nodes else ingest_line (now i) nodes line len in
    let line' = if 0 == len then line else cut_line nodes line len in
    let rest = lines_loop fuel now (suc i) nodes' (drop (suc len) line') in
    if get_or line 0 0 == 0 then ret nodes else if ended then rest else ret nodes'

-- A datagram of `n` bytes, and the NUL behind it.
unfoldable pub ingest_datagram : (ℕ → ℕ) → List StatsNode → List ℕ → Exec (List StatsNode)
ingest_datagram now nodes dgram =
    let buf = take (stats_max_line - 1) dgram ++ 0 ∷ [] in
    lines_loop (suc (length buf)) now 0 nodes buf

-- The loop of the task: an error or an empty datagram starts the next turn.
unfoldable pub stats_listener_task :
    List ((ℕ → ℕ) × Option (List ℕ)) → List StatsNode → Exec (List StatsNode)
stats_listener_task [] nodes = ret nodes
stats_listener_task ((now, none) ∷ turns) nodes = stats_listener_task turns nodes
stats_listener_task ((now, some []) ∷ turns) nodes = stats_listener_task turns nodes
stats_listener_task ((now, some (c ∷ dgram)) ∷ turns) nodes =
    ingest_datagram now nodes (c ∷ dgram) >>= stats_listener_task turns
