-- ===== src/Dns/Serve.antt =====
-- One turn of the serve loop of dns_task in main/dns_sinkhole.c: receive, parse, look up, then refuse,
-- replay a cached answer or forward. What the sockets and the clock give is an argument; a datagram
-- that is sent is a result. The blocklist's lookup is the parameter `contains`.
pub mod Turns
pub mod Memory
pub mod Replay
use esp_hole.Hash.{domain_hash}
use esp_hole.Dns.Question.{parse_question}
use esp_hole.Dns.Match.{c_string, is_blocked}
use esp_hole.Dns.Reply.{make_nxdomain, Arrivals, forward_upstream}
use esp_hole.Dns.Cache.{Entry, Cache, cache_find, cache_insert}
use esp_hole.Stats.Counters.{Counters, count_blocked, count_forwarded, count_timeout}
use esp_hole.Base.{
  ℕ, zero, suc, ◌+◌, ◌-◌, ◌*◌, ◌/◌, ◌%◌, ◌^◌, ◌≤◌, ◌<◌, bit_and, bit_or, bit_xor, ◌≡◌, refl, sym,
  ap, ap₂, ◌∙◌, subst, ◌≢◌, ◌↔◌, ◌⊎◌, inl, inr, Bool, true, false, ◌&&◌, ◌||◌, not, Option, none,
  some, List, [], ◌∷◌, ◌++◌, map, append-nil, append_assoc, map-append, arith, ltb, leb, ◌==◌,
  if◌then◌else◌, ltb→lt, lt→ltb, ltb_false→le, le→ltb_false, leb→le, le→leb, ==→eq, ==_false→ne,
  ==_refl, ne→==_false, tests, Bool-cases, Option-cases, length, get_elem?, get_or, set, take, drop,
  replicate, length-append, get_elem?-eq-get_or, get_elem?-none, get_elem?-append_length,
  length-set, get_elem?-set_self, length-take, take-append, drop-append, elem, bytes_eq,
  bytes_eq→eq, bytes_eq_refl, All, All-mono, All-elem_self, take_all, length-map, All-get,
  elem-append, elem_of_get, not_elem_of_get, Above, IsAscending, Above-lt, IsAscending-lt, u8_mod,
  u32_mod, u64_mod, add32, sub32, mul32, mul64, Exec, ret, fault, no_fuel, ◌>>=◌, read,
}

abbrev pub max_name : ℕ
max_name = 254

pub record Node : Type 0 where
  pub cache : Cache
  pub counters : Counters
  pub upstream : Arrivals

-- `received` is the datagram that recvfrom gave, if any; `now` and `later` are the two readings of
-- the clock, and `sent` says whether the query could be sent upstream.
pub record Input : Type 0 where
  pub received : Option (List ℕ)
  pub now : ℕ
  pub sent : Bool
  pub later : ℕ

-- `s_ans` with the ID of this query.
unfoldable pub patch_id : List ℕ → List ℕ → List ℕ
patch_id pkt ans = set (set ans 0 (get_or pkt 0 0)) 1 (get_or pkt 1 0)

unfoldable pub cache_key : List ℕ → ℕ → ℕ
cache_key name qtype = bit_xor (domain_hash name) (qtype * 2 ^ 32)

-- The branch of a miss: forward, and on an answer count, insert and relay it.
unfoldable pub forward_turn : Node → Input → List ℕ → ℕ → Node × Option (List ℕ)
forward_turn node input pkt key =
    let (answer, rest) = forward_upstream input.sent pkt node.upstream in
    elim answer [
      | none ↦ (record node { counters = count_timeout node.counters; upstream = rest }, none)
      | some ans ↦
          if length ans == 0
          then (record node { counters = count_timeout node.counters; upstream = rest }, none)
          else (
            record {
              cache = cache_insert key ans input.now node.cache;
              counters =
                  count_forwarded ((input.later + u64_mod - input.now) % u32_mod) node.counters;
              upstream = rest;
            },
            some ans,
          )
    ]

-- Replay a fresh cached answer under this query's ID, or forward.
unfoldable pub keyed_turn : Node → Input → List ℕ → ℕ → Exec (Node × Option (List ℕ))
keyed_turn node input pkt key =
    let found = cache_find key input.now node.cache in
    let node' = record node { cache = found.1 } in
    elim found.0 [
      | none ↦ ret (forward_turn node' input pkt key)
      | some hit ↦ read (get_elem? found.1.entries hit) >>= λ e. ret (
        record node' { counters = count_forwarded 0 node.counters },
        some (patch_id pkt (take e.len e.answer)),
      )
    ]

-- The branch of a name that is not blocked: the key joins the name's hash and the query type.
unfoldable pub answer_turn : Node → Input → List ℕ → ℕ → List ℕ → Exec (Node × Option (List ℕ))
answer_turn node input pkt q_end name = read (get_elem? pkt (q_end - 4)) >>= λ high.
    read (get_elem? pkt (q_end - 3)) >>= λ low.
    keyed_turn node input pkt (cache_key name (bit_or (high * 2 ^ 8) low))

module _ (contains : ℕ → Exec Bool) where
  -- From the parsed question on.
  unfoldable pub question_turn : Node → Input → List ℕ → ℕ → List ℕ → Exec (Node × Option (List ℕ))
  question_turn node input pkt q_end name = is_blocked contains name >>= λ blocked.
      if blocked
      then ret (
        record node { counters = count_blocked node.counters },
        some (take q_end (make_nxdomain pkt)),
      )
      else answer_turn node input pkt q_end name

  unfoldable pub parsed_turn :
      Node → Input → List ℕ → Option (ℕ × List ℕ) → Exec (Node × Option (List ℕ))
  parsed_turn node input pkt none = ret (node, none)
  parsed_turn node input pkt (some (q_end, name)) =
      question_turn node input pkt q_end (c_string name)

  -- From the datagram on; a failed receive starts the next turn.
  unfoldable pub received_turn : Node → Input → Option (List ℕ) → Exec (Node × Option (List ℕ))
  received_turn node input none = ret (node, none)
  received_turn node input (some pkt) =
      parse_question pkt (length pkt) max_name >>= parsed_turn node input pkt

  unfoldable pub serve_turn : Node → Input → Exec (Node × Option (List ℕ))
  serve_turn node input = received_turn node input input.received

-- The loop of dns_task, over as many turns as there are inputs, each with the lookup that it meets: the
-- datagrams sent, `none` for a turn that sends nothing.
unfoldable pub dns_task :
    Node → List ((ℕ → Exec Bool) × Input) → Exec (Node × List (Option (List ℕ)))
dns_task node [] = ret (node, [])
dns_task node (t ∷ turns) =
    serve_turn t.0 node t.1 >>= λ r. dns_task r.0 turns >>= λ rest. ret (rest.0, r.1 ∷ rest.1)
