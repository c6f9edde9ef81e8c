-- ===== src/Tests/Network.antt =====
-- The sinkhole on the query for a.b.
use esp_hole.Dns.Socket.{Attempt, make_socket_retry, Retried, make_socket_retry-Retried}
use esp_hole.Dns.Cache.Evict.{stored, GivesUp, IsMarked, cache_insert-GivesUp}
use esp_hole.Base.Text.{codes}
use esp_hole.Dns.Question.{lower, parse_question}
use esp_hole.Dns.Question.Wire.{dotted}
use esp_hole.Dns.Question.Parse.{IsQuestion, Decides, parse_question-Decides}
use esp_hole.Dns.Match.{c_string, is_blocked}
use esp_hole.Dns.Match.Parents.{Blocks, is_blocked-Blocks}
use esp_hole.Dns.Reply.{forward_upstream}
use esp_hole.Dns.Reply.Laws.{refusal, refusal_flags}
use esp_hole.Dns.Cache.{Cache, victim_loop, Entry, empty_cache, cache_find, cache_insert, victim}
use esp_hole.Dns.Cache.Keys.{IsWhole, replicate-Absent, empty_cache-IsWhole}
use esp_hole.Dns.Cache.Recall.{find-insert}
use esp_hole.Dns.Serve.{max_name, Node, serve_turn, dns_task}
use esp_hole.Dns.Serve.Replay.{
  Resolver, Implements, Turn, Replays, as_code, dns_task-Replays, empty_cache-Implements,
}
use esp_hole.Dns.Serve.Turns.{IsResponse, Answers, serve_turn-Outcome, serve_turn-blocked}
use esp_hole.Stats.Counters.{zero_counters, lat_bucket, count_blocked}
use esp_hole.Stats.Counters.Buckets.{InBucket, lat_bucket-InBucket}
use esp_hole.Tests.Fixtures.{query, response, arrivals, node, input, asked_labels}
use esp_hole.Base.{
  none, ℕ, ◌<◌, bit_and, bit_or, ◌≡◌, refl, subst, ◌≢◌, ◌↔◌, inl, Bool, true, false, ◌&&◌, not,
  Option, some, List, [], ◌∷◌, ◌++◌, map, arith, ltb, length, get_elem?, take, drop, All, ret,
}

abbrev all_bytes : List ℕ → Bool
all_bytes [] = true
all_bytes (c ∷ cs) = ltb c 256 && all_bytes cs

all_bytes-IsByte : (s : List ℕ) → all_bytes s ≡ true → All (λ c. c < 256) s
all_bytes-IsByte [] h = tt
all_bytes-IsByte (c ∷ cs) h = ground (arith, all_bytes-IsByte cs)

pub query-IsByte : All (λ c. c < 256) query
query-IsByte = all_bytes-IsByte query refl

pub query-IsQuestion : IsQuestion query (length query) max_name asked_labels 21
query-IsQuestion = record {
  query = omega arith;
  asked = omega arith;
  labels = (
    refl,
    omega arith,
    omega arith,
    (refl, tt),
    (refl, omega arith, omega arith, (refl, tt), (refl, refl)),
  );
  inside = omega arith;
  behind = omega arith;
  fits = omega arith;
}

abbrev pub blocks_all : ℕ → Bool
blocks_all _ = true

pub named : c_string (dotted asked_labels) ≢ []
unfolding c_string lower
named e = cc

serve_turn-blocked_example :
    serve_turn (λ h. ret (blocks_all h)) node input
    ≡ ret (
      record node { counters = count_blocked zero_counters },
      some (take 21 (refusal 0x12 0x34 1 ++ drop 12 query)),
    )
serve_turn-blocked_example =
    serve_turn-blocked blocks_all node input query asked_labels 21 refl query-IsByte
      query-IsQuestion named (inl refl)

pub received-IsByte : (pkt : List ℕ) → input.received ≡ some pkt → All (λ c. c < 256) pkt
received-IsByte pkt e =
    let same : query ≡ pkt = cc e in subst (All (λ c. c < 256)) same query-IsByte

serve_turn-Outcome_example :
    (node' : Node) × (reply : Option (List ℕ)) × (serve_turn
        (λ h. ret (not (blocks_all h)))
        node
        input
      ≡ ret (node', reply))
    × IsWhole IsResponse node'.cache
    × Answers query reply
serve_turn-Outcome_example =
    serve_turn-Outcome (λ h. not (blocks_all h)) node input (empty_cache-IsWhole IsResponse)
      received-IsByte

is_blocked-Blocks_example :
    (b : Bool) × (is_blocked (λ h. ret (blocks_all h)) (codes "a.b") ≡ ret b)
    × ((b ≡ true) ↔ Blocks blocks_all (codes "a.b"))
is_blocked-Blocks_example = is_blocked-Blocks blocks_all (codes "a.b") (λ e. cc)

parse_question-Decides_example :
    (r : Option (ℕ × List ℕ)) × (parse_question query 21 max_name ≡ ret r)
    × Decides query 21 max_name r
parse_question-Decides_example =
    parse_question-Decides query 21 max_name (omega arith) query-IsByte (omega arith)

refusal_flags_example :
    let f = bit_or 0x80 (bit_and 0x7B 0x79) in
    (bit_and f 0x80 ≡ 0x80)
    × (bit_and f 0x79 ≡ bit_and 0x7B 0x79)
    × (bit_and f 0x06 ≡ 0)
    × (f < 256)
refusal_flags_example = refusal_flags 0x7B (omega arith)

forwarded : (forward_upstream true query arrivals).0 ≡ some response
unfolding forward_upstream
forwarded = refl

find-insert_example :
    let found = cache_find 5 2000 (cache_insert 5 response 1000 empty_cache) in
    (found.0 ≡ some (victim empty_cache.entries))
    × ((e : Entry) × (get_elem? found.1.entries (victim empty_cache.entries) ≡ some e)
        × (e.answer ≡ response)
        × (e.len ≡ 12))
find-insert_example =
    find-insert IsResponse 5 1000 2000 response empty_cache (empty_cache-IsWhole IsResponse)
      (replicate-Absent 5 100) (omega arith) (omega arith) (omega arith)

lat_bucket-InBucket_example : InBucket 1000 (lat_bucket 1000)
lat_bucket-InBucket_example = lat_bucket-InBucket 1000 (omega arith)

-- The query is answered upstream, then replayed, then refused.
abbrev turns : List Turn
turns = ((λ h. false), input) ∷ ((λ h. false), input) ∷ (blocks_all, input) ∷ []

resolver_before : Implements node (record { relayed = []; upstream = arrivals })
resolver_before = empty_cache-Implements zero_counters arrivals

dns_task-Replays_example :
    (node' : Node) × (replies : List (Option (List ℕ))) × (m' : Resolver) × (dns_task node
        (map as_code turns)
      ≡ ret (node', replies))
    × Implements node' m'
    × Replays turns (record { relayed = []; upstream = arrivals }) replies m'
dns_task-Replays_example =
    dns_task-Replays turns node (record { relayed = []; upstream = arrivals })
      (received-IsByte, (received-IsByte, (received-IsByte, tt))) resolver_before

abbrev entry : ℕ → ℕ → Entry
entry key last_used = record {
  valid = true;
  key = key;
  inserted_us = 0;
  last_used = last_used;
  len = 12;
  answer = response;
}

-- Three entries in use; the second was used the longest time ago.
abbrev full : Cache
full = record { entries = entry 1 9 ∷ entry 2 4 ∷ entry 3 7 ∷ []; clock = 9 }

oldest : victim full.entries ≡ 1
unfolding victim victim_loop
oldest = refl

cache_insert-GivesUp_example :
    GivesUp full.entries (victim full.entries)
    × (get_elem? (cache_insert 5 response 1000 full).entries (victim full.entries)
        ≡ some (stored 5 response 1000 full 12))
    × ((cache_insert 5 response 1000 full).clock ≡ 10)
    × ((j : ℕ)
        → j ≢ victim full.entries
        → get_elem? (cache_insert 5 response 1000 full).entries j ≡ get_elem? full.entries j)
    × IsMarked (cache_insert 5 response 1000 full).entries
cache_insert-GivesUp_example =
    cache_insert-GivesUp 5 1000 response full (omega arith) (omega arith) (omega arith)
      (omega arith, (omega arith, (omega arith, tt)))

-- No socket, a socket that cannot be bound, and one that can.
abbrev attempts : List Attempt
attempts =
    record { socket = none; bound = false; connected = false }
    ∷ record { socket = some 54; bound = false; connected = false }
    ∷ record { socket = some 55; bound = true; connected = false }
    ∷ []

bound_third : make_socket_retry true false [] attempts ≡ some (55, 54 ∷ [])
unfolding make_socket_retry
bound_third = refl

make_socket_retry-Retried_example :
    Retried true false [] attempts (make_socket_retry true false [] attempts)
make_socket_retry-Retried_example = make_socket_retry-Retried true false [] attempts
