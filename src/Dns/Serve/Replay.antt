-- ===== src/Dns/Serve/Replay.antt =====
-- The loop of dns_task in main/dns_sinkhole.c against a resolver that remembers what it relayed.
use mathlib.Core.List.{Memᴰ}
use esp_hole.Dns.Question.Wire.{dotted}
use esp_hole.Dns.Question.Parse.{IsQuestion, Decides, parse_question-Decides}
use esp_hole.Dns.Match.{c_string, is_blocked}
use esp_hole.Dns.Match.Parents.{Blocks, is_blocked-Blocks}
use esp_hole.Dns.Reply.{make_nxdomain, Arrivals, is_answer, forward_upstream}
use esp_hole.Dns.Reply.Laws.{refusal, make_nxdomain_lem}
use esp_hole.Dns.Cache.{
  Entry, Cache, empty_entry, empty_cache, cache_size, holds, expired, cache_ttl_us, cache_find,
}
use esp_hole.Dns.Cache.Keys.{
  Absent, Stored, IsWhole, empty_cache-IsWhole, cache_find-IsWhole, cache_insert-IsWhole,
}
use esp_hole.Dns.Cache.Recall.{cache_find-Hit}
use esp_hole.Stats.Counters.{Counters, count_forwarded, count_blocked}
use esp_hole.Dns.Serve.{
  max_name, cache_key, keyed_turn, Node, Input, patch_id, forward_turn, answer_turn, question_turn,
  parsed_turn, received_turn, serve_turn, dns_task,
}
use esp_hole.Dns.Serve.Memory.{
  Relay, Recalls, Remembers, cache_find-Remembers, cache_insert-Remembers, Drained-none,
  Drained-some, forward_upstream-Drained,
}
use esp_hole.Dns.Serve.Turns.{IsResponse, holds-valid, is_answer-Replies}
use esp_hole.Base.{
  All-at, ℕ, zero, suc, ◌+◌, ◌-◌, ◌*◌, ◌^◌, ◌≤◌, ◌<◌, bit_or, ◌≡◌, refl, sym, ap, ◌∙◌, subst, ◌≢◌,
  ◌↔◌, inl, inr, Bool, true, false, Option, none, some, List, [], ◌∷◌, ◌++◌, map, arith, ◌==◌,
  Bool-cases, Option-cases, length, get_elem?, get_or, take, drop, replicate, get_elem?-eq-get_or,
  All, take_all, add32, Exec, ret,
}

-- The abstract resolver: every answer that it relayed, and what its upstream socket will still give.
pub record Resolver : Type 0 where
  pub relayed : List Relay
  pub upstream : Arrivals

-- The list holds the name or a parent of it; the empty name is never looked up.
abbrev pub Filtered : (ℕ → Bool) → List ℕ → Type 0
Filtered hit name = (name ≢ []) × Blocks hit name

-- The question of a datagram: the labels, the end, the name as the code sees it, and the key.
pub record Asks (pkt : List ℕ) (ls : List (List ℕ)) (q_end : ℕ) (name : List ℕ) (key : ℕ)
    : Type 0 where
  pub question : IsQuestion pkt (length pkt) max_name ls q_end
  pub named : name ≡ c_string (dotted ls)
  pub keyed :
      key ≡ cache_key name (bit_or (get_or pkt (q_end - 4) 0 * 2 ^ 8) (get_or pkt (q_end - 3) 0))

-- What one turn of the resolver may do.
pub data Does (hit : ℕ → Bool) (input : Input) (m m' : Resolver) (reply : Option (List ℕ))
    : Type 0 where
  idle : input.received ≡ none → reply ≡ none → m' ≡ m → Does hit input m m' reply
  malformed :
      (pkt : List ℕ)
      → input.received ≡ some pkt
      → ((ls : List (List ℕ)) (q_end : ℕ) → ¬ IsQuestion pkt (length pkt) max_name ls q_end)
      → reply ≡ none
      → m' ≡ m
      → Does hit input m m' reply
  refused :
      (pkt : List ℕ) (ls : List (List ℕ)) (q_end : ℕ) (name : List ℕ) (key : ℕ)
      → input.received ≡ some pkt
      → Asks pkt ls q_end name key
      → Filtered hit name
      → reply
        ≡ some
            (take q_end (refusal (get_or pkt 0 0) (get_or pkt 1 0) (get_or pkt 2 0) ++ drop 12 pkt))
      → m' ≡ m
      → Does hit input m m' reply
  replayed :
      (pkt : List ℕ) (ls : List (List ℕ)) (q_end : ℕ) (name : List ℕ) (key : ℕ) (r : Relay)
      → input.received ≡ some pkt
      → Asks pkt ls q_end name key
      → ¬ Filtered hit name
      → Memᴰ r m.relayed
      → r.key ≡ key
      → input.now ≤ r.at_us + cache_ttl_us
      → reply ≡ some (patch_id pkt r.answer)
      → m' ≡ m
      → Does hit input m m' reply
  relayed :
      (pkt : List ℕ) (ls : List (List ℕ)) (q_end : ℕ) (name : List ℕ) (key : ℕ) (gone : Arrivals)
      (ans : List ℕ)
      → input.received ≡ some pkt
      → Asks pkt ls q_end name key
      → ¬ Filtered hit name
      → m.upstream ≡ gone ++ some ans ∷ m'.upstream
      → is_answer pkt ans ≡ true
      → reply ≡ some ans
      → m'.relayed ≡ record { key = key; answer = ans; at_us = input.now } ∷ m.relayed
      → Does hit input m m' reply
  unanswered :
      (pkt : List ℕ) (ls : List (List ℕ)) (q_end : ℕ) (name : List ℕ) (key : ℕ) (gone : Arrivals)
      → input.received ≡ some pkt
      → Asks pkt ls q_end name key
      → ¬ Filtered hit name
      → (forward_upstream input.sent pkt m.upstream).0 ≡ none
      → m.upstream ≡ gone ++ m'.upstream
      → reply ≡ none
      → m'.relayed ≡ m.relayed
      → Does hit input m m' reply

-- The node stands for the resolver.
pub record Implements (node : Node) (m : Resolver) : Type 0 where
  pub whole : IsWhole IsResponse node.cache
  pub remembers : Remembers m.relayed node.cache
  pub upstream : node.upstream ≡ m.upstream

-- The verdict on a name.
verdict :
    (hit : ℕ → Bool) (name : List ℕ)
    → (b : Bool) × (is_blocked (λ h. ret (hit h)) name ≡ ret b) × ((b ≡ true) ↔ Filtered hit name)
unfolding is_blocked
verdict hit [] = (false, refl, (λ t. cc, λ f. absurd (f.0 refl)))
verdict hit (c ∷ name) =
    let (b, run, spec) = is_blocked-Blocks hit (c ∷ name) (λ e. cc) in
    (b, run, (λ t. ((λ e. cc), spec.0 t), λ f. spec.1 f.1))

holds-key : (e : Entry) (key : ℕ) → holds e key ≡ true → e.key ≡ key
holds-key e key h = ground arith

expired-le : (e : Entry) (now : ℕ) → expired e now ≡ false → now ≤ e.inserted_us + cache_ttl_us
expired-le e now h = ground arith

-- A turn that is done by the resolver.
abbrev pub Simulates : (ℕ → Bool) → Input → Resolver → Exec (Node × Option (List ℕ)) → Type 0
Simulates hit input m run =
    (node' : Node) × (reply : Option (List ℕ)) × (m' : Resolver) × (run ≡ ret (node', reply))
    × Implements node' m'
    × Does hit input m m' reply

module _ (hit : ℕ → Bool) (input : Input) (m : Resolver) (pkt : List ℕ) (ls : List (List ℕ))
    (q_end : ℕ) (name : List ℕ) (key : ℕ) (got : input.received ≡ some pkt)
    (asks : Asks pkt ls q_end name key) where
  -- The branch of a miss.
  forward_turn-Does :
      (node : Node)
      → Implements node m
      → Absent key node.cache.entries
      → ¬ Filtered hit name
      → (m' : Resolver) × Implements (forward_turn node input pkt key).0 m'
        × Does hit input m m' (forward_turn node input pkt key).1
  unfolding forward_turn
  forward_turn-Does node i absent free =
      let fwd : Option (List ℕ) × Arrivals = forward_upstream input.sent pkt node.upstream in
      let drained = forward_upstream-Drained input.sent pkt node.upstream in
      elim (Option-cases fwd.0) [
        | inl e ↦
            let (gone, split) = Drained-none pkt node.upstream fwd e drained in
            let m' : Resolver = record { relayed = m.relayed; upstream = fwd.1 } in
            let silent : (forward_upstream input.sent pkt m.upstream).0 ≡ none =
              subst (λ (a : Arrivals). (forward_upstream input.sent pkt a).0 ≡ none) i.upstream e in
            rw (e, forward_turn)
              (
                m',
                record { whole = i.whole; remembers = i.remembers; upstream = refl },
                unanswered pkt ls q_end name key gone got asks free silent (sym i.upstream ∙ split)
                    refl refl,
              )
        | inr (ans, e) ↦
            let (gone, split, good) = Drained-some pkt ans node.upstream fwd e drained in
            let replies = is_answer-Replies pkt ans good in
            let t : (length ans == 0) ≡ false = ground (arith, replies.0.0) in
            let m' : Resolver = record {
              relayed = record { key = key; answer = ans; at_us = input.now } ∷ m.relayed;
              upstream = fwd.1;
            } in
            rw (e, t, forward_turn)
              (
                m',
                record {
                  whole =
                      cache_insert-IsWhole IsResponse key input.now ans node.cache i.whole absent
                        replies.0;
                  remembers =
                      cache_insert-Remembers m.relayed key input.now ans node.cache i.remembers;
                  upstream = refl;
                },
                relayed pkt ls q_end name key gone ans got asks free (sym i.upstream ∙ split) good
                    refl refl,
              )
      ]

  keyed_turn-Does :
      (node : Node)
      → Implements node m
      → ¬ Filtered hit name
      → Simulates hit input m (keyed_turn node input pkt key)
  unfolding keyed_turn
  keyed_turn-Does node i free =
      let whole = cache_find-IsWhole IsResponse key input.now node.cache i.whole in
      let kept = cache_find-Remembers m.relayed key input.now node.cache i.remembers in
      let cache' : Cache = (cache_find key input.now node.cache).1 in
      elim (Option-cases (cache_find key input.now node.cache).0) [
        | inl e ↦
            let node' : Node = record node { cache = cache' } in
            let r =
              forward_turn-Does node'
                (record { whole = whole.0; remembers = kept; upstream = i.upstream }) (whole.1 e)
                free in
            (
              (forward_turn node' input pkt key).0,
              (forward_turn node' input pkt key).1,
              r.0,
              rw (e, keyed_turn) refl,
              r.1,
              r.2,
            )
        | inr (j, e) ↦
            let hit_at = cache_find-Hit key input.now j node.cache e in
            let entry : Entry = record hit_at.0 { last_used = add32 node.cache.clock 1 } in
            let valid = holds-valid hit_at.0 key hit_at.2 in
            let stored =
              All-at (Stored IsResponse) cache'.entries j entry whole.0.stored hit_at.4 valid in
            let past = All-at (Recalls m.relayed) cache'.entries j entry kept hit_at.4 valid in
            let all : take entry.len entry.answer ≡ entry.answer =
              rw stored.0 (take_all entry.answer) in
            (
              record node { cache = cache'; counters = count_forwarded 0 node.counters },
              some (patch_id pkt (take entry.len entry.answer)),
              m,
              rw (e, hit_at.4, keyed_turn) refl,
              record { whole = whole.0; remembers = kept; upstream = i.upstream },
              replayed pkt ls q_end name key
                  (record {
                    key = hit_at.0.key;
                    answer = hit_at.0.answer;
                    at_us = hit_at.0.inserted_us;
                  })
                  got asks free past (holds-key hit_at.0 key hit_at.2)
                  (expired-le hit_at.0 input.now hit_at.3) (ap (λ a. some (patch_id pkt a)) all)
                  refl,
            )
      ]

-- The branch of a name that is not blocked.
answer_turn-Does :
    (hit : ℕ → Bool) (input : Input) (m : Resolver) (pkt : List ℕ) (ls : List (List ℕ)) (q_end : ℕ)
    (node : Node)
    → input.received ≡ some pkt
    → IsQuestion pkt (length pkt) max_name ls q_end
    → Implements node m
    → ¬ Filtered hit (c_string (dotted ls))
    → Simulates hit input m (answer_turn node input pkt q_end (c_string (dotted ls)))
unfolding answer_turn
answer_turn-Does hit input m pkt ls q_end node got q i free =
    let g1 : get_elem? pkt (q_end - 4) ≡ some (get_or pkt (q_end - 4) 0) =
      get_elem?-eq-get_or pkt (q_end - 4) 0 (omega (arith, q.inside, q.behind)) in
    let g2 : get_elem? pkt (q_end - 3) ≡ some (get_or pkt (q_end - 3) 0) =
      get_elem?-eq-get_or pkt (q_end - 3) 0 (omega (arith, q.inside, q.behind)) in
    rw (g1, g2)
      (keyed_turn-Does hit input m pkt ls q_end (c_string (dotted ls)) _ got
        (record { question = q; named = refl; keyed = refl }) node i free)

question_turn-Does :
    (hit : ℕ → Bool) (input : Input) (m : Resolver) (pkt : List ℕ) (ls : List (List ℕ)) (q_end : ℕ)
    (node : Node)
    → input.received ≡ some pkt
    → IsQuestion pkt (length pkt) max_name ls q_end
    → Implements node m
    → Simulates hit input m
        (question_turn (λ h. ret (hit h)) node input pkt q_end (c_string (dotted ls)))
unfolding question_turn
question_turn-Does hit input m pkt ls q_end node got q i =
    let (b, run, spec) = verdict hit (c_string (dotted ls)) in
    elim (Bool-cases b) [
      | inl yes_blocked ↦ (
        record node { counters = count_blocked node.counters },
        some (take q_end (make_nxdomain pkt)),
        m,
        rw (run, yes_blocked) refl,
        record { whole = i.whole; remembers = i.remembers; upstream = i.upstream },
        refused pkt ls q_end (c_string (dotted ls)) _ got
            (record { question = q; named = refl; keyed = refl }) (spec.0 yes_blocked)
            (ap (λ a. some (take q_end a))
              (make_nxdomain_lem pkt (omega (arith, q.inside, q.behind))))
            refl,
      )
      | inr not_blocked ↦
          rw (run, not_blocked)
            (answer_turn-Does hit input m pkt ls q_end node got q i
              (λ f. cc (not_blocked, spec.1 f)))
    ]

parsed_turn-Does :
    (hit : ℕ → Bool) (input : Input) (m : Resolver) (pkt : List ℕ) (question : Option (ℕ × List ℕ))
    (node : Node)
    → input.received ≡ some pkt
    → Decides pkt (length pkt) max_name question
    → Implements node m
    → Simulates hit input m (parsed_turn (λ h. ret (hit h)) node input pkt question)
unfolding parsed_turn
parsed_turn-Does hit input m pkt none node got d i =
    (node, none, m, refl, i, malformed pkt got d refl refl)
parsed_turn-Does hit input m pkt (some (q_end, name)) node got (ls, q, e) i =
    rw e (question_turn-Does hit input m pkt ls q_end node got q i)

received_turn-Does :
    (hit : ℕ → Bool) (input : Input) (m : Resolver) (received : Option (List ℕ)) (node : Node)
    → input.received ≡ received
    → ((pkt : List ℕ) → received ≡ some pkt → All (λ c. c < 256) pkt)
    → Implements node m
    → Simulates hit input m (received_turn (λ h. ret (hit h)) node input received)
unfolding received_turn
received_turn-Does hit input m none node got bytes i = (node, none, m, refl, i, idle got refl refl)
received_turn-Does hit input m (some pkt) node got bytes i =
    let wire = bytes pkt refl in
    let (question, run, decided) =
      parse_question-Decides pkt (length pkt) max_name (omega arith) wire (omega arith) in
    rw run (parsed_turn-Does hit input m pkt question node got decided i)

-- The datagrams that the socket gives are bytes.
abbrev pub IsWire : Input → Type 0
IsWire input = (pkt : List ℕ) → input.received ≡ some pkt → All (λ c. c < 256) pkt

pub serve_turn-Does :
    (hit : ℕ → Bool) (input : Input) (m : Resolver) (node : Node)
    → IsWire input
    → Implements node m
    → Simulates hit input m (serve_turn (λ h. ret (hit h)) node input)
unfolding serve_turn
serve_turn-Does hit input m node bytes i =
    received_turn-Does hit input m input.received node refl bytes i

-- A turn with the list that its lookups meet, and the run of the resolver over such turns.
abbrev pub Turn : Type 0
Turn = (ℕ → Bool) × Input

pub Replays : List Turn → Resolver → List (Option (List ℕ)) → Resolver → Type 0
Replays [] m replies m' = (replies ≡ []) × (m' ≡ m)
Replays (t ∷ turns) m replies m' =
    (reply : Option (List ℕ)) × (rest : List (Option (List ℕ))) × (mid : Resolver) × (replies
      ≡ reply ∷ rest)
    × Does t.0 t.1 m mid reply
    × Replays turns mid rest m'

abbrev pub as_code : Turn → (ℕ → Exec Bool) × Input
as_code t = (λ h. ret (t.0 h), t.1)

-- From any node that stands for a resolver, the loop over any list of turns of bytes ends, and what it
-- sends is what the resolver may send: a refusal exactly for a question whose name the turn's list
-- filters; an earlier relayed answer of the same key, at most the time to live old, under the query's
-- ID; an upstream answer that was not taken before, relayed and remembered; else nothing. The node that it
-- leaves stands for the resolver that is left.
pub dns_task-Replays :
    (turns : List Turn) (node : Node) (m : Resolver)
    → All (λ t. IsWire t.1) turns
    → Implements node m
    → (node' : Node) × (replies : List (Option (List ℕ))) × (m' : Resolver) × (dns_task node
          (map as_code turns)
        ≡ ret (node', replies))
      × Implements node' m'
      × Replays turns m replies m'
unfolding dns_task Replays
dns_task-Replays [] node m wire i = (node, [], m, refl, i, (refl, refl))
dns_task-Replays (t ∷ turns) node m wire i =
    let (mid_node, reply, mid, turn, between, does) = serve_turn-Does t.0 t.1 m node wire.0 i in
    let (node', rest, m', run, last, others) = dns_task-Replays turns mid_node mid wire.1 between in
    (node', reply ∷ rest, m', rw (turn, run) refl, last, (reply, rest, mid, refl, does, others))

replicate-Recalls : (n : ℕ) → All (Recalls []) (replicate n empty_entry)
replicate-Recalls zero = tt
replicate-Recalls (suc n) = ((λ t. cc t), replicate-Recalls n)

-- The node that the task starts with has relayed nothing.
pub empty_cache-Implements :
    (c : Counters) (upstream : Arrivals)
    → Implements
        (record { cache = empty_cache; counters = c; upstream = upstream })
        (record { relayed = []; upstream = upstream })
empty_cache-Implements c upstream = record {
  whole = empty_cache-IsWhole IsResponse;
  remembers = replicate-Recalls cache_size;
  upstream = refl;
}
