-- ===== src/Dns/Serve/Turns.antt =====
-- One turn of the loop of dns_task in main/dns_sinkhole.c, on every branch.
use esp_hole.Dns.Question.Wire.{dotted}
use esp_hole.Dns.Question.Parse.{
  IsQuestion, Decides, parse_question-Decides, parse_question-IsQuestion,
}
use esp_hole.Dns.Match.{c_string, is_blocked}
use esp_hole.Dns.Match.Parents.{Blocks, is_blocked-Blocks}
use esp_hole.Dns.Reply.{make_nxdomain, is_answer, forward_upstream}
use esp_hole.Dns.Reply.Laws.{refusal, make_nxdomain_lem, refusal_flags, forward_upstream-answer}
use esp_hole.Dns.Cache.{Entry, holds, cache_find}
use esp_hole.Dns.Cache.Keys.{Absent, Stored, IsWhole, cache_find-IsWhole, cache_insert-IsWhole}
use esp_hole.Dns.Cache.Recall.{cache_find-Hit}
use esp_hole.Stats.Counters.{count_forwarded, count_blocked}
use esp_hole.Dns.Serve.{
  max_name, keyed_turn, Node, Input, patch_id, forward_turn, answer_turn, question_turn,
  parsed_turn, received_turn, serve_turn,
}
use esp_hole.Base.{
  ℕ, suc, ◌-◌, ◌≤◌, ◌<◌, bit_and, ◌≡◌, refl, ap, ◌∙◌, ◌≢◌, inl, inr, Bool, true, false, Option,
  none, some, List, [], ◌∷◌, ◌++◌, arith, ◌==◌, Bool-cases, Option-cases, length, get_elem?, get_or,
  take, drop, get_elem?-eq-get_or, All, take_all, All-get, All-at, add32, Exec, ret,
}

-- What may be cached: a response of at least a header.
abbrev pub IsResponse : List ℕ → Type 0
IsResponse ans = (12 ≤ length ans) × ((bit_and (get_or ans 2 0) 0x80 == 0) ≡ false)

-- A reply to the query: a response under its ID.
abbrev pub Replies : List ℕ → List ℕ → Type 0
Replies pkt reply =
    IsResponse reply × (get_or reply 0 0 ≡ get_or pkt 0 0) × (get_or reply 1 0 ≡ get_or pkt 1 0)

abbrev pub Answers : List ℕ → Option (List ℕ) → Type 0
Answers pkt none = Unit {0}
Answers pkt (some reply) = Replies pkt reply

pub is_answer-Replies : (pkt ans : List ℕ) → is_answer pkt ans ≡ true → Replies pkt ans
unfolding is_answer
is_answer-Replies pkt ans h = ground arith

patch_id-Replies : (pkt ans : List ℕ) → IsResponse ans → Replies pkt (patch_id pkt ans)
unfolding patch_id
patch_id-Replies pkt (a ∷ b ∷ c ∷ ans) r = (r, refl, refl)
patch_id-Replies pkt ans r = absurd (omega (arith, r.0))

pub holds-valid : (e : Entry) (key : ℕ) → holds e key ≡ true → e.valid ≡ true
holds-valid e key h = ground arith

pub forward_turn-Answers :
    (node : Node) (input : Input) (pkt : List ℕ) (key : ℕ)
    → IsWhole IsResponse node.cache
    → Absent key node.cache.entries
    → IsWhole IsResponse (forward_turn node input pkt key).0.cache
      × Answers pkt (forward_turn node input pkt key).1
unfolding forward_turn
forward_turn-Answers node input pkt key w a =
    elim (Option-cases (forward_upstream input.sent pkt node.upstream).0) [
      | inl e ↦ rw (e, forward_turn) (w, tt)
      | inr (ans, e) ↦
          let good =
            is_answer-Replies pkt ans
              (forward_upstream-answer input.sent pkt node.upstream ans e) in
          let t : (length ans == 0) ≡ false = ground (arith, good.0.0) in
          rw (e, t, forward_turn)
            (cache_insert-IsWhole IsResponse key input.now ans node.cache w a good.0, good)
    ]

-- What a run of a turn leaves.
abbrev pub Turn : List ℕ → Exec (Node × Option (List ℕ)) → Type 0
Turn pkt run =
    (node' : Node) × (reply : Option (List ℕ)) × (run ≡ ret (node', reply))
    × IsWhole IsResponse node'.cache
    × Answers pkt reply

keyed_turn-Turn :
    (node : Node) (input : Input) (pkt : List ℕ) (key : ℕ)
    → IsWhole IsResponse node.cache
    → Turn pkt (keyed_turn node input pkt key)
unfolding keyed_turn
keyed_turn-Turn node input pkt key w =
    let whole = cache_find-IsWhole IsResponse key input.now node.cache w in
    elim (Option-cases (cache_find key input.now node.cache).0) [
      | inl e ↦
          let node' : Node = record node { cache = (cache_find key input.now node.cache).1 } in
          let r = forward_turn-Answers node' input pkt key whole.0 (whole.1 e) in
          (
            (forward_turn node' input pkt key).0,
            (forward_turn node' input pkt key).1,
            rw (e, keyed_turn) refl,
            r.0,
            r.1,
          )
      | inr (j, e) ↦
          let hit = cache_find-Hit key input.now j node.cache e in
          let entry : Entry = record hit.0 { last_used = add32 node.cache.clock 1 } in
          let stored : Stored IsResponse entry =
            All-at (Stored IsResponse) (cache_find key input.now node.cache).1.entries j entry
              whole.0.stored hit.4 in
          let kept = stored (holds-valid hit.0 key hit.2) in
          let all : take entry.len entry.answer ≡ entry.answer =
            rw kept.0 (take_all entry.answer) in
          (
            record node {
              cache = (cache_find key input.now node.cache).1;
              counters = count_forwarded 0 node.counters;
            },
            some (patch_id pkt (take entry.len entry.answer)),
            rw (e, hit.4, keyed_turn) refl,
            whole.0,
            rw all (patch_id-Replies pkt entry.answer kept.2),
          )
    ]

answer_turn-Turn :
    (node : Node) (input : Input) (pkt : List ℕ) (q_end : ℕ) (name : List ℕ)
    → IsWhole IsResponse node.cache
    → 16 < q_end
    → q_end ≤ length pkt
    → Turn pkt (answer_turn node input pkt q_end name)
unfolding answer_turn
answer_turn-Turn node input pkt q_end name w low high =
    let g1 : get_elem? pkt (q_end - 4) ≡ some (get_or pkt (q_end - 4) 0) =
      get_elem?-eq-get_or pkt (q_end - 4) 0 (omega arith) in
    let g2 : get_elem? pkt (q_end - 3) ≡ some (get_or pkt (q_end - 3) 0) =
      get_elem?-eq-get_or pkt (q_end - 3) 0 (omega arith) in
    rw (g1, g2) (keyed_turn-Turn node input pkt _ w)

-- The refusal that is sent.
refusal-Replies :
    (pkt : List ℕ) (q_end : ℕ)
    → 16 < q_end
    → q_end ≤ length pkt
    → All (λ c. c < 256) pkt
    → Replies pkt (take q_end (make_nxdomain pkt))
refusal-Replies pkt q_end low high bytes =
    let byte : get_or pkt 2 0 < 256 = All-get (λ c. c < 256) pkt 2 bytes (omega arith) in
    let flags = refusal_flags (get_or pkt 2 0) byte in
    let q : ℕ = q_end - 12 in
    let e : q_end ≡ suc (suc (suc (suc (suc (suc (suc (suc (suc (suc (suc (suc q))))))))))) =
      omega arith in
    rw (make_nxdomain_lem pkt (omega arith), e) ((omega arith, rw flags.0 refl), refl, refl)

is_blocked-total :
    (hit : ℕ → Bool) (name : List ℕ) → (b : Bool) × (is_blocked (λ h. ret (hit h)) name ≡ ret b)
unfolding is_blocked
is_blocked-total hit [] = (false, refl)
is_blocked-total hit (c ∷ name) = let r = is_blocked-Blocks hit (c ∷ name) (λ e. cc) in (r.0, r.1)

question_turn-Turn :
    (hit : ℕ → Bool) (node : Node) (input : Input) (pkt : List ℕ) (q_end : ℕ) (name : List ℕ)
    → IsWhole IsResponse node.cache
    → 16 < q_end
    → q_end ≤ length pkt
    → All (λ c. c < 256) pkt
    → Turn pkt (question_turn (λ h. ret (hit h)) node input pkt q_end name)
unfolding question_turn
question_turn-Turn hit node input pkt q_end name w low high bytes =
    let (b, run) = is_blocked-total hit name in
    elim (Bool-cases b) [
      | inl yes_blocked ↦ (
        record node { counters = count_blocked node.counters },
        some (take q_end (make_nxdomain pkt)),
        rw (run, yes_blocked) refl,
        w,
        refusal-Replies pkt q_end low high bytes,
      )
      | inr not_blocked ↦
          rw (run, not_blocked) (answer_turn-Turn node input pkt q_end name w low high)
    ]

parsed_turn-Turn :
    (hit : ℕ → Bool) (node : Node) (input : Input) (pkt : List ℕ) (question : Option (ℕ × List ℕ))
    → IsWhole IsResponse node.cache
    → All (λ c. c < 256) pkt
    → Decides pkt (length pkt) max_name question
    → Turn pkt (parsed_turn (λ h. ret (hit h)) node input pkt question)
unfolding parsed_turn
parsed_turn-Turn hit node input pkt none w bytes d = (node, none, refl, w, tt)
parsed_turn-Turn hit node input pkt (some (q_end, name)) w bytes (ls, q, e) =
    question_turn-Turn hit node input pkt q_end (c_string name) w q.behind q.inside bytes

-- A turn with nothing received, or nothing that parses, sends nothing and changes nothing.
abbrev pub Outcome : Option (List ℕ) → Option (List ℕ) → Type 0
Outcome none reply = reply ≡ none
Outcome (some pkt) reply = Answers pkt reply

received_turn-Outcome :
    (hit : ℕ → Bool) (node : Node) (input : Input) (r : Option (List ℕ))
    → IsWhole IsResponse node.cache
    → ((pkt : List ℕ) → r ≡ some pkt → All (λ c. c < 256) pkt)
    → (node' : Node) × (reply : Option (List ℕ)) × (received_turn (λ h. ret (hit h)) node input r
        ≡ ret (node', reply))
      × IsWhole IsResponse node'.cache
      × Outcome r reply
unfolding received_turn
received_turn-Outcome hit node input none w bytes = (node, none, refl, w, refl)
received_turn-Outcome hit node input (some pkt) w bytes =
    let wire = bytes pkt refl in
    let (question, run, decided) =
      parse_question-Decides pkt (length pkt) max_name (omega arith) wire (omega arith) in
    let (node', reply, turn, whole, answers) =
      parsed_turn-Turn hit node input pkt question w wire decided in
    (node', reply, rw run turn, whole, answers)

-- With a lookup that answers, every turn ends without reading outside a buffer; the cache stays whole;
-- at most one datagram is sent, and it is a response of at least a header under the ID of the query.
pub serve_turn-Outcome :
    (hit : ℕ → Bool) (node : Node) (input : Input)
    → IsWhole IsResponse node.cache
    → ((pkt : List ℕ) → input.received ≡ some pkt → All (λ c. c < 256) pkt)
    → (node' : Node) × (reply : Option (List ℕ)) × (serve_turn (λ h. ret (hit h)) node input
        ≡ ret (node', reply))
      × IsWhole IsResponse node'.cache
      × Outcome input.received reply
unfolding serve_turn
serve_turn-Outcome hit node input w bytes =
    received_turn-Outcome hit node input input.received w bytes

received_turn-blocked :
    (hit : ℕ → Bool) (node : Node) (input : Input) (pkt : List ℕ) (ls : List (List ℕ)) (q_end : ℕ)
    → All (λ c. c < 256) pkt
    → IsQuestion pkt (length pkt) max_name ls q_end
    → c_string (dotted ls) ≢ []
    → Blocks hit (c_string (dotted ls))
    → received_turn (λ h. ret (hit h)) node input (some pkt)
      ≡ ret (
        record node { counters = count_blocked node.counters },
        some (
            take q_end (refusal (get_or pkt 0 0) (get_or pkt 1 0) (get_or pkt 2 0) ++ drop 12 pkt)),
      )
unfolding received_turn parsed_turn question_turn
received_turn-blocked hit node input pkt ls q_end bytes q named blocks =
    let run =
      parse_question-IsQuestion pkt (length pkt) max_name (omega arith) bytes (omega arith) ls q_end
        q in
    let (b, verdict, spec) = is_blocked-Blocks hit (c_string (dotted ls)) named in
    rw (run, verdict, spec.1 blocks, make_nxdomain_lem pkt (omega (arith, q.inside, q.behind))) refl

-- A query for a non-empty name that the blocklist blocks is refused: the reply is the refusal's header
-- over the query's own question, only the blocked counter changes, and nothing is asked upstream.
pub serve_turn-blocked :
    (hit : ℕ → Bool) (node : Node) (input : Input) (pkt : List ℕ) (ls : List (List ℕ)) (q_end : ℕ)
    → input.received ≡ some pkt
    → All (λ c. c < 256) pkt
    → IsQuestion pkt (length pkt) max_name ls q_end
    → c_string (dotted ls) ≢ []
    → Blocks hit (c_string (dotted ls))
    → serve_turn (λ h. ret (hit h)) node input
      ≡ ret (
        record node { counters = count_blocked node.counters },
        some (
            take q_end (refusal (get_or pkt 0 0) (get_or pkt 1 0) (get_or pkt 2 0) ++ drop 12 pkt)),
      )
unfolding serve_turn
serve_turn-blocked hit node input pkt ls q_end e bytes q named blocks =
    ap (received_turn (λ h. ret (hit h)) node input) e
    ∙ received_turn-blocked hit node input pkt ls q_end bytes q named blocks
