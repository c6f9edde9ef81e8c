-- ===== src/Dns/Question/Parse.antt =====
-- parse_question of main/dns_sinkhole.c, against a description of well-formed queries.
use native.Mathlib.Decide.{dec_lt, ℕ_discrete}
use esp_hole.Base.Bits.{bit_and_sign, bit_or_shifted}
use esp_hole.Dns.Question.{label_loop, after_name, parse_question}
use esp_hole.Dns.Question.Wire.{Labels, dotted}
use esp_hole.Dns.Question.Accept.{Labels-lt, Explains, label_loop-Labels, label_loop-Explains}
use esp_hole.Base.{
  ℕ, suc, ◌+◌, ◌-◌, ◌*◌, ◌^◌, ◌≤◌, ◌<◌, bit_and, bit_or, ◌≡◌, refl, sym, ap, ◌∙◌, true, false,
  Option, none, some, List, [], arith, ltb, ◌==◌, lt→ltb, le→ltb_false, length, get_elem?, get_or,
  get_elem?-eq-get_or, All, All-get, ret,
}

-- A query with at least one question, whose first name has these labels, and whose question ends at
-- `q_end` inside the datagram. The dotted name fits its buffer with the terminator.
pub record IsQuestion (pkt : List ℕ) (len name_sz : ℕ) (ls : List (List ℕ)) (q_end : ℕ)
    : Type 0 where
  pub query : get_or pkt 2 0 < 128
  pub asked : 0 < get_or pkt 4 0 + get_or pkt 5 0
  pub labels : Labels pkt 12 ls (q_end - 4)
  pub inside : q_end ≤ len
  pub behind : 16 < q_end
  pub fits : length (dotted ls) < name_sz

abbrev pub Decides : List ℕ → ℕ → ℕ → Option (ℕ × List ℕ) → Type 0
Decides pkt len name_sz none =
    (ls : List (List ℕ)) (q_end : ℕ) → ¬ IsQuestion pkt len name_sz ls q_end
Decides pkt len name_sz (some (q_end, name)) =
    (ls : List (List ℕ)) × IsQuestion pkt len name_sz ls q_end × (name ≡ dotted ls)

add_sub : (n m : ℕ) → n + m - m ≡ n
add_sub n m = omega arith

module _ (pkt : List ℕ) (len name_sz : ℕ) (received : len ≤ length pkt)
    (bytes : All (λ c. c < 256) pkt) (room : 0 < name_sz) where
  byte_at : (i : ℕ) → i < len → get_or pkt i 0 < 256
  byte_at i h = All-get (λ c. c < 256) pkt i bytes (omega arith)

  got : (i : ℕ) → i < len → get_elem? pkt i ≡ some (get_or pkt i 0)
  got i h = get_elem?-eq-get_or pkt i 0 (omega arith)

  -- The header passes all three tests.
  header_passes :
      12 ≤ len
      → get_or pkt 2 0 < 128
      → 0 < get_or pkt 4 0 + get_or pkt 5 0
      → (r : Option (ℕ × List ℕ)) → label_loop pkt len name_sz (suc len) 12 [] ≡ ret r
      → parse_question pkt len name_sz ≡ after_name len name_sz r
  unfolding parse_question
  header_passes long query asked r e =
      let t1 : ltb len 12 ≡ false = le→ltb_false len 12 long in
      let t2 : (bit_and (get_or pkt 2 0) 0x80 == 0) ≡ true =
        bit_and_sign (get_or pkt 2 0) (byte_at 2 (omega arith)) ∙ lt→ltb _ 128 query in
      let t3 : ltb (bit_or (get_or pkt 4 0 * 2 ^ 8) (get_or pkt 5 0)) 1 ≡ false =
        rw (bit_or_shifted 8 (get_or pkt 4 0) (get_or pkt 5 0) (byte_at 5 (omega arith)))
          (le→ltb_false _ 1 (omega arith)) in
      rw (t1, got 2 (omega arith), t2, got 4 (omega arith), got 5 (omega arith), t3, e) refl

  short_fails : len < 12 → parse_question pkt len name_sz ≡ ret none
  unfolding parse_question
  short_fails h = let t1 : ltb len 12 ≡ true = lt→ltb len 12 h in rw t1 refl

  response_fails : 12 ≤ len → 128 ≤ get_or pkt 2 0 → parse_question pkt len name_sz ≡ ret none
  unfolding parse_question
  response_fails long h =
      let t1 : ltb len 12 ≡ false = le→ltb_false len 12 long in
      let t2 : (bit_and (get_or pkt 2 0) 0x80 == 0) ≡ false =
        bit_and_sign (get_or pkt 2 0) (byte_at 2 (omega arith)) ∙ le→ltb_false _ 128 h in
      rw (t1, got 2 (omega arith), t2) refl

  unasked_fails :
      12 ≤ len
      → get_or pkt 2 0 < 128
      → get_or pkt 4 0 + get_or pkt 5 0 ≡ 0
      → parse_question pkt len name_sz ≡ ret none
  unfolding parse_question
  unasked_fails long query zero_asked =
      let t1 : ltb len 12 ≡ false = le→ltb_false len 12 long in
      let t2 : (bit_and (get_or pkt 2 0) 0x80 == 0) ≡ true =
        bit_and_sign (get_or pkt 2 0) (byte_at 2 (omega arith)) ∙ lt→ltb _ 128 query in
      let t3 : ltb (bit_or (get_or pkt 4 0 * 2 ^ 8) (get_or pkt 5 0)) 1 ≡ true =
        rw (bit_or_shifted 8 (get_or pkt 4 0) (get_or pkt 5 0) (byte_at 5 (omega arith)))
          (lt→ltb _ 1 (omega arith)) in
      rw (t1, got 2 (omega arith), t2, got 4 (omega arith), got 5 (omega arith), t3) refl

  abbrev Result : Type 0
  Result =
      (r : Option (ℕ × List ℕ)) × (parse_question pkt len name_sz ≡ ret r)
      × Decides pkt len name_sz r

  -- The loop returns the labels of any question that the packet holds.
  question_loop :
      (ls : List (List ℕ)) (q_end : ℕ)
      → IsQuestion pkt len name_sz ls q_end
      → label_loop pkt len name_sz (suc len) 12 [] ≡ ret (some (q_end - 4, dotted ls))
  question_loop ls q_end q =
      label_loop-Labels pkt len name_sz ls (suc len) 12 (q_end - 4) [] q.labels
        (omega (arith, q.inside)) q.fits (omega arith)

  -- The terminator fits, and the four bytes of type and class must follow.
  terminated_short :
      (off : ℕ) (name : List ℕ)
      → length name < name_sz
      → len < off + 4
      → after_name len name_sz (some (off, name)) ≡ ret none
  unfolding after_name
  terminated_short off name fits h = ground arith

  terminated_fine :
      (off : ℕ) (name : List ℕ)
      → length name < name_sz
      → off + 4 ≤ len
      → after_name len name_sz (some (off, name)) ≡ ret (some (off + 4, name))
  unfolding after_name
  terminated_fine off name fits h = ground arith

  after_loop :
      12 ≤ len
      → get_or pkt 2 0 < 128
      → 0 < get_or pkt 4 0 + get_or pkt 5 0
      → (r : Option (ℕ × List ℕ)) → label_loop pkt len name_sz (suc len) 12 [] ≡ ret r
      → Explains pkt len name_sz 12 [] r
      → Result
  after_loop long query asked none e w = (
    none,
    unfold after_name in header_passes long query asked none e,
    λ ls q_end q. cc (sym e ∙ question_loop ls q_end q),
  )
  after_loop long query asked (some (off, name)) e (ls, w, inside, same_name, fits) =
      let done = header_passes long query asked (some (off, name)) e in
      let behind = Labels-lt pkt ls 12 off w in
      elim (dec_lt len (off + 4)) [
        | yes short ↦ (
          none,
          done ∙ terminated_short off name fits short,
          λ ls' q_end q.
              let m : off ≡ q_end - 4 = ground (arith, sym e ∙ question_loop ls' q_end q) in
              omega (arith, q.inside, q.behind),
        )
        | no fine ↦ (
          some (off + 4, name),
          done ∙ terminated_fine off name fits (omega arith),
          (
            ls,
            record {
              query = query;
              asked = asked;
              labels = rw (add_sub off 4) w;
              inside = omega arith;
              behind = omega arith;
              fits = rw (← same_name) fits;
            },
            same_name,
          ),
        )
      ]

  -- The parser always ends, reads and writes inside its buffers, and returns the end of the question
  -- and the lower-case dotted name exactly when the datagram is a well-formed query. The buffer holds
  -- the datagram, its items are bytes, and the name buffer is not empty.
  pub parse_question-Decides :
      (r : Option (ℕ × List ℕ)) × (parse_question pkt len name_sz ≡ ret r)
      × Decides pkt len name_sz r
  parse_question-Decides = elim (dec_lt len 12) [
    | yes h ↦ (none, short_fails h, λ ls q_end q. omega (arith, q.inside, q.behind))
    | no long ↦ elim (dec_lt (get_or pkt 2 0) 128) [
      | no response ↦
          (none, response_fails (omega arith) (omega arith), λ ls q_end q. response q.query)
      | yes query ↦ elim (ℕ_discrete (get_or pkt 4 0 + get_or pkt 5 0) 0) [
        | yes z ↦ (none, unasked_fails (omega arith) query z, λ ls q_end q. omega (arith, q.asked))
        | no nz ↦
            let (r, e, w) =
              label_loop-Explains pkt len name_sz received bytes (suc len) 12 [] room (omega arith)
                (omega arith) in
            after_loop (omega arith) query (omega arith) r e w
      ]
    ]
  ]

  -- The parse of a well-formed query.
  pub parse_question-IsQuestion :
      (ls : List (List ℕ)) (q_end : ℕ)
      → IsQuestion pkt len name_sz ls q_end
      → parse_question pkt len name_sz ≡ ret (some (q_end, dotted ls))
  parse_question-IsQuestion ls q_end q =
      let back : q_end - 4 + 4 ≡ q_end = omega (arith, q.behind) in
      header_passes (omega (arith, q.inside, q.behind)) q.query q.asked
        (some (q_end - 4, dotted ls)) (question_loop ls q_end q)
      ∙ terminated_fine (q_end - 4) (dotted ls) q.fits (omega (arith, q.inside))
      ∙ ap (λ (n : ℕ). ret (some (n, dotted ls))) back
