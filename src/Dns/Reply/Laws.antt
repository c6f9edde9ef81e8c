-- ===== src/Dns/Reply/Laws.antt =====
-- make_nxdomain and forward_upstream of main/dns_sinkhole.c: what they send back.
use esp_hole.Base.Bits.{all_below, all_below_sound}
use esp_hole.Dns.Reply.{make_nxdomain, Arrivals, is_answer, drain_loop, forward_upstream}
use esp_hole.Base.{
  ℕ, zero, suc, ◌≤◌, ◌<◌, bit_and, bit_or, ◌≡◌, refl, Bool, true, false, ◌&&◌, none, some, List, [],
  ◌∷◌, ◌++◌, arith, ltb, ◌==◌, length, get_or, drop, replicate,
}

-- The header of a reply that refuses the query with these first three bytes: the response bit set,
-- opcode and RD of the query, AA and TC clear; RA and code 3; one question and no records.
abbrev pub refusal : ℕ → ℕ → ℕ → List ℕ
refusal id0 id1 flags = id0 ∷ id1 ∷ bit_or 0x80 (bit_and flags 0x79) ∷ 0x83 ∷ 0 ∷ 1 ∷ replicate 6 0

make_nxdomain_bytes :
    (b0 b1 b2 b3 b4 b5 b6 b7 b8 b9 b10 b11 : ℕ) (rest : List ℕ)
    → make_nxdomain (b0 ∷ b1 ∷ b2 ∷ b3 ∷ b4 ∷ b5 ∷ b6 ∷ b7 ∷ b8 ∷ b9 ∷ b10 ∷ b11 ∷ rest)
      ≡ refusal b0 b1 b2 ++ rest
unfolding make_nxdomain
make_nxdomain_bytes b0 b1 b2 b3 b4 b5 b6 b7 b8 b9 b10 b11 rest = refl

-- The refusal keeps the bytes of the transaction ID and everything from byte 12 on, the question
-- among it, and has a refusal's header between them.
pub make_nxdomain_lem :
    (pkt : List ℕ)
    → 12 ≤ length pkt
    → make_nxdomain pkt ≡ refusal (get_or pkt 0 0) (get_or pkt 1 0) (get_or pkt 2 0) ++ drop 12 pkt
make_nxdomain_lem (b0 ∷ b1 ∷ b2 ∷ b3 ∷ b4 ∷ b5 ∷ b6 ∷ b7 ∷ b8 ∷ b9 ∷ b10 ∷ b11 ∷ rest) h =
    make_nxdomain_bytes b0 b1 b2 b3 b4 b5 b6 b7 b8 b9 b10 b11 rest
make_nxdomain_lem pkt h = absurd (omega arith)

flags_table :
    all_below 256 (λ x.
      let f = bit_or 0x80 (bit_and x 0x79) in
      (bit_and f 0x80 == 0x80)
      && (bit_and f 0x79 == bit_and x 0x79)
      && (bit_and f 0x06 == 0)
      && ltb f 256)
    ≡ true
unfolding all_below
flags_table = refl

-- The flags of a refusal: response, the query's opcode and RD, neither AA nor TC.
pub refusal_flags :
    (x : ℕ)
    → x < 256
    → let f = bit_or 0x80 (bit_and x 0x79) in
      (bit_and f 0x80 ≡ 0x80) × (bit_and f 0x79 ≡ bit_and x 0x79) × (bit_and f 0x06 ≡ 0) × (f < 256)
refusal_flags x h = ground (arith, all_below_sound 256 _ x flags_table h)

-- Any answer that is returned is one to the query, out of the first four arrivals.
drain_loop-answer :
    (query : List ℕ) (tries : ℕ) (arrivals : Arrivals) (ans : List ℕ)
    → (drain_loop query tries arrivals).0 ≡ some ans
    → is_answer query ans ≡ true
unfolding drain_loop
drain_loop-answer query zero arrivals ans e = cc
drain_loop-answer query (suc tries) [] ans e = cc
drain_loop-answer query (suc tries) (none ∷ arrivals) ans e = cc
drain_loop-answer query (suc tries) (some a ∷ arrivals) ans e =
    ground (arith, drain_loop-answer query tries arrivals ans)

-- What forwarding hands back has passed the test on answers: a response of at least a header under
-- the query's ID.
pub forward_upstream-answer :
    (sent : Bool) (query : List ℕ) (arrivals : Arrivals) (ans : List ℕ)
    → (forward_upstream sent query arrivals).0 ≡ some ans
    → is_answer query ans ≡ true
unfolding forward_upstream
forward_upstream-answer true query arrivals ans e = drain_loop-answer query 4 arrivals ans e
forward_upstream-answer false query arrivals ans e = cc
