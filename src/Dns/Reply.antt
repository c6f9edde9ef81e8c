-- ===== src/Dns/Reply.antt =====
-- make_nxdomain and forward_upstream of main/dns_sinkhole.c.
pub mod Laws
use esp_hole.Base.{
  ℕ, zero, suc, ◌+◌, ◌-◌, ◌*◌, ◌/◌, ◌%◌, ◌^◌, ◌≤◌, ◌<◌, bit_and, bit_or, bit_xor, ◌≡◌, refl, sym,
  ap, ap₂, ◌∙◌, subst, ◌≢◌, ◌↔◌, ◌⊎◌, inl, inr, Bool, true, false, ◌&&◌, ◌||◌, not, Option, none,
  some, List, [], ◌∷◌, ◌++◌, map, append-nil, append_assoc, map-append, arith, ltb, leb, ◌==◌,
  if◌then◌else◌, ltb→lt, lt→ltb, ltb_false→le, le→ltb_false, leb→le, le→leb, ==→eq, ==_false→ne,
  ==_refl, ne→==_false, tests, Bool-cases, Option-cases, length, get_elem?, get_or, set, take, drop,
  replicate, length-append, get_elem?-eq-get_or, get_elem?-none, get_elem?-append_length,
  length-set, get_elem?-set_self, length-take, take-append, drop-append, elem, bytes_eq,
  bytes_eq→eq, bytes_eq_refl, All, All-mono, All-elem_self, take_all, length-map, All-get,
  elem-append, elem_of_get, not_elem_of_get, Above, IsAscending, Above-lt, IsAscending-lt, u8_mod,
  u32_mod, u64_mod, add32, sub32, mul32, mul64, Exec, ret, fault, no_fuel, ◌>>=◌, read,
}

-- `uint8_t` lists: the assignments to `pkt[2]` up to `pkt[11]`. The reply is the first `q_end` bytes.
unfoldable pub make_nxdomain : List ℕ → List ℕ
make_nxdomain pkt =
    let flags = bit_or 0x80 (bit_and (get_or pkt 2 0) 0x79) in
    let patched = set (set (set (set pkt 2 flags) 3 0x83) 4 0) 5 1 in
    set (set (set (set (set (set patched 6 0) 7 0) 8 0) 9 0) 10 0) 11 0

-- What `recv` gives, one entry for each call: `none` is a timeout or an error. A socket with no
-- entry left times out.
abbrev pub Arrivals : Type 0
Arrivals = List (Option (List ℕ))

-- The test of the drain loop on a datagram and the query.
unfoldable pub is_answer : List ℕ → List ℕ → Bool
is_answer query ans =
    leb 12 (length ans)
    && (get_or ans 0 0 == get_or query 0 0)
    && (get_or ans 1 0 == get_or query 1 0)
    && not (bit_and (get_or ans 2 0) 0x80 == 0)

-- The drain loop with `tries` calls of recv left: the answer, and what the socket still holds.
unfoldable pub drain_loop : List ℕ → ℕ → Arrivals → Option (List ℕ) × Arrivals
unfolding is_answer
drain_loop query zero arrivals = (none, arrivals)
drain_loop query (suc tries) [] = (none, [])
drain_loop query (suc tries) (none ∷ arrivals) = (none, arrivals)
drain_loop query (suc tries) (some ans ∷ arrivals) =
    let rest = drain_loop query tries arrivals in
    if is_answer query ans then (some ans, arrivals) else rest

-- `sent` says whether `send` took the whole query.
unfoldable pub forward_upstream : Bool → List ℕ → Arrivals → Option (List ℕ) × Arrivals
unfolding drain_loop
forward_upstream sent query arrivals =
    if sent then drain_loop query 4 arrivals else (none, arrivals)
