-- ===== src/Generate/Codec.antt =====
-- decode_le_u64 and encode_le_u64 of generate.c. A pointer into the blob is the list of the bytes
-- from there on, and a read past its end is a fault.
pub mod Laws
use esp_hole.Base.{
  ℕ, zero, suc, ◌+◌, ◌-◌, ◌*◌, ◌/◌, ◌%◌, ◌^◌, ◌≤◌, ◌<◌, bit_and, bit_or, bit_xor, ◌≡◌, refl, sym,
  ap, ap₂, ◌∙◌, subst, ◌≢◌, ◌↔◌, ◌⊎◌, inl, inr, Bool, true, false, ◌&&◌, ◌||◌, not, Option, none,
  some, List, [], ◌∷◌, ◌++◌, map, append-nil, append_assoc, map-append, arith, ltb, leb, ◌==◌,
  if◌then◌else◌, ltb→lt, lt→ltb, ltb_false→le, le→ltb_false, leb→le, le→leb, ==→eq, ==_false→ne,
  ==_refl, ne→==_false, tests, Bool-cases, Option-cases, length, get_elem?, get_or, set, take, drop,
  replicate, length-append, get_elem?-eq-get_or, get_elem?-none, get_elem?-append_length,
  length-set, get_elem?-set_self, length-take, take-append, drop-append, elem, bytes_eq,
  bytes_eq→eq, bytes_eq_refl, All, elem-append, elem_of_get, not_elem_of_get, Above, IsAscending,
  Above-lt, IsAscending-lt, u8_mod, u32_mod, u64_mod, add32, sub32, mul32, mul64, Exec, ret, fault,
  no_fuel, ◌>>=◌, read,
}

-- The loop `for (int i = 7; i >= 0; i--)`, with `suc i` rounds left.
unfoldable pub decode_loop : List ℕ → ℕ → ℕ → Exec ℕ
decode_loop p zero v = ret v
decode_loop p (suc i) v =
    read (get_elem? p i) >>= λ b. decode_loop p i (bit_or ((v * 2 ^ 8) % u64_mod) b)

unfoldable pub decode_le_u64 : List ℕ → Exec ℕ
unfolding decode_loop
decode_le_u64 p = decode_loop p 8 0

-- The bytes that `for (int i = 0; i < 8; i++)` writes, with `n` rounds left from `i`.
unfoldable pub encode_loop : ℕ → ℕ → ℕ → List ℕ
encode_loop zero i v = []
encode_loop (suc n) i v = (v / 2 ^ (8 * i)) % 256 ∷ encode_loop n (suc i) v

unfoldable pub encode_le_u64 : ℕ → List ℕ
unfolding encode_loop
encode_le_u64 v = encode_loop 8 0 v

-- What a blob of such words is.
unfoldable pub encode_all : List ℕ → List ℕ
encode_all [] = []
encode_all (v ∷ vs) = encode_le_u64 v ++ encode_all vs
