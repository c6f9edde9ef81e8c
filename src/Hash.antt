-- ===== src/Hash.antt =====
-- 64-bit FNV-1a, the key of the blocklist and of the answer cache: domain_hash in
-- main/dns_sinkhole.c and its copy in
-- generator-node/components/blocklist_pipeline/hash.c. A string is the list of its bytes.
pub mod Laws
use esp_hole.Base.{
  ℕ, zero, suc, ◌+◌, ◌-◌, ◌*◌, ◌/◌, ◌%◌, ◌^◌, ◌≤◌, ◌<◌, bit_and, bit_or, bit_xor, ◌≡◌, refl, sym,
  ap, ap₂, ◌∙◌, subst, ◌≢◌, ◌↔◌, ◌⊎◌, inl, inr, Bool, true, false, ◌&&◌, ◌||◌, not, Option, none,
  some, List, [], ◌∷◌, ◌++◌, map, append-nil, append_assoc, map-append, arith, ltb, leb, ◌==◌,
  if◌then◌else◌, ltb→lt, lt→ltb, ltb_false→le, le→ltb_false, leb→le, le→leb, ==→eq, ==_false→ne,
  ==_refl, ne→==_false, tests, Bool-cases, Option-cases, length, get_elem?, get_or, set, take, drop,
  replicate, length-append, get_elem?-eq-get_or, get_elem?-none, get_elem?-append_length,
  length-set, get_elem?-set_self, length-take, take-append, drop-append, elem, bytes_eq,
  bytes_eq→eq, bytes_eq_refl, All, elem-append, elem_of_get, not_elem_of_get, Above, IsAscending,
  Above-lt, IsAscending-lt, u8_mod, u32_mod, u64_mod, add32, sub32, mul32, mul64, Exec, ret, fault,
  no_fuel, ◌>>=◌, read,
}

abbrev pub fnv_offset : ℕ
fnv_offset = 0xcbf29ce484222325

abbrev pub fnv_prime : ℕ
fnv_prime = 0x100000001b3

-- One round: `h ^= (uint8_t)s[i]; h *= 0x100000001b3ULL;`.
unfoldable pub hash_byte : ℕ → ℕ → ℕ
hash_byte h c = mul64 (bit_xor h c) fnv_prime

unfoldable pub hash_bytes : ℕ → List ℕ → ℕ
unfolding hash_byte
hash_bytes h [] = h
hash_bytes h (c ∷ s) = hash_bytes (hash_byte h c) s

-- The function of main/dns_sinkhole.c.
unfoldable pub domain_hash : List ℕ → ℕ
unfolding hash_bytes
domain_hash s = hash_bytes fnv_offset s

-- The copy in hash.c of the generator.
unfoldable pub generator_domain_hash : List ℕ → ℕ
unfolding hash_bytes
generator_domain_hash s = hash_bytes fnv_offset s
