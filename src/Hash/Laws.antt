-- ===== src/Hash/Laws.antt =====
-- The two copies of domain_hash: the words they return, and strings that differ in one byte.
use esp_hole.Base.Bits.{bit_xor-lt, bit_xor_cancel, bit_xor_cancel_left}
use esp_hole.Hash.{fnv_offset, fnv_prime, hash_byte, hash_bytes, domain_hash, generator_domain_hash}
use esp_hole.Base.{
  ℕ, ◌^◌, ◌<◌, ◌≡◌, refl, sym, ap, ◌∙◌, ◌≢◌, List, [], ◌∷◌, ◌++◌, arith, All, u64_mod, mul64,
}

abbrev pub IsByte : ℕ → Type 0
IsByte c = c < 256

pub hash_bytes-lt : (h : ℕ) (s : List ℕ) → h < u64_mod → hash_bytes h s < u64_mod
unfolding hash_bytes
hash_bytes-lt h [] l = l
hash_bytes-lt h (c ∷ s) l = hash_bytes-lt (hash_byte h c) s (omega arith)

pub domain_hash-lt : (s : List ℕ) → domain_hash s < u64_mod
unfolding domain_hash
domain_hash-lt s = hash_bytes-lt _ s (omega arith)

-- The prime is odd, so multiplication by it can be undone modulo 2 ^ 64.
mul_prime_cancel : (x : ℕ) → x < u64_mod → mul64 (mul64 x 0x100000001b3) 0xce965057aff6957b ≡ x
mul_prime_cancel x h = omega arith

undo_prime : (x y : ℕ) → x < u64_mod → y < u64_mod → mul64 x fnv_prime ≡ mul64 y fnv_prime → x ≡ y
undo_prime x y h l e =
    sym (mul_prime_cancel x h) ∙ ap (λ t. mul64 t 0xce965057aff6957b) e ∙ mul_prime_cancel y l

-- A round loses nothing of the state, nor of the byte.
hash_byte_state :
    (h k c : ℕ) → h < 2 ^ 64 → k < 2 ^ 64 → c < 256 → hash_byte h c ≡ hash_byte k c → h ≡ k
unfolding hash_byte
hash_byte_state h k c p q r e =
    bit_xor_cancel 64 h k c p q
      (undo_prime _ _ (bit_xor-lt 64 h c p (omega arith)) (bit_xor-lt 64 k c q (omega arith)) e)

hash_byte_char :
    (h c d : ℕ) → h < 2 ^ 64 → c < 256 → d < 256 → hash_byte h c ≡ hash_byte h d → c ≡ d
unfolding hash_byte
hash_byte_char h c d p q r e =
    bit_xor_cancel_left 8 c d h q r
      (undo_prime _ _ (bit_xor-lt 64 h c p (omega arith)) (bit_xor-lt 64 h d p (omega arith)) e)

hash_byte-lt : (h c : ℕ) → hash_byte h c < 2 ^ 64
unfolding hash_byte
hash_byte-lt h c = omega arith

hash_bytes_state :
    (s : List ℕ) (h k : ℕ)
    → h < 2 ^ 64
    → k < 2 ^ 64
    → All IsByte s
    → hash_bytes h s ≡ hash_bytes k s
    → h ≡ k
unfolding hash_bytes
hash_bytes_state [] h k p q b e = e
hash_bytes_state (c ∷ s) h k p q b e =
    hash_byte_state h k c p q b.0 (
      hash_bytes_state s (hash_byte h c) (hash_byte k c) (hash_byte-lt h c) (hash_byte-lt k c) b.1
        e)

hash_bytes-append : (s t : List ℕ) (h : ℕ) → hash_bytes h (s ++ t) ≡ hash_bytes (hash_bytes h s) t
unfolding hash_bytes
hash_bytes-append [] t h = refl
hash_bytes-append (c ∷ s) t h = hash_bytes-append s t (hash_byte h c)

one_byte_injective :
    (s t : List ℕ) (c d : ℕ)
    → c < 256
    → d < 256
    → All IsByte t
    → domain_hash (s ++ c ∷ t) ≡ domain_hash (s ++ d ∷ t)
    → c ≡ d
unfolding domain_hash hash_bytes
one_byte_injective s t c d p q b e =
    let h : ℕ = hash_bytes fnv_offset s in
    let small : h < 2 ^ 64 = hash_bytes-lt fnv_offset s (omega arith) in
    hash_byte_char h c d small p q (
      hash_bytes_state t (hash_byte h c) (hash_byte h d) (hash_byte-lt h c) (hash_byte-lt h d) b
        (sym (hash_bytes-append s (c ∷ t) fnv_offset) ∙ e ∙ hash_bytes-append s (d ∷ t) fnv_offset))

-- Two strings of bytes that differ in exactly one place have different hashes.
pub domain_hash-one_byte :
    (s t : List ℕ) (c d : ℕ)
    → c < 256
    → d < 256
    → All IsByte t
    → c ≢ d
    → domain_hash (s ++ c ∷ t) ≢ domain_hash (s ++ d ∷ t)
domain_hash-one_byte s t c d hc hd bytes ne e = ne (one_byte_injective s t c d hc hd bytes e)

-- Both firmware images compute the same key of every name.
pub generator_domain_hash-eq : (s : List ℕ) → generator_domain_hash s ≡ domain_hash s
unfolding generator_domain_hash domain_hash
generator_domain_hash-eq s = refl
