-- ===== src/Generate/Blob.antt =====
-- blob_contains and blocklist_verify_blob of generate.c, over the bytes of a blob. `size_t` has 32
-- bits; SHA-256 is the platform's function, a parameter.
pub mod Laws
use esp_hole.Generate.Codec.{decode_le_u64}
use esp_hole.Base.{
  ℕ, zero, suc, ◌+◌, ◌-◌, ◌*◌, ◌/◌, ◌%◌, ◌^◌, ◌≤◌, ◌<◌, bit_and, bit_or, bit_xor, ◌≡◌, refl, sym,
  ap, ap₂, ◌∙◌, subst, ◌≢◌, ◌↔◌, ◌⊎◌, inl, inr, Bool, true, false, ◌&&◌, ◌||◌, not, Option, none,
  some, List, [], ◌∷◌, ◌++◌, map, append-nil, append_assoc, map-append, arith, ltb, leb, ◌==◌,
  if◌then◌else◌, ltb→lt, lt→ltb, ltb_false→le, le→ltb_false, leb→le, le→leb, ==→eq, ==_false→ne,
  ==_refl, ne→==_false, tests, Bool-cases, Option-cases, length, get_elem?, get_or, set, take, drop,
  replicate, length-append, get_elem?-eq-get_or, get_elem?-none, get_elem?-append_length,
  length-set, get_elem?-set_self, length-take, take-append, drop-append, elem, bytes_eq,
  bytes_eq→eq, bytes_eq_refl, All, elem-append, elem_of_get, not_elem_of_get, Above, IsAscending,
  Above-lt, IsAscending-lt, u8_mod, u32_mod, u64_mod, add32, sub32, mul32, mul64, Exec, ret, fault,
  no_fuel, ◌>>=◌, read,
}

-- The loop of the binary search: the first index whose word is not below the target.
unfoldable pub lower_loop : List ℕ → ℕ → ℕ → ℕ → ℕ → Exec ℕ
lower_loop blob target lo hi zero = no_fuel
lower_loop blob target lo hi (suc fuel) =
    let mid = add32 lo (sub32 hi lo / 2) in
    let upper = lower_loop blob target (add32 mid 1) hi fuel in
    let lower = lower_loop blob target lo mid fuel in
    if ltb lo hi
    then (decode_le_u64 (drop (mul32 mid 8) blob) >>= λ v. if ltb v target then upper else lower)
    else ret lo

-- 33 rounds serve every array that a 32-bit index can reach.
unfoldable pub blob_contains : List ℕ → ℕ → ℕ → Exec Bool
unfolding lower_loop
blob_contains blob count target = lower_loop blob target 0 count 33 >>= λ lo.
    if ltb lo count
    then (decode_le_u64 (drop (mul32 lo 8) blob) >>= λ v. ret (v == target))
    else ret false

-- The loop over the words, from index `i` with `n` of them left.
unfoldable pub ascending_loop : List ℕ → ℕ → ℕ → ℕ → Exec Bool
ascending_loop blob prev i zero = ret true
ascending_loop blob prev i (suc n) =
    let rest = λ (h : ℕ). ascending_loop blob h (suc i) n in
    decode_le_u64 (drop (mul32 i 8) blob) >>= λ h.
    if ltb 0 i && leb h prev then ret false else rest h

unfoldable pub verify_blob : (List ℕ → List ℕ) → List ℕ → ℕ → ℕ → List ℕ → Exec Bool
unfolding ascending_loop
verify_blob sha256 blob blob_len count want_sha256 =
    if not (blob_len == mul32 count 8)
    then ret false
    else if not (bytes_eq (sha256 (take blob_len blob)) want_sha256)
    then ret false
    else ascending_loop blob 0 0 count
