-- ===== src/Blocklist/Search.antt =====
-- The binary search of blocklist_contains in main/blocklist.c, over the array `s_hashes` of `s_count`
-- numbers. `size_t` has 32 bits; 33 rounds of fuel serve every array that such an index can reach.
pub mod Correct
use esp_hole.Base.{
  ℕ, zero, suc, ◌+◌, ◌-◌, ◌*◌, ◌/◌, ◌%◌, ◌^◌, ◌≤◌, ◌<◌, bit_and, bit_or, bit_xor, ◌≡◌, refl, sym,
  ap, ap₂, ◌∙◌, subst, ◌≢◌, ◌↔◌, ◌⊎◌, inl, inr, Bool, true, false, ◌&&◌, ◌||◌, not, Option, none,
  some, List, [], ◌∷◌, ◌++◌, map, append-nil, append_assoc, map-append, arith, ltb, leb, ◌==◌,
  if◌then◌else◌, ltb→lt, lt→ltb, ltb_false→le, le→ltb_false, leb→le, le→leb, ==→eq, ==_false→ne,
  ==_refl, ne→==_false, tests, Bool-cases, Option-cases, length, get_elem?, get_or, set, take, drop,
  replicate, length-append, get_elem?-eq-get_or, get_elem?-none, get_elem?-append_length,
  length-set, get_elem?-set_self, length-take, take-append, drop-append, elem, bytes_eq,
  bytes_eq→eq, bytes_eq_refl, All, elem-append, elem_of_get, not_elem_of_get, Above, IsAscending,
  Above-lt, IsAscending-lt, u8_mod, u32_mod, u64_mod, add32, sub32, mul32, mul64, Exec, ret, fault,
  no_fuel, ◌>>=◌, read,
}

-- `lo + (hi - lo) / 2` in `size_t`.
unfoldable pub midpoint : ℕ → ℕ → ℕ
midpoint lo hi = add32 lo (sub32 hi lo / 2)

-- The loop `while (lo < hi)`. A read outside the array is a fault.
unfoldable pub search_loop : List ℕ → ℕ → ℕ → ℕ → ℕ → Exec Bool
unfolding midpoint
search_loop hashes hash lo hi zero = no_fuel
search_loop hashes hash lo hi (suc fuel) =
    let mid = midpoint lo hi in
    let upper = search_loop hashes hash (add32 mid 1) hi fuel in
    let lower = search_loop hashes hash lo mid fuel in
    if ltb lo hi
    then (read (get_elem? hashes mid) >>= λ v.
        if v == hash then ret true else if ltb v hash then upper else lower)
    else ret false

-- The search of the whole array.
unfoldable pub search_hashes : List ℕ → ℕ → ℕ → Exec Bool
unfolding search_loop
search_hashes hashes count hash = search_loop hashes hash 0 count 33
