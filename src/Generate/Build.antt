-- ===== src/Generate/Build.antt =====
-- The builder of generate.c: create, builder_reserve and blocklist_builder_add. `hashes` is the used
-- part of the array, the first `count` entries. The platform's realloc is a parameter: it says
-- whether a request of so many bytes is granted. `size_t` has 32 bits.
pub mod Laws
use esp_hole.Hash.{generator_domain_hash}
use esp_hole.Base.{
  ℕ, zero, suc, ◌+◌, ◌-◌, ◌*◌, ◌/◌, ◌%◌, ◌^◌, ◌≤◌, ◌<◌, bit_and, bit_or, bit_xor, ◌≡◌, refl, sym,
  ap, ap₂, ◌∙◌, subst, ◌≢◌, ◌↔◌, ◌⊎◌, inl, inr, Bool, true, false, ◌&&◌, ◌||◌, not, Option, none,
  some, List, [], ◌∷◌, ◌++◌, map, append-nil, append_assoc, map-append, arith, ltb, leb, ◌==◌,
  if◌then◌else◌, ltb→lt, lt→ltb, ltb_false→le, le→ltb_false, leb→le, le→leb, ==→eq, ==_false→ne,
  ==_refl, ne→==_false, tests, Bool-cases, Option-cases, length, get_elem?, get_or, set, take, drop,
  replicate, length-append, get_elem?-eq-get_or, get_elem?-none, get_elem?-append_length,
  length-set, get_elem?-set_self, length-take, take-append, drop-append, elem, bytes_eq,
  bytes_eq→eq, bytes_eq_refl, All, elem-append, elem_of_get, not_elem_of_get, Above, IsAscending,
  Above-lt, IsAscending-lt, u8_mod, u32_mod, u64_mod, add32, sub32, mul32, mul64, Exec, ret, fault,
  no_fuel, ◌>>=◌, read,
}

pub record Builder : Type 0 where
  pub hashes : List ℕ
  pub capacity : ℕ
  pub min_domains : ℕ

abbrev pub initial_capacity : ℕ
initial_capacity = 4096

unfoldable pub builder_create : Bool → ℕ → Option Builder
builder_create granted min_domains =
    if granted then some (record { hashes = []; capacity = 0; min_domains = min_domains }) else none

-- `while (new_cap < min_capacity) new_cap *= 2`, on fuel.
unfoldable pub grow_loop : ℕ → ℕ → ℕ → Exec ℕ
grow_loop new_cap min_capacity zero = no_fuel
grow_loop new_cap min_capacity (suc fuel) =
    let more = grow_loop (mul32 new_cap 2) min_capacity fuel in
    if ltb new_cap min_capacity then more else ret new_cap

module _ (realloc : ℕ → Bool) where
  unfoldable pub builder_reserve : Builder → ℕ → Exec (Bool × Builder)
  unfolding grow_loop
  builder_reserve b min_capacity =
      if leb min_capacity b.capacity
      then ret (true, b)
      else (grow_loop (if b.capacity == 0 then initial_capacity else mul32 b.capacity 2)
            min_capacity 33
          >>= λ new_cap.
              if realloc (mul32 new_cap 8)
              then ret (true, record b { capacity = new_cap })
              else ret (false, b))

  -- The write `b->hashes[b->count++]` faults beyond the capacity.
  unfoldable pub store_hash : Builder → ℕ → Exec Builder
  store_hash b h =
      if ltb (length b.hashes) b.capacity
      then ret (record b { hashes = b.hashes ++ h ∷ [] })
      else fault

  unfoldable pub builder_add : Builder → List ℕ → Exec (Bool × Builder)
  unfolding store_hash
  builder_add b domain = builder_reserve b (add32 (length b.hashes) 1) >>= λ r.
      if r.0
      then (store_hash r.1 (generator_domain_hash domain) >>= λ b'. ret (true, b'))
      else ret (false, r.1)
