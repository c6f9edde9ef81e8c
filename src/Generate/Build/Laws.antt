-- ===== src/Generate/Build/Laws.antt =====
-- The invariant of the builder of generate.c, and its additions.
use native.Mathlib.Decide.{ℕ_discrete}
use esp_hole.Hash.{generator_domain_hash}
use esp_hole.Generate.Build.{
  Builder, initial_capacity, builder_create, grow_loop, builder_reserve, builder_add,
}
use esp_hole.Base.{
  ℕ, suc, ◌+◌, ◌*◌, ◌^◌, ◌≤◌, ◌<◌, ◌≡◌, refl, sym, ◌∙◌, ◌≢◌, Bool, true, false, ◌||◌, not, some,
  List, [], ◌∷◌, ◌++◌, arith, leb, ◌==◌, if◌then◌else◌, le→leb, length, length-append, add32, mul32,
  ret,
}

-- Below 2 ^ 27 entries, a gigabyte of hashes, no size computation of the builder wraps.
pub record IsValid (b : Builder) : Type 0 where
  pub within : length b.hashes ≤ b.capacity
  pub bounded : b.capacity ≤ 2 ^ 28

pub builder_create-IsValid :
    (min_domains : ℕ) (b : Builder) → builder_create true min_domains ≡ some b → IsValid b
unfolding builder_create
builder_create-IsValid min_domains b e = ground arith

-- What an addition does, written without the loop.
abbrev pub grown : Builder → ℕ
grown b =
    if length b.hashes == b.capacity
    then (if b.capacity == 0 then initial_capacity else 2 * b.capacity)
    else b.capacity

abbrev pub can_grow : (ℕ → Bool) → Builder → Bool
can_grow realloc b = not (length b.hashes == b.capacity) || realloc (grown b * 8)

grow_loop_enough :
    (new_cap min_capacity fuel : ℕ)
    → min_capacity ≤ new_cap
    → grow_loop new_cap min_capacity (suc fuel) ≡ ret new_cap
unfolding grow_loop
grow_loop_enough new_cap min_capacity fuel h = ground arith

module _ (realloc : ℕ → Bool) (b : Builder) (v : IsValid b) (h : length b.hashes < 2 ^ 27) where
  reserve_room :
      length b.hashes ≢ b.capacity → builder_reserve realloc b (length b.hashes + 1) ≡ ret (true, b)
  unfolding builder_reserve
  reserve_room ne =
      let t : leb (length b.hashes + 1) b.capacity ≡ true =
        le→leb (length b.hashes + 1) b.capacity (omega (arith, v.within)) in
      rw t refl

  reserve_full :
      length b.hashes ≡ b.capacity
      → builder_reserve realloc b (length b.hashes + 1) ≡ (
          if realloc (grown b * 8)
          then ret (true, record b { capacity = grown b })
          else ret (false, b))
  unfolding builder_reserve
  reserve_full e =
      let t : leb (length b.hashes + 1) b.capacity ≡ false = ground arith in
      let f : (length b.hashes == b.capacity) ≡ true = ground arith in
      let g : (if b.capacity == 0 then initial_capacity else mul32 b.capacity 2) ≡ grown b =
        ground (arith, v.within) in
      let m : mul32 (grown b) 8 ≡ grown b * 8 = ground arith in
      rw (t, g, grow_loop_enough (grown b) (length b.hashes + 1) 32 (ground arith)) (rw m refl)

  -- An addition never writes outside the array and always ends: it appends the hash of the domain
  -- where there is room or the platform grants the doubled array, and else leaves the builder alone.
  -- The builder is within its capacity and holds fewer than 2 ^ 27 hashes.
  pub builder_add_lem :
      (domain : List ℕ)
      → builder_add realloc b domain ≡ (
          if can_grow realloc b
          then ret (
            true,
            record b { hashes = b.hashes ++ generator_domain_hash domain ∷ []; capacity = grown b },
          )
          else ret (false, b))
  unfolding builder_add
  builder_add_lem domain =
      let next : add32 (length b.hashes) 1 ≡ length b.hashes + 1 = omega arith in
      elim (ℕ_discrete (length b.hashes) b.capacity) [
        | no ne ↦ rw (next, reserve_room ne) (ground (arith, v.within))
        | yes e ↦ rw (next, reserve_full e) (ground (arith, v.within))
      ]

  pub builder_add-IsValid :
      (domain : List ℕ) (b' : Builder) (done : Bool)
      → builder_add realloc b domain ≡ ret (done, b')
      → IsValid b'
  builder_add-IsValid domain b' done e = ground (
    arith,
    sym (builder_add_lem domain) ∙ e,
    length-append b.hashes (generator_domain_hash domain ∷ []),
  )
