-- ===== src/Generate/Finish.antt =====
-- blocklist_builder_finish of generate.c: sort, drop duplicates, serialise, hash, self-test. The
-- platform's realloc (which requests are granted) and its SHA-256 are parameters.
pub mod Dedup
pub mod Result
use esp_hole.Base.Text.{codes}
use esp_hole.Hash.{generator_domain_hash}
use esp_hole.Generate.Codec.{encode_le_u64}
use esp_hole.Generate.Blob.{blob_contains, verify_blob}
use esp_hole.Generate.Build.{Builder}
use esp_hole.Generate.Sort.{qsort}
use esp_hole.Base.{
  ℕ, zero, suc, ◌+◌, ◌-◌, ◌*◌, ◌/◌, ◌%◌, ◌^◌, ◌≤◌, ◌<◌, bit_and, bit_or, bit_xor, ◌≡◌, refl, sym,
  ap, ap₂, ◌∙◌, subst, ◌≢◌, ◌↔◌, ◌⊎◌, inl, inr, Bool, true, false, ◌&&◌, ◌||◌, not, Option, none,
  some, List, [], ◌∷◌, ◌++◌, map, append-nil, append_assoc, map-append, arith, ltb, leb, ◌==◌,
  if◌then◌else◌, ltb→lt, lt→ltb, ltb_false→le, le→ltb_false, leb→le, le→leb, ==→eq, ==_false→ne,
  ==_refl, ne→==_false, tests, Bool-cases, Option-cases, length, get_elem?, get_or, set, take, drop,
  replicate, length-append, get_elem?-eq-get_or, get_elem?-none, get_elem?-append_length,
  length-set, get_elem?-set_self, length-take, take-append, drop-append, elem, bytes_eq,
  bytes_eq→eq, bytes_eq_refl, All, elem-append, elem_of_get, not_elem_of_get, Above, IsAscending,
  Above-lt, IsAscending-lt, u8_mod, u32_mod, u64_mod, add32, sub32, mul32, mul64, Exec, ret, fault,
  no_fuel, ◌>>=◌, read,
}

pub data Status : Type 0 where
  generated err_alloc err_below_min_domains err_selftest : Status

pub record Artifact : Type 0 where
  pub blob : List ℕ
  pub blob_len : ℕ
  pub count : ℕ
  pub sha256 : List ℕ

-- `memset(out, 0, sizeof(*out))`.
abbrev pub zeroed : Artifact
zeroed = record { blob = []; blob_len = 0; count = 0; sha256 = replicate 32 0 }

-- The status, `*out`, and the builder, whose array the sort reorders.
pub record Finished : Type 0 where
  pub status : Status
  pub out : Artifact
  pub builder : Builder

-- The contract of the platform's allocator: a request of no bytes frees and returns NULL.
abbrev pub allocate : (ℕ → Bool) → ℕ → Bool
allocate realloc size = not (size == 0) && realloc size

-- The serialising loop, with the bytes written and the words counted so far.
unfoldable pub dedup_loop : Bool → ℕ → List ℕ → List ℕ → ℕ → List ℕ × ℕ
dedup_loop first prev [] blob count = (blob, count)
dedup_loop first prev (h ∷ hs) blob count =
    let fresh = first || not (h == prev) in
    dedup_loop false h hs (if fresh then blob ++ encode_le_u64 h else blob)
      (if fresh then suc count else count)

abbrev pub negative_canaries : List (List ℕ)
negative_canaries =
    codes "esp-hole-selftest-canary.example"
    ∷ codes "definitely-not-blocked.invalid"
    ∷ codes "self-test.test"
    ∷ []

-- Every added hash is found.
unfoldable pub all_found : List ℕ → ℕ → List ℕ → Exec Bool
all_found blob count [] = ret true
all_found blob count (h ∷ hs) =
    let rest = all_found blob count hs in
    blob_contains blob count h >>= λ found. if not found then ret false else rest

-- Some canary is found.
unfoldable pub canary_found : List ℕ → ℕ → List (List ℕ) → Exec Bool
canary_found blob count [] = ret false
canary_found blob count (c ∷ cs) =
    let rest = canary_found blob count cs in
    blob_contains blob count (generator_domain_hash c) >>= λ found. if found then ret true else rest

unfoldable pub self_test : (List ℕ → List ℕ) → List ℕ → ℕ → List ℕ → List ℕ → Exec Bool
self_test sha256 blob count hashes sha =
    verify_blob sha256 blob (mul32 count 8) count sha >>= λ verified.
    if not verified
    then ret false
    else (all_found blob count hashes >>= λ found.
        if not found
        then ret false
        else (canary_found blob count negative_canaries >>= λ hit. ret (not hit)))

module _ (sha256 : List ℕ → List ℕ) (realloc : ℕ → Bool) where
  -- From the serialised blob on.
  unfoldable pub publish_blob : Builder → List ℕ → ℕ → Exec Finished
  publish_blob b blob count =
      if ltb count b.min_domains
      then ret (record { status = err_below_min_domains; out = zeroed; builder = b })
      else (let sha = sha256 (take (mul32 count 8) blob) in
          self_test sha256 blob count b.hashes sha >>= λ passed.
          if passed
          then ret (record {
            status = generated;
            out = record { blob = blob; blob_len = mul32 count 8; count = count; sha256 = sha };
            builder = b;
          })
          else ret (record { status = err_selftest; out = zeroed; builder = b }))

  unfoldable pub builder_finish : Builder → Exec Finished
  builder_finish b =
      if ltb (length b.hashes) b.min_domains
      then ret (record { status = err_below_min_domains; out = zeroed; builder = b })
      else (let sorted = record b { hashes = qsort b.hashes } in
          if allocate realloc (mul32 (length b.hashes) 8)
          then (let serialised = dedup_loop true 0 sorted.hashes [] 0 in
              publish_blob sorted serialised.0 serialised.1)
          else ret (record { status = err_alloc; out = zeroed; builder = sorted }))
