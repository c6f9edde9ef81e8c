-- ===== src/Generate/Finish/Result.antt =====
-- What blocklist_builder_finish returns, on every branch.
use esp_hole.Hash.{generator_domain_hash}
use esp_hole.Generate.Codec.{encode_all}
use esp_hole.Generate.Codec.Laws.{IsWord, length-encode_all}
use esp_hole.Generate.Blob.{verify_blob}
use esp_hole.Generate.Blob.Laws.{blob_contains-elem, ascending_loop-IsAscending}
use esp_hole.Generate.Build.{Builder}
use esp_hole.Generate.Sort.{qsort, qsort-IsSorted, qsort-elem, qsort-length, qsort-All}
use esp_hole.Generate.Finish.Dedup.{
  distinct, dedup_loop-distinct, distinct-IsAscending, distinct-elem, distinct-All, distinct-length,
}
use esp_hole.Generate.Finish.{
  generated, err_alloc, err_below_min_domains, err_selftest, zeroed, Finished, allocate, dedup_loop,
  negative_canaries, all_found, canary_found, self_test, publish_blob, builder_finish,
}
use esp_hole.Base.{
  ℕ, ◌*◌, ◌≤◌, ◌<◌, ◌≡◌, refl, sym, ap, ap₂, ◌∙◌, Bool, true, false, ◌||◌, not, List, [], ◌∷◌,
  arith, ltb, if◌then◌else◌, ==_refl, length, take, elem, bytes_eq_refl, All, All-mono,
  All-elem_self, take_all, IsAscending, u32_mod, mul32, ret,
}

-- The published words: the distinct hashes, in ascending order.
unfoldable pub published : List ℕ → List ℕ
published hashes = distinct true 0 (qsort hashes)

-- Some name of the list has its hash among the hashes.
unfoldable pub any_hashed : List (List ℕ) → List ℕ → Bool
any_hashed [] hashes = false
any_hashed (c ∷ cs) hashes = elem (generator_domain_hash c) hashes || any_hashed cs hashes

any_hashed-ext :
    (cs : List (List ℕ)) (xs ys : List ℕ)
    → ((a : ℕ) → elem a xs ≡ elem a ys)
    → any_hashed cs xs ≡ any_hashed cs ys
unfolding any_hashed
any_hashed-ext [] xs ys h = refl
any_hashed-ext (c ∷ cs) xs ys h = ap₂ ◌||◌ (h (generator_domain_hash c)) (any_hashed-ext cs xs ys h)

pub published-elem : (a : ℕ) (hashes : List ℕ) → elem a (published hashes) ≡ elem a hashes
unfolding published
published-elem a hashes = distinct-elem a (qsort hashes) ∙ qsort-elem a hashes

pub published-IsAscending : (hashes : List ℕ) → IsAscending (published hashes)
unfolding published
published-IsAscending hashes = distinct-IsAscending (qsort hashes) (qsort-IsSorted hashes)

pub published-length : (hashes : List ℕ) → length (published hashes) ≤ length hashes
unfolding published
published-length hashes = omega (arith, distinct-length true 0 (qsort hashes), qsort-length hashes)

pub published-IsWord : (hashes : List ℕ) → All IsWord hashes → All IsWord (published hashes)
unfolding published
published-IsWord hashes w = distinct-All IsWord true 0 (qsort hashes) (qsort-All IsWord hashes w)

-- The self-test on the blob of ascending words.
module _ (sha256 : List ℕ → List ℕ) (vs : List ℕ) (words : All IsWord vs)
    (small : length vs * 8 < u32_mod) (asc : IsAscending vs) where
  verify_blob-own :
      verify_blob sha256
        (encode_all vs)
        (mul32 (length vs) 8)
        (length vs)
        (sha256 (take (mul32 (length vs) 8) (encode_all vs)))
      ≡ ret true
  unfolding verify_blob
  verify_blob-own =
      rw
        (
          ==_refl (mul32 (length vs) 8),
          bytes_eq_refl (sha256 (take (mul32 (length vs) 8) (encode_all vs))),
        )
        (ascending_loop-IsAscending vs 0 words small asc)

  all_found-members :
      (hs : List ℕ)
      → All (λ h. elem h vs ≡ true) hs
      → all_found (encode_all vs) (length vs) hs ≡ ret true
  unfolding all_found
  all_found-members [] m = refl
  all_found-members (h ∷ hs) m =
      rw (blob_contains-elem vs h words small asc, m.0) (all_found-members hs m.1)

  canary_found-any :
      (cs : List (List ℕ)) → canary_found (encode_all vs) (length vs) cs ≡ ret (any_hashed cs vs)
  unfolding canary_found any_hashed
  canary_found-any [] = refl
  canary_found-any (c ∷ cs) =
      rw (blob_contains-elem vs (generator_domain_hash c) words small asc)
        (ground (arith, canary_found-any cs))

  pub self_test-canaries :
      (hashes : List ℕ)
      → All (λ h. elem h vs ≡ true) hashes
      → self_test sha256
          (encode_all vs)
          (length vs)
          hashes
          (sha256 (take (mul32 (length vs) 8) (encode_all vs)))
        ≡ ret (not (any_hashed negative_canaries vs))
  unfolding self_test
  self_test-canaries hashes m =
      rw (verify_blob-own, all_found-members hashes m, canary_found-any negative_canaries) refl

-- The whole function, with no search and no serialisation left in it.
abbrev pub expected : (List ℕ → List ℕ) → (ℕ → Bool) → Builder → Finished
expected sha256 realloc b =
    let vs = published b.hashes in
    let blob = encode_all vs in
    let sorted = record b { hashes = qsort b.hashes } in
    if ltb (length b.hashes) b.min_domains
    then record { status = err_below_min_domains; out = zeroed; builder = b }
    else if not (allocate realloc (length b.hashes * 8))
    then record { status = err_alloc; out = zeroed; builder = sorted }
    else if ltb (length vs) b.min_domains
    then record { status = err_below_min_domains; out = zeroed; builder = sorted }
    else if any_hashed negative_canaries b.hashes
    then record { status = err_selftest; out = zeroed; builder = sorted }
    else record {
      status = generated;
      out = record {
        blob = blob;
        blob_len = length vs * 8;
        count = length vs;
        sha256 = sha256 blob;
      };
      builder = sorted;
    }

All-published : (hashes : List ℕ) → All (λ h. elem h (published hashes) ≡ true) (qsort hashes)
unfolding published
All-published hashes =
    All-mono (λ h. elem h (qsort hashes) ≡ true)
      (λ h. elem h (distinct true 0 (qsort hashes)) ≡ true) (qsort hashes)
      (λ h e. distinct-elem h (qsort hashes) ∙ e) (All-elem_self (qsort hashes))

module _ (sha256 : List ℕ → List ℕ) (realloc : ℕ → Bool) (b : Builder) (w : All IsWord b.hashes)
    (small : length b.hashes * 8 < u32_mod) where
  abbrev vs : List ℕ
  vs = published b.hashes

  abbrev sorted : Builder
  sorted = record b { hashes = qsort b.hashes }

  vs_small : length vs * 8 < u32_mod
  vs_small = omega (arith, published-length b.hashes)

  blob_size : mul32 (length vs) 8 ≡ length vs * 8
  blob_size = omega (arith, vs_small)

  whole_blob : take (length vs * 8) (encode_all vs) ≡ encode_all vs
  whole_blob = rw (sym (length-encode_all vs)) (take_all (encode_all vs))

  own_test :
      self_test sha256 (encode_all vs) (length vs) (qsort b.hashes) (sha256 (encode_all vs))
      ≡ ret (not (any_hashed negative_canaries b.hashes))
  own_test =
      (rw (blob_size, whole_blob) at
        (self_test-canaries sha256 vs (published-IsWord b.hashes w) vs_small
          (published-IsAscending b.hashes) (qsort b.hashes) (All-published b.hashes)))
      ∙ ap (λ (x : Bool). ret (not x))
          (any_hashed-ext negative_canaries vs b.hashes (λ a. published-elem a b.hashes))

  publish_blob_lem :
      publish_blob sha256 realloc sorted (encode_all vs) (length vs)
      ≡ ret (
          if ltb (length vs) b.min_domains
          then record { status = err_below_min_domains; out = zeroed; builder = sorted }
          else if any_hashed negative_canaries b.hashes
          then record { status = err_selftest; out = zeroed; builder = sorted }
          else record {
            status = generated;
            out = record {
              blob = encode_all vs;
              blob_len = length vs * 8;
              count = length vs;
              sha256 = sha256 (encode_all vs);
            };
            builder = sorted;
          })
  unfolding publish_blob
  publish_blob_lem = rw (blob_size, whole_blob, own_test) (ground arith)

  serialised : dedup_loop true 0 (qsort b.hashes) [] 0 ≡ (encode_all vs, length vs)
  unfolding published
  serialised =
      dedup_loop-distinct true 0 (qsort b.hashes) [] 0
      ∙ ap (λ (n : ℕ). (encode_all (distinct true 0 (qsort b.hashes)), n)) (omega arith)

  -- The distinct hashes are published in ascending order, unless there are too few of them, the
  -- platform refuses the memory, or a canary is among them: no other self-test failure
  -- exists. The hashes have 64 bits, and eight times their number fits 32 bits.
  pub builder_finish-expected : builder_finish sha256 realloc b ≡ ret (expected sha256 realloc b)
  unfolding builder_finish
  builder_finish-expected =
      let size : mul32 (length b.hashes) 8 ≡ length b.hashes * 8 = omega arith in
      rw (size, serialised, publish_blob_lem) (ground arith)
