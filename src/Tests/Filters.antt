-- ===== src/Tests/Filters.antt =====
-- A list of 10000 words, the last of them the hash of a.b, from the flash to the refusal of the query for a.b.
use esp_hole.Hash.{domain_hash}
use esp_hole.Hash.Laws.{domain_hash-lt}
use esp_hole.Dns.Question.Wire.{dotted}
use esp_hole.Dns.Match.{c_string}
use esp_hole.Dns.Reply.Laws.{refusal}
use esp_hole.Dns.Serve.{serve_turn}
use esp_hole.Stats.Counters.{zero_counters, count_blocked}
use esp_hole.Generate.Codec.{encode_all}
use esp_hole.Generate.Codec.Laws.{IsWord, length-encode_all}
use esp_hole.Blocklist.Device.{EspErr, esp_ok, is_ok, Device}
use esp_hole.Blocklist.Store.{Served, min_domains, commit_slot}
use esp_hole.System.Filters.{asked, commit_slot-filters}
use esp_hole.Tests.Fixtures.{
  Table, nvs, recorded, served, count_up, length-count_up, length-replicate, query, asked_labels,
  node, input,
}
use esp_hole.Tests.Network.{query-IsByte, query-IsQuestion, named}
use esp_hole.Base.{
  ℕ, zero, suc, ◌+◌, ◌*◌, ◌^◌, ◌<◌, ◌≡◌, refl, ◌∙◌, subst, ◌⊎◌, inl, inr, true, false, some, List,
  [], ◌∷◌, ◌++◌, arith, ◌==◌, ==_refl, Bool-cases, length, take, drop, replicate, length-append,
  length-take, take-append, elem, All, ret,
}

abbrev hash : ℕ
hash = domain_hash (c_string (dotted asked_labels))

abbrev words : List ℕ
words = count_up 0 9999 ++ hash ∷ []

count_up-IsWord : (a n : ℕ) → a + n < 2 ^ 64 → All IsWord (count_up a n)
count_up-IsWord a zero h = tt
count_up-IsWord a (suc n) h = (omega (arith, h), count_up-IsWord (suc a) n (omega (arith, h)))

All-append : (xs ys : List ℕ) → All IsWord xs → All IsWord ys → All IsWord (xs ++ ys)
All-append [] ys a b = b
All-append (x ∷ xs) ys a b = (a.0, All-append xs ys a.1 b)

hash-IsWord : IsWord hash
hash-IsWord = domain_hash-lt (c_string (dotted asked_labels))

words-IsWord : All IsWord words
words-IsWord =
    All-append (count_up 0 9999) (hash ∷ []) (count_up-IsWord 0 9999 (omega arith))
      (hash-IsWord, tt)

last-elem : (h : ℕ) (xs : List ℕ) → elem h (xs ++ h ∷ []) ≡ true
last-elem h [] = rw (==_refl h) refl
last-elem h (x ∷ xs) = elim (Bool-cases (x == h)) [
  | inl t ↦ rw t refl
  | inr t ↦ rw t (last-elem h xs)
]

listed : elem hash words ≡ true
listed = last-elem hash (count_up 0 9999)

-- A flash that holds the words' bytes, and zeros behind them.
abbrev bytes : ℕ → List ℕ
bytes n = take n (encode_all words ++ replicate n 0)

length-bytes : (n : ℕ) → length (bytes n) ≡ n
length-bytes n =
    length-take n (encode_all words ++ replicate n 0)
      (omega (arith, length-append (encode_all words) (replicate n 0), length-replicate n))

abbrev flash : Device
flash = record {
  partition_size = λ _. some 1000000;
  read_flash = λ _ n. (esp_ok, bytes n);
  malloc = λ _. true;
  sha256 = λ _. some (replicate 32 0);
  read_flash-length = λ _ n _. length-bytes n;
}

length-words : length (encode_all words) ≡ min_domains * 8
length-words =
    length-encode_all words
    ∙ omega (arith, length-append (count_up 0 9999) (hash ∷ []), length-count_up 0 9999)

holds_words : bytes (min_domains * 8) ≡ encode_all words
holds_words =
    subst (λ (n : ℕ). take n (encode_all words ++ replicate (min_domains * 8) 0) ≡ encode_all words)
      length-words (take-append (encode_all words) (replicate (min_domains * 8) 0))

commit_slot-filters_example :
    (err : EspErr) × (st' : Served) × (kv' : Table) × (commit_slot flash nvs
        (recorded min_domains)
        served
        0
        min_domains
        (replicate 32 0)
        (50 ∷ [])
      ≡ ret (err, st', kv'))
    × (((is_ok err ≡ false) × (st' ≡ served))
        ⊎ (serve_turn (asked st') node input
            ≡ ret (
              record node { counters = count_blocked zero_counters },
              some (take 21 (refusal 0x12 0x34 1 ++ drop 12 query)),
            )))
commit_slot-filters_example =
    commit_slot-filters flash nvs (recorded min_domains) served 0 min_domains (replicate 32 0)
      (50 ∷ []) words node input query asked_labels 21 (omega arith) words-IsWord holds_words refl
      query-IsByte query-IsQuestion named (inl listed)
