-- ===== src/Tests/Lists.antt =====
-- Hashing, searching and building on short lists.
use esp_hole.Hash.{domain_hash}
use esp_hole.Hash.Laws.{domain_hash-one_byte}
use esp_hole.Base.Text.{codes}
use esp_hole.Generate.Codec.{encode_all}
use esp_hole.Generate.Codec.Laws.{IsWord}
use esp_hole.Generate.Blob.{blob_contains}
use esp_hole.Generate.Blob.Laws.{blob_contains-elem}
use esp_hole.Generate.Build.{Builder}
use esp_hole.Generate.Build.Laws.{IsValid}
use esp_hole.Generate.Finish.{builder_finish}
use esp_hole.Generate.Finish.Result.{expected, builder_finish-expected}
use esp_hole.Base.{ℕ, ◌≡◌, ◌≢◌, true, List, [], ◌∷◌, arith, take, elem, All, ret}

abbrev words : List ℕ
words = 3 ∷ 700 ∷ 0x123456789a ∷ []

words-IsWord : All IsWord words
words-IsWord = (omega arith, (omega arith, (omega arith, tt)))

domain_hash-one_byte_example : domain_hash (codes "abc") ≢ domain_hash (codes "adc")
domain_hash-one_byte_example =
    domain_hash-one_byte (codes "a") (codes "c") 98 100 (omega arith) (omega arith)
      (omega arith, tt) (λ e. omega (arith, e))

blob_contains-elem_example : blob_contains (encode_all words) 3 700 ≡ ret (elem 700 words)
blob_contains-elem_example =
    blob_contains-elem words 700 words-IsWord (omega arith) (omega arith, (omega arith, tt))

-- Its array is full, so the next addition doubles it.
abbrev builder : Builder
builder = record { hashes = 700 ∷ 3 ∷ 700 ∷ []; capacity = 3; min_domains = 2 }

builder-IsValid : IsValid builder
builder-IsValid = record { within = omega arith; bounded = omega arith }

builder_finish-expected_example :
    builder_finish (take 32) (λ _. true) builder ≡ ret (expected (take 32) (λ _. true) builder)
builder_finish-expected_example =
    builder_finish-expected (take 32) (λ _. true) builder
      (omega arith, (omega arith, (omega arith, tt))) (omega arith)
