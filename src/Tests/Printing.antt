-- ===== src/Tests/Printing.antt =====
-- A printer and a parser of manifests.
use esp_hole.Base.Text.{codes}
use esp_hole.Blocklist.Device.{esp_ok}
use esp_hole.Generate.Finish.{Artifact}
use esp_hole.Updater.Manifest.{Json, Member, number, string, missing, parse_manifest}
use esp_hole.Updater.Download.{Chunk, Transfer, download_to_slot}
use esp_hole.Updater.Download.Complete.{IsTaken, IsReady}
use esp_hole.Generator.Serve.{
  Cjson, Server, content, manifest_members, build_manifest_json, http_serve_publish,
  manifest_handler, blocklist_handler,
}
use esp_hole.Generator.Serve.Manifests.{IsAnnounceable, announced, build_manifest_json-parse}
use esp_hole.Generator.Delivered.{publication-delivered}
use esp_hole.Tests.Fixtures.{length-replicate}
use esp_hole.Base.{
  ℕ, zero, suc, ◌<◌, ◌≡◌, refl, sym, ap₂, subst, true, Option, none, some, List, [], ◌∷◌, ◌++◌,
  append-nil, arith, length, take, drop, replicate, take-append, drop-append, All,
}

-- A printer and a parser that undo each other.
abbrev print_member : Member → List ℕ → List ℕ
print_member (number n p) rest = 0 ∷ n ∷ length p ∷ (p ++ rest)
print_member (string t) rest = 1 ∷ 0 ∷ length t ∷ (t ++ rest)
print_member missing rest = 2 ∷ 0 ∷ 0 ∷ rest

abbrev member_of : ℕ → ℕ → List ℕ → Member
member_of zero n p = number n p
member_of (suc zero) n p = string p
member_of _ n p = missing

abbrev read_member : List ℕ → Member × List ℕ
read_member (tag ∷ n ∷ len ∷ rest) = (member_of tag n (take len rest), drop len rest)
read_member _ = (missing, [])

read-print : (m : Member) (rest : List ℕ) → read_member (print_member m rest) ≡ (m, rest)
read-print (number n p) rest =
    ap₂ (λ (q r : List ℕ). (number n q, r)) (take-append p rest) (drop-append p rest)
read-print (string t) rest =
    ap₂ (λ (q r : List ℕ). (string q, r)) (take-append t rest) (drop-append t rest)
read-print missing rest = refl

abbrev print_json : Json → List ℕ
print_json j = print_member j.format (
    print_member j.version
      (print_member j.url (print_member j.size (print_member j.count (print_member j.sha256 [])))))

abbrev read_json : List ℕ → Option Json
read_json s =
    let (format, s1) = read_member s in
    let (version, s2) = read_member s1 in
    let (url, s3) = read_member s2 in
    let (size, s4) = read_member s3 in
    let (count, s5) = read_member s4 in
    let (sha256, s6) = read_member s5 in
    some (record {
      format = format;
      version = version;
      url = url;
      size = size;
      count = count;
      sha256 = sha256;
    })

read_json-print_json : (j : Json) → read_json (print_json j) ≡ some j
read_json-print_json j =
    rw
      (
        read-print j.format,
        read-print j.version,
        read-print j.url,
        read-print j.size,
        read-print j.count,
        read-print j.sha256,
      )
      refl

abbrev printing : Cjson
printing = record {
  created = true;
  added = λ _. true;
  print_unformatted = λ j. some (print_json j);
}

printing-reads :
    (j : Json) (s : List ℕ) → printing.print_unformatted j ≡ some s → read_json s ≡ some j
printing-reads j s e =
    subst (λ (t : List ℕ). read_json t ≡ some j) {x = print_json j} {y = s} (cc e)
      (read_json-print_json j)

abbrev large : Artifact
large = record { blob = []; blob_len = 80000; count = 10000; sha256 = replicate 32 0 }

bytes_of_zeros : (n : ℕ) → All (λ b. b < 256) (replicate n 0)
bytes_of_zeros zero = tt
bytes_of_zeros (suc n) = (omega arith, bytes_of_zeros n)

large-IsAnnounceable : IsAnnounceable large (codes "7") (codes "http://x/b")
large-IsAnnounceable = record {
  floor = omega arith;
  size = refl;
  small = omega arith;
  digest = refl;
  bytes = bytes_of_zeros 32;
  short = omega arith;
  reachable = omega arith;
}

abbrev manifest_text : List ℕ
manifest_text = print_json (manifest_members printing large (codes "7") (codes "http://x/b"))

manifest_printed :
    build_manifest_json printing large (codes "7") (codes "http://x/b") ≡ some manifest_text
unfolding build_manifest_json
manifest_printed = refl

build_manifest_json-parse_example :
    parse_manifest (read_json manifest_text)
    ≡ some (announced large (codes "7") (codes "http://x/b"))
build_manifest_json-parse_example =
    build_manifest_json-parse printing read_json large (codes "7") (codes "http://x/b")
      manifest_text printing-reads (λ _. refl) large-IsAnnounceable manifest_printed

-- An artifact of 10000 words, all of them zero, that arrives in one chunk.
abbrev zero_words : List ℕ
zero_words = replicate 80000 0

abbrev full : Artifact
full = record { blob = zero_words; blob_len = 80000; count = 10000; sha256 = replicate 32 0 }

full-IsAnnounceable : IsAnnounceable full (codes "7") (codes "http://x/b")
full-IsAnnounceable = record {
  floor = omega arith;
  size = refl;
  small = omega arith;
  digest = refl;
  bytes = bytes_of_zeros 32;
  short = omega arith;
  reachable = omega arith;
}

abbrev full_chunk : Chunk
full_chunk = record { bytes = zero_words; hashed = true; written = esp_ok }

abbrev full_transfer : Transfer
full_transfer = record {
  part_size = some 1000000;
  erased = esp_ok;
  client = true;
  hash_setup = true;
  opened = esp_ok;
  status = 200;
  reads = some full_chunk ∷ [];
  digest = λ _. some (replicate 32 0);
}

full-IsReady : IsReady (announced full (codes "7") (codes "http://x/b")) full_transfer 1000000
full-IsReady = record {
  part = refl;
  room = omega arith;
  small = omega arith;
  erased = refl;
  client = refl;
  hash_setup = refl;
  opened = refl;
  status = refl;
}

some_bytes : (n : ℕ) → 0 < n → 0 < length {A = ℕ} (replicate n 0)
some_bytes n h = subst (λ (k : ℕ). 0 < k) (sym (length-replicate n)) h

full_chunk-IsTaken : IsTaken full_chunk
full_chunk-IsTaken = record {
  nonempty = some_bytes 80000 (omega arith);
  hashed = refl;
  written = refl;
}

abbrev full_text : List ℕ
full_text = print_json (manifest_members printing full (codes "7") (codes "http://x/b"))

full_printed : build_manifest_json printing full (codes "7") (codes "http://x/b") ≡ some full_text
unfolding build_manifest_json
full_printed = refl

abbrev unpublished : Server
unpublished = record { current = none; freed = [] }

publication-delivered_example :
    let s = http_serve_publish printing true unpublished full (codes "7") (codes "http://x/b") in
    let m = announced full (codes "7") (codes "http://x/b") in
    (manifest_handler s ≡ content (codes "application/json") full_text)
    × (blocklist_handler s ≡ content (codes "application/octet-stream") zero_words)
    × (parse_manifest (read_json full_text) ≡ some m)
    × (download_to_slot m full_transfer ≡ (esp_ok, zero_words))
publication-delivered_example =
    publication-delivered printing read_json unpublished full (codes "7") (codes "http://x/b")
      full_text full_transfer 1000000 (full_chunk ∷ []) printing-reads (λ _. refl)
      full-IsAnnounceable full_printed (length-replicate 80000) full-IsReady refl
      (full_chunk-IsTaken, tt) (append-nil zero_words) refl
