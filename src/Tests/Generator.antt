-- ===== src/Tests/Generator.antt =====
-- Reading lists and manifests.
use esp_hole.Base.Text.{codes}
use esp_hole.Blocklist.Device.{esp_ok}
use esp_hole.Pipeline.Normalize.{is_valid_domain_shape, normalize_domain}
use esp_hole.Pipeline.Normalize.Shape.{IsDomain, is_valid_domain_shape-IsDomain}
use esp_hole.Pipeline.Normalize.Sound.{IsNormal, normalize_domain-IsNormal}
use esp_hole.Pipeline.Lines.{max_tokens, parse_line}
use esp_hole.Pipeline.Lines.Emitted.{parse_line-IsNormal}
use esp_hole.Pipeline.Allowlist.{allowlist_max, allowlist_init, allowlist_init-total}
use esp_hole.Updater.Manifest.{
  Manifest, Json, number, string, parse_manifest, parse_sha256_hex, typed_members, fill_manifest,
  sha_member, hex_loop, hex_nibble, version_member, check_size,
}
use esp_hole.Updater.Manifest.Checked.{IsChecked, parse_manifest-IsChecked}
use esp_hole.Updater.Download.{
  Chunk, Transfer, read_loop, check_body, download_body, download_open, download_to_slot,
}
use esp_hole.Updater.Download.Verified.{download_to_slot-verified, download_to_slot-bounded}
use esp_hole.Blocklist.Store.{Served, min_domains}
use esp_hole.Blocklist.Store.Serving.{IsServing}
use esp_hole.Updater.Cycle.{Answers, updater_task}
use esp_hole.Updater.Cycle.Kept.{CountsSmall, updater_task-IsServing}
use esp_hole.Tests.Fixtures.{Table, nvs, device, recorded, served}
use esp_hole.Tests.Firmware.{served-IsServing}
use esp_hole.Base.{
  sym, ◌∙◌, ℕ, zero, suc, ◌≤◌, ◌<◌, ◌≡◌, refl, subst, ◌↔◌, Bool, true, Option, some, List, [], ◌∷◌,
  arith, length, replicate, All, ret,
}

is_valid_domain_shape-IsDomain_example :
    (b : Bool) × (is_valid_domain_shape (codes "ads.example") ≡ ret b)
    × ((b ≡ true) ↔ IsDomain (codes "ads.example"))
is_valid_domain_shape-IsDomain_example = is_valid_domain_shape-IsDomain (codes "ads.example")

normalize_domain-IsNormal_example :
    (r : Option (List ℕ)) × (normalize_domain (codes " *.Ads.Example. ") 256 ≡ ret r)
    × ((name : List ℕ) → r ≡ some name → IsNormal 256 name)
normalize_domain-IsNormal_example = normalize_domain-IsNormal (codes " *.Ads.Example. ") 256

parse_line-IsNormal_example :
    (names : List (List ℕ)) × (parse_line (codes "0.0.0.0 ads.example t.example # both")
      ≡ ret names)
    × All (IsNormal 256) names
    × (length names ≤ max_tokens)
parse_line-IsNormal_example = parse_line-IsNormal (codes "0.0.0.0 ads.example t.example # both")

allowlist_init-total_example :
    (hashes : List ℕ) × (allowlist_init (codes "good.example,,x") ≡ ret hashes)
    × (length hashes ≤ allowlist_max)
allowlist_init-total_example = allowlist_init-total (codes "good.example,,x")

abbrev zeros : List ℕ
zeros = replicate 32 0

All-zeros : (n : ℕ) → All (λ b. b < 256) (replicate n 0)
All-zeros zero = tt
All-zeros (suc n) = (omega arith, All-zeros n)

abbrev json : Json
json = record {
  format = number 2 (codes "2");
  version = string (codes "7");
  url = string (codes "http://x/b");
  size = number 80000 [];
  count = number 10000 [];
  sha256 = string (replicate 64 48);
}

abbrev manifest : Manifest
manifest = record {
  version = codes "7";
  url = codes "http://x/b";
  size = 80000;
  count = 10000;
  sha256 = zeros;
}

json-manifest : parse_manifest (some json) ≡ some manifest
unfolding parse_manifest typed_members fill_manifest sha_member version_member parse_sha256_hex
    hex_loop hex_nibble check_size
json-manifest = refl

parse_manifest-IsChecked_example : IsChecked manifest
parse_manifest-IsChecked_example = parse_manifest-IsChecked json manifest json-manifest

-- A body of three bytes in two chunks.
abbrev small : Manifest
small = record { version = []; url = []; size = 3; count = 0; sha256 = zeros }

abbrev transfer : Transfer
transfer = record {
  part_size = some 4096;
  erased = esp_ok;
  client = true;
  hash_setup = true;
  opened = esp_ok;
  status = 200;
  reads =
      some (record { bytes = 1 ∷ 2 ∷ []; hashed = true; written = esp_ok })
      ∷ some (record { bytes = 3 ∷ []; hashed = true; written = esp_ok })
      ∷ [];
  digest = λ _. some zeros;
}

downloaded : download_to_slot small transfer ≡ (esp_ok, 1 ∷ 2 ∷ 3 ∷ [])
unfolding download_to_slot download_open download_body read_loop check_body
downloaded = refl

download_to_slot-verified_example :
    (3 ≤ 4096)
    × (length {A = ℕ} (1 ∷ 2 ∷ 3 ∷ []) ≡ 3)
    × (transfer.digest (1 ∷ 2 ∷ 3 ∷ []) ≡ some zeros)
    × (length zeros ≡ 32)
download_to_slot-verified_example =
    download_to_slot-verified small transfer (1 ∷ 2 ∷ 3 ∷ []) 4096 refl downloaded

chunk_size :
    (n : ℕ) (c : Chunk) (r : Chunk) → length r.bytes ≤ n → some r ≡ some c → length c.bytes ≤ n
chunk_size n c r h e = let same : r ≡ c = cc e in subst (λ (x : Chunk). length x.bytes ≤ n) same h

download_to_slot-bounded_example : length (download_to_slot small transfer).1 ≤ 4096
download_to_slot-bounded_example = download_to_slot-bounded small transfer 4096 refl (omega arith) (
  (λ c e. chunk_size 4096 c _ (omega arith) e),
  ((λ c e. chunk_size 4096 c _ (omega arith) e), tt),
)

abbrev pub answers : Answers
answers = record {
  client = true;
  opened = esp_ok;
  status = 200;
  reads = some (codes "{}") ∷ [];
  cjson_parse = λ _. some json;
  transfer = transfer;
}

pub answers-CountsSmall : CountsSmall answers
answers-CountsSmall body m e =
    let same : some manifest ≡ some m = sym json-manifest ∙ e in
    let count : m.count ≡ 10000 = cc same in omega (arith, count)

updater_task-IsServing_example :
    (st' : Served) × (kv' : Table) × (updater_task nvs
        (λ _ _. device)
        (recorded 10000)
        served
        (answers ∷ answers ∷ [])
      ≡ ret (st', kv'))
    × IsServing st'
    × (min_domains ≤ served.count → min_domains ≤ st'.count)
updater_task-IsServing_example =
    updater_task-IsServing nvs (λ _ _. device) (answers ∷ answers ∷ []) (recorded 10000) served
      served-IsServing (answers-CountsSmall, (answers-CountsSmall, tt))
