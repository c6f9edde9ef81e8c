-- ===== src/Generator/Serve/Manifests.antt =====
-- build_manifest_json against parse_manifest of main/updater.c.
use esp_hole.Generate.Finish.{Artifact}
use esp_hole.Generator.Serve.{Cjson, manifest_members, build_manifest_json}
use esp_hole.Updater.Manifest.{
  Json, Manifest, number, string, parse_manifest, typed_members, fill_manifest, sha_member,
  version_member, check_size, parse_sha256_hex, manifest_format,
}
use esp_hole.Updater.Manifest.Hex.{to_hex, parse_sha256_hex-to_hex}
use esp_hole.Blocklist.Store.{min_domains}
use esp_hole.Base.Text.{decimal}
use esp_hole.Base.{
  ℕ, ◌*◌, ◌%◌, ◌≤◌, ◌<◌, ◌≡◌, refl, ap₂, ◌∙◌, true, false, Option, some, List, arith, ltb, ◌==◌,
  le→ltb_false, length, take, All, take_enough, u32_mod, mul32,
}

-- What the updater makes of the manifest.
abbrev pub announced : Artifact → List ℕ → List ℕ → Manifest
announced art version url = record {
  version = version;
  url = url;
  size = art.blob_len;
  count = art.count;
  sha256 = art.sha256;
}

-- An artifact that a manifest can announce.
pub record IsAnnounceable (art : Artifact) (version url : List ℕ) : Type 0 where
  pub floor : min_domains ≤ art.count
  pub size : art.blob_len ≡ art.count * 8
  pub small : art.blob_len < u32_mod
  pub digest : length art.sha256 ≡ 32
  pub bytes : All (λ b. b < 256) art.sha256
  pub short : length version ≤ 31
  pub reachable : length url ≤ 255

all_members : Artifact → List ℕ → List ℕ → Json
all_members art version url = record {
  format = number manifest_format (decimal manifest_format);
  version = string version;
  size = number art.blob_len (decimal art.blob_len);
  sha256 = string (to_hex (take 32 art.sha256));
  count = number art.count (decimal art.count);
  url = string url;
}

manifest_members-all :
    (cj : Cjson) (art : Artifact) (version url : List ℕ)
    → ((n : ℕ) → cj.added n ≡ true)
    → manifest_members cj art version url ≡ all_members art version url
unfolding all_members
manifest_members-all cj art version url a = rw (a 0, a 1, a 2, a 3, a 4, a 5) refl

check_size-announced :
    (art : Artifact) (version url : List ℕ)
    → IsAnnounceable art version url
    → check_size (announced art version url) ≡ some (announced art version url)
unfolding check_size
check_size-announced art version url i =
    let s : (art.blob_len == mul32 art.count 8) ≡ true = ground (arith, i.size, i.small) in
    let f : ltb art.count min_domains ≡ false = le→ltb_false art.count min_domains i.floor in
    rw (s, f) refl

fill_manifest-all :
    (art : Artifact) (version url : List ℕ)
    → IsAnnounceable art version url
    → fill_manifest (all_members art version url) art.blob_len art.count url
      ≡ some (announced art version url)
unfolding all_members fill_manifest sha_member version_member
fill_manifest-all art version url i =
    let whole : take 32 art.sha256 ≡ art.sha256 =
      take_enough 32 art.sha256 (omega (arith, i.digest)) in
    let hex : parse_sha256_hex (to_hex art.sha256) ≡ some art.sha256 =
      parse_sha256_hex-to_hex art.sha256 i.digest i.bytes in
    let v : take 31 version ≡ version = take_enough 31 version i.short in
    let u : take 255 url ≡ url = take_enough 255 url i.reachable in
    rw (whole, fill_manifest, hex, fill_manifest, v, fill_manifest, u)
      (check_size-announced art version url i)

parse_manifest-all :
    (art : Artifact) (version url : List ℕ)
    → IsAnnounceable art version url
    → parse_manifest (some (all_members art version url)) ≡ some (announced art version url)
unfolding all_members parse_manifest typed_members
parse_manifest-all art version url i =
    let few : art.count < u32_mod = omega (arith, i.size, i.small) in
    let s : art.blob_len % u32_mod ≡ art.blob_len = omega (arith, i.small) in
    let c : art.count % u32_mod ≡ art.count = omega (arith, few) in
    ap₂ (λ (m n : ℕ). fill_manifest (all_members art version url) m n url) s c
    ∙ fill_manifest-all art version url i

-- A manifest that the generator builds is read back by the updater as what it announces: the version,
-- the URL, the size, the count and the digest of the artifact. cJSON must have made every addition and
-- parse what it printed; the artifact has at least 10000 entries of eight bytes each, a size below
-- 2 ^ 32 and a digest of 32 bytes, and the version and the URL fit the updater's buffers.
pub build_manifest_json-parse :
    (cj : Cjson) (cjson_parse : List ℕ → Option Json) (art : Artifact) (version url text : List ℕ)
    → ((j : Json) (s : List ℕ) → cj.print_unformatted j ≡ some s → cjson_parse s ≡ some j)
    → ((n : ℕ) → cj.added n ≡ true)
    → IsAnnounceable art version url
    → build_manifest_json cj art version url ≡ some text
    → parse_manifest (cjson_parse text) ≡ some (announced art version url)
unfolding build_manifest_json
build_manifest_json-parse cj cjson_parse art version url text reads a i e =
    let printed : cj.print_unformatted (manifest_members cj art version url) ≡ some text =
      ground (arith, e) in
    rw
      (
        reads (manifest_members cj art version url) text printed,
        manifest_members-all cj art version url a,
      )
      (parse_manifest-all art version url i)
