-- ===== src/Tests/Node.antt =====
-- The generator node and the updater's cycles on the fixtures.
use esp_hole.Generator.Start.{Http, boot_main, Started, boot_main-Started}
use esp_hole.Tests.Boot.{power}
use esp_hole.Base.Text.{codes}
use esp_hole.Hash.{generator_domain_hash, hash_bytes, hash_byte}
use esp_hole.Blocklist.Device.{esp_ok, cnt_key}
use esp_hole.Pipeline.Allowlist.{allowlist_contains}
use esp_hole.Pipeline.Lines.{
  emit_token, strip_comment, is_abp_other, is_abp_rule, has_rule_syntax, parse_rule, word,
  token_loop, has_colon, skip_address, emit_tokens, parse_trimmed, parse_line,
}
use esp_hole.Pipeline.Normalize.{
  is_space, is_digit, is_alnum, host_in, is_ignored_host, digits, next_group, group_loop,
  domain_is_ipv4_shape, starts_label, in_label, label_rest, shape_loop, is_valid_domain_shape,
  trim_front, trim_back, strip_point, strip_wildcard, lower, all_ascii, accept, normalize_domain,
}
use esp_hole.Generate.Sort.{qsort, insert_sorted, cmp_u64}
use esp_hole.Generate.Build.{Builder}
use esp_hole.Generate.Blob.{blob_contains}
use esp_hole.Generate.Finish.{Artifact, zeroed, negative_canaries}
use esp_hole.Generate.Finish.Dedup.{distinct}
use esp_hole.Generate.Finish.Result.{expected, published, any_hashed}
use esp_hole.Artifact.{Platform, spare_slot, recorded_active, artifact_store_save}
use esp_hole.Artifact.Saved.{Saves, artifact_store_save-Saves}
use esp_hole.Generator.Fetch.{Source, fetch_and_generate}
use esp_hole.Generator.Fetch.Gathered.{names_of, kept, harvest}
use esp_hole.Generator.Fetch.Streams.{cut}
use esp_hole.Generator.Fetch.Bodies.{lines_from}
use esp_hole.Generator.Fetch.Published.{source_lines, all_lines, fetch_and_generate-expected}
use esp_hole.Generator.Serve.{Cjson, Published, Server, http_serve_publish}
use esp_hole.Generator.Serve.Owned.{owned, http_serve_publish-owned}
use esp_hole.Generator.Refresh.{Config, Cycle, refresh_cycle, restore, app_main}
use esp_hole.Generator.Refresh.Origin.{Granted, IsConsistent, StillServes}
use esp_hole.Generator.Refresh.Invariant.{FromFlash, OriginAfter, app_main-IsConsistent}
use esp_hole.Generator.Refresh.Served.{IsEnough, refresh_cycle-serves}
use esp_hole.Tests.Fixtures.{Table, nvs, recorded, length-replicate}
use mathlib.Core.List.{Perm}
use esp_hole.Base.{
  Option, ℕ, ◌/◌, ◌^◌, ◌≤◌, ◌<◌, ◌≡◌, refl, sym, ap, ◌∙◌, subst, ◌≢◌, true, false, none, some, List,
  [], ◌∷◌, arith, length, replicate, elem, ret,
}

-- Two reads that cut the body inside a name.
abbrev source : Source
source = record {
  enabled = true;
  client = true;
  opened = esp_ok;
  status = 200;
  reads = some (codes "0.0.0.0 ads.te") ∷ some (codes "st\n") ∷ [];
}

abbrev allowed : List ℕ
allowed = 5 ∷ []

the_lines : all_lines (source ∷ []) ≡ codes "0.0.0.0 ads.test" ∷ []
unfolding all_lines source_lines lines_from cut
the_lines = refl

the_names : names_of (codes "0.0.0.0 ads.test") ≡ codes "ads.test" ∷ []
unfolding names_of parse_line parse_trimmed strip_comment is_abp_rule is_abp_other has_rule_syntax
    parse_rule emit_tokens emit_token skip_address token_loop word has_colon is_space is_digit
    is_alnum host_in is_ignored_host digits next_group group_loop domain_is_ipv4_shape starts_label
    in_label label_rest shape_loop is_valid_domain_shape trim_front trim_back strip_point
    strip_wildcard lower all_ascii accept normalize_domain
the_names = refl

the_hashes : harvest allowed (codes "0.0.0.0 ads.test" ∷ []) ≡ 2906434797593196685 ∷ []
unfolding harvest kept allowlist_contains generator_domain_hash hash_bytes hash_byte
the_hashes = rw the_names refl

gathered : harvest allowed (all_lines (source ∷ [])) ≡ 2906434797593196685 ∷ []
gathered = ap (harvest allowed) the_lines ∙ the_hashes

few_hashes : length (harvest allowed (all_lines (source ∷ []))) ≤ 2 ^ 27
few_hashes = omega (arith, ap length gathered)

abbrev constant_digest : List ℕ → List ℕ
constant_digest _ = replicate 32 0

fetch_and_generate-expected_example :
    (b : Builder) × (b.hashes ≡ harvest allowed (all_lines (source ∷ [])))
    × (b.min_domains ≡ 1)
    × (fetch_and_generate (λ _. true) allowed constant_digest true 1 (source ∷ []) zeroed
        ≡ ret (
          (expected constant_digest (λ _. true) b).status,
          (expected constant_digest (λ _. true) b).out,
        ))
    × ((a : ℕ) → allowlist_contains allowed a ≡ true → elem a b.hashes ≡ false)
fetch_and_generate-expected_example =
    fetch_and_generate-expected (λ _. true) (λ _. refl) allowed constant_digest 1 (source ∷ [])
      zeroed few_hashes

abbrev plat : Platform
plat = record {
  opened = esp_ok;
  partition_size = λ _. some 1000000;
  erase = λ _. esp_ok;
  write_flash = λ _ _. esp_ok;
  read_flash = λ _ n. (esp_ok, replicate n 0);
  realloc = λ _. true;
  sha256 = constant_digest;
  read_flash-length = λ _ n _. length-replicate n;
}

abbrev one_word : Artifact
one_word = record { blob = replicate 8 0; blob_len = 8; count = 1; sha256 = replicate 32 0 }

artifact_store_save-Saves_example :
    (spare_slot plat nvs (recorded 1) ≢ recorded_active plat nvs (recorded 1))
    × Saves plat nvs
        (recorded 1)
        0
        one_word
        (artifact_store_save plat nvs (recorded 1) one_word (codes "7"))
artifact_store_save-Saves_example =
    artifact_store_save-Saves plat nvs (recorded 1) one_word (codes "7") refl (omega arith)

abbrev cjson : Cjson
cjson = record { created = true; added = λ _. true; print_unformatted = λ _. some (codes "{}") }

abbrev nothing : Server
nothing = record { current = none; freed = [] }

http_serve_publish-owned_example :
    Perm
      (owned (http_serve_publish cjson true nothing one_word (codes "7") (codes "http://x/b")))
      (one_word.blob ∷ owned nothing)
http_serve_publish-owned_example =
    http_serve_publish-owned cjson true nothing one_word (codes "7") (codes "http://x/b")

abbrev conf : Config
conf = record { public_url_base = []; http_port = 8080; min_domains = 1 }

abbrev cycle : Cycle
cycle = record {
  created = true;
  sources = source ∷ [];
  before = zeroed;
  plat = plat;
  node_ip = codes "192.168.1.2";
  cjson = cjson;
  malloced = true;
}

cycle-Granted : Granted constant_digest allowed cycle
cycle-Granted = record { digest = refl; realloc = λ _. refl; builder = refl; few = few_hashes }

recorded_one-fits : (slot c : ℕ) → nvs.get_num (recorded 1) (cnt_key slot) ≡ some c → c < 2 ^ 29
recorded_one-fits slot c e = ground arith

app_main-IsConsistent_example :
    (s : Server) × (restore nvs allowed conf (recorded 1) cycle ≡ ret s)
    × IsConsistent (FromFlash constant_digest nvs allowed conf (recorded 1) cycle) s
    × (s' : Server) × (kv' : Table) × (app_main nvs allowed conf
          (recorded 1)
          cycle
          (cycle ∷ cycle ∷ [])
        ≡ ret (s', kv'))
    × IsConsistent
        (OriginAfter constant_digest nvs allowed conf
          (FromFlash constant_digest nvs allowed conf (recorded 1) cycle)
          (cycle ∷ cycle ∷ []))
        s'
    × StillServes s s'
app_main-IsConsistent_example =
    app_main-IsConsistent constant_digest nvs allowed conf (recorded 1) cycle (cycle ∷ cycle ∷ [])
      refl recorded_one-fits (cycle-Granted, (cycle-Granted, tt))

published_one : 1 ≤ length (published (2906434797593196685 ∷ []))
unfolding published distinct qsort insert_sorted cmp_u64
published_one = omega arith

no_canary : any_hashed negative_canaries (2906434797593196685 ∷ []) ≡ false
unfolding any_hashed generator_domain_hash hash_bytes hash_byte
no_canary = refl

enough : IsEnough 1 (2906434797593196685 ∷ [])
enough = record { some_hash = omega arith; floor = published_one; canaries = no_canary }

refresh_cycle-serves_example :
    (s' : Server) × (kv' : Table) × (refresh_cycle nvs allowed conf (recorded 1) nothing cycle
      ≡ ret (s', kv'))
    × (p : Published) × (s'.current ≡ some p)
    × ((a : ℕ)
        → blob_contains p.blob (p.blob_len / 8) a
          ≡ ret (elem a (harvest allowed (all_lines (source ∷ [])))))
refresh_cycle-serves_example =
    refresh_cycle-serves nvs allowed conf (recorded 1) nothing cycle cycle-Granted refl refl
      (λ _. (codes "{}", refl)) (subst (IsEnough 1) (sym gathered) enough)

-- The registrations succeed.
abbrev http : Http
http = record { started = esp_ok; registered = esp_ok ∷ esp_ok ∷ [] }

boot_main-Started_example :
    (r : Option (Server × Table)) × (boot_main nvs allowed conf power http
        (recorded 1)
        (recorded 1)
        cycle
        (cycle ∷ cycle ∷ [])
      ≡ ret r)
    × Started constant_digest nvs allowed conf power http
        (recorded 1)
        (recorded 1)
        cycle
        (cycle ∷ cycle ∷ [])
        r
boot_main-Started_example =
    boot_main-Started constant_digest nvs allowed conf power http (recorded 1) (recorded 1) cycle
      (cycle ∷ cycle ∷ []) refl recorded_one-fits recorded_one-fits
      (cycle-Granted, (cycle-Granted, tt))
