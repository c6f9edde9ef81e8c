-- ===== src/Generator/Refresh/Served.antt =====
-- A cycle whose lists are enough.
use esp_hole.Blocklist.Device.{Nvs}
use esp_hole.Generate.Build.{Builder}
use esp_hole.Generate.Blob.{blob_contains}
use esp_hole.Generate.Blob.Laws.{blob_contains-elem}
use esp_hole.Generate.Codec.{encode_all}
use esp_hole.Generate.Codec.Laws.{IsWord}
use esp_hole.Generate.Finish.{Status, generated, Artifact, negative_canaries}
use esp_hole.Generate.Finish.Result.{
  expected, published, any_hashed, published-length, published-elem, published-IsWord,
  published-IsAscending,
}
use esp_hole.Artifact.Saved.{artifact_store_save-Saves}
use esp_hole.Generator.Fetch.{fetch_and_generate}
use esp_hole.Generator.Fetch.Gathered.{harvest}
use esp_hole.Generator.Fetch.Published.{all_lines, harvest-All}
use esp_hole.Updater.Manifest.{Json}
use esp_hole.Generator.Serve.{
  Cjson, Published, Server, manifest_members, http_serve_publish, build_manifest_json,
}
use esp_hole.Generator.Refresh.{
  Config, Cycle, build_version, build_url, handle_status, refresh_cycle,
}
use esp_hole.Generator.Refresh.Origin.{Granted, artifact_of, fetched}
use esp_hole.Base.{
  ℕ, ◌*◌, ◌/◌, ◌≤◌, ◌<◌, ◌≡◌, refl, sym, ap, ap₂, ◌∙◌, subst, Bool, true, false, some, List, arith,
  ltb, ◌==◌, le→ltb_false, ne→==_false, length, elem, All, All-mono, u32_mod, ret,
}

-- The hashes suffice for an artifact.
pub record IsEnough (min_domains : ℕ) (hashes : List ℕ) : Type 0 where
  pub some_hash : 0 < length hashes
  pub floor : min_domains ≤ length (published hashes)
  pub canaries : any_hashed negative_canaries hashes ≡ false

expected-generated :
    (sha256 : List ℕ → List ℕ) (realloc : ℕ → Bool) (b : Builder)
    → ((n : ℕ) → realloc n ≡ true)
    → IsEnough b.min_domains b.hashes
    → ((expected sha256 realloc b).status ≡ generated)
      × ((expected sha256 realloc b).out ≡ artifact_of sha256 b.hashes)
expected-generated sha256 realloc b g n =
    let few : ltb (length b.hashes) b.min_domains ≡ false =
      le→ltb_false (length b.hashes) b.min_domains
        (omega (arith, n.floor, published-length b.hashes)) in
    let asked : (length b.hashes * 8 == 0) ≡ false =
      ne→==_false (length b.hashes * 8) 0 (λ e. omega (arith, n.some_hash, e)) in
    let floor : ltb (length (published b.hashes)) b.min_domains ≡ false =
      le→ltb_false (length (published b.hashes)) b.min_domains n.floor in
    rw (few, asked, g (length b.hashes * 8), floor, n.canaries) (refl, refl)

-- A lookup in the published blob.
lookup :
    (hashes : List ℕ) (a : ℕ)
    → All IsWord hashes
    → length hashes * 8 < u32_mod
    → blob_contains (encode_all (published hashes)) (length (published hashes)) a
      ≡ ret (elem a hashes)
lookup hashes a w small =
    blob_contains-elem (published hashes) a (published-IsWord hashes w)
      (omega (arith, small, published-length hashes)) (published-IsAscending hashes)
    ∙ ap (λ (t : Bool). ret t) (published-elem a hashes)

-- A publication for which there is room and a manifest.
published_now :
    (cj : Cjson) (malloced : Bool) (s : Server) (art : Artifact) (version url text : List ℕ)
    → malloced ≡ true
    → build_manifest_json cj art version url ≡ some text
    → (p : Published) × ((http_serve_publish cj malloced s art version url).current ≡ some p)
      × (p.blob ≡ art.blob)
      × (p.blob_len ≡ art.blob_len)
unfolding http_serve_publish
published_now cj malloced s art version url text room printed = (
  record {
    blob = art.blob;
    blob_len = art.blob_len;
    manifest_json = text;
    manifest_json_len = length text;
  },
  rw (room, printed) refl,
  refl,
  refl,
)

printed_manifest :
    (cj : Cjson) (art : Artifact) (version url : List ℕ)
    → cj.created ≡ true
    → ((j : Json) → (text : List ℕ) × (cj.print_unformatted j ≡ some text))
    → (text : List ℕ) × (build_manifest_json cj art version url ≡ some text)
unfolding build_manifest_json
printed_manifest cj art version url object prints =
    let (text, e) = prints (manifest_members cj art version url) in (text, rw object e)

module _ (nvs : Nvs) (allow : List ℕ) (conf : Config) where
  handle_status-publishes :
      (kv : nvs.Store) (s : Server) (c : Cycle) (art : Artifact)
      → art.blob_len ≡ art.count * 8
      → art.blob_len < u32_mod
      → (kv' : nvs.Store) × (handle_status nvs allow conf kv s c generated art
          ≡ ret (
            http_serve_publish c.cjson c.malloced s art
                (build_version art.sha256)
                (build_url conf c.node_ip),
            kv',
          ))
  unfolding handle_status
  handle_status-publishes kv s c art size small =
      let (err, kv', saved, _) =
        (artifact_store_save-Saves c.plat nvs kv art (build_version art.sha256) size small).1 in
      (kv', rw saved refl)

  cycle_serves :
      (kv : nvs.Store) (s : Server) (c : Cycle) (b : Builder)
      → fetch_and_generate c.plat.realloc allow c.plat.sha256 c.created conf.min_domains c.sources
          c.before
        ≡ ret (generated, artifact_of c.plat.sha256 b.hashes)
      → length b.hashes * 8 < u32_mod
      → (kv' : nvs.Store) × (refresh_cycle nvs allow conf kv s c
          ≡ ret (
            http_serve_publish c.cjson c.malloced s
                (artifact_of c.plat.sha256 b.hashes)
                (build_version (artifact_of c.plat.sha256 b.hashes).sha256)
                (build_url conf c.node_ip),
            kv',
          ))
  unfolding refresh_cycle
  cycle_serves kv s c b run small =
      let (kv', e) =
        handle_status-publishes kv s c (artifact_of c.plat.sha256 b.hashes) refl
          (omega (arith, small, published-length b.hashes)) in
      (kv', rw run e)

  -- Where memory is granted, cJSON prints, and the lists give enough hashes without a canary among them,
  -- a cycle ends with their artifact served, also if it cannot be saved: a lookup in the
  -- blob that is served answers whether a line of the lists gives the hash.
  pub refresh_cycle-serves :
      (kv : nvs.Store) (s : Server) (c : Cycle)
      → Granted c.plat.sha256 allow c
      → c.malloced ≡ true
      → c.cjson.created ≡ true
      → ((j : Json) → (text : List ℕ) × (c.cjson.print_unformatted j ≡ some text))
      → IsEnough conf.min_domains (harvest allow (all_lines c.sources))
      → (s' : Server) × (kv' : nvs.Store) × (refresh_cycle nvs allow conf kv s c ≡ ret (s', kv'))
        × (p : Published) × (s'.current ≡ some p)
        × ((a : ℕ)
            → blob_contains p.blob (p.blob_len / 8) a
              ≡ ret (elem a (harvest allow (all_lines c.sources))))
  refresh_cycle-serves kv s c g room object prints n =
      let (b, hashes, floor, run) = fetched c.plat.sha256 allow conf.min_domains c g in
      let enough : IsEnough b.min_domains b.hashes =
        subst (λ (m : ℕ). IsEnough m b.hashes) (sym floor)
          (subst (IsEnough conf.min_domains) (sym hashes) n) in
      let (status, out) = expected-generated c.plat.sha256 c.plat.realloc b g.realloc enough in
      let words : All IsWord b.hashes = subst (All IsWord) (sym hashes) (
        All-mono _ IsWord (harvest allow (all_lines c.sources)) (λ h p. p.1)
          (harvest-All allow (all_lines c.sources))) in
      let small : length b.hashes * 8 < u32_mod = omega (arith, ap length hashes, g.few) in
      let made = run ∙ ap₂ (λ (t : Status) (a : Artifact). ret (t, a)) status out in
      let (kv', runs) = cycle_serves kv s c b made small in
      let art : Artifact = artifact_of c.plat.sha256 b.hashes in
      let (text, printed) =
        printed_manifest c.cjson art (build_version art.sha256) (build_url conf c.node_ip) object
          prints in
      let (p, current, blob, len) =
        published_now c.cjson c.malloced s art (build_version art.sha256) (build_url conf c.node_ip)
          text room printed in
      let each : p.blob_len / 8 ≡ length (published b.hashes) = omega (arith, len) in
      (
        http_serve_publish c.cjson c.malloced s art (build_version art.sha256)
            (build_url conf c.node_ip),
        kv',
        runs,
        p,
        current,
        λ a.
            ap₂ (λ (s : List ℕ) (k : ℕ). blob_contains s k a) blob each
            ∙ lookup b.hashes a words small
            ∙ ap (λ (hs : List ℕ). ret (elem a hs)) hashes,
      )
