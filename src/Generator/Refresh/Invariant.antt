-- ===== src/Generator/Refresh/Invariant.antt =====
-- What the generator node serves, over any number of cycles.
use esp_hole.Blocklist.Device.{EspErr, esp_ok, cnt_key, Nvs}
use esp_hole.Generate.Finish.{
  Status, generated, err_alloc, err_below_min_domains, err_selftest, Artifact,
}
use esp_hole.Generate.Finish.Result.{expected, published, published-length}
use esp_hole.Artifact.{restored_version, artifact_store_load}
use esp_hole.Artifact.Restored.{artifact_store_load-Restores}
use esp_hole.Artifact.Saved.{artifact_store_save-Saves}
use esp_hole.Generator.Fetch.Gathered.{harvest}
use esp_hole.Generator.Fetch.Published.{all_lines}
use esp_hole.Generator.Serve.{Published, Server, http_serve_publish}
use esp_hole.Generator.Refresh.{
  Config, Cycle, build_version, build_url, handle_status, refresh_cycle, refresh_task, restore,
  app_main,
}
use esp_hole.Base.{
  ℕ, ◌^◌, ◌<◌, ◌≡◌, refl, sym, ap, ◌∙◌, subst, ◌⊎◌, inl, inr, none, some, List, [], ◌∷◌, arith, All,
  u32_mod, Exec, ret,
}
use esp_hole.Generator.Refresh.Origin.{
  IsWhole, Publishes, IsConsistent, StillServes, Granted, http_serve_publish-IsConsistent,
  artifact_of, expected-artifact, artifact_of-IsWhole, fetched,
}

module _ (sha256 : List ℕ → List ℕ) (nvs : Nvs) (allow : List ℕ) (conf : Config) where
  -- The artifact that was on record in flash, whole, under the manifest the boot builds of it.
  abbrev pub FromFlash : nvs.Store → Cycle → Published → Type 0
  FromFlash kv boot p =
      (art : Artifact) × (artifact_store_load boot.plat nvs kv ≡ ret (esp_ok, art))
      × (0 < art.count)
      × IsWhole sha256 art
      × Publishes boot.cjson art (restored_version boot.plat nvs kv) (build_url conf boot.node_ip) p

  -- The artifact of the hashes that the sources of a cycle give.
  abbrev pub gathered_artifact : Cycle → Artifact
  gathered_artifact c = artifact_of sha256 (harvest allow (all_lines c.sources))

  -- The artifact of a cycle's lists, under the manifest the cycle builds of it.
  abbrev pub FromCycle : Cycle → Published → Type 0
  FromCycle c p =
      Publishes c.cjson (gathered_artifact c) (build_version (gathered_artifact c).sha256)
        (build_url conf c.node_ip) p

  -- Where an artifact may come from after these cycles.
  abbrev pub OriginAfter : (Published → Type 0) → List Cycle → Published → Type 0
  OriginAfter Origin [] p = Origin p
  OriginAfter Origin (c ∷ cycles) p = OriginAfter (λ q. Origin q ⊎ FromCycle c q) cycles p

  -- A run ends with a server of the new origin that still serves.
  abbrev pub Keeps : (Published → Type 0) → Server → Exec (Server × nvs.Store) → Type 0
  Keeps Origin s run =
      (s' : Server) × (kv' : nvs.Store) × (run ≡ ret (s', kv'))
      × IsConsistent Origin s'
      × StillServes s s'

  handle_status-Keeps :
      (Origin : Published → Type 0) (kv : nvs.Store) (s : Server) (c : Cycle) (status : Status)
      (art : Artifact)
      → IsConsistent Origin s
      → (gathered_artifact c).blob_len < u32_mod
      → (status ≡ generated → art ≡ gathered_artifact c)
      → Keeps (λ p. Origin p ⊎ FromCycle c p) s (handle_status nvs allow conf kv s c status art)
  unfolding handle_status
  handle_status-Keeps Origin kv s c generated art i small same =
      let version = build_version art.sha256 in
      let url = build_url conf c.node_ip in
      let w : IsWhole sha256 art =
        subst (IsWhole sha256) (sym (same refl))
          (artifact_of-IsWhole sha256 (harvest allow (all_lines c.sources))) in
      let fits : art.blob_len < u32_mod =
        omega (arith, ap (λ (a : Artifact). a.blob_len) (same refl), small) in
      let (err, kv', run, saved) =
        (artifact_store_save-Saves c.plat nvs kv art version w.0 fits).1 in
      let (i', still) =
        http_serve_publish-IsConsistent Origin c.cjson c.malloced s art version url i in
      (
        http_serve_publish c.cjson c.malloced s art version url,
        kv',
        rw run refl,
        (λ p e. elim (i' p e) [
          | inl old ↦ inl old
          | inr new ↦ inr (
              subst (λ (a : Artifact). Publishes c.cjson a (build_version a.sha256) url p)
                (same refl) new)
        ]),
        still,
      )
  handle_status-Keeps Origin kv s c err_alloc art i small same =
      (s, kv, refl, (λ p e. inl (i p e)), λ p e. (p, e))
  handle_status-Keeps Origin kv s c err_below_min_domains art i small same =
      (s, kv, refl, (λ p e. inl (i p e)), λ p e. (p, e))
  handle_status-Keeps Origin kv s c err_selftest art i small same =
      (s, kv, refl, (λ p e. inl (i p e)), λ p e. (p, e))

  refresh_cycle-Keeps :
      (Origin : Published → Type 0) (kv : nvs.Store) (s : Server) (c : Cycle)
      → Granted sha256 allow c
      → IsConsistent Origin s
      → Keeps (λ p. Origin p ⊎ FromCycle c p) s (refresh_cycle nvs allow conf kv s c)
  unfolding refresh_cycle
  refresh_cycle-Keeps Origin kv s c g i =
      let (b, hashes, floor, run) = fetched sha256 allow conf.min_domains c g in
      let done = expected c.plat.sha256 c.plat.realloc b in
      let few : (gathered_artifact c).blob_len < u32_mod =
        omega (arith, published-length (harvest allow (all_lines c.sources)), g.few) in
      let same : done.status ≡ generated → done.out ≡ gathered_artifact c = λ e.
        expected-artifact c.plat.sha256 c.plat.realloc b e
        ∙ ap (λ (f : List ℕ → List ℕ). artifact_of f b.hashes) g.digest
        ∙ ap (artifact_of sha256) hashes in
      let (s', kv', runs, i', still) =
        handle_status-Keeps Origin kv s c done.status done.out i few same in
      (s', kv', rw run runs, i', still)

  refresh_task-Keeps :
      (cycles : List Cycle) (Origin : Published → Type 0) (kv : nvs.Store) (s : Server)
      → All (Granted sha256 allow) cycles
      → IsConsistent Origin s
      → Keeps (OriginAfter Origin cycles) s (refresh_task nvs allow conf kv s cycles)
  unfolding refresh_task
  refresh_task-Keeps [] Origin kv s g i = (s, kv, refl, i, λ p e. (p, e))
  refresh_task-Keeps (c ∷ cycles) Origin kv s g i =
      let (s1, kv1, run, i1, still) = refresh_cycle-Keeps Origin kv s c g.0 i in
      let (s2, kv2, runs, i2, stills) =
        refresh_task-Keeps cycles (λ p. Origin p ⊎ FromCycle c p) kv1 s1 g.1 i1 in
      (s2, kv2, rw run runs, i2, λ p e. let (q, f) = still p e in stills q f)

  restore-IsConsistent :
      (kv : nvs.Store) (c : Cycle)
      → c.plat.sha256 ≡ sha256
      → ((slot n : ℕ) → nvs.get_num kv (cnt_key slot) ≡ some n → n < 2 ^ 29)
      → (s : Server) × (restore nvs allow conf kv c ≡ ret s) × IsConsistent (FromFlash kv c) s
  unfolding restore
  restore-IsConsistent kv c digest small =
      let nothing : Server = record { current = none; freed = [] } in
      let version = restored_version c.plat nvs kv in
      let url = build_url conf c.node_ip in
      let (err, art, run, outcome) = artifact_store_load-Restores c.plat nvs kv small in
      elim outcome [
        | inl (failed, _) ↦ (nothing, rw (run, failed) refl, λ p e. absurd (cc e))
        | inr (fine, pos, size, len, sha) ↦
            let whole : IsWhole sha256 art =
              (size, len, ap (λ (f : List ℕ → List ℕ). f art.blob) (sym digest) ∙ sha) in
            let loaded : artifact_store_load c.plat nvs kv ≡ ret (esp_ok, art) =
              run ∙ ap (λ (e : EspErr). ret (e, art)) fine in
            let (published, _) =
              http_serve_publish-IsConsistent (FromFlash kv c) c.cjson c.malloced nothing art
                version url (λ p e. absurd (cc e)) in
            (
              http_serve_publish c.cjson c.malloced nothing art version url,
              rw (run, fine) refl,
              λ p e. elim (published p e) [
                | inl old ↦ old
                | inr new ↦ (art, loaded, pos, whole, new)
              ],
            )
      ]

  -- From the start and over any number of cycles, the node ends each of them, and what it serves is one of
  -- two. It is the non-empty artifact that was on record in flash, with its digest, under the manifest
  -- that the start built of it with the version on record and the node's URL. Or it is the words of
  -- the distinct hashes that the sources of one of the cycles give, under the manifest that this
  -- cycle built of them with their digest and their number. The cycles never leave the node without an
  -- artifact once the restore gave it one. In every cycle the platform grants all memory and the lists give
  -- at most 2 ^ 27 hashes; the counts on record at the start are below 2 ^ 29.
  pub app_main-IsConsistent :
      (kv : nvs.Store) (boot : Cycle) (cycles : List Cycle)
      → boot.plat.sha256 ≡ sha256
      → ((slot n : ℕ) → nvs.get_num kv (cnt_key slot) ≡ some n → n < 2 ^ 29)
      → All (Granted sha256 allow) cycles
      → (s : Server) × (restore nvs allow conf kv boot ≡ ret s)
        × IsConsistent (FromFlash kv boot) s
        × (s' : Server) × (kv' : nvs.Store) × (app_main nvs allow conf kv boot cycles
            ≡ ret (s', kv'))
        × IsConsistent (OriginAfter (FromFlash kv boot) cycles) s'
        × StillServes s s'
  unfolding app_main
  app_main-IsConsistent kv boot cycles digest small g =
      let (s, run, i) = restore-IsConsistent kv boot digest small in
      let (s', kv', runs, i', still) = refresh_task-Keeps cycles (FromFlash kv boot) kv s g i in
      (s, run, i, s', kv', rw run runs, i', still)
