-- ===== src/Artifact/Saved.antt =====
-- artifact_store_save.
use esp_hole.Blocklist.Device.{
  EspErr, invalid_state, is_ok, not_found, invalid_size, no_mem, active_key, cnt_key, sha_key,
  ver_key, Nvs,
}
use esp_hole.Blocklist.Store.Loading.{is_ok→eq}
use esp_hole.Generate.Blob.{verify_blob}
use esp_hole.Generate.Finish.{Artifact}
use esp_hole.Artifact.{
  Platform, save_record, confirm_slot, write_slot, recorded_active, spare_slot, artifact_store_save,
}
use esp_hole.Artifact.Restored.{verify_blob-total}
use esp_hole.Base.{
  ℕ, ◌*◌, ◌%◌, ◌<◌, ◌≡◌, refl, sym, ap, ◌∙◌, subst, ◌≢◌, ◌⊎◌, inl, inr, Bool, true, false, some,
  List, arith, ltb, ◌==◌, if◌then◌else◌, Bool-cases, Option-cases, length, take, take_enough,
  u32_mod, mul32, Exec, ret,
}

-- Bytes of the artifact's size are verified against its digest without a fault.
verify_readback :
    (sha256 : List ℕ → List ℕ) (readback : List ℕ) (art : Artifact)
    → length readback ≡ art.blob_len
    → art.blob_len ≡ art.count * 8
    → art.blob_len < u32_mod
    → (b : Bool) × (verify_blob sha256 readback art.blob_len art.count art.sha256 ≡ ret b)
      × (b ≡ true → sha256 readback ≡ art.sha256)
verify_readback sha256 readback art whole size small =
    let m : mul32 art.count 8 ≡ art.blob_len = omega (arith, size, small) in
    let (b, run, digest) =
      verify_blob-total sha256 readback art.count art.sha256 (omega (arith, whole, size))
        (omega (arith, size, small)) in
    let all : take art.blob_len readback ≡ readback =
      take_enough art.blob_len readback (omega (arith, whole)) in
    (
      b,
      subst (λ (n : ℕ). verify_blob sha256 readback n art.count art.sha256 ≡ ret b) m run,
      λ t.
          ap sha256 (sym all)
          ∙ subst (λ (n : ℕ). sha256 (take n readback) ≡ art.sha256) m (digest t),
    )

module _ (plat : Platform) (nvs : Nvs) where
  -- The last two calls, nvs_set_u8 and nvs_commit.
  abbrev pub marked : nvs.Store → ℕ → EspErr × nvs.Store
  marked kv slot =
      let (e, kv') = nvs.set_num kv active_key slot in if is_ok e then nvs.commit kv' else (e, kv')

  -- The slot is confirmed, and the last two calls decide from NVS as it stood then, `kv1`.
  abbrev pub Confirmed : nvs.Store → ℕ → Artifact → EspErr → nvs.Store → Type 0
  Confirmed kv slot art err kv' =
      (length (plat.read_flash slot art.blob_len).1 ≡ art.blob_len)
      × (plat.sha256 (plat.read_flash slot art.blob_len).1 ≡ art.sha256)
      × (kv1 : nvs.Store) × (nvs.get_num kv1 active_key ≡ nvs.get_num kv active_key)
      × ((err, kv') ≡ marked kv1 slot)
      × (is_ok err ≡ true → nvs.get_num kv' active_key ≡ some slot)
      × (is_ok (nvs.set_num kv1 active_key slot).0 ≡ true → nvs.get_num kv' active_key ≡ some slot)

  -- What saving leaves: an error and the active slot on record as it was, or a confirmed slot.
  abbrev pub Saved : nvs.Store → ℕ → Artifact → EspErr → nvs.Store → Type 0
  Saved kv slot art err kv' =
      ((is_ok err ≡ false) × (nvs.get_num kv' active_key ≡ nvs.get_num kv active_key))
      ⊎ Confirmed kv slot art err kv'

  -- A run ends, and leaves one of the two.
  abbrev pub Saves : nvs.Store → ℕ → Artifact → Exec (EspErr × nvs.Store) → Type 0
  Saves kv slot art run =
      (err : EspErr) × (kv' : nvs.Store) × (run ≡ ret (err, kv')) × Saved kv slot art err kv'

  save_record-active :
      (kv : nvs.Store) (slot : ℕ) (art : Artifact) (version : List ℕ)
      → nvs.get_num (save_record plat nvs kv slot art version).1 active_key
        ≡ nvs.get_num kv active_key
  unfolding save_record
  save_record-active kv slot art version =
      let kv1 = (nvs.set_num kv (cnt_key slot) (art.count % u32_mod)).1 in
      let kv2 = (nvs.set_bytes kv1 (sha_key slot) art.sha256).1 in
      let kv3 = (nvs.set_bytes kv2 (ver_key slot) version).1 in
      ground (
        arith,
        nvs.set_num-other kv (cnt_key slot) active_key (art.count % u32_mod) (λ e. cc),
        nvs.set_bytes-num kv1 (sha_key slot) active_key art.sha256,
        nvs.set_bytes-num kv2 (ver_key slot) active_key version,
        nvs.commit-num kv3 active_key,
      )

  -- Where nvs_set_u8 succeeds the slot is on record, whatever nvs_commit answers.
  marked-set :
      (kv : nvs.Store) (slot : ℕ)
      → is_ok (nvs.set_num kv active_key slot).0 ≡ true
      → nvs.get_num (marked kv slot).1 active_key ≡ some slot
  marked-set kv slot e = rw e (
      nvs.commit-num (nvs.set_num kv active_key slot).1 active_key
      ∙ nvs.set_num-read kv active_key slot (is_ok→eq _ e))

  marked-active :
      (kv : nvs.Store) (slot : ℕ)
      → is_ok (marked kv slot).0 ≡ true
      → nvs.get_num (marked kv slot).1 active_key ≡ some slot
  marked-active kv slot good = elim (Bool-cases (is_ok (nvs.set_num kv active_key slot).0)) [
    | inl e ↦ marked-set kv slot e
    | inr e ↦ cc (e, good)
  ]

  confirm_slot-Saves :
      (kv0 kv : nvs.Store) (slot : ℕ) (art : Artifact)
      → nvs.get_num kv active_key ≡ nvs.get_num kv0 active_key
      → art.blob_len ≡ art.count * 8
      → art.blob_len < u32_mod
      → Saves kv0 slot art (confirm_slot plat nvs kv slot art)
  unfolding confirm_slot
  confirm_slot-Saves kv0 kv slot art same size small =
      elim (Bool-cases (plat.realloc art.blob_len)) [
        | inr none_left ↦ (no_mem, kv, rw none_left refl, inl (refl, same))
        | inl granted ↦ elim (Bool-cases (is_ok (plat.read_flash slot art.blob_len).0)) [
          | inr bad ↦ (invalid_state, kv, rw (granted, bad) refl, inl (refl, same))
          | inl good ↦
              let readback : List ℕ = (plat.read_flash slot art.blob_len).1 in
              let whole : length readback ≡ art.blob_len =
                plat.read_flash-length slot art.blob_len (is_ok→eq _ good) in
              let (b, run, digest) = verify_readback plat.sha256 readback art whole size small in
              elim (Bool-cases b) [
                | inr refused ↦
                    (invalid_state, kv, rw (granted, good, run, refused) refl, inl (refl, same))
                | inl verified ↦ (
                  (marked kv slot).0,
                  (marked kv slot).1,
                  rw (granted, good, run, verified) refl,
                  inr (
                    whole,
                    digest verified,
                    kv,
                    same,
                    refl,
                    marked-active kv slot,
                    marked-set kv slot,
                  ),
                )
              ]
        ]
      ]

  write_slot-Saves :
      (kv : nvs.Store) (slot : ℕ) (art : Artifact) (version : List ℕ)
      → art.blob_len ≡ art.count * 8
      → art.blob_len < u32_mod
      → Saves kv slot art (write_slot plat nvs kv slot art version)
  unfolding write_slot
  write_slot-Saves kv slot art version size small = elim (Bool-cases (is_ok (plat.erase slot))) [
    | inr e ↦ (plat.erase slot, kv, rw e refl, inl (e, refl))
    | inl e ↦ elim (Bool-cases (is_ok (plat.write_flash slot art.blob))) [
      | inr w ↦ (plat.write_flash slot art.blob, kv, rw (e, w) refl, inl (w, refl))
      | inl w ↦
          let same = save_record-active kv slot art version in
          elim (Bool-cases (is_ok (save_record plat nvs kv slot art version).0)) [
            | inr r ↦ (
              (save_record plat nvs kv slot art version).0,
              (save_record plat nvs kv slot art version).1,
              rw (e, w, r) refl,
              inl (r, same),
            )
            | inl r ↦
                let (err, kv', run, outcome) =
                  confirm_slot-Saves kv (save_record plat nvs kv slot art version).1 slot art same
                    size small in
                (err, kv', rw (e, w, r) run, outcome)
          ]
    ]
  ]

  spare_slot-other : (kv : nvs.Store) → spare_slot plat nvs kv ≢ recorded_active plat nvs kv
  spare_slot-other kv e = elim (Bool-cases (recorded_active plat nvs kv == 0)) [
    | inl z ↦ ground (arith, z, e)
    | inr z ↦ ground (arith, z, e)
  ]

  -- Saving always ends, and goes to the slot that is not on record as active. Either it reports an error and the
  -- active slot on record stays; or what was read back from the slot has the artifact's size and digest, the
  -- active slot on record was untouched until then, and the result is that of the two calls that put the slot on
  -- record: without an error it is on record, and so it is when only the closing nvs_commit fails, which is
  -- reported as an error. The artifact has eight bytes for each entry, below 2 ^ 32 in all.
  pub artifact_store_save-Saves :
      (kv : nvs.Store) (art : Artifact) (version : List ℕ)
      → art.blob_len ≡ art.count * 8
      → art.blob_len < u32_mod
      → (spare_slot plat nvs kv ≢ recorded_active plat nvs kv)
        × Saves kv (spare_slot plat nvs kv) art (artifact_store_save plat nvs kv art version)
  unfolding artifact_store_save
  artifact_store_save-Saves kv art version size small =
      let slot = spare_slot plat nvs kv in
      (
        spare_slot-other kv,
        elim (Bool-cases (is_ok plat.opened)) [
          | inr o ↦ (plat.opened, kv, rw o refl, inl (o, refl))
          | inl o ↦ elim (Option-cases (plat.partition_size slot)) [
            | inl p ↦ (not_found, kv, rw (o, p) refl, inl (refl, refl))
            | inr (room, p) ↦ elim (Bool-cases (ltb room art.blob_len)) [
              | inl l ↦ (invalid_size, kv, rw (o, p, l) refl, inl (refl, refl))
              | inr l ↦
                  let (err, kv', run, outcome) = write_slot-Saves kv slot art version size small in
                  (err, kv', rw (o, p) (rw l run), outcome)
            ]
          ]
        ],
      )
