-- ===== src/Artifact.antt =====
-- artifact_store_load and artifact_store_save of generator-node/main/artifact_store.c, over the NVS
-- namespace "artifact" and two flash slots. The platform's functions are parameters.
pub mod Restored
pub mod Saved
use esp_hole.Blocklist.Device.{
  EspErr, esp_ok, esp_fail, not_found, invalid_size, no_mem, invalid_crc, invalid_state, is_ok,
  active_key, cnt_key, sha_key, ver_key, Nvs,
}
use esp_hole.Generate.Blob.{verify_blob}
use esp_hole.Generate.Finish.{Artifact, zeroed}
use esp_hole.Base.{
  ℕ, zero, suc, ◌+◌, ◌-◌, ◌*◌, ◌/◌, ◌%◌, ◌^◌, ◌≤◌, ◌<◌, bit_and, bit_or, bit_xor, ◌≡◌, refl, sym,
  ap, ap₂, ◌∙◌, subst, ◌≢◌, ◌↔◌, ◌⊎◌, inl, inr, Bool, true, false, ◌&&◌, ◌||◌, not, Option, none,
  some, List, [], ◌∷◌, ◌++◌, map, append-nil, append_assoc, map-append, arith, ltb, leb, ◌==◌,
  if◌then◌else◌, ltb→lt, lt→ltb, ltb_false→le, le→ltb_false, leb→le, le→leb, ==→eq, ==_false→ne,
  ==_refl, ne→==_false, tests, Bool-cases, Option-cases, length, get_elem?, get_or, set, take, drop,
  replicate, length-append, get_elem?-eq-get_or, get_elem?-none, get_elem?-append_length,
  length-set, get_elem?-set_self, length-take, take-append, drop-append, elem, bytes_eq,
  bytes_eq→eq, bytes_eq_refl, All, All-mono, All-elem_self, take_all, length-map, All-get,
  elem-append, elem_of_get, not_elem_of_get, Above, IsAscending, Above-lt, IsAscending-lt, u8_mod,
  u32_mod, u64_mod, add32, sub32, mul32, mul64, Exec, ret, fault, no_fuel, ◌>>=◌, read,
}

abbrev pub artifact_slots : ℕ
artifact_slots = 2

abbrev pub artifact_version_max : ℕ
artifact_version_max = 32

-- What the slots and the heap answer. `read_flash` gives what a slot holds when it is read.
pub record Platform : Type 0 where
  pub opened : EspErr
  pub partition_size : ℕ → Option ℕ
  pub erase : ℕ → EspErr
  pub write_flash : ℕ → List ℕ → EspErr
  pub read_flash : ℕ → ℕ → EspErr × List ℕ
  pub realloc : ℕ → Bool
  pub sha256 : List ℕ → List ℕ
  pub read_flash-length :
      (slot n : ℕ) → (read_flash slot n).0 ≡ esp_ok → length (read_flash slot n).1 ≡ n

module _ (plat : Platform) where
  -- From the buffer on: read, verify, hand out.
  unfoldable pub restore_blob : ℕ → ℕ → List ℕ → Exec (EspErr × Artifact)
  restore_blob active count sha256 =
      let (err, blob) = plat.read_flash active (mul32 count 8) in
      if not (is_ok err)
      then ret (esp_fail, zeroed)
      else (verify_blob plat.sha256 blob (mul32 count 8) count sha256 >>= λ verified.
          if not verified
          then ret (invalid_crc, zeroed)
          else ret (
            esp_ok,
            record { blob = blob; blob_len = mul32 count 8; count = count; sha256 = sha256 },
          ))

  -- The partition, the size and the buffer.
  unfoldable pub restore_slot : ℕ → ℕ → List ℕ → Exec (EspErr × Artifact)
  restore_slot active count sha256 = elim (plat.partition_size active) [
    | none ↦ ret (not_found, zeroed)
    | some size ↦
        if mul32 count 8 == 0 || ltb size (mul32 count 8)
        then ret (invalid_size, zeroed)
        else if not (plat.realloc (mul32 count 8))
        then ret (no_mem, zeroed)
        else restore_blob active count sha256
  ]

  module _ (nvs : Nvs) where
    -- From the recorded slot on.
    unfoldable pub restore_record : nvs.Store → ℕ → Exec (EspErr × Artifact)
    restore_record kv active = elim (nvs.get_num kv (cnt_key active)) [
      | none ↦ ret (not_found, zeroed)
      | some count ↦ elim (nvs.get_bytes kv (sha_key active)) [
        | none ↦ ret (not_found, zeroed)
        | some sha256 ↦
            if not (length sha256 == 32)
            then ret (not_found, zeroed)
            else restore_slot active count sha256
      ]
    ]

    abbrev pub recorded_active : nvs.Store → ℕ
    recorded_active kv = elim (nvs.get_num kv active_key) [ none ↦ 0xFF | some a ↦ a ]

    -- `version_out`: nvs_get_str writes nothing where the string and its terminator do not fit.
    unfoldable pub restored_version : nvs.Store → List ℕ
    restored_version kv = elim (nvs.get_bytes kv (ver_key (recorded_active kv))) [
      | none ↦ []
      | some v ↦ if ltb (length v) artifact_version_max then v else []
    ]

    unfoldable pub artifact_store_load : nvs.Store → Exec (EspErr × Artifact)
    artifact_store_load kv =
        if not (is_ok plat.opened)
        then ret (not_found, zeroed)
        else if leb artifact_slots (recorded_active kv)
        then ret (not_found, zeroed)
        else restore_record kv (recorded_active kv)

    -- Count, digest, version, commit, up to the first failure.
    unfoldable pub save_record : nvs.Store → ℕ → Artifact → List ℕ → EspErr × nvs.Store
    save_record kv slot art version =
        let (e1, kv1) = nvs.set_num kv (cnt_key slot) (art.count % u32_mod) in
        if not (is_ok e1)
        then (e1, kv1)
        else (let (e2, kv2) = nvs.set_bytes kv1 (sha_key slot) art.sha256 in
            if not (is_ok e2)
            then (e2, kv2)
            else (let (e3, kv3) = nvs.set_bytes kv2 (ver_key slot) version in
                if not (is_ok e3) then (e3, kv3) else nvs.commit kv3))

    -- From the committed record on: read back, verify, mark the slot active.
    unfoldable pub confirm_slot : nvs.Store → ℕ → Artifact → Exec (EspErr × nvs.Store)
    confirm_slot kv slot art =
        if not (plat.realloc art.blob_len)
        then ret (no_mem, kv)
        else (let (err, readback) = plat.read_flash slot art.blob_len in
            if not (is_ok err)
            then ret (invalid_state, kv)
            else (verify_blob plat.sha256 readback art.blob_len art.count art.sha256 >>= λ verified.
                if not verified
                then ret (invalid_state, kv)
                else (let (e, marked) = nvs.set_num kv active_key slot in
                    ret (if is_ok e then nvs.commit marked else (e, marked)))))

    -- Erase, write and record.
    unfoldable pub write_slot : nvs.Store → ℕ → Artifact → List ℕ → Exec (EspErr × nvs.Store)
    write_slot kv slot art version =
        if not (is_ok (plat.erase slot))
        then ret (plat.erase slot, kv)
        else if not (is_ok (plat.write_flash slot art.blob))
        then ret (plat.write_flash slot art.blob, kv)
        else (let (err, kv') = save_record kv slot art version in
            if not (is_ok err) then ret (err, kv') else confirm_slot kv' slot art)

    -- The slot that is not on record as active.
    abbrev pub spare_slot : nvs.Store → ℕ
    spare_slot kv = if recorded_active kv == 0 then 1 else 0

    unfoldable pub artifact_store_save : nvs.Store → Artifact → List ℕ → Exec (EspErr × nvs.Store)
    artifact_store_save kv art version =
        let slot = spare_slot kv in
        if not (is_ok plat.opened) then ret (plat.opened, kv) else elim (plat.partition_size slot) [
          | none ↦ ret (not_found, kv)
          | some size ↦
              if ltb size art.blob_len
              then ret (invalid_size, kv)
              else write_slot kv slot art version
        ]
