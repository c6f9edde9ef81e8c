-- ===== src/Blocklist/Store/Commit.antt =====
-- blocklist_commit_slot of main/blocklist.c, on every branch.
use esp_hole.Blocklist.Device.{
  EspErr, invalid_arg, is_ok, active_key, cnt_key, sha_key, ver_key, Key, Nvs, Device,
}
use esp_hole.Blocklist.Store.Loading.{load_slot-LoadResult}
use esp_hole.Blocklist.Store.{
  words_of, Served, min_domains, slots, write_record, is_active, commit_slot,
}
use esp_hole.Blocklist.Store.Loading.{is_ok→eq}
use esp_hole.Blocklist.Store.Serving.{IsLoaded-IsServing, IsServing}
use esp_hole.Base.{
  ap, ◌*◌, ℕ, ◌%◌, ◌^◌, ◌≤◌, ◌<◌, ◌≡◌, refl, ◌∙◌, ◌⊎◌, inl, inr, true, false, ◌||◌, some, List,
  arith, leb, Bool-cases, u32_mod, ret,
}

module _ (dev : Device) (nvs : Nvs) (kv : nvs.Store) (slot count : ℕ) (sha version : List ℕ) where
  abbrev written : EspErr × nvs.Store
  written = write_record dev nvs kv slot count sha version

  -- NVS after each of the three setters.
  abbrev kv1 : nvs.Store
  kv1 = (nvs.set_num kv (cnt_key slot) (count % u32_mod)).1

  abbrev kv2 : nvs.Store
  kv2 = (nvs.set_bytes kv1 (sha_key slot) sha).1

  abbrev kv3 : nvs.Store
  kv3 = (nvs.set_bytes kv2 (ver_key slot) version).1

  -- The later steps leave every number alone.
  write_record-num : (k : Key) → nvs.get_num written.1 k ≡ nvs.get_num kv1 k
  unfolding write_record
  write_record-num k = ground (
    arith,
    nvs.set_bytes-num kv1 (sha_key slot) k sha,
    nvs.set_bytes-num kv2 (ver_key slot) k version,
    nvs.commit-num kv3 k,
  )

  -- Writing the record of a slot leaves the number of the active slot alone.
  pub write_record-active : nvs.get_num written.1 active_key ≡ nvs.get_num kv active_key
  write_record-active =
      write_record-num active_key
      ∙ nvs.set_num-other kv (cnt_key slot) active_key (count % u32_mod) (λ e. cc)

  write_record-first :
      is_ok written.0 ≡ true → is_ok (nvs.set_num kv (cnt_key slot) (count % u32_mod)).0 ≡ true
  unfolding write_record
  write_record-first good =
      elim (Bool-cases (is_ok (nvs.set_num kv (cnt_key slot) (count % u32_mod)).0)) [
        | inl e ↦ e
        | inr e ↦ cc (e, rw e at good)
      ]

  -- A record that was written holds the count.
  write_record-count :
      is_ok written.0 ≡ true → nvs.get_num written.1 (cnt_key slot) ≡ some (count % u32_mod)
  unfolding write_record
  write_record-count good =
      write_record-num (cnt_key slot)
      ∙ nvs.set_num-read kv (cnt_key slot) (count % u32_mod) (is_ok→eq _ (write_record-first good))

  count_fits :
      count < 2 ^ 29
      → is_ok written.0 ≡ true
      → (c : ℕ) → nvs.get_num written.1 (cnt_key slot) ≡ some c
      → c < 2 ^ 29
  count_fits small good c e =
      let same_count : c ≡ count % u32_mod = ground (arith, write_record-count good) in omega arith

  -- What a commit leaves: the list served before, with an error and the same active slot on record;
  -- or a validated list from `slot`, which was not being served.
  abbrev pub Committed : Served → EspErr → Served → nvs.Store → Type 0
  Committed st err st' kv' =
      ((is_ok err ≡ false) × (st' ≡ st) × (nvs.get_num kv' active_key ≡ nvs.get_num kv active_key))
      ⊎ (IsServing st'
          × (min_domains ≤ st'.count)
          × (st'.active ≡ some slot)
          × (is_active dev nvs st slot ≡ false)
          × (st'.hashes ≡ words_of (dev.read_flash slot (count * 8)).1))

  -- A commit of fewer than 2 ^ 29 entries always ends: with an error, the list served before and the
  -- active slot on record as they were; or with a validated list of at least 10000 entries served from
  -- the slot, which was not the active one: the words that the flash holds there.
  pub commit_slot-Committed :
      (st : Served)
      → count < 2 ^ 29
      → (err : EspErr) × (st' : Served) × (kv' : nvs.Store) × (commit_slot dev nvs kv st slot count
            sha version
          ≡ ret (err, st', kv'))
        × Committed st err st' kv'
  unfolding commit_slot
  commit_slot-Committed st small = elim (Bool-cases (leb slots slot || is_active dev nvs st slot)) [
    | inl refused ↦ (invalid_arg, st, kv, rw refused refl, inl (refl, refl, refl))
    | inr allowed ↦ elim (Bool-cases (is_ok written.0)) [
      | inr bad ↦
          (written.0, st, written.1, rw (allowed, bad) refl, inl (bad, refl, write_record-active))
      | inl good ↦
          let (err, st', run, outcome) =
            load_slot-LoadResult dev nvs written.1 st slot (count_fits small good) in
          elim outcome [
            | inr (failed, kept) ↦ (
              err,
              st',
              written.1,
              rw (allowed, good, run, failed) refl,
              inl (failed, kept, write_record-active),
            )
            | inl (fine, c, sha_want, found, digest, loaded) ↦
                let same : c ≡ count = ground (arith, write_record-count good, found, small) in
                let marked = nvs.commit (nvs.set_num written.1 active_key slot).1 in
                (
                  marked.0,
                  st',
                  marked.1,
                  rw (allowed, good, run, fine) refl,
                  inr (
                    IsLoaded-IsServing loaded (omega (arith, same, small)),
                    loaded.floor,
                    loaded.slot_is,
                    ground arith,
                    loaded.bytes_are
                        ∙ ap (λ (n : ℕ). words_of (dev.read_flash slot (n * 8)).1) same,
                  ),
                )
          ]
    ]
  ]
