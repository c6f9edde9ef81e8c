-- ===== src/Tests/Firmware.antt =====
-- The blocklist store over the fixtures' NVS and flash.
use esp_hole.Blocklist.Device.{esp_ok, active_key, EspErr, cnt_key}
use esp_hole.Artifact.{Platform, artifact_store_load}
use esp_hole.Artifact.Restored.{Restores, artifact_store_load-Restores}
use esp_hole.Blocklist.Store.{
  Served, min_domains, unloaded, words_of, load_slot, blocklist_init, commit_slot,
  blocklist_contains,
}
use esp_hole.Blocklist.Store.Loading.{LoadResult, load_slot-LoadResult}
use esp_hole.Blocklist.Store.Serving.{
  IsServing, Opened, blocklist_contains-elem, blocklist_init-Boot,
}
use esp_hole.Blocklist.Store.Commit.{Committed, commit_slot-Committed}
use esp_hole.Blocklist.Store.Overflow.{load_slot_overrun}
use esp_hole.Tests.Fixtures.{
  all_open, put_num, length-replicate, Table, nvs, device, recorded, served, length-count_up,
  count_up-IsAscending,
}
use esp_hole.Base.{
  ℕ, ◌+◌, ◌^◌, ◌<◌, ◌≡◌, refl, inr, true, ◌&&◌, some, [], ◌∷◌, arith, replicate, elem, IsAscending,
  ret, fault,
}

pub recorded-fits :
    (slot c : ℕ) → nvs.get_num (recorded min_domains) (cnt_key slot) ≡ some c → c < 2 ^ 29
recorded-fits slot c e = ground arith

load_slot-LoadResult_example :
    LoadResult device nvs
      (recorded min_domains)
      unloaded
      1
      (load_slot device nvs (recorded min_domains) unloaded 1)
load_slot-LoadResult_example =
    load_slot-LoadResult device nvs (recorded min_domains) unloaded 1 (recorded-fits 1)

pub served-IsServing : IsServing served
served-IsServing = record {
  whole = length-count_up 0 min_domains;
  ascending = count_up-IsAscending 0 min_domains;
  floor = inr (omega arith);
  small = omega arith;
}

blocklist_contains-elem_example :
    blocklist_contains true served 17 ≡ ret (true && elem 17 served.hashes)
blocklist_contains-elem_example = blocklist_contains-elem true served 17 served-IsServing

blocklist_init-Boot_example :
    Opened device nvs all_open (blocklist_init device nvs all_open (recorded min_domains))
blocklist_init-Boot_example =
    blocklist_init-Boot device nvs all_open (recorded min_domains) recorded-fits

commit_slot-Committed_example :
    (err : EspErr) × (st' : Served) × (kv' : Table) × (commit_slot device nvs
        (recorded min_domains)
        served
        0
        20000
        (replicate 32 0)
        (50 ∷ [])
      ≡ ret (err, st', kv'))
    × Committed device nvs
        (recorded min_domains)
        0
        20000
        (replicate 32 0)
        (50 ∷ [])
        served
        err
        st'
        kv'
commit_slot-Committed_example =
    commit_slot-Committed device nvs (recorded min_domains) 0 20000 (replicate 32 0) (50 ∷ [])
      served (omega arith)

one_word : IsAscending (words_of (device.read_flash 0 8).1)
unfolding words_of
one_word = tt

load_slot_overrun_example : load_slot device nvs (recorded (2 ^ 29 + 1)) unloaded 0 ≡ fault
load_slot_overrun_example =
    load_slot_overrun device nvs (recorded (2 ^ 29 + 1)) unloaded 0 1 1000000 (replicate 32 0)
      (omega arith) (omega arith) refl refl refl refl (omega arith) refl refl refl one_word

abbrev platform : Platform
platform = record {
  opened = esp_ok;
  partition_size = λ _. some 1000000;
  erase = λ _. esp_ok;
  write_flash = λ _ _. esp_ok;
  read_flash = λ _ n. (esp_ok, replicate n 0);
  realloc = λ _. true;
  sha256 = λ _. replicate 32 0;
  read_flash-length = λ _ n _. length-replicate n;
}

-- Slot 1 is active and holds one word.
abbrev one_artifact : Table
one_artifact = (put_num (recorded 1) active_key 1).1

one_artifact-fits : (slot c : ℕ) → nvs.get_num one_artifact (cnt_key slot) ≡ some c → c < 2 ^ 29
one_artifact-fits slot c e = ground arith

artifact_store_load-Restores_example :
    Restores platform (artifact_store_load platform nvs one_artifact)
artifact_store_load-Restores_example =
    artifact_store_load-Restores platform nvs one_artifact one_artifact-fits
