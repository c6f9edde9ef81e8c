-- ===== src/Blocklist/Device.antt =====
-- What main/blocklist.c uses of the ESP-IDF: error codes, the NVS key-value store, the flash
-- partitions, the heap and SHA-256. None of it stands in this repository, so it is a parameter of the
-- model, with the laws that the code relies on.
use esp_hole.Base.{ℕ, ◌≡◌, ◌≢◌, Bool, true, false, Option, some, List, length}

-- `esp_err_t`; `other` stands for the codes that only the platform returns.
pub data EspErr : Type 0 where
  esp_ok esp_fail not_found invalid_size no_mem invalid_crc invalid_state invalid_arg : EspErr
  other : ℕ → EspErr

abbrev pub is_ok : EspErr → Bool
is_ok esp_ok = true
is_ok _ = false

-- The keys "active", "cnt_%d", "sha_%d" and "ver_%d".
pub data Key : Type 0 where
  active_key : Key
  cnt_key sha_key ver_key : ℕ → Key

-- NVS: numbers and byte strings under keys. A setter may fail; if it succeeds the value is read back,
-- and no setter touches the numbers under other keys.
pub record Nvs : Type 1 where
  pub Store : Type 0
  pub get_num : Store → Key → Option ℕ
  pub get_bytes : Store → Key → Option (List ℕ)
  pub set_num : Store → Key → ℕ → EspErr × Store
  pub set_bytes : Store → Key → List ℕ → EspErr × Store
  pub commit : Store → EspErr × Store
  pub set_num-read :
      (s : Store) (k : Key) (v : ℕ)
      → (set_num s k v).0 ≡ esp_ok
      → get_num (set_num s k v).1 k ≡ some v
  pub set_num-other :
      (s : Store) (k j : Key) (v : ℕ) → k ≢ j → get_num (set_num s k v).1 j ≡ get_num s j
  pub set_bytes-num :
      (s : Store) (k j : Key) (v : List ℕ) → get_num (set_bytes s k v).1 j ≡ get_num s j
  pub commit-num : (s : Store) (j : Key) → get_num (commit s).1 j ≡ get_num s j

-- Flash, heap and digest. A successful read of a partition gives as many bytes as were asked for;
-- `sha256` is `none` where the PSA call fails.
pub record Device : Type 0 where
  pub partition_size : ℕ → Option ℕ
  pub read_flash : ℕ → ℕ → EspErr × List ℕ
  pub malloc : ℕ → Bool
  pub sha256 : List ℕ → Option (List ℕ)
  pub read_flash-length :
      (slot n : ℕ) → (read_flash slot n).0 ≡ esp_ok → length (read_flash slot n).1 ≡ n
