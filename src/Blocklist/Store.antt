-- ===== src/Blocklist/Store.antt =====
-- load_slot, blocklist_init, blocklist_contains and blocklist_commit_slot of main/blocklist.c, over
-- the static variables `s_hashes`, `s_count`, `s_active` and `s_version`. `size_t` has 32 bits. A
-- read outside the loaded buffer is a fault.
pub mod Loading
pub mod Serving
pub mod Commit
pub mod Overflow
use esp_hole.Blocklist.Search.{search_hashes}
use esp_hole.Blocklist.Device.{
  EspErr, esp_ok, esp_fail, not_found, invalid_size, no_mem, invalid_crc, invalid_state,
  invalid_arg, is_ok, active_key, cnt_key, sha_key, ver_key, Nvs, Device,
}
use esp_hole.Base.{
  ℕ, zero, suc, ◌+◌, ◌-◌, ◌*◌, ◌/◌, ◌%◌, ◌^◌, ◌≤◌, ◌<◌, bit_and, bit_or, bit_xor, ◌≡◌, refl, sym,
  ap, ap₂, ◌∙◌, subst, ◌≢◌, ◌↔◌, ◌⊎◌, inl, inr, Bool, true, false, ◌&&◌, ◌||◌, not, Option, none,
  some, List, [], ◌∷◌, ◌++◌, map, append-nil, append_assoc, map-append, arith, ltb, leb, ◌==◌,
  if◌then◌else◌, ltb→lt, lt→ltb, ltb_false→le, le→ltb_false, leb→le, le→leb, ==→eq, ==_false→ne,
  ==_refl, ne→==_false, tests, Bool-cases, Option-cases, length, get_elem?, get_or, set, take, drop,
  replicate, length-append, get_elem?-eq-get_or, get_elem?-none, get_elem?-append_length,
  length-set, get_elem?-set_self, length-take, take-append, drop-append, elem, bytes_eq,
  bytes_eq→eq, bytes_eq_refl, All, All-mono, All-elem_self, take_all, length-map, All-get,
  elem-append, elem_of_get, not_elem_of_get, Above, IsAscending, Above-lt, IsAscending-lt, u8_mod,
  u32_mod, u64_mod, add32, sub32, mul32, mul64, Exec, ret, fault, no_fuel, ◌>>=◌, read,
}

-- `active` is `none` where `s_active` is -1.
pub record Served : Type 0 where
  pub hashes : List ℕ
  pub count : ℕ
  pub active : Option ℕ
  pub version : List ℕ

abbrev pub min_domains : ℕ
min_domains = 10000

abbrev pub slots : ℕ
slots = 2

abbrev pub version_max : ℕ
version_max = 32

-- Nothing is loaded at boot.
abbrev pub unloaded : Served
unloaded = record { hashes = []; count = 0; active = none; version = [] }

-- What blocklist_init asserts: there is a mutex, PSA is initialised, and NVS opens.
pub record Opening : Type 0 where
  pub mutex : Bool
  pub psa : Bool
  pub nvs_open : EspErr

abbrev pub opens : Opening → Bool
opens o = o.mutex && (o.psa && is_ok o.nvs_open)

-- The `uint64_t` view of the bytes of a slot, little-endian.
unfoldable pub words_of : List ℕ → List ℕ
words_of (b0 ∷ b1 ∷ b2 ∷ b3 ∷ b4 ∷ b5 ∷ b6 ∷ b7 ∷ rest) =
    (b0 + 256 * (b1 + 256 * (b2 + 256 * (b3 + 256 * (b4 + 256 * (b5 + 256 * (b6 + 256 * b7)))))))
    ∷ words_of rest
words_of _ = []

-- The loop from `i` on, with `n` rounds left: whether `buf[i - 1] < buf[i]` throughout.
unfoldable pub sorted_loop : List ℕ → ℕ → ℕ → Exec Bool
sorted_loop buf i zero = ret true
sorted_loop buf i (suc n) =
    let rest = sorted_loop buf (suc i) n in
    read (get_elem? buf (i - 1)) >>= λ a.
    read (get_elem? buf i) >>= λ b. if leb b a then ret false else rest

-- `nvs_get_str` into a buffer of 32 bytes that holds "" before.
abbrev pub version_of : Option (List ℕ) → List ℕ
version_of none = []
version_of (some v) = if ltb (length v) version_max then v else []

module _ (dev : Device) where
  -- From the allocated buffer on: read, digest, order, swap.
  unfoldable pub validate_slot : Served → ℕ → ℕ → List ℕ → List ℕ → Exec (EspErr × Served)
  unfolding sorted_loop
  validate_slot st slot count sha_want version =
      let (err, bytes) = dev.read_flash slot (mul32 count 8) in
      if not (is_ok err) then ret (err, st) else elim (dev.sha256 bytes) [
        | none ↦ ret (esp_fail, st)
        | some sha_got ↦
            if not (bytes_eq sha_got sha_want)
            then ret (invalid_crc, st)
            else (sorted_loop (words_of bytes) 1 (count - 1) >>= λ sorted.
                if sorted
                then ret (
                  esp_ok,
                  record {
                    hashes = words_of bytes;
                    count = count;
                    active = some slot;
                    version = take (version_max - 1) version;
                  },
                )
                else ret (invalid_state, st))
      ]

  -- The count and the size of the slot, and the buffer.
  unfoldable pub size_slot : Served → ℕ → ℕ → List ℕ → List ℕ → Exec (EspErr × Served)
  size_slot st slot count sha_want version = elim (dev.partition_size slot) [
    | none ↦ ret (not_found, st)
    | some size ↦
        if ltb count min_domains || ltb size (mul32 count 8)
        then ret (invalid_size, st)
        else if not (dev.malloc (mul32 count 8))
        then ret (no_mem, st)
        else validate_slot st slot count sha_want version
  ]

  module _ (nvs : Nvs) where
    unfoldable pub load_slot : nvs.Store → Served → ℕ → Exec (EspErr × Served)
    load_slot kv st slot = elim (nvs.get_num kv (cnt_key slot)) [
      | none ↦ ret (not_found, st)
      | some count ↦ elim (nvs.get_bytes kv (sha_key slot)) [
        | none ↦ ret (not_found, st)
        | some sha_want ↦
            if not (length sha_want == 32)
            then ret (not_found, st)
            else size_slot st slot count sha_want (version_of (nvs.get_bytes kv (ver_key slot)))
      ]
    ]

    -- The fallback loop of blocklist_init, with `n` slots left from `slot` on.
    unfoldable pub fallback_loop :
        nvs.Store → Served → ℕ → ℕ → ℕ → Exec (EspErr × Served × nvs.Store)
    fallback_loop kv st recorded slot zero = ret (esp_fail, st, kv)
    fallback_loop kv st recorded slot (suc n) =
        let rest = λ (st' : Served). fallback_loop kv st' recorded (suc slot) n in
        if slot == recorded
        then rest st
        else (load_slot kv st slot >>= λ r.
            if is_ok r.0
            then ret (esp_ok, r.1, (nvs.commit (nvs.set_num kv active_key slot).1).1)
            else rest r.1)

    abbrev pub recorded_slot : nvs.Store → ℕ
    recorded_slot kv = elim (nvs.get_num kv active_key) [ none ↦ 0xFF | some a ↦ a ]

    -- The recorded slot, else the fallback.
    unfoldable pub load_recorded : nvs.Store → Exec (EspErr × Served × nvs.Store)
    unfolding fallback_loop
    load_recorded kv =
        let recorded = recorded_slot kv in
        let fallback = λ (st : Served). fallback_loop kv st recorded 0 slots in
        if ltb recorded slots
        then (load_slot kv unloaded recorded >>= λ r.
            if is_ok r.0 then ret (esp_ok, r.1, kv) else fallback r.1)
        else fallback unloaded

    -- `none` is an abort of an assertion.
    unfoldable pub blocklist_init :
        Opening → nvs.Store → Exec (Option (EspErr × Served × nvs.Store))
    blocklist_init o kv =
        if not (opens o) then ret none else (load_recorded kv >>= λ r. ret (some r))

    -- The slot's record in NVS: count, digest, version, commit, up to the first failure.
    unfoldable pub write_record : nvs.Store → ℕ → ℕ → List ℕ → List ℕ → EspErr × nvs.Store
    write_record kv slot count sha256 version =
        let (e1, kv1) = nvs.set_num kv (cnt_key slot) (count % u32_mod) in
        if not (is_ok e1)
        then (e1, kv1)
        else (let (e2, kv2) = nvs.set_bytes kv1 (sha_key slot) sha256 in
            if not (is_ok e2)
            then (e2, kv2)
            else (let (e3, kv3) = nvs.set_bytes kv2 (ver_key slot) version in
                if not (is_ok e3) then (e3, kv3) else nvs.commit kv3))

    abbrev pub is_active : Served → ℕ → Bool
    is_active st slot = elim st.active [ none ↦ false | some a ↦ slot == a ]

    unfoldable pub commit_slot :
        nvs.Store → Served → ℕ → ℕ → List ℕ → List ℕ → Exec (EspErr × Served × nvs.Store)
    commit_slot kv st slot count sha256 version =
        if leb slots slot || is_active st slot
        then ret (invalid_arg, st, kv)
        else (let written = write_record kv slot count sha256 version in
            if not (is_ok written.0)
            then ret (written.0, st, written.1)
            else (load_slot written.1 st slot >>= λ r.
                if not (is_ok r.0)
                then ret (r.0, r.1, written.1)
                else (let marked = nvs.commit (nvs.set_num written.1 active_key slot).1 in
                    ret (marked.0, r.1, marked.1))))

-- The slot that the updater may overwrite.
unfoldable pub inactive_slot : Served → ℕ
inactive_slot st = elim st.active [ none ↦ 0 | some a ↦ if a == 0 then 1 else 0 ]

-- The lookup of the serve path: without the lock it fails open.
unfoldable pub blocklist_contains : Bool → Served → ℕ → Exec Bool
blocklist_contains locked st hash =
    if locked then search_hashes st.hashes st.count hash else ret false
