-- ===== src/Artifact/Restored.antt =====
-- What artifact_store_load hands out.
use esp_hole.Blocklist.Device.{
  EspErr, esp_ok, esp_fail, invalid_crc, is_ok, not_found, invalid_size, no_mem, cnt_key, sha_key,
  Nvs,
}
use esp_hole.Blocklist.Store.Loading.{is_ok→eq}
use esp_hole.Generate.Codec.{decode_loop, decode_le_u64}
use esp_hole.Generate.Blob.{ascending_loop, verify_blob}
use esp_hole.Generate.Finish.{Artifact, zeroed}
use esp_hole.Artifact.{
  artifact_slots, Platform, restore_blob, restore_slot, restore_record, recorded_active,
  artifact_store_load,
}
use esp_hole.Base.{
  ℕ, zero, suc, ◌+◌, ◌-◌, ◌*◌, ◌%◌, ◌^◌, ◌≤◌, ◌<◌, bit_or, ◌≡◌, refl, sym, ap, ◌∙◌, ◌⊎◌, inl, inr,
  Bool, true, false, ◌&&◌, ◌||◌, some, List, [], ◌∷◌, arith, ltb, leb, ◌==◌, ==_refl, Bool-cases,
  Option-cases, length, get_or, take, drop, get_elem?-eq-get_or, bytes_eq, bytes_eq→eq, take_all,
  u32_mod, u64_mod, mul32, Exec, ret,
}

-- A word of eight bytes is read without a fault.
decode_loop-total : (p : List ℕ) (i v : ℕ) → i ≤ length p → (w : ℕ) × (decode_loop p i v ≡ ret w)
unfolding decode_loop
decode_loop-total p zero v h = (v, refl)
decode_loop-total p (suc i) v h =
    let got = get_elem?-eq-get_or p i 0 (omega arith) in
    let (w, e) =
      decode_loop-total p i (bit_or ((v * 2 ^ 8) % u64_mod) (get_or p i 0)) (omega arith) in
    (w, rw got e)

length-drop : (n : ℕ) (s : List ℕ) → n ≤ length s → length (drop n s) ≡ length s - n
length-drop zero s h = omega arith
length-drop (suc n) [] h = elim h [ ]
length-drop (suc n) (c ∷ s) h = omega (arith, length-drop n s (omega arith))

ascending_round :
    (blob : List ℕ) (n prev i w : ℕ) (b : Bool)
    → decode_le_u64 (drop (mul32 i 8) blob) ≡ ret w
    → ascending_loop blob w (suc i) n ≡ ret b
    → (b' : Bool) × (ascending_loop blob prev i (suc n) ≡ ret b')
unfolding ascending_loop
ascending_round blob n prev i w b e more = elim (Bool-cases (ltb 0 i && leb w prev)) [
  | inl t ↦ (false, rw (e, t) refl)
  | inr t ↦ (b, rw (e, t) more)
]

ascending_loop-total :
    (blob : List ℕ) (n prev i : ℕ)
    → (i + n) * 8 ≤ length blob
    → (i + n) * 8 < u32_mod
    → (b : Bool) × (ascending_loop blob prev i n ≡ ret b)
ascending_loop-total blob zero prev i h s = (true, unfold ascending_loop in refl)
ascending_loop-total blob (suc n) prev i h s =
    let small : mul32 i 8 ≡ i * 8 = omega arith in
    let long : 8 ≤ length (drop (i * 8) blob) =
      omega (arith, length-drop (i * 8) blob (omega arith)) in
    let (w, e) = decode_loop-total (drop (i * 8) blob) 8 0 long in
    let (b, more) = ascending_loop-total blob n w (suc i) (omega arith) (omega arith) in
    ascending_round blob n prev i w b
      (ap (λ (k : ℕ). decode_le_u64 (drop k blob)) small ∙ unfold decode_le_u64 in e) more

pub verify_blob-total :
    (sha256 : List ℕ → List ℕ) (blob : List ℕ) (count : ℕ) (want : List ℕ)
    → count * 8 ≤ length blob
    → count * 8 < u32_mod
    → (b : Bool) × (verify_blob sha256 blob (mul32 count 8) count want ≡ ret b)
      × ((b ≡ true) → sha256 (take (mul32 count 8) blob) ≡ want)
unfolding verify_blob
verify_blob-total sha256 blob count want h s =
    let (b, run) = ascending_loop-total blob count 0 0 (omega arith) (omega arith) in
    elim (Bool-cases (bytes_eq (sha256 (take (mul32 count 8) blob)) want)) [
      | inr t ↦ (false, rw (==_refl (mul32 count 8), t) refl, λ y. cc)
      | inl t ↦ (b, rw (==_refl (mul32 count 8), t) run, λ y. bytes_eq→eq _ want t)
    ]

-- What the load may leave: an error and nothing, or a whole artifact with the recorded digest.
abbrev pub Restored : Platform → EspErr → Artifact → Type 0
Restored plat err art =
    ((is_ok err ≡ false) × (art ≡ zeroed))
    ⊎ ((err ≡ esp_ok)
        × (0 < art.count)
        × (art.blob_len ≡ art.count * 8)
        × (length art.blob ≡ art.blob_len)
        × (plat.sha256 art.blob ≡ art.sha256))

restore_blob-Restored :
    (plat : Platform) (active count : ℕ) (sha256 : List ℕ)
    → 0 < count
    → count < 2 ^ 29
    → (err : EspErr) × (art : Artifact) × (restore_blob plat active count sha256 ≡ ret (err, art))
      × Restored plat err art
unfolding restore_blob
restore_blob-Restored plat active count sha256 pos small =
    elim (Bool-cases (is_ok (plat.read_flash active (mul32 count 8)).0)) [
      | inr bad ↦ (esp_fail, zeroed, rw bad refl, inl (refl, refl))
      | inl good ↦
          let size : mul32 count 8 ≡ count * 8 = omega arith in
          let blob : List ℕ = (plat.read_flash active (mul32 count 8)).1 in
          let len : length blob ≡ mul32 count 8 =
            plat.read_flash-length active (mul32 count 8) (is_ok→eq _ good) in
          let (b, run, digest) =
            verify_blob-total plat.sha256 blob count sha256 (omega (arith, len, size))
              (omega arith) in
          elim (Bool-cases b) [
            | inr refused ↦ (invalid_crc, zeroed, rw (good, run, refused) refl, inl (refl, refl))
            | inl yes_verified ↦
                let all : take (mul32 count 8) blob ≡ blob =
                  ap (λ (n : ℕ). take n blob) (sym len) ∙ take_all blob in
                (
                  esp_ok,
                  record { blob = blob; blob_len = mul32 count 8; count = count; sha256 = sha256 },
                  rw (good, run, yes_verified) refl,
                  inr (refl, pos, size, len, ap plat.sha256 (sym all) ∙ digest yes_verified),
                )
          ]
    ]

-- A run ends, and leaves one of the two.
abbrev pub Restores : Platform → Exec (EspErr × Artifact) → Type 0
Restores plat run =
    (err : EspErr) × (art : Artifact) × (run ≡ ret (err, art)) × Restored plat err art

restore_slot-Restores :
    (plat : Platform) (active count : ℕ) (sha256 : List ℕ)
    → count < 2 ^ 29
    → Restores plat (restore_slot plat active count sha256)
unfolding restore_slot
restore_slot-Restores plat active count sha256 small =
    elim (Option-cases (plat.partition_size active)) [
      | inl e ↦ (not_found, zeroed, rw (e, restore_slot) refl, inl (refl, refl))
      | inr (size, e) ↦ elim (Bool-cases (mul32 count 8 == 0 || ltb size (mul32 count 8))) [
        | inl bad ↦ (invalid_size, zeroed, rw (e, restore_slot) (rw bad refl), inl (refl, refl))
        | inr fits ↦ elim (Bool-cases (plat.realloc (mul32 count 8))) [
          | inr none_left ↦
              (no_mem, zeroed, rw (e, restore_slot) (rw (fits, none_left) refl), inl (refl, refl))
          | inl granted ↦
              let (err, art, run, r) =
                restore_blob-Restored plat active count sha256 (ground arith) small in
              (err, art, rw (e, restore_slot) (rw (fits, granted) run), r)
        ]
      ]
    ]

restore_record-Restores :
    (plat : Platform) (nvs : Nvs) (kv : nvs.Store) (active : ℕ)
    → ((c : ℕ) → nvs.get_num kv (cnt_key active) ≡ some c → c < 2 ^ 29)
    → Restores plat (restore_record plat nvs kv active)
unfolding restore_record
restore_record-Restores plat nvs kv active small =
    elim (Option-cases (nvs.get_num kv (cnt_key active))) [
      | inl e ↦ (not_found, zeroed, rw (e, restore_record) refl, inl (refl, refl))
      | inr (count, e) ↦ elim (Option-cases (nvs.get_bytes kv (sha_key active))) [
        | inl f ↦ (not_found, zeroed, rw (e, f, restore_record) refl, inl (refl, refl))
        | inr (sha, f) ↦ elim (Bool-cases (length sha == 32)) [
          | inr short ↦
              (not_found, zeroed, rw (e, f, restore_record) (rw short refl), inl (refl, refl))
          | inl whole ↦
              let (err, art, run, r) =
                restore_slot-Restores plat active count sha (small count e) in
              (err, art, rw (e, f, restore_record) (rw whole run), r)
        ]
      ]
    ]

-- Restoring always ends without reading outside its buffer: it fails and hands out nothing, or it
-- hands out a non-empty artifact, all of its bytes there, whose digest is the one it carries. The
-- counts on record must be below 2 ^ 29.
pub artifact_store_load-Restores :
    (plat : Platform) (nvs : Nvs) (kv : nvs.Store)
    → ((slot c : ℕ) → nvs.get_num kv (cnt_key slot) ≡ some c → c < 2 ^ 29)
    → Restores plat (artifact_store_load plat nvs kv)
unfolding artifact_store_load
artifact_store_load-Restores plat nvs kv small = elim (Bool-cases (is_ok plat.opened)) [
  | inr e ↦ (not_found, zeroed, rw e refl, inl (refl, refl))
  | inl e ↦ elim (Bool-cases (leb artifact_slots (recorded_active plat nvs kv))) [
    | inl f ↦ (not_found, zeroed, rw (e, f) refl, inl (refl, refl))
    | inr f ↦
        let (err, art, run, r) =
          restore_record-Restores plat nvs kv (recorded_active plat nvs kv)
            (small (recorded_active plat nvs kv)) in
        (err, art, rw (e, f) run, r)
  ]
]
