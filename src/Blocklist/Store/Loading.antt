-- ===== src/Blocklist/Store/Loading.antt =====
-- load_slot of main/blocklist.c, on every branch.
use esp_hole.Blocklist.Device.{
  EspErr, esp_ok, esp_fail, not_found, invalid_size, no_mem, invalid_crc, invalid_state, is_ok,
  cnt_key, sha_key, ver_key, Nvs, Device,
}
use esp_hole.Blocklist.Store.{
  Served, min_domains, version_max, words_of, sorted_loop, version_of, validate_slot, size_slot,
  load_slot,
}
use esp_hole.Base.{
  ℕ, zero, suc, ◌-◌, ◌*◌, ◌^◌, ◌≤◌, ◌<◌, ◌≡◌, refl, sym, ap, ◌∙◌, ◌⊎◌, inl, inr, Bool, true, false,
  ◌||◌, some, List, [], ◌∷◌, ◌++◌, append_assoc, arith, ltb, leb, ◌==◌, if◌then◌else◌, Bool-cases,
  Option-cases, length, get_elem?, take, length-append, get_elem?-append_length, bytes_eq,
  bytes_eq→eq, Above, IsAscending, mul32, Exec, ret,
}

pub words_of-length : (n : ℕ) (bytes : List ℕ) → length bytes ≡ n * 8 → length (words_of bytes) ≡ n
unfolding words_of
words_of-length zero [] h = refl
words_of-length zero (b ∷ bytes) h = absurd (omega arith)
words_of-length (suc n) (b0 ∷ b1 ∷ b2 ∷ b3 ∷ b4 ∷ b5 ∷ b6 ∷ b7 ∷ rest) h =
    omega (arith, words_of-length n rest)
words_of-length (suc n) bytes h = absurd (omega arith)

-- The order test on the words themselves.
abbrev pub above_test : ℕ → List ℕ → Bool
above_test a [] = true
above_test a (x ∷ xs) = if leb x a then false else above_test x xs

above_test-Above : (a : ℕ) (xs : List ℕ) → above_test a xs ≡ true → Above a xs
above_test-Above a [] h = tt
above_test-Above a (x ∷ xs) h = ground (arith, above_test-Above x xs)

Above-above_test : (a : ℕ) (xs : List ℕ) → Above a xs → above_test a xs ≡ true
Above-above_test a [] h = refl
Above-above_test a (x ∷ xs) h = ground (arith, Above-above_test x xs)

sorted_loop-from :
    (buf done : List ℕ) (a : ℕ) (todo : List ℕ)
    → buf ≡ done ++ a ∷ todo
    → sorted_loop buf (suc (length done)) (length todo) ≡ ret (above_test a todo)
unfolding sorted_loop
sorted_loop-from buf done a [] e = refl
sorted_loop-from buf done a (x ∷ todo) e =
    let e' : buf ≡ (done ++ a ∷ []) ++ x ∷ todo = e ∙ sym (append_assoc done (a ∷ []) (x ∷ todo)) in
    let size : length (done ++ a ∷ []) ≡ suc (length done) =
      length-append done (a ∷ []) ∙ omega arith in
    let here : get_elem? buf (length done) ≡ some a =
      rw e (get_elem?-append_length done a (x ∷ todo)) in
    let next : get_elem? buf (suc (length done)) ≡ some x =
      rw (← size, e') (get_elem?-append_length (done ++ a ∷ []) x todo) in
    let back : suc (length done) - 1 ≡ length done = omega arith in
    let ih = rw size at (sorted_loop-from buf (done ++ a ∷ []) x todo e') in
    rw (back, here, next) (ground (arith, ih))

abbrev ascending_test : List ℕ → Bool
ascending_test [] = true
ascending_test (a ∷ xs) = above_test a xs

sorted_loop-whole : (buf : List ℕ) → sorted_loop buf 1 (length buf - 1) ≡ ret (ascending_test buf)
unfolding sorted_loop
sorted_loop-whole [] = refl
sorted_loop-whole (a ∷ buf) =
    let n : suc (length buf) - 1 ≡ length buf = omega arith in
    rw n (sorted_loop-from (a ∷ buf) [] a buf refl)

pub ascending_test_sound : (buf : List ℕ) → ascending_test buf ≡ true → IsAscending buf
ascending_test_sound [] h = tt
ascending_test_sound (a ∷ buf) h = above_test-Above a buf h

pub ascending_test_complete : (buf : List ℕ) → IsAscending buf → ascending_test buf ≡ true
ascending_test_complete [] h = refl
ascending_test_complete (a ∷ buf) h = Above-above_test a buf h

pub is_ok→eq : (e : EspErr) → is_ok e ≡ true → e ≡ esp_ok
is_ok→eq e h = ground arith

-- What a loaded list is: its count and digest are those recorded for the slot, it has at least
-- 10000 entries, and they are strictly ascending.
pub record IsLoaded (dev : Device) (slot count : ℕ) (sha_want version : List ℕ) (st : Served)
    : Type 0 where
  pub count_is : st.count ≡ count
  pub floor : min_domains ≤ st.count
  pub whole : length st.hashes ≡ st.count
  pub ascending : IsAscending st.hashes
  pub bytes_are : st.hashes ≡ words_of (dev.read_flash slot (count * 8)).1
  pub digest : dev.sha256 (dev.read_flash slot (count * 8)).1 ≡ some sha_want
  pub slot_is : st.active ≡ some slot
  pub version_is : st.version ≡ take (version_max - 1) version

abbrev pub Outcome : Device → ℕ → ℕ → List ℕ → List ℕ → Served → EspErr → Served → Type 0
Outcome dev slot count sha_want version st err st' =
    ((err ≡ esp_ok) × IsLoaded dev slot count sha_want version st')
    ⊎ ((is_ok err ≡ false) × (st' ≡ st))

abbrev pub Result : Device → Served → ℕ → ℕ → List ℕ → List ℕ → Exec (EspErr × Served) → Type 0
Result dev st slot count sha_want version run =
    (err : EspErr) × (st' : Served) × (run ≡ ret (err, st'))
    × Outcome dev slot count sha_want version st err st'

module _ (dev : Device) (st : Served) (slot count : ℕ) (sha_want version : List ℕ)
    (small : count < 2 ^ 29) (enough : min_domains ≤ count) where
  abbrev bytes : List ℕ
  bytes = (dev.read_flash slot (count * 8)).1

  size_exact : mul32 count 8 ≡ count * 8
  size_exact = omega arith

  full : (dev.read_flash slot (count * 8)).0 ≡ esp_ok → length (words_of bytes) ≡ count
  full e = words_of-length count bytes (dev.read_flash-length slot (count * 8) e)

  order_test :
      (dev.read_flash slot (count * 8)).0 ≡ esp_ok
      → sorted_loop (words_of bytes) 1 (count - 1) ≡ ret (ascending_test (words_of bytes))
  order_test e =
      (let n : count - 1 ≡ length (words_of bytes) - 1 = omega (arith, full e) in
        rw n (sorted_loop-whole (words_of bytes)))

  validate_slot-Outcome :
      Result dev st slot count sha_want version (validate_slot dev st slot count sha_want version)
  unfolding validate_slot
  validate_slot-Outcome = elim (Bool-cases (is_ok (dev.read_flash slot (count * 8)).0)) [
    | inr bad ↦
        ((dev.read_flash slot (count * 8)).0, st, rw (size_exact, bad) refl, inr (bad, refl))
    | inl good ↦
        let read_ok = is_ok→eq _ good in
        elim (Option-cases (dev.sha256 bytes)) [
          | inl e ↦ (esp_fail, st, rw (size_exact, good, e) refl, inr (refl, refl))
          | inr (sha_got, e) ↦ elim (Bool-cases (bytes_eq sha_got sha_want)) [
            | inr ne ↦ (invalid_crc, st, rw (size_exact, good, e, ne) refl, inr (refl, refl))
            | inl eq ↦ elim (Bool-cases (ascending_test (words_of bytes))) [
              | inr unsorted ↦ (
                invalid_state,
                st,
                rw (size_exact, good, e, eq, size_exact, order_test read_ok, unsorted) refl,
                inr (refl, refl),
              )
              | inl sorted ↦ (
                esp_ok,
                record {
                  hashes = words_of bytes;
                  count = count;
                  active = some slot;
                  version = take (version_max - 1) version;
                },
                rw (size_exact, good, e, eq, size_exact, order_test read_ok, sorted) refl,
                inl (
                  refl,
                  record {
                    count_is = refl;
                    floor = enough;
                    whole = full read_ok;
                    ascending = ascending_test_sound (words_of bytes) sorted;
                    bytes_are = refl;
                    digest = e ∙ ap some (bytes_eq→eq sha_got sha_want eq);
                    slot_is = refl;
                    version_is = refl;
                  },
                ),
              )
            ]
          ]
        ]
  ]

module _ (dev : Device) (st : Served) (slot count : ℕ) (sha_want version : List ℕ)
    (small : count < 2 ^ 29) where
  size_slot-Outcome :
      Result dev st slot count sha_want version (size_slot dev st slot count sha_want version)
  unfolding size_slot
  size_slot-Outcome = elim (Option-cases (dev.partition_size slot)) [
    | inl e ↦ (not_found, st, rw (e, size_slot) refl, inr (refl, refl))
    | inr (size, e) ↦ elim (Bool-cases (ltb count min_domains || ltb size (mul32 count 8))) [
      | inl bad ↦ (invalid_size, st, rw (e, bad, size_slot) refl, inr (refl, refl))
      | inr fine ↦ elim (Bool-cases (dev.malloc (mul32 count 8))) [
        | inr refused ↦ (no_mem, st, rw (e, fine, refused, size_slot) refl, inr (refl, refl))
        | inl granted ↦
            let (err, st', run, outcome) =
              validate_slot-Outcome dev st slot count sha_want version small (ground arith) in
            (err, st', rw (e, fine, granted, size_slot) run, outcome)
      ]
    ]
  ]

-- A slot has no usable record, or a count and a digest of 32 bytes.
abbrev pub LoadResult :
    (dev : Device) (nvs : Nvs) → nvs.Store → Served → ℕ → Exec (EspErr × Served) → Type 0
LoadResult dev nvs kv st slot run =
    (err : EspErr) × (st' : Served) × (run ≡ ret (err, st'))
    × (((err ≡ esp_ok)
          × (count : ℕ) × (sha_want : List ℕ) × (nvs.get_num kv (cnt_key slot) ≡ some count)
          × (nvs.get_bytes kv (sha_key slot) ≡ some sha_want)
          × IsLoaded dev slot count sha_want (version_of (nvs.get_bytes kv (ver_key slot))) st')
        ⊎ ((is_ok err ≡ false) × (st' ≡ st)))

-- Loading a slot always ends without reading outside its buffer: either it succeeds, and the list
-- served now is the recorded one, at least 10000 entries, strictly ascending, of the recorded digest;
-- or it fails, and the list served before is untouched. The recorded count times eight must fit 32 bits.
pub load_slot-LoadResult :
    (dev : Device) (nvs : Nvs) (kv : nvs.Store) (st : Served) (slot : ℕ)
    → ((c : ℕ) → nvs.get_num kv (cnt_key slot) ≡ some c → c < 2 ^ 29)
    → LoadResult dev nvs kv st slot (load_slot dev nvs kv st slot)
unfolding load_slot
load_slot-LoadResult dev nvs kv st slot small =
    elim (Option-cases (nvs.get_num kv (cnt_key slot))) [
      | inl e ↦ (not_found, st, rw (e, load_slot) refl, inr (refl, refl))
      | inr (count, e) ↦ elim (Option-cases (nvs.get_bytes kv (sha_key slot))) [
        | inl f ↦ (not_found, st, rw (e, f, load_slot) refl, inr (refl, refl))
        | inr (sha_want, f) ↦ elim (Bool-cases (length sha_want == 32)) [
          | inr short ↦ (not_found, st, rw (e, f, short, load_slot) refl, inr (refl, refl))
          | inl full_sha ↦
              let version = version_of (nvs.get_bytes kv (ver_key slot)) in
              let (err, st', run, outcome) =
                size_slot-Outcome dev st slot count sha_want version (small count e) in
              (
                err,
                st',
                rw (e, f, full_sha, load_slot) run,
                elim outcome [
                  | inl (good, loaded) ↦ inl (good, count, sha_want, e, f, loaded)
                  | inr kept ↦ inr kept
                ],
              )
        ]
      ]
    ]
