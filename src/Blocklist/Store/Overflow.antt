-- ===== src/Blocklist/Store/Overflow.antt =====
-- A recorded count of 2 ^ 29 or more: `count * sizeof(uint64_t)` wraps in the 32-bit `size_t`, so the
-- buffer holds fewer words than the order loop of load_slot goes through.
use esp_hole.Blocklist.Device.{esp_ok, cnt_key, sha_key, Nvs, Device}
use esp_hole.Blocklist.Store.{
  Served, min_domains, words_of, sorted_loop, validate_slot, size_slot, load_slot,
}
use esp_hole.Blocklist.Store.Loading.{words_of-length}
use esp_hole.Base.{
  ℕ, zero, suc, ◌+◌, ◌-◌, ◌*◌, ◌^◌, ◌≤◌, ◌<◌, ◌≡◌, refl, sym, ap, ◌∙◌, true, false, ◌||◌, none,
  some, List, [], ◌∷◌, ◌++◌, append_assoc, arith, ltb, ◌==◌, length, get_elem?, length-append,
  get_elem?-none, get_elem?-append_length, bytes_eq_refl, Above, IsAscending, mul32, fault,
}

-- Past the last of ascending words the loop reads outside the buffer.
sorted_loop_overrun :
    (n : ℕ) (buf done : List ℕ) (a : ℕ) (todo : List ℕ)
    → buf ≡ done ++ a ∷ todo
    → Above a todo
    → length todo < n
    → sorted_loop buf (suc (length done)) n ≡ fault
unfolding sorted_loop
sorted_loop_overrun zero buf done a todo e up h = elim h [ ]
sorted_loop_overrun (suc n) buf done a [] e up h =
    let back : suc (length done) - 1 ≡ length done = omega arith in
    let here : get_elem? buf (length done) ≡ some a = rw e (get_elem?-append_length done a []) in
    let past : get_elem? buf (suc (length done)) ≡ none =
      get_elem?-none buf (suc (length done))
        (omega (arith, ap length e, length-append done (a ∷ []))) in
    rw (back, here, past) refl
sorted_loop_overrun (suc n) buf done a (x ∷ todo) e up h =
    let e' : buf ≡ (done ++ a ∷ []) ++ x ∷ todo = e ∙ sym (append_assoc done (a ∷ []) (x ∷ todo)) in
    let size : length (done ++ a ∷ []) ≡ suc (length done) =
      length-append done (a ∷ []) ∙ omega arith in
    let back : suc (length done) - 1 ≡ length done = omega arith in
    let here : get_elem? buf (length done) ≡ some a =
      rw e (get_elem?-append_length done a (x ∷ todo)) in
    let next : get_elem? buf (suc (length done)) ≡ some x =
      rw (← size, e') (get_elem?-append_length (done ++ a ∷ []) x todo) in
    let ih = rw size at (sorted_loop_overrun n buf (done ++ a ∷ []) x todo e' up.1 (omega arith)) in
    rw (back, here, next) (ground (arith, ih))

overrun :
    (buf : List ℕ) (n : ℕ)
    → 0 < length buf
    → IsAscending buf
    → length buf ≤ n
    → sorted_loop buf 1 n ≡ fault
overrun [] n pos up h = elim pos [ ]
overrun (a ∷ buf) n pos up h = sorted_loop_overrun n (a ∷ buf) [] a buf refl up (omega arith)

-- A record that passes every check before the order loop, with `k` ascending words in the slot and
-- 2 ^ 29 + k of them on record, makes load_slot read outside its buffer.
pub load_slot_overrun :
    (dev : Device) (nvs : Nvs) (kv : nvs.Store) (st : Served) (slot k size : ℕ) (sha : List ℕ)
    → 0 < k
    → k < 2 ^ 29
    → nvs.get_num kv (cnt_key slot) ≡ some (2 ^ 29 + k)
    → nvs.get_bytes kv (sha_key slot) ≡ some sha
    → length sha ≡ 32
    → dev.partition_size slot ≡ some size
    → k * 8 ≤ size
    → dev.malloc (k * 8) ≡ true
    → (dev.read_flash slot (k * 8)).0 ≡ esp_ok
    → dev.sha256 (dev.read_flash slot (k * 8)).1 ≡ some sha
    → IsAscending (words_of (dev.read_flash slot (k * 8)).1)
    → load_slot dev nvs kv st slot ≡ fault
unfolding load_slot size_slot validate_slot
load_slot_overrun dev nvs kv st slot k size sha pos small cnt rec len part room granted good digest
      up =
    let bytes : List ℕ = (dev.read_flash slot (k * 8)).1 in
    let wrap : mul32 (2 ^ 29 + k) 8 ≡ k * 8 = omega arith in
    let t1 : (length sha == 32) ≡ true = ground arith in
    let t2 : (ltb (2 ^ 29 + k) min_domains || ltb size (k * 8)) ≡ false = ground arith in
    let words : length (words_of bytes) ≡ k =
      words_of-length k bytes (dev.read_flash-length slot (k * 8) good) in
    let past = overrun (words_of bytes) (2 ^ 29 + k - 1) (omega arith) up (omega arith) in
    rw (cnt, rec, t1, load_slot)
      (rw (part, size_slot)
        (rw (wrap, t2, granted) (rw (good, digest, bytes_eq_refl sha) (rw (wrap, past) refl))))
