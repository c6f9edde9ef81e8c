-- ===== src/Updater/Download.antt =====
-- download_to_slot of main/updater.c. What the HTTP client, the hash and the flash answer is an
-- argument, in the order of the calls.
pub mod Verified
pub mod Complete
use esp_hole.Blocklist.Device.{
  EspErr, esp_ok, esp_fail, not_found, invalid_size, no_mem, invalid_crc, is_ok,
}
use esp_hole.Updater.Manifest.{Manifest}
use esp_hole.Base.{
  ℕ, zero, suc, ◌+◌, ◌-◌, ◌*◌, ◌/◌, ◌%◌, ◌^◌, ◌≤◌, ◌<◌, bit_and, bit_or, bit_xor, ◌≡◌, refl, sym,
  ap, ap₂, ◌∙◌, subst, ◌≢◌, ◌↔◌, ◌⊎◌, inl, inr, Bool, true, false, ◌&&◌, ◌||◌, not, Option, none,
  some, List, [], ◌∷◌, ◌++◌, map, append-nil, append_assoc, map-append, arith, ltb, leb, ◌==◌,
  if◌then◌else◌, ltb→lt, lt→ltb, ltb_false→le, le→ltb_false, leb→le, le→leb, ==→eq, ==_false→ne,
  ==_refl, ne→==_false, tests, Bool-cases, Option-cases, length, get_elem?, get_or, set, take, drop,
  replicate, length-append, get_elem?-eq-get_or, get_elem?-none, get_elem?-append_length,
  length-set, get_elem?-set_self, length-take, take-append, drop-append, elem, bytes_eq,
  bytes_eq→eq, bytes_eq_refl, All, All-mono, All-elem_self, take_all, length-map, All-get,
  elem-append, elem_of_get, not_elem_of_get, Above, IsAscending, Above-lt, IsAscending-lt, u8_mod,
  u32_mod, u64_mod, add32, sub32, mul32, mul64, Exec, ret, fault, no_fuel, ◌>>=◌, read,
}

-- A chunk that was read, whether the hash takes it, and what the flash answers to writing it.
pub record Chunk : Type 0 where
  pub bytes : List ℕ
  pub hashed : Bool
  pub written : EspErr

-- The answers of one download. `reads` ends where the body does; `none` is a failed read. `digest`
-- finishes the hash over what was fed to it.
pub record Transfer : Type 0 where
  pub part_size : Option ℕ
  pub erased : EspErr
  pub client : Bool
  pub hash_setup : Bool
  pub opened : EspErr
  pub status : ℕ
  pub reads : List (Option Chunk)
  pub digest : List ℕ → Option (List ℕ)

-- The loop over the body, with the bytes written so far.
unfoldable pub read_loop : ℕ → List ℕ → List (Option Chunk) → EspErr × List ℕ
read_loop size done [] = (esp_ok, done)
read_loop size done (none ∷ reads) = (esp_fail, done)
read_loop size done (some c ∷ reads) =
    let rest = read_loop size (done ++ c.bytes) reads in
    if length c.bytes == 0
    then (esp_ok, done)
    else if ltb size (add32 (length done) (length c.bytes))
    then (invalid_size, done)
    else if not c.hashed
    then (esp_fail, done)
    else if not (is_ok c.written)
    then (c.written, done)
    else rest

-- The checks after the loop.
unfoldable pub check_body : Manifest → (List ℕ → Option (List ℕ)) → List ℕ → EspErr
check_body m digest done =
    if not (length done == m.size) then invalid_size else elim (digest done) [
      | none ↦ esp_fail
      | some sha_got ↦
          if not (length sha_got == 32)
          then esp_fail
          else if not (bytes_eq sha_got m.sha256)
          then invalid_crc
          else esp_ok
    ]

-- The error, and the bytes that were written to the slot.
unfoldable pub download_body : Manifest → Transfer → EspErr × List ℕ
download_body m t =
    let (err, done) = read_loop m.size [] t.reads in
    if not (is_ok err) then (err, done) else (check_body m t.digest done, done)

unfoldable pub download_open : Manifest → Transfer → EspErr × List ℕ
download_open m t =
    if not t.client
    then (no_mem, [])
    else if not t.hash_setup
    then (esp_fail, [])
    else if not (is_ok t.opened)
    then (t.opened, [])
    else if not (t.status == 200)
    then (esp_fail, [])
    else download_body m t

unfoldable pub download_to_slot : Manifest → Transfer → EspErr × List ℕ
download_to_slot m t = elim t.part_size [
  | none ↦ (not_found, [])
  | some size ↦
      if ltb size m.size
      then (invalid_size, [])
      else if not (is_ok t.erased)
      then (t.erased, [])
      else download_open m t
]
