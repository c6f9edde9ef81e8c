-- ===== src/Updater/Download/Complete.antt =====
-- A download that nothing disturbs.
use esp_hole.Blocklist.Device.{EspErr, esp_ok, is_ok}
use esp_hole.Updater.Manifest.{Manifest}
use esp_hole.Updater.Download.{
  Chunk, Transfer, read_loop, check_body, download_body, download_open, download_to_slot,
}
use esp_hole.Base.{
  ℕ, ◌+◌, ◌^◌, ◌≤◌, ◌<◌, ◌≡◌, refl, sym, ap, ◌∙◌, true, false, Option, some, List, [], ◌∷◌, ◌++◌,
  map, append-nil, append_assoc, arith, ltb, ◌==◌, le→ltb_false, ne→==_false, length, length-append,
  bytes_eq_refl, All, add32,
}

-- The bytes of the chunks.
abbrev pub body : List Chunk → List ℕ
body [] = []
body (c ∷ cs) = c.bytes ++ body cs

-- A chunk that was read, hashed and written.
pub record IsTaken (c : Chunk) : Type 0 where
  pub nonempty : 0 < length c.bytes
  pub hashed : c.hashed ≡ true
  pub written : is_ok c.written ≡ true

-- The slot, the connection and the hash answer as asked.
pub record IsReady (m : Manifest) (t : Transfer) (size : ℕ) : Type 0 where
  pub part : t.part_size ≡ some size
  pub room : m.size ≤ size
  pub small : size < 2 ^ 31
  pub erased : is_ok t.erased ≡ true
  pub client : t.client ≡ true
  pub hash_setup : t.hash_setup ≡ true
  pub opened : is_ok t.opened ≡ true
  pub status : t.status ≡ 200

read_loop_complete :
    (size : ℕ) (done : List ℕ) (chunks : List Chunk)
    → All IsTaken chunks
    → length done + length (body chunks) ≤ size
    → size < 2 ^ 31
    → read_loop size done (map (λ c. some c) chunks) ≡ (esp_ok, done ++ body chunks)
unfolding read_loop
read_loop_complete size done [] a fits small =
    ap (λ (s : List ℕ). (esp_ok, s)) (sym (append-nil done))
read_loop_complete size done (c ∷ cs) a fits small =
    let len = length-append c.bytes (body cs) in
    let more : (length c.bytes == 0) ≡ false =
      ne→==_false (length c.bytes) 0 (λ e. omega (arith, a.0.nonempty, e)) in
    let room : ltb size (add32 (length done) (length c.bytes)) ≡ false =
      le→ltb_false size (add32 (length done) (length c.bytes)) (omega (arith, fits, len, small)) in
    rw (more, room, a.0.hashed, a.0.written)
      (read_loop_complete size (done ++ c.bytes) cs a.1
          (omega (arith, fits, len, length-append done c.bytes)) small
        ∙ ap (λ (s : List ℕ). (esp_ok, s)) (append_assoc done c.bytes (body cs)))

check_body_complete :
    (m : Manifest) (digest : List ℕ → Option (List ℕ)) (done : List ℕ)
    → length done ≡ m.size
    → digest done ≡ some m.sha256
    → length m.sha256 ≡ 32
    → check_body m digest done ≡ esp_ok
unfolding check_body
check_body_complete m digest done len sha n =
    let same : (length done == m.size) ≡ true = ground (arith, len) in
    let whole : (length m.sha256 == 32) ≡ true = ground (arith, n) in
    rw (same, sha, whole, bytes_eq_refl m.sha256) refl

-- Where the slot has room and below 2 ^ 31 bytes, the connection answers 200, and every chunk is taken,
-- the download ends without an error, with the whole body written, however it is cut into chunks: its
-- size and its digest are the manifest's.
pub download_to_slot_complete :
    (m : Manifest) (t : Transfer) (size : ℕ) (chunks : List Chunk)
    → IsReady m t size
    → t.reads ≡ map (λ c. some c) chunks
    → All IsTaken chunks
    → length (body chunks) ≡ m.size
    → t.digest (body chunks) ≡ some m.sha256
    → length m.sha256 ≡ 32
    → download_to_slot m t ≡ (esp_ok, body chunks)
unfolding download_to_slot download_open download_body
download_to_slot_complete m t size chunks r reads a len sha n =
    let fits : ltb size m.size ≡ false = le→ltb_false size m.size r.room in
    let good : (t.status == 200) ≡ true = ground (arith, r.status) in
    let run : read_loop m.size [] t.reads ≡ (esp_ok, body chunks) =
      ap (read_loop m.size []) reads
      ∙ read_loop_complete m.size [] chunks a (omega (arith, len))
          (omega (arith, r.room, r.small)) in
    rw (r.part, fits, r.erased, r.client, r.hash_setup, r.opened, good, run)
      (ap (λ (e : EspErr). (e, body chunks))
        (check_body_complete m t.digest (body chunks) len sha n))
