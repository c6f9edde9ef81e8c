-- ===== src/Updater/Download/Verified.antt =====
-- What download_to_slot of main/updater.c leaves in the slot.
use esp_hole.Blocklist.Device.{esp_ok, is_ok}
use esp_hole.Updater.Manifest.{Manifest}
use esp_hole.Updater.Download.{
  Chunk, Transfer, read_loop, check_body, download_body, download_open, download_to_slot,
}
use esp_hole.Base.{
  ℕ, ◌^◌, ◌≤◌, ◌<◌, ◌≡◌, refl, subst, inl, inr, Option, none, some, List, [], ◌∷◌, ◌++◌, arith, ltb,
  ltb_false→le, Bool-cases, Option-cases, length, length-append, bytes_eq→eq, All,
}

-- The bytes written never exceed the size on the manifest.
read_loop-bounded :
    (size : ℕ) (done : List ℕ) (reads : List (Option Chunk))
    → size < 2 ^ 31
    → length done ≤ size
    → All (λ r. (c : Chunk) → r ≡ some c → length c.bytes ≤ 4096) reads
    → length (read_loop size done reads).1 ≤ size
unfolding read_loop
read_loop-bounded size done [] s h a = h
read_loop-bounded size done (none ∷ reads) s h a = h
read_loop-bounded size done (some c ∷ reads) s h a =
    let chunk : length c.bytes ≤ 4096 = a.0 c refl in
    let step : length (done ++ c.bytes) ≤ size
        → length (read_loop size (done ++ c.bytes) reads).1 ≤ size =
      λ k. read_loop-bounded size (done ++ c.bytes) reads s k a.1 in
    ground (arith, step, length-append done c.bytes)

check_body-ok :
    (m : Manifest) (digest : List ℕ → Option (List ℕ)) (done : List ℕ)
    → check_body m digest done ≡ esp_ok
    → (length done ≡ m.size) × (digest done ≡ some m.sha256) × (length m.sha256 ≡ 32)
unfolding check_body
check_body-ok m digest done e = elim (Option-cases (digest done)) [
  | inl d ↦ absurd (ground (arith, d, e))
  | inr (sha, d) ↦ ground (arith, d, e, bytes_eq→eq sha m.sha256)
]

download_body-verified :
    (m : Manifest) (t : Transfer) (bytes : List ℕ)
    → download_body m t ≡ (esp_ok, bytes)
    → (length bytes ≡ m.size) × (t.digest bytes ≡ some m.sha256) × (length m.sha256 ≡ 32)
unfolding download_body
download_body-verified m t bytes e = elim (Bool-cases (is_ok (read_loop m.size [] t.reads).0)) [
  | inr bad ↦ absurd (ground (arith, bad, e))
  | inl good ↦
      let checked : check_body m t.digest (read_loop m.size [] t.reads).1 ≡ esp_ok =
        ground (arith, good, e) in
      let same : (read_loop m.size [] t.reads).1 ≡ bytes = ground (arith, good, e) in
      subst
        (λ (b : List ℕ).
          (length b ≡ m.size) × (t.digest b ≡ some m.sha256) × (length m.sha256 ≡ 32))
        same (check_body-ok m t.digest (read_loop m.size [] t.reads).1 checked)
]

open_body :
    (m : Manifest) (t : Transfer) (bytes : List ℕ)
    → download_open m t ≡ (esp_ok, bytes)
    → download_body m t ≡ (esp_ok, bytes)
unfolding download_open
open_body m t bytes e = ground (arith, e)

-- A download succeeds only if the slot has room for the size on the manifest and the bytes written to
-- it have that size and the digest on the manifest.
pub download_to_slot-verified :
    (m : Manifest) (t : Transfer) (bytes : List ℕ) (size : ℕ)
    → t.part_size ≡ some size
    → download_to_slot m t ≡ (esp_ok, bytes)
    → (m.size ≤ size)
      × (length bytes ≡ m.size)
      × (t.digest bytes ≡ some m.sha256)
      × (length m.sha256 ≡ 32)
unfolding download_to_slot
download_to_slot-verified m t bytes size p e =
    let opens : (m.size ≤ size) × (download_open m t ≡ (esp_ok, bytes)) = ground (arith, p, e) in
    let (l, d, n) = download_body-verified m t bytes (open_body m t bytes opens.1) in
    (opens.0, l, d, n)

-- Whatever the answers are, a download writes no more bytes than the slot has, where a slot has less
-- than 2 ^ 31 bytes and a chunk at most the 4096 of the buffer.
pub download_to_slot-bounded :
    (m : Manifest) (t : Transfer) (size : ℕ)
    → t.part_size ≡ some size
    → size < 2 ^ 31
    → All (λ r. (c : Chunk) → r ≡ some c → length c.bytes ≤ 4096) t.reads
    → length (download_to_slot m t).1 ≤ size
unfolding download_to_slot download_open download_body
download_to_slot-bounded m t size p s a = elim (Bool-cases (ltb size m.size)) [
  | inl large ↦ rw (p, large) (omega arith)
  | inr fits ↦
      let bound : m.size ≤ size = ltb_false→le size m.size fits in
      let l : length (read_loop m.size [] t.reads).1 ≤ m.size =
        read_loop-bounded m.size [] t.reads (omega arith) (omega arith) a in
      ground (arith, p, l, bound)
]
