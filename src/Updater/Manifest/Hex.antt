-- ===== src/Updater/Manifest/Hex.antt =====
-- parse_sha256_hex of main/updater.c on printed digests.
use esp_hole.Base.Bits.{bit_or_shifted}
use esp_hole.Updater.Manifest.{hex_nibble, hex_loop, parse_sha256_hex}
use esp_hole.Base.{
  ℕ, ◌+◌, ◌*◌, ◌/◌, ◌%◌, ◌^◌, ◌<◌, bit_or, ◌≡◌, refl, ap, ◌∙◌, true, some, List, [], ◌∷◌, arith,
  ltb, ◌==◌, if◌then◌else◌, length, All,
}

-- A lower-case hexadecimal digit.
unfoldable pub digit : ℕ → ℕ
digit n = if ltb n 10 then 48 + n else 87 + n

abbrev pub to_hex : List ℕ → List ℕ
to_hex [] = []
to_hex (b ∷ bs) = digit (b / 16) ∷ digit (b % 16) ∷ to_hex bs

hex_nibble-digit : (n : ℕ) → n < 16 → hex_nibble (digit n) ≡ some n
unfolding hex_nibble digit
hex_nibble-digit n h = ground arith

length-to_hex : (bs : List ℕ) → length (to_hex bs) ≡ 2 * length bs
length-to_hex [] = omega arith
length-to_hex (b ∷ bs) = omega (arith, length-to_hex bs)

hex_loop-to_hex : (bs : List ℕ) → All (λ b. b < 256) bs → hex_loop (to_hex bs) ≡ some bs
unfolding hex_loop
hex_loop-to_hex [] a = refl
hex_loop-to_hex (b ∷ bs) a =
    let joined : bit_or (b / 16 * 2 ^ 4) (b % 16) ≡ b =
      bit_or_shifted 4 (b / 16) (b % 16) (omega arith) ∙ omega arith in
    rw
      (
        hex_nibble-digit (b / 16) (omega (arith, a.0)),
        hex_nibble-digit (b % 16) (omega arith),
        hex_loop-to_hex bs a.1,
        hex_loop,
      )
      (ap (λ (x : ℕ). some (x ∷ bs)) joined)

-- The hexadecimal digits of any digest of 32 bytes are read back as the digest.
pub parse_sha256_hex-to_hex :
    (bs : List ℕ) → length bs ≡ 32 → All (λ b. b < 256) bs → parse_sha256_hex (to_hex bs) ≡ some bs
unfolding parse_sha256_hex
parse_sha256_hex-to_hex bs len a =
    let t : (length (to_hex bs) == 64) ≡ true = ground (arith, length-to_hex bs) in
    rw t (hex_loop-to_hex bs a)
