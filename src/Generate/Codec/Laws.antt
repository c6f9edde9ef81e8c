-- ===== src/Generate/Codec/Laws.antt =====
-- The round trip of a word through its bytes, and reading one word of a blob.
use esp_hole.Base.Bits.{bit_or_shifted}
use esp_hole.Generate.Codec.{decode_le_u64, encode_le_u64, encode_all}
use esp_hole.Base.{
  ℕ, zero, suc, ◌+◌, ◌*◌, ◌/◌, ◌%◌, ◌^◌, ◌<◌, bit_or, ◌≡◌, refl, ap, ◌∙◌, List, [], ◌∷◌, ◌++◌,
  arith, length, get_or, drop, length-append, All, u64_mod, ret,
}

-- One round: no bit of the value is lost below 2 ^ 56.
shift_in : (v b : ℕ) → v < 2 ^ 56 → b < 256 → bit_or ((v * 2 ^ 8) % u64_mod) b ≡ v * 256 + b
shift_in v b h l =
    let e : (v * 2 ^ 8) % u64_mod ≡ v * 2 ^ 8 = omega arith in rw e (bit_or_shifted 8 v b l)

-- A round puts the word back together from its quotient and its lowest byte.
join_byte :
    (q b w : ℕ) → w < u64_mod → q ≡ w / 256 → b ≡ w % 256 → bit_or ((q * 256) % u64_mod) b ≡ w
join_byte q b w h e f = shift_in q b (omega arith) (omega arith) ∙ omega arith

top_byte : (v : ℕ) → v < u64_mod → bit_or 0 (v / 2 ^ 56 % 256) ≡ v / 2 ^ 56
top_byte v h = join_byte 0 (v / 2 ^ 56 % 256) (v / 2 ^ 56) (omega arith) (omega arith) (omega arith)

-- The little-endian bytes of a 64-bit value, with anything behind them, are read back as that value.
pub decode-encode :
    (v : ℕ) (rest : List ℕ) → v < u64_mod → decode_le_u64 (encode_le_u64 v ++ rest) ≡ ret v
unfolding decode_le_u64 encode_le_u64
decode-encode v rest h =
    rw
      (
        top_byte v h,
        join_byte (v / 72057594037927936) (v / 281474976710656 % 256) (v / 281474976710656)
            (omega arith) (omega arith) (omega arith),
        join_byte (v / 281474976710656) (v / 1099511627776 % 256) (v / 1099511627776) (omega arith)
            (omega arith) (omega arith),
        join_byte (v / 1099511627776) (v / 4294967296 % 256) (v / 4294967296) (omega arith)
            (omega arith) (omega arith),
        join_byte (v / 4294967296) (v / 16777216 % 256) (v / 16777216) (omega arith) (omega arith)
            (omega arith),
        join_byte (v / 16777216) (v / 65536 % 256) (v / 65536) (omega arith) (omega arith)
            (omega arith),
        join_byte (v / 65536) (v / 256 % 256) (v / 256) (omega arith) (omega arith) (omega arith),
        join_byte (v / 256) (v / 1 % 256) (v / 1) (omega arith) (omega arith) (omega arith),
      )
      (ap ret (omega arith))

pub length-encode : (v : ℕ) → length (encode_le_u64 v) ≡ 8
unfolding encode_le_u64
length-encode v = refl

pub encode-bytes : (v : ℕ) → All (λ b. b < 256) (encode_le_u64 v)
unfolding encode_le_u64
encode-bytes v = omega arith

abbrev pub IsWord : ℕ → Type 0
IsWord v = v < u64_mod

pub length-encode_all : (vs : List ℕ) → length (encode_all vs) ≡ length vs * 8
unfolding encode_all
length-encode_all [] = refl
length-encode_all (v ∷ vs) =
    omega (
      arith,
      length-append (encode_le_u64 v) (encode_all vs),
      length-encode v,
      length-encode_all vs,
    )

drop_word : (v i : ℕ) (vs : List ℕ) → drop (8 + i) (encode_all (v ∷ vs)) ≡ drop i (encode_all vs)
unfolding encode_all encode_le_u64
drop_word v i vs =
    let e : 8 + i ≡ suc (suc (suc (suc (suc (suc (suc (suc i))))))) = omega arith in rw e refl

-- The word at index `i` of a blob, as the search and the verification read it.
pub decode_at :
    (vs : List ℕ) (i : ℕ)
    → All IsWord vs
    → i < length vs
    → decode_le_u64 (drop (i * 8) (encode_all vs)) ≡ ret (get_or vs i 0)
decode_at [] i w h = elim h [ ]
decode_at (v ∷ vs) zero w h = unfold encode_all in decode-encode v (encode_all vs) w.0
decode_at (v ∷ vs) (suc i) w h =
    let e : suc i * 8 ≡ 8 + i * 8 = omega arith in
    rw (e, drop_word v (i * 8) vs) (decode_at vs i w.1 (omega arith))
