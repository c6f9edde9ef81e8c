-- ===== src/Stats/Counters/Buckets.antt =====
-- lat_bucket of main/stats.c, against the intervals of its comment.
use native.Mathlib.Nat.{pow-suc, pow-le-pow_right}
use native.Mathlib.Decide.{dec_lt}
use esp_hole.Base.Bits.{bit_or_low, bit_or-zero}
use esp_hole.Stats.Counters.{bit_length, lat_bucket}
use esp_hole.Base.{
  ℕ, zero, suc, ◌+◌, ◌-◌, ◌*◌, ◌/◌, ◌^◌, ◌≤◌, ◌<◌, bit_or, ◌≡◌, refl, ◌⊎◌, inl, inr, false, arith,
  ltb, ◌==◌, if◌then◌else◌, u32_mod,
}

-- x has n binary digits.
abbrev HasDigits : ℕ → ℕ → Type 0
HasDigits x zero = x ≡ 0
HasDigits x (suc n) = (2 ^ n ≤ x) × (x < 2 ^ suc n)

HasDigits-half : (x n : ℕ) → 0 < x → HasDigits (x / 2) n → HasDigits x (suc n)
HasDigits-half x zero pos h = omega arith
HasDigits-half x (suc n) pos h = omega (arith, pow-suc 2 n, pow-suc 2 (suc n))

bit_length-HasDigits : (fuel x : ℕ) → x < 2 ^ fuel → HasDigits x (bit_length fuel x)
unfolding bit_length
bit_length-HasDigits zero x h = omega arith
bit_length-HasDigits (suc fuel) zero h = refl
bit_length-HasDigits (suc fuel) (suc x) h =
    let t : (suc x == 0) ≡ false = ground arith in
    rw t (
      HasDigits-half (suc x) (bit_length fuel (suc x / 2)) (omega arith)
        (bit_length-HasDigits fuel (suc x / 2) (omega (arith, pow-suc 2 fuel))))

-- Bucket b holds the latencies of [2 ^ (b + 6), 2 ^ (b + 7)); bucket 0 starts at 0 and bucket 15 has
-- no upper end.
abbrev pub InBucket : ℕ → ℕ → Type 0
InBucket us b = (b < 16) × ((b ≡ 0) ⊎ (2 ^ (b + 6) ≤ us)) × ((b ≡ 15) ⊎ (us < 2 ^ (b + 7)))

odd_below : (us : ℕ) → bit_or us 1 ≡ us / 2 * 2 + 1
odd_below us = omega (arith, bit_or_low us 1, bit_or-zero (us / 2))

lat_digits : (us : ℕ) → us < u32_mod → HasDigits (bit_or us 1) (bit_length 32 (bit_or us 1))
lat_digits us h = bit_length-HasDigits 32 (bit_or us 1) (omega (arith, odd_below us))

-- The clamped bucket of a word with n digits.
abbrev clamped : ℕ → ℕ
clamped n = if ltb n 7 then 0 else if ltb 15 (n - 7) then 15 else n - 7

two_pos : 0 < 2
two_pos = omega arith

pow_two_mono : (i j : ℕ) → i ≤ j → 2 ^ i ≤ 2 ^ j
pow_two_mono i j h = pow-le-pow_right two_pos h

clamped-InBucket : (us x n : ℕ) → x ≡ us / 2 * 2 + 1 → HasDigits x n → InBucket us (clamped n)
clamped-InBucket us x zero odd h = absurd (omega arith)
clamped-InBucket us x (suc zero) odd h = (omega arith, inl refl, inr (omega arith))
clamped-InBucket us x (suc (suc m)) odd h = elim (dec_lt (suc (suc m)) 7) [
  | yes low ↦
      let top : 2 ^ suc (suc m) ≤ 2 ^ 7 = pow_two_mono (suc (suc m)) 7 (omega arith) in
      let t : clamped (suc (suc m)) ≡ 0 = ground arith in
      rw t (omega arith, inl refl, inr (omega arith))
  | no mid ↦ elim (dec_lt 15 (suc (suc m) - 7)) [
    | yes high ↦
        let bottom : 2 ^ 22 ≤ 2 ^ suc m = pow_two_mono 22 (suc m) (omega arith) in
        let t : clamped (suc (suc m)) ≡ 15 = ground arith in
        rw t (omega arith, inr (omega arith), inl refl)
    | no in_range ↦
        let t : clamped (suc (suc m)) ≡ suc (suc m) - 7 = ground arith in
        let low_end : suc (suc m) - 7 + 6 ≡ suc m = omega arith in
        let high_end : suc (suc m) - 7 + 7 ≡ suc (suc m) = omega arith in
        rw (t, low_end, high_end) (omega arith, inr (omega (arith, pow-suc 2 m)), inr (omega arith))
  ]
]

-- Every 32-bit latency is counted in the bucket of its interval.
pub lat_bucket-InBucket : (us : ℕ) → us < u32_mod → InBucket us (lat_bucket us)
unfolding lat_bucket
lat_bucket-InBucket us h =
    clamped-InBucket us (bit_or us 1) (bit_length 32 (bit_or us 1)) (odd_below us) (lat_digits us h)
