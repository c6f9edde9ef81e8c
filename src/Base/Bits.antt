-- ===== src/Base/Bits.antt =====
-- `|`, `&` and `^` at variables: the native operations have no laws but the recursion on binary
-- digits that they stand for, so each law here goes digit by digit over the width.
use Prim.Native.Nat.{
  ℕ, zero, suc, ◌+◌, ◌*◌, ◌/◌, ◌%◌, ◌^◌, ◌≤◌, ◌<◌, max, min, differ, digits, bit_or, bit_xor,
  bit_and, bit_or-bitwise, bit_xor-bitwise, bit_and-bitwise,
}
use mathlib.Core.Path.{◌≡◌, refl, ◌∙◌}
use mathlib.Core.Bool.{Bool, true, false, not, ◌&&◌}
use native.Mathlib.Nat.{pow-suc}
use esp_hole.Base.Tests.{◌==◌, ltb}
use native.Mathlib.Omega.{arith}

module _ (z : ℕ → ℕ) (f : ℕ → ℕ → ℕ) where
  -- The fuel of the recursion plays no part, as long as it covers the number.
  digits_any :
      (a b fuel other : ℕ) → a ≤ fuel → a ≤ other → digits z f fuel a b ≡ digits z f other a b
  digits_any zero b zero zero h k = refl
  digits_any zero b zero (suc other) h k = refl
  digits_any zero b (suc fuel) zero h k = refl
  digits_any zero b (suc fuel) (suc other) h k = refl
  digits_any (suc a) b zero other h k = absurd (omega arith)
  digits_any (suc a) b (suc fuel) zero h k = absurd (omega arith)
  digits_any (suc a) b (suc fuel) (suc other) h k =
      rw (digits_any (suc a / 2) (b / 2) fuel other (omega arith) (omega arith))

  low-digit :
      (a b : ℕ)
      → digits z f (suc a) (suc a) b
        ≡ digits z f (suc a / 2) (suc a / 2) (b / 2) * 2 + f (suc a % 2) (b % 2)
  low-digit a b = omega (arith, digits_any (suc a / 2) (b / 2) a (suc a / 2))

pub bit_or_low : (a b : ℕ) → bit_or a b ≡ bit_or (a / 2) (b / 2) * 2 + max (a % 2) (b % 2)
bit_or_low zero b = rw (bit_or-bitwise 0 b, bit_or-bitwise (0 / 2) (b / 2)) (omega arith)
bit_or_low (suc a) b =
    rw (bit_or-bitwise (suc a) b, bit_or-bitwise (suc a / 2) (b / 2)) (low-digit (λ y. y) max a b)

pub bit_xor_low : (a b : ℕ) → bit_xor a b ≡ bit_xor (a / 2) (b / 2) * 2 + differ (a % 2) (b % 2)
bit_xor_low zero b = rw (bit_xor-bitwise 0 b, bit_xor-bitwise (0 / 2) (b / 2)) (omega arith)
bit_xor_low (suc a) b =
    rw (bit_xor-bitwise (suc a) b, bit_xor-bitwise (suc a / 2) (b / 2))
      (low-digit (λ y. y) differ a b)

pub bit_and_low : (a b : ℕ) → bit_and a b ≡ bit_and (a / 2) (b / 2) * 2 + min (a % 2) (b % 2)
bit_and_low zero b = rw (bit_and-bitwise 0 b, bit_and-bitwise (0 / 2) (b / 2)) (omega arith)
bit_and_low (suc a) b =
    rw (bit_and-bitwise (suc a) b, bit_and-bitwise (suc a / 2) (b / 2)) (low-digit (λ y. 0) min a b)

bit_or-zero_bounded : (n a : ℕ) → a ≤ n → bit_or a 0 ≡ a
bit_or-zero_bounded n zero h = refl
bit_or-zero_bounded zero (suc a) h = absurd (omega arith)
bit_or-zero_bounded (suc n) (suc a) h =
    omega (arith, bit_or_low (suc a) 0, bit_or-zero_bounded n (suc a / 2))

pub bit_or-zero : (a : ℕ) → bit_or a 0 ≡ a
bit_or-zero a = bit_or-zero_bounded a a (omega arith)

-- `(q << k) | r` is a sum where `r` has at most k bits.
pub bit_or_shifted : (k q r : ℕ) → r < 2 ^ k → bit_or (q * 2 ^ k) r ≡ q * 2 ^ k + r
bit_or_shifted zero q r h = ground (arith, bit_or-zero_bounded q q)
bit_or_shifted (suc k) q r h =
    let two : 2 ^ suc k ≡ 2 ^ k * 2 = pow-suc 2 k in
    let half : q * 2 ^ suc k ≡ q * 2 ^ k * 2 = rw two (omega arith) in
    let ih : bit_or (q * 2 ^ k) (r / 2) ≡ q * 2 ^ k + r / 2 =
      bit_or_shifted k q (r / 2) (omega (arith, two)) in
    bit_or_low (q * 2 ^ suc k) r ∙ ground (arith, ih, half)

differ_digits : (x y : ℕ) → x < 2 → y < 2 → differ x y ≡ (x + y) % 2
differ_digits zero y h l = omega arith
differ_digits (suc zero) zero h l = refl
differ_digits (suc zero) (suc zero) h l = refl
differ_digits (suc zero) (suc (suc y)) h l = absurd (omega arith)
differ_digits (suc (suc x)) y h l = absurd (omega arith)

differ_bits : (a b : ℕ) → differ (a % 2) (b % 2) ≡ (a + b) % 2
differ_bits a b = omega (arith, differ_digits (a % 2) (b % 2))

pub bit_xor_halves :
    (a b : ℕ) → (bit_xor a b / 2 ≡ bit_xor (a / 2) (b / 2)) × (bit_xor a b % 2 ≡ (a + b) % 2)
bit_xor_halves a b = (
  omega (arith, bit_xor_low a b, differ_bits a b),
  omega (arith, bit_xor_low a b, differ_bits a b),
)

pub bit_xor-lt : (k a b : ℕ) → a < 2 ^ k → b < 2 ^ k → bit_xor a b < 2 ^ k
bit_xor-lt zero a b h l = ground (arith, bit_xor_low a b)
bit_xor-lt (suc k) a b h l =
    omega (arith, pow-suc 2 k, bit_xor_halves a b, bit_xor-lt k (a / 2) (b / 2))

-- Two words below 2 ^ k that agree after `^ c` agree.
pub bit_xor_cancel : (k a b c : ℕ) → a < 2 ^ k → b < 2 ^ k → bit_xor a c ≡ bit_xor b c → a ≡ b
bit_xor_cancel zero a b c h l e = omega arith
bit_xor_cancel (suc k) a b c h l e =
    let high : bit_xor (a / 2) (c / 2) ≡ bit_xor (b / 2) (c / 2) =
      omega (arith, bit_xor_halves a c, bit_xor_halves b c) in
    let rest : a / 2 ≡ b / 2 =
      bit_xor_cancel k (a / 2) (b / 2) (c / 2) (omega (arith, pow-suc 2 k))
        (omega (arith, pow-suc 2 k)) high in
    omega (arith, bit_xor_halves a c, bit_xor_halves b c)

pub bit_xor_cancel_left : (k a b c : ℕ) → a < 2 ^ k → b < 2 ^ k → bit_xor c a ≡ bit_xor c b → a ≡ b
bit_xor_cancel_left zero a b c h l e = omega arith
bit_xor_cancel_left (suc k) a b c h l e =
    let high : bit_xor (c / 2) (a / 2) ≡ bit_xor (c / 2) (b / 2) =
      omega (arith, bit_xor_halves c a, bit_xor_halves c b) in
    let rest : a / 2 ≡ b / 2 =
      bit_xor_cancel_left k (a / 2) (b / 2) (c / 2) (omega (arith, pow-suc 2 k))
        (omega (arith, pow-suc 2 k)) high in
    omega (arith, bit_xor_halves c a, bit_xor_halves c b)

-- Every value of a byte can be checked by evaluation.
unfoldable pub all_below : ℕ → (ℕ → Bool) → Bool
all_below zero p = true
all_below (suc n) p = p n && all_below n p

pub all_below_sound : (n : ℕ) (p : ℕ → Bool) (x : ℕ) → all_below n p ≡ true → x < n → p x ≡ true
unfolding all_below
all_below_sound zero p x h l = absurd (omega arith)
all_below_sound (suc n) p x h l = ground (arith, all_below_sound n p x)

abbrev same : Bool → Bool → Bool
same true b = b
same false b = not b

same-eq : (a b : Bool) → same a b ≡ true → a ≡ b
same-eq a b h = ground arith

top_bits_table : all_below 256 (λ x. same (bit_and x 0xC0 == 0) (ltb x 64)) ≡ true
unfolding all_below
top_bits_table = refl

-- The two top bits of a byte are clear exactly below 64.
pub bit_and_top : (x : ℕ) → x < 256 → (bit_and x 0xC0 == 0) ≡ ltb x 64
bit_and_top x h = same-eq _ _ (all_below_sound 256 _ x top_bits_table h)

sign_bit_table : all_below 256 (λ x. same (bit_and x 0x80 == 0) (ltb x 128)) ≡ true
unfolding all_below
sign_bit_table = refl

pub bit_and_sign : (x : ℕ) → x < 256 → (bit_and x 0x80 == 0) ≡ ltb x 128
bit_and_sign x h = same-eq _ _ (all_below_sound 256 _ x sign_bit_table h)
