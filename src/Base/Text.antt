-- ===== src/Base/Text.antt =====
-- The bytes of a string constant of the source, all of them ASCII, and numbers as printf prints them.
use Prim.Native.Nat.{ℕ, zero, suc, ◌+◌, ◌-◌, ◌*◌, ◌/◌, ◌%◌, ◌^◌, ◌<◌, ◌≤◌}
use mathlib.Core.Path.{◌≡◌, refl, ap, ◌∙◌}
use mathlib.Core.Logic.{inl, inr}
use mathlib.Core.Bool.{true, ◌&&◌}
use native.Mathlib.Omega.{arith}
use esp_hole.Base.Tests.{ltb, leb, if◌then◌else◌, Bool-cases, ltb_false→le}
use Prim.Native.Char.{code}
use Prim.Native.String.{String}
use mathlib.Core.List.{List, [], ◌∷◌, ◌++◌, append_assoc}

abbrev pub codes : String → List ℕ
codes String.[] = []
codes (String.◌∷◌ c s) = code c ∷ codes s

-- "%u": the digits of a number of at most `fuel` of them.
unfoldable pub print_decimal : ℕ → ℕ → List ℕ
print_decimal zero n = []
print_decimal (suc fuel) n =
    let more = print_decimal fuel (n / 10) ++ (48 + n % 10) ∷ [] in
    if ltb n 10 then (48 + n) ∷ [] else more

-- Twenty digits serve every 64-bit number.
unfoldable pub decimal : ℕ → List ℕ
unfolding print_decimal
decimal n = print_decimal 20 n

-- The value of the digits at the front, behind a value read before, as strtol reads them.
unfoldable pub read_digits : ℕ → List ℕ → ℕ
read_digits v [] = v
read_digits v (c ∷ s) =
    let rest = read_digits (v * 10 + (c - 48)) s in if leb 48 c && leb c 57 then rest else v

read_digits-step :
    (v d : ℕ) (s : List ℕ) → d < 10 → read_digits v ((48 + d) ∷ s) ≡ read_digits (v * 10 + d) s
unfolding read_digits
read_digits-step v d s h =
    let e : 48 + d - 48 ≡ d = omega arith in
    let t : (leb 48 (48 + d) && leb (48 + d) 57) ≡ true = ground arith in rw (t, e) refl

tenth : (fuel n : ℕ) → n < 10 ^ suc fuel → n / 10 < 10 ^ fuel
tenth fuel n h = omega arith

has_more : (fuel n : ℕ) → n < 10 ^ suc fuel → 10 ≤ n → 0 < fuel
has_more zero n h g = omega arith
has_more (suc fuel) n h g = omega arith

read_digits-print :
    (fuel n : ℕ) (s : List ℕ)
    → n < 10 ^ fuel
    → 0 < fuel
    → read_digits 0 (print_decimal fuel n ++ s) ≡ read_digits n s
unfolding print_decimal
read_digits-print zero n s h p = elim p [ ]
read_digits-print (suc fuel) n s h p = elim (Bool-cases (ltb n 10)) [
  | inl t ↦
      let z : 0 * 10 + n ≡ n = omega arith in
      rw t (read_digits-step 0 n s (ground arith) ∙ ap (λ (v : ℕ). read_digits v s) z)
  | inr t ↦
      let d : n % 10 < 10 = omega arith in
      let e : n / 10 * 10 + n % 10 ≡ n = omega arith in
      rw (t, append_assoc (print_decimal fuel (n / 10)) ((48 + n % 10) ∷ []) s)
        (read_digits-print fuel (n / 10) ((48 + n % 10) ∷ s) (tenth fuel n h)
            (has_more fuel n h (ltb_false→le n 10 t))
          ∙ read_digits-step (n / 10) (n % 10) s d
          ∙ ap (λ (v : ℕ). read_digits v s) e)
]

-- The digits of a 64-bit number are read back as the number.
pub read_digits-decimal :
    (n : ℕ) (s : List ℕ) → n < 10 ^ 20 → read_digits 0 (decimal n ++ s) ≡ read_digits n s
unfolding decimal
read_digits-decimal n s h = read_digits-print 20 n s h (omega arith)
