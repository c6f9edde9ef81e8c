-- ===== src/Generator/Page/Fields.antt =====
-- How the receiver reads the fields that main/stats.c writes.
use esp_hole.Base.Text.{codes, decimal, print_decimal, read_digits, read_digits-decimal}
use esp_hole.Stats.Sender.{field, join}
use esp_hole.Generator.Page.{
  Long, StatsNode, c_string, split_at, pieces, long_max, is_white, skip_white, saturate, strtol,
  set_field, field_step,
}
use esp_hole.Base.{
  ℕ, zero, suc, ◌+◌, ◌/◌, ◌%◌, ◌≤◌, ◌<◌, ◌≡◌, refl, sym, ap, ap₂, ◌∙◌, inl, inr, false, ◌&&◌, ◌||◌,
  some, List, [], ◌∷◌, ◌++◌, append-nil, append_assoc, arith, ltb, leb, ◌==◌, le→ltb_false, ==_refl,
  Bool-cases, elem, All, elem-append,
}

pub elem-none :
    (c : ℕ) (xs ys : List ℕ) → elem c xs ≡ false → elem c ys ≡ false → elem c (xs ++ ys) ≡ false
elem-none c xs ys p q = elem-append c xs ys ∙ ap₂ ◌||◌ p q

pub absent-cons :
    (a x : ℕ) (xs : List ℕ) → elem a (x ∷ xs) ≡ false → ((x == a) ≡ false) × (elem a xs ≡ false)
absent-cons a x xs h = elim (Bool-cases (x == a)) [ inl t ↦ cc (t, h) | inr t ↦ (t, rw t at h) ]

other_digit : (c d : ℕ) → d < 10 → (leb 48 c && leb c 57) ≡ false → elem c ((48 + d) ∷ []) ≡ false
other_digit c d l h = ground (arith, l, h)

-- No character but digits is printed.
elem-print_decimal :
    (c fuel n : ℕ) → (leb 48 c && leb c 57) ≡ false → elem c (print_decimal fuel n) ≡ false
unfolding print_decimal
elem-print_decimal c zero n h = refl
elem-print_decimal c (suc fuel) n h = elim (Bool-cases (ltb n 10)) [
  | inl t ↦ rw t (ground (arith, h))
  | inr t ↦ rw t (
      elem-none c (print_decimal fuel (n / 10)) ((48 + n % 10) ∷ [])
        (elem-print_decimal c fuel (n / 10) h) (other_digit c (n % 10) (omega arith) h))
]

pub elem-decimal : (c n : ℕ) → (leb 48 c && leb c 57) ≡ false → elem c (decimal n) ≡ false
unfolding decimal
elem-decimal c n h = elem-print_decimal c 20 n h

print_decimal-head :
    (fuel n : ℕ)
    → (c : ℕ) × (s : List ℕ) × (print_decimal (suc fuel) n ≡ c ∷ s) × (48 ≤ c) × (c ≤ 57)
unfolding print_decimal
print_decimal-head zero n = elim (Bool-cases (ltb n 10)) [
  | inl t ↦ (48 + n, [], rw t refl, omega arith, ground (arith, t))
  | inr t ↦ (48 + n % 10, [], rw t refl, omega arith, omega arith)
]
print_decimal-head (suc k) n =
    let (c, s, e, low, high) = print_decimal-head k (n / 10) in
    elim (Bool-cases (ltb n 10)) [
      | inl t ↦ (48 + n, [], rw t refl, omega arith, ground (arith, t))
      | inr t ↦ (
        c,
        s ++ (48 + n % 10) ∷ [],
        rw t (ap (λ (x : List ℕ). x ++ (48 + n % 10) ∷ []) e),
        low,
        high,
      )
    ]

-- A printed number begins with a digit.
pub decimal-head : (n : ℕ) → (c : ℕ) × (s : List ℕ) × (decimal n ≡ c ∷ s) × (48 ≤ c) × (c ≤ 57)
unfolding decimal
decimal-head n = print_decimal-head 19 n

pub split_at-append :
    (sep : ℕ) (xs ys : List ℕ) → elem sep xs ≡ false → split_at sep (xs ++ sep ∷ ys) ≡ some (xs, ys)
unfolding split_at
split_at-append sep [] ys h = rw (==_refl sep) refl
split_at-append sep (x ∷ xs) ys h =
    let (ne, rest) = absent-cons sep x xs h in rw (ne, split_at-append sep xs ys rest) refl

pieces-append :
    (acc f rest : List ℕ)
    → elem 44 f ≡ false
    → pieces acc (f ++ 44 ∷ rest) ≡ (acc ++ f) ∷ pieces [] rest
unfolding pieces
pieces-append acc [] rest h = ap (λ (a : List ℕ). a ∷ pieces [] rest) (sym (append-nil acc))
pieces-append acc (c ∷ f) rest h =
    let (ne, later) = absent-cons 44 c f h in
    rw ne (
      pieces-append (acc ++ c ∷ []) f rest later
      ∙ ap (λ (a : List ℕ). a ∷ pieces [] rest) (append_assoc acc (c ∷ []) f))

pieces-last : (acc f : List ℕ) → elem 44 f ≡ false → pieces acc f ≡ (acc ++ f) ∷ []
unfolding pieces
pieces-last acc [] h = ap (λ (a : List ℕ). a ∷ []) (sym (append-nil acc))
pieces-last acc (c ∷ f) h =
    let (ne, later) = absent-cons 44 c f h in
    rw ne (
      pieces-last (acc ++ c ∷ []) f later
      ∙ ap (λ (a : List ℕ). a ∷ []) (append_assoc acc (c ∷ []) f))

-- Fields without a comma or a NUL are cut apart again.
abbrev pub IsPlain : List ℕ → Type 0
IsPlain f = (elem 44 f ≡ false) × (elem 0 f ≡ false) × (elem 10 f ≡ false)

pub pieces-join :
    (f : List ℕ) (fs : List (List ℕ)) → All IsPlain (f ∷ fs) → pieces [] (join (f ∷ fs)) ≡ f ∷ fs
pieces-join f [] a = pieces-last [] f a.0.0
pieces-join f (g ∷ fs) a =
    pieces-append [] f (join (g ∷ fs)) a.0.0 ∙ ap (◌∷◌ f) (pieces-join g fs a.1)

pub join-plain :
    (f : List ℕ) (fs : List (List ℕ))
    → All IsPlain (f ∷ fs)
    → (elem 0 (join (f ∷ fs)) ≡ false) × (elem 10 (join (f ∷ fs)) ≡ false)
join-plain f [] a = (a.0.1, a.0.2)
join-plain f (g ∷ fs) a =
    let (zeros, lines) = join-plain g fs a.1 in
    (
      elem-none 0 f (44 ∷ join (g ∷ fs)) a.0.1 zeros,
      elem-none 10 f (44 ∷ join (g ∷ fs)) a.0.2 lines,
    )

-- A text ends at the NUL behind it.
pub c_string-end : (s behind : List ℕ) → elem 0 s ≡ false → c_string (s ++ 0 ∷ behind) ≡ s
unfolding c_string
c_string-end [] behind h = refl
c_string-end (c ∷ s) behind h =
    let (ne, rest) = absent-cons 0 c s h in rw (ne, c_string-end s behind rest) refl

-- A number that a `long` holds.
abbrev pub long : ℕ → Long
long v = record { negative = false; magnitude = v }

strtol-digit :
    (c : ℕ) (s : List ℕ) → 48 ≤ c → c ≤ 57 → strtol (c ∷ s) ≡ saturate false (read_digits 0 (c ∷ s))
unfolding strtol skip_white
strtol-digit c s low high =
    let w : is_white c ≡ false = ground (arith, low, high) in
    let m : (c == 45) ≡ false = ground (arith, low) in
    let p : (c == 43) ≡ false = ground (arith, low) in rw (w, m, p) refl

saturate-small : (v : ℕ) → v ≤ long_max → saturate false v ≡ long v
saturate-small v h = let t : ltb long_max v ≡ false = le→ltb_false long_max v h in rw t refl

-- A printed number is read back whatever follows it, up to the first character that is no digit.
pub strtol-decimal :
    (v : ℕ) (s : List ℕ) → v ≤ long_max → read_digits v s ≡ v → strtol (decimal v ++ s) ≡ long v
strtol-decimal v s h stop =
    let (c, t, e, low, high) = decimal-head v in
    let text : decimal v ++ s ≡ c ∷ (t ++ s) = ap (λ (x : List ℕ). x ++ s) e in
    ap strtol text
    ∙ strtol-digit c (t ++ s) low high
    ∙ ap (λ (x : List ℕ). saturate false (read_digits 0 x)) (sym text)
    ∙ ap (saturate false) (read_digits-decimal v s (omega (arith, h)) ∙ stop)
    ∙ saturate-small v h

stops_at_suffix : (v : ℕ) → read_digits v (codes "i") ≡ v
unfolding read_digits
stops_at_suffix v = refl

-- A field that is written is set to its number.
pub field_step-field :
    (n : StatsNode) (key : List ℕ) (v : ℕ)
    → elem 61 key ≡ false
    → v ≤ long_max
    → field_step n (field key v) ≡ set_field n key (long v)
unfolding field_step field
field_step-field n key v h l =
    rw (split_at-append 61 key (decimal v ++ codes "i") h, field_step)
      (ap (set_field n key) (strtol-decimal v (codes "i") l (stops_at_suffix v)))

elem-field :
    (c : ℕ) (key : List ℕ) (v : ℕ)
    → (leb 48 c && leb c 57) ≡ false
    → elem c (codes "=") ≡ false
    → elem c (codes "i") ≡ false
    → elem c key ≡ false
    → elem c (field key v) ≡ false
unfolding field
elem-field c key v digit equal suffix h =
    elem-none c key (codes "=" ++ (decimal v ++ codes "i")) h (
      elem-none c (codes "=") (decimal v ++ codes "i") equal
        (elem-none c (decimal v) (codes "i") (elem-decimal c v digit) suffix))

pub field-IsPlain : (key : List ℕ) (v : ℕ) → IsPlain key → IsPlain (field key v)
field-IsPlain key v p = (
  elem-field 44 key v refl refl refl p.0,
  elem-field 0 key v refl refl refl p.1,
  elem-field 10 key v refl refl refl p.2,
)
