-- ===== src/Pipeline/Normalize/Shape.antt =====
-- is_valid_domain_shape of normalize.c, against a description of dotted names.
use esp_hole.Pipeline.Normalize.{
  point, starts_label, in_label, label_rest, shape_loop, is_valid_domain_shape,
}
use esp_hole.Base.{
  ℕ, zero, suc, ◌+◌, ◌≤◌, ◌<◌, ◌≡◌, refl, sym, ap, ap₂, ◌∙◌, subst, ◌↔◌, inl, inr, Bool, true,
  false, Option, none, some, List, [], ◌∷◌, ◌++◌, append-nil, arith, ltb, leb, ◌==◌, if◌then◌else◌,
  ltb_false→le, le→ltb_false, leb→le, ==→eq, Bool-cases, length, length-append, All, Exec, ret,
}

-- A label: 1 to 63 bytes, the first no hyphen.
abbrev pub IsLabel : List ℕ → Type 0
IsLabel [] = ⊥
IsLabel (c ∷ s) = (starts_label c ≡ true) × All (λ d. in_label d ≡ true) s × (length s < 63)

abbrev pub join : List (List ℕ) → List ℕ
join [] = []
join (l ∷ []) = l
join (l ∷ m ∷ ls) = l ++ point ∷ join (m ∷ ls)

abbrev pub count : List (List ℕ) → ℕ
count [] = 0
count (_ ∷ ls) = suc (count ls)

-- Labels joined by points.
abbrev pub IsDomain : List ℕ → Type 0
IsDomain s = (ls : List (List ℕ)) × (s ≡ join ls) × All IsLabel ls × (2 ≤ count ls)

not_point : (c : ℕ) → in_label c ≡ true → (c == point) ≡ false
unfolding in_label
not_point c h = ground arith

-- What is behind a label: nothing, or a point.
abbrev Ends : List ℕ → Type 0
Ends [] = Unit {0}
Ends (c ∷ _) = (c == point) ≡ true

label_rest-append :
    (l rest : List ℕ)
    → All (λ d. in_label d ≡ true) l
    → Ends rest
    → label_rest (l ++ rest) ≡ some (length l, rest)
unfolding label_rest
label_rest-append [] [] a e = refl
label_rest-append [] (c ∷ rest) a e = rw e refl
label_rest-append (c ∷ l) rest a e = rw (not_point c a.0, a.0, label_rest-append l rest a.1 e) refl

abbrev Splits : List ℕ → Option (ℕ × List ℕ) → Type 0
Splits s none = Unit {0}
Splits s (some (n, rest)) =
    (l : List ℕ) × (s ≡ l ++ rest) × (length l ≡ n) × All (λ d. in_label d ≡ true) l × Ends rest

Splits-more :
    (c : ℕ) (s : List ℕ) (r : Option (ℕ × List ℕ))
    → in_label c ≡ true
    → Splits s r
    → Splits (c ∷ s) (elim r [ none ↦ none | some r ↦ some (suc r.0, r.1) ])
Splits-more c s none h d = tt
Splits-more c s (some (n, rest)) h (l, e, len, a, ends) =
    (c ∷ l, ap (◌∷◌ c) e, ap suc len, (h, a), ends)

label_rest-Splits : (s : List ℕ) → Splits s (label_rest s)
unfolding label_rest
label_rest-Splits [] = ([], refl, refl, tt, tt)
label_rest-Splits (c ∷ s) = elim (Bool-cases (c == point)) [
  | inl e ↦ rw e ([], refl, refl, tt, e)
  | inr ne ↦ elim (Bool-cases (in_label c)) [
    | inr bad ↦ rw (ne, bad) tt
    | inl good ↦ rw (ne, good) (Splits-more c s (label_rest s) good (label_rest-Splits s))
  ]
]

module _ (fuel : ℕ) (c : ℕ) (s : List ℕ) (labels : ℕ) where
  round_last :
      (n : ℕ)
      → starts_label c ≡ true
      → label_rest s ≡ some (n, [])
      → shape_loop (suc fuel) (c ∷ s) labels
        ≡ (if ltb 63 (suc n) then ret false else ret (leb 2 (suc labels)))
  unfolding shape_loop
  round_last n h e = rw (h, e, shape_loop) refl

  round_more :
      (n p d : ℕ) (t : List ℕ)
      → starts_label c ≡ true
      → label_rest s ≡ some (n, p ∷ d ∷ t)
      → shape_loop (suc fuel) (c ∷ s) labels
        ≡ (if ltb 63 (suc n) then ret false else shape_loop fuel (d ∷ t) (suc labels))
  unfolding shape_loop
  round_more n p d t h e = rw (h, e, shape_loop) refl

join_head : (d : ℕ) (t : List ℕ) (ls : List (List ℕ)) → (u : List ℕ) × (join ((d ∷ t) ∷ ls) ≡ d ∷ u)
join_head d t [] = (t, refl)
join_head d t (m ∷ ls) = (t ++ point ∷ join (m ∷ ls), refl)

shape_loop-join :
    (fuel : ℕ) (ls : List (List ℕ)) (labels : ℕ)
    → All IsLabel ls
    → count ls < fuel
    → shape_loop fuel (join ls) labels ≡ ret (leb 2 (labels + count ls))
shape_loop-join zero ls labels a h = elim h [ ]
shape_loop-join (suc fuel) [] labels a h =
    let e : labels + 0 ≡ labels = omega arith in rw e (unfold shape_loop in refl)
shape_loop-join (suc fuel) ([] ∷ ls) labels a h = absurd a.0
shape_loop-join (suc fuel) ((c ∷ s) ∷ []) labels a h =
    let e : labels + 1 ≡ suc labels = omega arith in
    let found : label_rest s ≡ some (length s, []) =
      subst (λ t. label_rest t ≡ some (length s, [])) (append-nil s)
        (label_rest-append s [] a.0.1 tt) in
    let t : ltb 63 (suc (length s)) ≡ false = le→ltb_false 63 _ a.0.2 in
    rw (e, round_last fuel c s labels (length s) a.0.0 found, t) refl
shape_loop-join (suc fuel) ((c ∷ s) ∷ [] ∷ ls) labels a h = absurd a.1.0
shape_loop-join (suc fuel) ((c ∷ s) ∷ (d ∷ t) ∷ ls) labels a h =
    let (u, e) = join_head d t ls in
    let found : label_rest (s ++ point ∷ join ((d ∷ t) ∷ ls)) ≡ some (length s, point ∷ d ∷ u) =
      rw e (label_rest-append s (point ∷ d ∷ u) a.0.1 refl) in
    let t63 : ltb 63 (suc (length s)) ≡ false = le→ltb_false 63 _ a.0.2 in
    let more = shape_loop-join fuel ((d ∷ t) ∷ ls) (suc labels) a.1 (omega arith) in
    let same : suc labels + count ((d ∷ t) ∷ ls) ≡ labels + count ((c ∷ s) ∷ (d ∷ t) ∷ ls) =
      omega arith in
    round_more fuel c (s ++ point ∷ join ((d ∷ t) ∷ ls)) labels (length s) point d u a.0.0 found
    ∙ rw t63 (
        ap (λ (x : List ℕ). shape_loop fuel x (suc labels)) (sym e)
        ∙ more
        ∙ ap (λ (n : ℕ). ret (leb 2 n)) same)

-- What an answer of the loop means, with this many labels counted before.
abbrev Shape : List ℕ → ℕ → Exec Bool → Type 0
Shape s labels run =
    (b : Bool) × (run ≡ ret b)
    × ((b ≡ true) → (ls : List (List ℕ)) × (s ≡ join ls) × All IsLabel ls × (2 ≤ labels + count ls))

abbrev Shaped : ℕ → Type 0
Shaped fuel =
    (s : List ℕ) (labels : ℕ) → length s < fuel → Shape s labels (shape_loop fuel s labels)

-- The rounds after a label: nothing, a trailing point, or more labels.
last_label :
    (c n labels : ℕ) (s l : List ℕ)
    → starts_label c ≡ true
    → s ≡ l ++ []
    → length l ≡ n
    → All (λ d. in_label d ≡ true) l
    → Shape (c ∷ s) labels (if ltb 63 (suc n) then ret false else ret (leb 2 (suc labels)))
last_label c n labels s l good e len a = elim (Bool-cases (ltb 63 (suc n))) [
  | inl long ↦ (false, rw long refl, λ t. cc)
  | inr short ↦ (
    leb 2 (suc labels),
    rw short refl,
    λ t. (
      (c ∷ l) ∷ [],
      ap (◌∷◌ c) (e ∙ append-nil l),
      ((good, a, omega (arith, ltb_false→le 63 (suc n) short)), tt),
      omega (arith, leb→le 2 (suc labels) t),
    ),
  )
]

more_labels :
    (fuel c n p d labels : ℕ) (s l t : List ℕ)
    → Shaped fuel
    → length s < fuel
    → starts_label c ≡ true
    → s ≡ l ++ p ∷ d ∷ t
    → length l ≡ n
    → All (λ d. in_label d ≡ true) l
    → (p == point) ≡ true
    → Shape
        (c ∷ s)
        labels
        (if ltb 63 (suc n) then ret false else shape_loop fuel (d ∷ t) (suc labels))
more_labels fuel c n p d labels s l t ih h good e len a pt = elim (Bool-cases (ltb 63 (suc n))) [
  | inl long ↦ (false, rw long refl, λ t. cc)
  | inr short ↦
      let small : length (d ∷ t) < fuel = omega (arith, ap length e, length-append l (p ∷ d ∷ t)) in
      let (b, run, sound) = ih (d ∷ t) (suc labels) small in
      (
        b,
        rw short run,
        λ yes.
            let (ls, split, labs, two) = sound yes in
            joined ls split labs two (omega (arith, ltb_false→le 63 (suc n) short)),
      )
]
  where
    joined :
        (ls : List (List ℕ))
        → d ∷ t ≡ join ls
        → All IsLabel ls
        → 2 ≤ suc labels + count ls
        → length l < 63
        → (ls' : List (List ℕ)) × (c ∷ s ≡ join ls') × All IsLabel ls' × (2 ≤ labels + count ls')
    joined [] split labs two len = absurd (cc)
    joined (m ∷ ls) split labs two len = (
      (c ∷ l) ∷ m ∷ ls,
      ap (◌∷◌ c) (e ∙ ap₂ (λ (x : ℕ) (y : List ℕ). l ++ x ∷ y) (==→eq p point pt) split),
      ((good, a, len), labs),
      omega arith,
    )

after_label :
    (fuel c : ℕ) (s : List ℕ) (labels : ℕ)
    → Shaped fuel
    → length s < fuel
    → starts_label c ≡ true
    → (r : Option (ℕ × List ℕ)) → Splits s r
    → Shape (c ∷ s) labels (elim r [
      | none ↦ ret false
      | some (n, []) ↦ if ltb 63 (suc n) then ret false else ret (leb 2 (suc labels))
      | some (n, _ ∷ []) ↦ ret false
      | some (n, _ ∷ d ∷ t) ↦
          let later = shape_loop fuel (d ∷ t) (suc labels) in
          if ltb 63 (suc n) then ret false else later
    ])
after_label fuel c s labels ih h good none w = (false, refl, λ t. cc)
after_label fuel c s labels ih h good (some (n, [])) (l, e, len, a, ends) =
    last_label c n labels s l good e len a
after_label fuel c s labels ih h good (some (n, p ∷ [])) w = (false, refl, λ t. cc)
after_label fuel c s labels ih h good (some (n, p ∷ d ∷ t)) (l, e, len, a, ends) =
    more_labels fuel c n p d labels s l t ih h good e len a ends

shape_loop-Shape :
    (fuel : ℕ) (s : List ℕ) (labels : ℕ)
    → length s < fuel
    → Shape s labels (shape_loop fuel s labels)
unfolding shape_loop
shape_loop-Shape zero s labels h = elim h [ ]
shape_loop-Shape (suc fuel) [] labels h =
    (leb 2 labels, refl, λ t. ([], refl, tt, omega (arith, leb→le 2 labels t)))
shape_loop-Shape (suc fuel) (c ∷ s) labels h = elim (Bool-cases (starts_label c)) [
  | inr bad ↦ (false, rw bad refl, λ t. cc)
  | inl good ↦ rw good (
      after_label fuel c s labels (shape_loop-Shape fuel) (omega arith) good (label_rest s)
        (label_rest-Splits s))
]

count-le : (ls : List (List ℕ)) → All IsLabel ls → count ls ≤ length (join ls)
count-le [] a = omega arith
count-le ([] ∷ ls) a = absurd a.0
count-le ((c ∷ s) ∷ []) a = omega arith
count-le ((c ∷ s) ∷ m ∷ ls) a =
    omega (arith, count-le (m ∷ ls) a.1, length-append s (point ∷ join (m ∷ ls)))

-- The scanner always ends, and accepts exactly the names of at least two labels joined by points, each
-- of 1 to 63 letters, digits, underscores and hyphens and not starting with a hyphen.
pub is_valid_domain_shape-IsDomain :
    (s : List ℕ) → (b : Bool) × (is_valid_domain_shape s ≡ ret b) × ((b ≡ true) ↔ IsDomain s)
unfolding is_valid_domain_shape
is_valid_domain_shape-IsDomain s =
    let (b, run, sound) = shape_loop-Shape (suc (length s)) s 0 (omega arith) in
    (b, run, ((λ t. let (ls, e, a, two) = sound t in (ls, e, a, omega arith)), complete b run))
  where
    complete : (b : Bool) → shape_loop (suc (length s)) s 0 ≡ ret b → IsDomain s → b ≡ true
    complete b run (ls, e, a, two) =
        let fuel : count ls < suc (length s) = omega (arith, count-le ls a, ap length e) in
        let done = shape_loop-join (suc (length s)) ls 0 a fuel in
        ground (arith, sym run ∙ ap (λ (x : List ℕ). shape_loop (suc (length s)) x 0) e ∙ done)
