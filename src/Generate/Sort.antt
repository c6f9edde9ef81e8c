-- ===== src/Generate/Sort.antt =====
-- qsort of the C library under cmp_u64 of generate.c, as an insertion sort: the order is total, so
-- every sort of numbers by it has this result.
use esp_hole.Base.{
  ℕ, suc, ◌≤◌, ◌≡◌, refl, inl, inr, Bool, true, false, ◌||◌, List, [], ◌∷◌, arith, ltb, ◌==◌,
  if◌then◌else◌, Bool-cases, length, elem, All,
}

-- -1, 0 and 1 of the C function.
pub data Sign : Type 0 where
  negative equal positive : Sign

unfoldable pub cmp_u64 : ℕ → ℕ → Sign
cmp_u64 va vb = if ltb va vb then negative else if ltb vb va then positive else equal

abbrev pub not_after : Sign → Bool
not_after positive = false
not_after _ = true

unfoldable pub insert_sorted : ℕ → List ℕ → List ℕ
unfolding cmp_u64
insert_sorted a [] = a ∷ []
insert_sorted a (x ∷ xs) = if not_after (cmp_u64 a x) then a ∷ x ∷ xs else x ∷ insert_sorted a xs

unfoldable pub qsort : List ℕ → List ℕ
unfolding insert_sorted
qsort [] = []
qsort (x ∷ xs) = insert_sorted x (qsort xs)

-- Nondecreasing, from a bound on.
abbrev pub From : ℕ → List ℕ → Type 0
From a [] = Unit {0}
From a (x ∷ xs) = (a ≤ x) × From x xs

abbrev pub IsSorted : List ℕ → Type 0
IsSorted [] = Unit {0}
IsSorted (x ∷ xs) = From x xs

insert_sorted-From : (b a : ℕ) (xs : List ℕ) → b ≤ a → From b xs → From b (insert_sorted a xs)
unfolding insert_sorted
insert_sorted-From b a [] h s = omega arith
insert_sorted-From b a (x ∷ xs) h s = ground (arith, insert_sorted-From x a xs)

insert_sorted-IsSorted : (a : ℕ) (xs : List ℕ) → IsSorted xs → IsSorted (insert_sorted a xs)
unfolding insert_sorted
insert_sorted-IsSorted a [] s = tt
insert_sorted-IsSorted a (x ∷ xs) s = ground (arith, insert_sorted-From x a xs)

pub qsort-IsSorted : (xs : List ℕ) → IsSorted (qsort xs)
unfolding qsort
qsort-IsSorted [] = tt
qsort-IsSorted (x ∷ xs) = insert_sorted-IsSorted x (qsort xs) (qsort-IsSorted xs)

insert_sorted-elem : (c a : ℕ) (xs : List ℕ) → elem c (insert_sorted a xs) ≡ (a == c || elem c xs)
unfolding insert_sorted
insert_sorted-elem c a [] = refl
insert_sorted-elem c a (x ∷ xs) = ground (arith, insert_sorted-elem c a xs)

pub qsort-elem : (c : ℕ) (xs : List ℕ) → elem c (qsort xs) ≡ elem c xs
unfolding qsort
qsort-elem c [] = refl
qsort-elem c (x ∷ xs) = ground (arith, insert_sorted-elem c x (qsort xs), qsort-elem c xs)

insert_sorted-length : (a : ℕ) (xs : List ℕ) → length (insert_sorted a xs) ≡ suc (length xs)
unfolding insert_sorted
insert_sorted-length a [] = refl
insert_sorted-length a (x ∷ xs) = ground (arith, insert_sorted-length a xs)

pub qsort-length : (xs : List ℕ) → length (qsort xs) ≡ length xs
unfolding qsort
qsort-length [] = refl
qsort-length (x ∷ xs) = omega (arith, insert_sorted-length x (qsort xs), qsort-length xs)

insert_sorted-All {ℓ} :
    (P : ℕ → Type ℓ) (a : ℕ) (xs : List ℕ) → P a → All P xs → All P (insert_sorted a xs)
unfolding insert_sorted
insert_sorted-All P a [] p ps = (p, tt)
insert_sorted-All P a (x ∷ xs) p ps = elim (Bool-cases (not_after (cmp_u64 a x))) [
  | inl e ↦ rw (e, insert_sorted) (p, ps)
  | inr e ↦ rw (e, insert_sorted) (ps.0, insert_sorted-All P a xs p ps.1)
]

pub qsort-All {ℓ} : (P : ℕ → Type ℓ) (xs : List ℕ) → All P xs → All P (qsort xs)
unfolding qsort
qsort-All P [] ps = tt
qsort-All P (x ∷ xs) ps = insert_sorted-All P x (qsort xs) ps.0 (qsort-All P xs ps.1)
