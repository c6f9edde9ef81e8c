-- ===== src/Base/Lists.antt =====
-- Lists measured and indexed by native numbers, under the library's names, and the membership test.
use Prim.Native.Nat.{ℕ, zero, suc, ◌+◌, ◌≤◌, ◌<◌}
use mathlib.Core.Path.{subst, ◌≡◌, refl, ap}
use mathlib.Core.Logic.{◌≢◌}
use mathlib.Core.Bool.{Bool, true, false, ◌||◌, ◌&&◌}
use mathlib.Core.List.{List, [], ◌∷◌, ◌++◌, map}
use mathlib.Core.Option.{Option, none, some}
use native.Mathlib.Omega.{arith}
use esp_hole.Base.Tests.{◌==◌}

module _ {ℓ} {A : Type ℓ} where
  abbrev pub length : List A → ℕ
  length [] = 0
  length (x ∷ xs) = suc (length xs)

  abbrev pub get_elem? : List A → ℕ → Option A
  get_elem? [] i = none
  get_elem? (x ∷ xs) zero = some x
  get_elem? (x ∷ xs) (suc i) = get_elem? xs i

  abbrev pub get_or : List A → ℕ → A → A
  get_or [] i d = d
  get_or (x ∷ xs) zero d = x
  get_or (x ∷ xs) (suc i) d = get_or xs i d

  -- A write out of bounds changes nothing.
  abbrev pub set : List A → ℕ → A → List A
  set [] i v = []
  set (x ∷ xs) zero v = v ∷ xs
  set (x ∷ xs) (suc i) v = x ∷ set xs i v

  abbrev pub take : ℕ → List A → List A
  take zero xs = []
  take (suc n) [] = []
  take (suc n) (x ∷ xs) = x ∷ take n xs

  abbrev pub drop : ℕ → List A → List A
  drop zero xs = xs
  drop (suc n) [] = []
  drop (suc n) (x ∷ xs) = drop n xs

  abbrev pub replicate : ℕ → A → List A
  replicate zero a = []
  replicate (suc n) a = a ∷ replicate n a

  pub length-append : (xs ys : List A) → length (xs ++ ys) ≡ length xs + length ys
  length-append [] ys = omega arith
  length-append (x ∷ xs) ys = omega (arith, length-append xs ys)

  pub get_elem?-eq-get_or :
      (xs : List A) (i : ℕ) (d : A) → i < length xs → get_elem? xs i ≡ some (get_or xs i d)
  get_elem?-eq-get_or [] i d h = elim h [ ]
  get_elem?-eq-get_or (x ∷ xs) zero d h = refl
  get_elem?-eq-get_or (x ∷ xs) (suc i) d h = get_elem?-eq-get_or xs i d (omega arith)

  pub get_elem?-none : (xs : List A) (i : ℕ) → length xs ≤ i → get_elem? xs i ≡ none
  get_elem?-none [] i h = refl
  get_elem?-none (x ∷ xs) zero h = absurd (omega arith)
  get_elem?-none (x ∷ xs) (suc i) h = get_elem?-none xs i (omega arith)

  pub get_elem?-append_length :
      (xs : List A) (y : A) (ys : List A) → get_elem? (xs ++ y ∷ ys) (length xs) ≡ some y
  get_elem?-append_length [] y ys = refl
  get_elem?-append_length (x ∷ xs) y ys = get_elem?-append_length xs y ys

  pub length-set : (xs : List A) (i : ℕ) (v : A) → length (set xs i v) ≡ length xs
  length-set [] i v = refl
  length-set (x ∷ xs) zero v = refl
  length-set (x ∷ xs) (suc i) v = ap suc (length-set xs i v)

  pub get_elem?-set_self :
      (xs : List A) (i : ℕ) (v : A) → i < length xs → get_elem? (set xs i v) i ≡ some v
  get_elem?-set_self [] i v h = elim h [ ]
  get_elem?-set_self (x ∷ xs) zero v h = refl
  get_elem?-set_self (x ∷ xs) (suc i) v h = get_elem?-set_self xs i v (omega arith)

  pub length-take : (n : ℕ) (xs : List A) → n ≤ length xs → length (take n xs) ≡ n
  length-take zero xs h = refl
  length-take (suc n) [] h = absurd (omega arith)
  length-take (suc n) (x ∷ xs) h = ap suc (length-take n xs (omega arith))

  pub take-append : (xs ys : List A) → take (length xs) (xs ++ ys) ≡ xs
  take-append [] ys = refl
  take-append (x ∷ xs) ys = ap (◌∷◌ x) (take-append xs ys)

  pub drop-append : (xs ys : List A) → drop (length xs) (xs ++ ys) ≡ ys
  drop-append [] ys = refl
  drop-append (x ∷ xs) ys = drop-append xs ys

-- Every member satisfies a property.
abbrev pub All {ℓ κ} : {A : Type ℓ} → (A → Type κ) → List A → Type κ
All P [] = Unit
All P (x ∷ xs) = P x × All P xs

pub length-map {ℓ κ} :
    {A : Type ℓ} {B : Type κ} (f : A → B) (xs : List A) → length (map f xs) ≡ length xs
length-map f [] = refl
length-map f (x ∷ xs) = ap suc (length-map f xs)

pub All-get {ℓ} :
    (P : ℕ → Type ℓ) (xs : List ℕ) (i : ℕ) → All P xs → i < length xs → P (get_or xs i 0)
All-get P [] i ps h = elim h [ ]
All-get P (x ∷ xs) zero ps h = ps.0
All-get P (x ∷ xs) (suc i) ps h = All-get P xs i ps.1 (omega arith)

pub All-at {ℓ κ} :
    {A : Type ℓ} (P : A → Type κ) (xs : List A) (i : ℕ) (x : A)
    → All P xs
    → get_elem? xs i ≡ some x
    → P x
All-at P [] i x ps h = absurd (cc)
All-at P (y ∷ xs) zero x ps h = let same : y ≡ x = cc h in subst P same ps.0
All-at P (y ∷ xs) (suc i) x ps h = All-at P xs i x ps.1 h

-- The library's `Mem` is truncated; this one is a test.
abbrev pub elem : ℕ → List ℕ → Bool
elem a [] = false
elem a (x ∷ xs) = x == a || elem a xs

-- The test that two byte strings are equal, as `memcmp` and `strcmp` make it.
abbrev pub bytes_eq : List ℕ → List ℕ → Bool
bytes_eq [] [] = true
bytes_eq [] (y ∷ ys) = false
bytes_eq (x ∷ xs) [] = false
bytes_eq (x ∷ xs) (y ∷ ys) = x == y && bytes_eq xs ys

pub bytes_eq→eq : (xs ys : List ℕ) → bytes_eq xs ys ≡ true → xs ≡ ys
bytes_eq→eq [] [] h = refl
bytes_eq→eq [] (y ∷ ys) h = ground arith
bytes_eq→eq (x ∷ xs) [] h = ground arith
bytes_eq→eq (x ∷ xs) (y ∷ ys) h = ground (arith, bytes_eq→eq xs ys)

pub bytes_eq_refl : (xs : List ℕ) → bytes_eq xs xs ≡ true
bytes_eq_refl [] = refl
bytes_eq_refl (x ∷ xs) = ground (arith, bytes_eq_refl xs)

pub All-mono {ℓ κ μ} :
    {A : Type ℓ} (P : A → Type κ) (Q : A → Type μ) (xs : List A)
    → ((a : A) → P a → Q a)
    → All P xs
    → All Q xs
All-mono P Q [] f ps = tt
All-mono P Q (x ∷ xs) f ps = (f x ps.0, All-mono P Q xs f ps.1)

pub All-elem_self : (xs : List ℕ) → All (λ a. elem a xs ≡ true) xs
All-elem_self [] = tt
All-elem_self (x ∷ xs) = (
  ground arith,
  All-mono (λ a. elem a xs ≡ true) (λ a. elem a (x ∷ xs) ≡ true) xs (λ a h. ground arith)
      (All-elem_self xs),
)

pub take_all {ℓ} : {A : Type ℓ} (xs : List A) → take (length xs) xs ≡ xs
take_all [] = refl
take_all (x ∷ xs) = ap (◌∷◌ x) (take_all xs)

pub take_enough {ℓ} : {A : Type ℓ} (n : ℕ) (xs : List A) → length xs ≤ n → take n xs ≡ xs
take_enough zero [] h = refl
take_enough zero (x ∷ xs) h = elim h [ ]
take_enough (suc n) [] h = refl
take_enough (suc n) (x ∷ xs) h = ap (◌∷◌ x) (take_enough n xs (omega arith))

-- An entry after a write.
pub get_or-set_self : (s : List ℕ) (i v : ℕ) → i < length s → get_or (set s i v) i 0 ≡ v
get_or-set_self [] i v h = elim h [ ]
get_or-set_self (c ∷ s) zero v h = refl
get_or-set_self (c ∷ s) (suc i) v h = get_or-set_self s i v (omega arith)

pub get_or-set_other : (s : List ℕ) (i j v : ℕ) → i ≢ j → get_or (set s i v) j 0 ≡ get_or s j 0
get_or-set_other [] i j v ne = refl
get_or-set_other (c ∷ s) zero zero v ne = absurd (ne refl)
get_or-set_other (c ∷ s) zero (suc j) v ne = refl
get_or-set_other (c ∷ s) (suc i) zero v ne = refl
get_or-set_other (c ∷ s) (suc i) (suc j) v ne = get_or-set_other s i j v (λ e. ne (ap suc e))

pub elem-append : (a : ℕ) (xs ys : List ℕ) → elem a (xs ++ ys) ≡ (elem a xs || elem a ys)
elem-append a [] ys = refl
elem-append a (x ∷ xs) ys = ground (arith, elem-append a xs ys)

-- An index at which the list holds a value shows membership.
pub elem_of_get : (xs : List ℕ) (i a : ℕ) → i < length xs → get_or xs i 0 ≡ a → elem a xs ≡ true
elem_of_get [] i a h e = elim h [ ]
elem_of_get (x ∷ xs) zero a h e = ground arith
elem_of_get (x ∷ xs) (suc i) a h e = ground (arith, elem_of_get xs i a)

pub not_elem_of_get :
    (xs : List ℕ) (a : ℕ) → ((i : ℕ) → i < length xs → get_or xs i 0 ≢ a) → elem a xs ≡ false
not_elem_of_get [] a h = refl
not_elem_of_get (x ∷ xs) a h =
    ground (arith, h 0 (omega arith), not_elem_of_get xs a (λ i p. h (suc i) (omega arith)))

-- Strictly ascending, neighbour by neighbour: what the files of the blocklist must be.
abbrev pub Above : ℕ → List ℕ → Type 0
Above a [] = Unit {0}
Above a (x ∷ xs) = (a < x) × Above x xs

abbrev pub IsAscending : List ℕ → Type 0
IsAscending [] = Unit {0}
IsAscending (x ∷ xs) = Above x xs

pub Above-lt : (a : ℕ) (xs : List ℕ) (i : ℕ) → Above a xs → i < length xs → a < get_or xs i 0
Above-lt a [] i u h = elim h [ ]
Above-lt a (x ∷ xs) zero u h = u.0
Above-lt a (x ∷ xs) (suc i) u h = omega (arith, Above-lt x xs i u.1 (omega arith))

Above-IsAscending : (a : ℕ) (xs : List ℕ) → Above a xs → IsAscending xs
Above-IsAscending a [] u = tt
Above-IsAscending a (x ∷ xs) u = u.1

pub IsAscending-lt :
    (xs : List ℕ) (i j : ℕ) → IsAscending xs → i < j → j < length xs → get_or xs i 0 < get_or xs j 0
IsAscending-lt [] i j u p q = elim q [ ]
IsAscending-lt (x ∷ xs) i zero u p q = elim p [ ]
IsAscending-lt (x ∷ xs) zero (suc j) u p q = Above-lt x xs j u (omega arith)
IsAscending-lt (x ∷ xs) (suc i) (suc j) u p q =
    IsAscending-lt xs i j (Above-IsAscending x xs u) (omega arith) (omega arith)
