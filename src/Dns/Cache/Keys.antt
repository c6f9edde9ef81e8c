-- ===== src/Dns/Cache/Keys.antt =====
-- The invariant of the answer cache of main/dns_sinkhole.c, under its two operations.
use esp_hole.Dns.Cache.{
  Entry, Cache, cache_size, max_pkt, empty_entry, empty_cache, holds, find_loop, cache_find, victim,
  cache_insert,
}
use esp_hole.Base.{
  ℕ, zero, suc, ◌≤◌, ◌≡◌, refl, ◌∙◌, subst, inl, inr, true, false, ◌||◌, none, List, [], ◌∷◌, arith,
  ltb, ◌==◌, Bool-cases, length, set, replicate, length-set, All,
}

-- No valid entry has the key.
abbrev pub Absent : ℕ → List Entry → Type 0
Absent key es = All (λ e. holds e key ≡ false) es

-- Valid entries have distinct keys.
abbrev pub Distinct : List Entry → Type 0
Distinct [] = Unit {0}
Distinct (e ∷ es) = ((e.valid ≡ true) → Absent e.key es) × Distinct es

abbrev pub Stored : (List ℕ → Type 0) → Entry → Type 0
Stored P e = (e.valid ≡ true) → (e.len ≡ length e.answer) × (length e.answer ≤ max_pkt) × P e.answer

-- The cache is whole: all slots are there, keys are distinct, and every valid entry holds an answer
-- of the recorded length with the property `P`.
pub record IsWhole (P : List ℕ → Type 0) (c : Cache) : Type 0 where
  pub slots : length c.entries ≡ cache_size
  pub distinct : Distinct c.entries
  pub stored : All (Stored P) c.entries

-- What a lookup leaves of the entries.
find_loop-Absent :
    (key now clock i k : ℕ) (es : List Entry)
    → Absent k es
    → Absent k (find_loop key now clock i es).1
unfolding find_loop
find_loop-Absent key now clock i k [] a = tt
find_loop-Absent key now clock i k (e ∷ es) a =
    ground (arith, find_loop-Absent key now clock (suc i) k es a.1)

find_loop-Distinct :
    (key now clock i : ℕ) (es : List Entry)
    → Distinct es
    → Distinct (find_loop key now clock i es).1
unfolding find_loop
find_loop-Distinct key now clock i [] d = tt
find_loop-Distinct key now clock i (e ∷ es) d = ground (
  arith,
  find_loop-Distinct key now clock (suc i) es d.1,
  find_loop-Absent key now clock (suc i) e.key es,
)

find_loop-length :
    (key now clock i : ℕ) (es : List Entry) → length (find_loop key now clock i es).1 ≡ length es
unfolding find_loop
find_loop-length key now clock i [] = refl
find_loop-length key now clock i (e ∷ es) =
    ground (arith, find_loop-length key now clock (suc i) es)

-- A miss leaves no valid entry with the key, where keys are distinct.
find_loop-miss :
    (key now clock i : ℕ) (es : List Entry)
    → Distinct es
    → (find_loop key now clock i es).0 ≡ none
    → Absent key (find_loop key now clock i es).1
unfolding find_loop
find_loop-miss key now clock i [] d e = tt
find_loop-miss key now clock i (x ∷ es) d e = ground (
  arith,
  find_loop-miss key now clock (suc i) es d.1,
  λ (p : x.key ≡ key) (q : Absent x.key es). subst (λ k. Absent k es) p q,
)

find_loop-Stored :
    (P : List ℕ → Type 0) (key now clock i : ℕ) (es : List Entry)
    → All (Stored P) es
    → All (Stored P) (find_loop key now clock i es).1
unfolding find_loop
find_loop-Stored P key now clock i [] s = tt
find_loop-Stored P key now clock i (e ∷ es) s =
    ground (arith, find_loop-Stored P key now clock (suc i) es s.1)

-- Overwriting a slot by an entry of a key that no valid entry has.
set-Absent :
    (key v : ℕ) (e : Entry) (es : List Entry)
    → holds e key ≡ false
    → Absent key es
    → Absent key (set es v e)
set-Absent key v e [] h a = tt
set-Absent key zero e (x ∷ es) h a = (h, a.1)
set-Absent key (suc v) e (x ∷ es) h a = (a.0, set-Absent key v e es h a.1)

set-Distinct :
    (v : ℕ) (e : Entry) (es : List Entry) → Absent e.key es → Distinct es → Distinct (set es v e)
set-Distinct v e [] a d = tt
set-Distinct zero e (x ∷ es) a d = (λ _. a.1, d.1)
set-Distinct (suc v) e (x ∷ es) a d =
    (λ t. set-Absent x.key v e es (ground arith) (d.0 t), set-Distinct v e es a.1 d.1)

set-Stored :
    (P : List ℕ → Type 0) (v : ℕ) (e : Entry) (es : List Entry)
    → Stored P e
    → All (Stored P) es
    → All (Stored P) (set es v e)
set-Stored P v e [] h s = tt
set-Stored P zero e (x ∷ es) h s = (h, s.1)
set-Stored P (suc v) e (x ∷ es) h s = (s.0, set-Stored P v e es h s.1)

pub replicate-Absent : (key n : ℕ) → Absent key (replicate n empty_entry)
replicate-Absent key zero = tt
replicate-Absent key (suc n) = (refl, replicate-Absent key n)

replicate-Distinct : (n : ℕ) → Distinct (replicate n empty_entry)
replicate-Distinct zero = tt
replicate-Distinct (suc n) = (λ _. replicate-Absent 0 n, replicate-Distinct n)

replicate-Stored : (P : List ℕ → Type 0) (n : ℕ) → All (Stored P) (replicate n empty_entry)
replicate-Stored P zero = tt
replicate-Stored P (suc n) = (λ t. absurd (cc), replicate-Stored P n)

pub empty_cache-IsWhole : (P : List ℕ → Type 0) → IsWhole P empty_cache
empty_cache-IsWhole P = record {
  slots = refl;
  distinct = replicate-Distinct cache_size;
  stored = replicate-Stored P cache_size;
}

-- A lookup keeps the cache whole, and after a miss no valid entry has the key.
pub cache_find-IsWhole :
    (P : List ℕ → Type 0) (key now : ℕ) (c : Cache)
    → IsWhole P c
    → IsWhole P (cache_find key now c).1
      × (((cache_find key now c).0 ≡ none) → Absent key (cache_find key now c).1.entries)
unfolding cache_find
cache_find-IsWhole P key now c w = (
  record {
    slots = find_loop-length key now c.clock 0 c.entries ∙ w.slots;
    distinct = find_loop-Distinct key now c.clock 0 c.entries w.distinct;
    stored = find_loop-Stored P key now c.clock 0 c.entries w.stored;
  },
  find_loop-miss key now c.clock 0 c.entries w.distinct,
)

-- An insertion under a key that no valid entry has keeps the cache whole.
pub cache_insert-IsWhole :
    (P : List ℕ → Type 0) (key now : ℕ) (answer : List ℕ) (c : Cache)
    → IsWhole P c
    → Absent key c.entries
    → P answer
    → IsWhole P (cache_insert key answer now c)
unfolding cache_insert
cache_insert-IsWhole P key now answer c w a p =
    elim (Bool-cases (length answer == 0 || ltb max_pkt (length answer))) [
      | inl e ↦ rw e w
      | inr e ↦ rw e (record {
        slots = length-set c.entries (victim c.entries) _ ∙ w.slots;
        distinct = set-Distinct (victim c.entries) _ c.entries a w.distinct;
        stored =
            set-Stored P (victim c.entries) _ c.entries (λ _. (ground arith, ground arith, p))
              w.stored;
      })
    ]
