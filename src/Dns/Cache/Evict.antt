-- ===== src/Dns/Cache/Evict.antt =====
-- Which entry dns_cache_insert of main/dns_sinkhole.c gives up.
use esp_hole.Dns.Cache.{Entry, Cache, max_pkt, victim_loop, victim, cache_insert}
use esp_hole.Dns.Cache.Recall.{victim-lt}
use esp_hole.Base.{
  ◌∙◌, add32, get_elem?-set_self, ◌%◌, ◌^◌, ℕ, zero, suc, ◌+◌, ◌≤◌, ◌<◌, ◌≡◌, refl, sym, ap, subst,
  ◌≢◌, inl, inr, true, false, ◌||◌, some, List, [], ◌∷◌, arith, ltb, ◌==◌, ltb→lt, ltb_false→le,
  Bool-cases, length, get_elem?, set, All, u32_mod,
}

-- Where the loop over the slots from `i` on ends, with the victim `v` so far.
data Picks (es : List Entry) (i v oldest r : ℕ) : Type 0 where
  empty_slot :
      (k : ℕ) (e : Entry)
      → r ≡ i + k
      → get_elem? es k ≡ some e
      → e.valid ≡ false
      → Picks es i v oldest r
  kept :
      r ≡ v
      → All (λ e. e.valid ≡ true) es
      → All (λ e. oldest ≤ e.last_used) es
      → Picks es i v oldest r
  older :
      (k : ℕ) (e : Entry)
      → r ≡ i + k
      → get_elem? es k ≡ some e
      → e.last_used < oldest
      → All (λ e. e.valid ≡ true) es
      → All (λ x. e.last_used ≤ x.last_used) es
      → Picks es i v oldest r

-- One slot more in front, which is not older.
Picks-next :
    (x : Entry) (es : List Entry) (i v oldest r : ℕ)
    → x.valid ≡ true
    → oldest ≤ x.last_used
    → Picks es (suc i) v oldest r
    → Picks (x ∷ es) i v oldest r
Picks-next x es i v oldest r ok young (empty_slot k e at at_k free) =
    empty_slot (suc k) e (omega (arith, at)) at_k free
Picks-next x es i v oldest r ok young (kept same valid least) = kept same (ok, valid) (young, least)
Picks-next x es i v oldest r ok young (older k e at at_k less valid least) =
    older (suc k) e (omega (arith, at)) at_k less (ok, valid) (omega (arith, less, young), least)

-- One slot more in front, which is the oldest so far.
Picks-older :
    (x : Entry) (es : List Entry) (i v oldest r : ℕ)
    → x.valid ≡ true
    → x.last_used < oldest
    → Picks es (suc i) i x.last_used r
    → Picks (x ∷ es) i v oldest r
Picks-older x es i v oldest r ok old (empty_slot k e at at_k free) =
    empty_slot (suc k) e (omega (arith, at)) at_k free
Picks-older x es i v oldest r ok old (kept same valid least) =
    older 0 x (omega (arith, same)) refl old (ok, valid) (omega arith, least)
Picks-older x es i v oldest r ok old (older k e at at_k less valid least) =
    older (suc k) e (omega (arith, at)) at_k (omega (arith, less, old)) (ok, valid)
      (omega (arith, less), least)

loop_free :
    (x : Entry) (es : List Entry) (i v oldest : ℕ)
    → x.valid ≡ false
    → victim_loop i v oldest (x ∷ es) ≡ i
unfolding victim_loop
loop_free x es i v oldest free = ground arith

loop_older :
    (x : Entry) (es : List Entry) (i v oldest : ℕ)
    → x.valid ≡ true
    → ltb x.last_used oldest ≡ true
    → victim_loop i v oldest (x ∷ es) ≡ victim_loop (suc i) i x.last_used es
unfolding victim_loop
loop_older x es i v oldest ok old = simp (ok, old)

loop_younger :
    (x : Entry) (es : List Entry) (i v oldest : ℕ)
    → x.valid ≡ true
    → ltb x.last_used oldest ≡ false
    → victim_loop i v oldest (x ∷ es) ≡ victim_loop (suc i) v oldest es
unfolding victim_loop
loop_younger x es i v oldest ok young = simp (ok, young)

victim_loop-Picks :
    (es : List Entry) (i v oldest : ℕ) → Picks es i v oldest (victim_loop i v oldest es)
victim_loop-Picks [] i v oldest = kept (unfold victim_loop in refl) tt tt
victim_loop-Picks (x ∷ es) i v oldest = elim (Bool-cases x.valid) [
  | inr free ↦ empty_slot 0 x (omega (arith, loop_free x es i v oldest free)) refl free
  | inl ok ↦ elim (Bool-cases (ltb x.last_used oldest)) [
    | inl old ↦ subst (Picks (x ∷ es) i v oldest) (sym (loop_older x es i v oldest ok old)) (
        Picks-older x es i v oldest _ ok (ltb→lt x.last_used oldest old)
          (victim_loop-Picks es (suc i) i x.last_used))
    | inr young ↦ subst (Picks (x ∷ es) i v oldest) (sym (loop_younger x es i v oldest ok young)) (
        Picks-next x es i v oldest _ ok (ltb_false→le x.last_used oldest young)
          (victim_loop-Picks es (suc i) v oldest))
  ]
]

-- The entry that is given up: one that holds nothing, or the one that was used the longest time ago.
pub data GivesUp (es : List Entry) (i : ℕ) : Type 0 where
  spare : (e : Entry) → get_elem? es i ≡ some e → e.valid ≡ false → GivesUp es i
  least_used :
      (e : Entry)
      → get_elem? es i ≡ some e
      → All (λ x. x.valid ≡ true) es
      → All (λ x. e.last_used ≤ x.last_used) es
      → GivesUp es i

-- The use marks have 32 bits.
abbrev pub IsMarked : List Entry → Type 0
IsMarked es = All (λ e. e.last_used < u32_mod) es

marks_least :
    (es : List Entry) (n : ℕ)
    → n < u32_mod
    → All (λ e. 0xffffffff ≤ e.last_used) es
    → All (λ e. n ≤ e.last_used) es
marks_least [] n h m = tt
marks_least (x ∷ es) n h m = (omega (arith, h, m.0), marks_least es n h m.1)

Picks-GivesUp :
    (es : List Entry) (r : ℕ)
    → 0 < length es
    → IsMarked es
    → Picks es 0 0 0xffffffff r
    → GivesUp es r
Picks-GivesUp es r l marked (empty_slot k e at at_k free) =
    let same : k ≡ r = omega (arith, at) in
    spare e (subst (λ (x : ℕ). get_elem? es x ≡ some e) same at_k) free
Picks-GivesUp es r l marked (older k e at at_k less valid least) =
    let same : k ≡ r = omega (arith, at) in
    least_used e (subst (λ (x : ℕ). get_elem? es x ≡ some e) same at_k) valid least
Picks-GivesUp [] r l marked (kept same valid least) = absurd (omega (arith, l))
Picks-GivesUp (x ∷ es) r l marked (kept same valid least) =
    let first : 0 ≡ r = sym same in
    least_used x (subst (λ (n : ℕ). get_elem? (x ∷ es) n ≡ some x) first refl) valid
      (marks_least (x ∷ es) x.last_used marked.0 least)

victim-GivesUp : (es : List Entry) → 0 < length es → IsMarked es → GivesUp es (victim es)
unfolding victim
victim-GivesUp es l marked =
    Picks-GivesUp es (victim es) l marked (victim_loop-Picks es 0 0 0xffffffff)

set-other :
    (es : List Entry) (v j : ℕ) (e : Entry) → j ≢ v → get_elem? (set es v e) j ≡ get_elem? es j
set-other [] v j e ne = refl
set-other (x ∷ es) zero zero e ne = absurd (ne refl)
set-other (x ∷ es) zero (suc j) e ne = refl
set-other (x ∷ es) (suc v) zero e ne = refl
set-other (x ∷ es) (suc v) (suc j) e ne = set-other es v j e (λ same. ne (ap suc same))

-- The entry of an answer of this length.
abbrev pub stored : ℕ → List ℕ → ℕ → Cache → ℕ → Entry
stored key answer now c len = record {
  valid = true;
  key = key;
  inserted_us = now;
  last_used = add32 c.clock 1;
  len = len;
  answer = answer;
}

-- An answer that may be cached, between 1 and 1500 bytes long, is stored with its key, its length, the time and
-- the next use mark; it takes the place of an entry that holds nothing, where there is one, and else of the entry
-- with the smallest use mark; every other entry stays as it is, one of the same key included, and the
-- marks stay within their 32 bits.
pub cache_insert-GivesUp :
    (key now : ℕ) (answer : List ℕ) (c : Cache)
    → 0 < length answer
    → length answer ≤ max_pkt
    → 0 < length c.entries
    → IsMarked c.entries
    → GivesUp c.entries (victim c.entries)
      × (get_elem? (cache_insert key answer now c).entries (victim c.entries)
          ≡ some (stored key answer now c (length answer)))
      × ((cache_insert key answer now c).clock ≡ add32 c.clock 1)
      × ((j : ℕ)
          → j ≢ victim c.entries
          → get_elem? (cache_insert key answer now c).entries j ≡ get_elem? c.entries j)
      × IsMarked (cache_insert key answer now c).entries
unfolding cache_insert
cache_insert-GivesUp key now answer c low high l marked =
    let t : (length answer == 0 || ltb max_pkt (length answer)) ≡ false =
      ground (arith, low, high) in
    let whole : length answer % 2 ^ 16 ≡ length answer = omega (arith, high) in
    (
      victim-GivesUp c.entries l marked,
      rw (t, cache_insert)
          (get_elem?-set_self c.entries (victim c.entries) _ (victim-lt c.entries l)
            ∙ ap (λ (n : ℕ). some (stored key answer now c n)) whole),
      rw (t, cache_insert) refl,
      rw (t, cache_insert) (λ j ne. set-other c.entries (victim c.entries) j _ ne),
      rw (t, cache_insert) (set-marked c.entries (victim c.entries) _ (omega arith) marked),
    )
  where
    set-marked :
        (es : List Entry) (v : ℕ) (e : Entry)
        → e.last_used < u32_mod
        → IsMarked es
        → IsMarked (set es v e)
    set-marked [] v e h m = tt
    set-marked (x ∷ es) zero e h m = (h, m.1)
    set-marked (x ∷ es) (suc v) e h m = (m.0, set-marked es v e h m.1)
