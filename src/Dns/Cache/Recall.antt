-- ===== src/Dns/Cache/Recall.antt =====
-- dns_cache_find after dns_cache_insert of main/dns_sinkhole.c.
use esp_hole.Dns.Cache.{
  Entry, Cache, cache_ttl_us, max_pkt, holds, expired, find_loop, cache_find, victim_loop, victim,
  cache_insert,
}
use esp_hole.Dns.Cache.Keys.{Absent, IsWhole}
use esp_hole.Base.{
  ℕ, zero, suc, ◌+◌, ◌%◌, ◌^◌, ◌≤◌, ◌<◌, ◌≡◌, refl, sym, ap, ◌∙◌, subst, inl, inr, true, false,
  ◌||◌, some, List, [], ◌∷◌, arith, ltb, ◌==◌, le→ltb_false, ==_refl, Bool-cases, length, get_elem?,
  set, get_elem?-set_self, add32,
}

-- A slot that the lookup returns holds a valid, unexpired entry of the key; only its use mark changes.
abbrev pub Hit : ℕ → ℕ → ℕ → List Entry → List Entry → ℕ → Type 0
Hit key now clock es es' k =
    (e : Entry) × (get_elem? es k ≡ some e)
    × (holds e key ≡ true)
    × (expired e now ≡ false)
    × (get_elem? es' k ≡ some (record e { last_used = add32 clock 1 }))

find_loop-Hit :
    (key now clock i j : ℕ) (es : List Entry)
    → (find_loop key now clock i es).0 ≡ some j
    → (k : ℕ) × (j ≡ i + k) × Hit key now clock es (find_loop key now clock i es).1 k
unfolding find_loop
find_loop-Hit key now clock i j [] h = cc
find_loop-Hit key now clock i j (e ∷ es) h = elim (Bool-cases (holds e key)) [
  | inl held ↦ elim (Bool-cases (expired e now)) [
    | inl old ↦ cc (rw (held, old) at h)
    | inr fresh ↦ (0, ground arith, (e, refl, held, fresh, rw (held, fresh) refl))
  ]
  | inr other ↦
      let (k, at_k, hit) = find_loop-Hit key now clock (suc i) j es (rw other at h) in
      (suc k, omega arith, (hit.0, hit.1, hit.2, hit.3, rw other hit.4))
]

victim_loop-lt :
    (es : List Entry) (i v oldest n : ℕ) → v < n → i + length es ≤ n → victim_loop i v oldest es < n
unfolding victim_loop
victim_loop-lt [] i v oldest n h l = h
victim_loop-lt (e ∷ es) i v oldest n h l = elim (Bool-cases (ltb e.last_used oldest)) [
  | inl t ↦ ground (arith, victim_loop-lt es (suc i) i e.last_used n)
  | inr t ↦ ground (arith, victim_loop-lt es (suc i) v oldest n)
]

pub victim-lt : (es : List Entry) → 0 < length es → victim es < length es
unfolding victim
victim-lt es h = victim_loop-lt es 0 0 0xffffffff (length es) h (omega arith)

-- A lookup after an entry was written over a slot, among entries without its key.
find_loop-set :
    (key now clock i v : ℕ) (e : Entry) (es : List Entry)
    → holds e key ≡ true
    → expired e now ≡ false
    → Absent key es
    → v < length es
    → (find_loop key now clock i (set es v e)).0 ≡ some (i + v)
unfolding find_loop
find_loop-set key now clock i v e [] h f a l = elim l [ ]
find_loop-set key now clock i zero e (x ∷ es) h f a l = rw (h, f) (ap some (omega arith))
find_loop-set key now clock i (suc v) e (x ∷ es) h f a l =
    rw a.0 (ground (arith, find_loop-set key now clock (suc i) v e es h f a.1))

recall_set :
    (key now clock v : ℕ) (e : Entry) (es : List Entry)
    → holds e key ≡ true
    → expired e now ≡ false
    → Absent key es
    → v < length es
    → ((find_loop key now clock 0 (set es v e)).0 ≡ some v)
      × ((e' : Entry) × (get_elem? (find_loop key now clock 0 (set es v e)).1 v ≡ some e')
          × (e'.answer ≡ e.answer)
          × (e'.len ≡ e.len))
recall_set key now clock v e es h f a l =
    let found : (find_loop key now clock 0 (set es v e)).0 ≡ some v =
      find_loop-set key now clock 0 v e es h f a l ∙ ap some (omega arith) in
    let (k, at_k, hit) = find_loop-Hit key now clock 0 v (set es v e) found in
    let same_slot : k ≡ v = omega arith in
    let same_entry : some hit.0 ≡ some e =
      sym (rw same_slot at hit.1) ∙ get_elem?-set_self es v e l in
    (
      found,
      (
        record hit.0 { last_used = add32 clock 1 },
        rw same_slot at hit.4,
        ground (arith, same_entry),
        ground (arith, same_entry),
      ),
    )

-- An answer that fits, inserted while no valid entry has its key, is what a lookup under that key
-- finds for five minutes, in the slot chosen for it.
pub find-insert :
    (P : List ℕ → Type 0) (key now later : ℕ) (answer : List ℕ) (c : Cache)
    → IsWhole P c
    → Absent key c.entries
    → 0 < length answer
    → length answer ≤ max_pkt
    → later ≤ now + cache_ttl_us
    → let found = cache_find key later (cache_insert key answer now c) in
      (found.0 ≡ some (victim c.entries))
      × ((e : Entry) × (get_elem? found.1.entries (victim c.entries) ≡ some e)
          × (e.answer ≡ answer)
          × (e.len ≡ length answer))
unfolding cache_find cache_insert
find-insert P key now later answer c w a pos fits fresh =
    let t : (length answer == 0 || ltb max_pkt (length answer)) ≡ false = ground arith in
    let inside : victim c.entries < length c.entries =
      victim-lt c.entries (omega (arith, w.slots)) in
    let e : Entry = record {
      valid = true;
      key = key;
      inserted_us = now;
      last_used = add32 c.clock 1;
      len = length answer % 2 ^ 16;
      answer = answer;
    } in
    let kept : expired e later ≡ false = le→ltb_false _ _ fresh in
    let size : length answer % 2 ^ 16 ≡ length answer = omega arith in
    let r =
      recall_set key later (add32 c.clock 1) (victim c.entries) e c.entries (==_refl key) kept a
        inside in
    rw t (r.0, (r.1.0, r.1.1, r.1.2, r.1.3 ∙ size))

-- A slot that the lookup returns holds a valid, unexpired entry of the key.
pub cache_find-Hit :
    (key now j : ℕ) (c : Cache)
    → (cache_find key now c).0 ≡ some j
    → Hit key now c.clock c.entries (cache_find key now c).1.entries j
unfolding cache_find
cache_find-Hit key now j c h =
    let (k, at_k, hit) = find_loop-Hit key now c.clock 0 j c.entries h in
    let e : k ≡ j = omega arith in
    subst (λ i. Hit key now c.clock c.entries (find_loop key now c.clock 0 c.entries).1 i) e hit
