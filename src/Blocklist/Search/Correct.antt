-- ===== src/Blocklist/Search/Correct.antt =====
-- The binary search of main/blocklist.c, against membership.
use esp_hole.Blocklist.Search.{midpoint, search_loop, search_hashes}
use native.Mathlib.Decide.{dec_lt}
use esp_hole.Base.{
  ℕ, zero, suc, ◌+◌, ◌-◌, ◌/◌, ◌^◌, ◌≤◌, ◌<◌, ◌≡◌, refl, sym, ap, ◌∙◌, true, false, some, List,
  arith, ltb, ◌==◌, if◌then◌else◌, lt→ltb, le→ltb_false, length, get_elem?, get_or,
  get_elem?-eq-get_or, elem, elem_of_get, not_elem_of_get, IsAscending, IsAscending-lt, u32_mod,
  add32, ret,
}

pub midpoint_exact : (lo hi : ℕ) → lo < hi → hi < u32_mod → midpoint lo hi ≡ (lo + hi) / 2
unfolding midpoint
midpoint_exact lo hi p q = omega arith

-- The part of the array that is still searched bounds the hash.
record Inv (hashes : List ℕ) (hash lo hi : ℕ) : Type 0 where
  inside : hi ≤ length hashes
  small : hi < u32_mod
  ordered : lo ≤ hi
  below : (i : ℕ) → i < lo → get_or hashes i 0 < hash
  above : (i : ℕ) → hi ≤ i → i < length hashes → hash < get_or hashes i 0

module _ (hashes : List ℕ) (hash : ℕ) (ascending : IsAscending hashes) where
  le_get : (i j : ℕ) → i ≤ j → j < length hashes → get_or hashes i 0 ≤ get_or hashes j 0
  le_get i j p q = ground (arith, IsAscending-lt hashes i j ascending)

  upper-Inv :
      (lo hi mid : ℕ)
      → Inv hashes hash lo hi
      → lo ≤ mid
      → mid < hi
      → get_or hashes mid 0 < hash
      → Inv hashes hash (mid + 1) hi
  upper-Inv lo hi mid v p q h = record {
    inside = v.inside;
    small = v.small;
    ordered = omega arith;
    below = λ i l. omega (arith, le_get i mid (omega arith) (omega (arith, v.inside)));
    above = v.above;
  }

  lower-Inv :
      (lo hi mid : ℕ)
      → Inv hashes hash lo hi
      → lo ≤ mid
      → mid < hi
      → hash < get_or hashes mid 0
      → Inv hashes hash lo mid
  lower-Inv lo hi mid v p q h = record {
    inside = omega (arith, v.inside);
    small = omega (arith, v.small);
    ordered = p;
    below = v.below;
    above = λ i l m. omega (arith, le_get mid i l m);
  }

  absent : (lo hi : ℕ) → Inv hashes hash lo hi → hi ≤ lo → elem hash hashes ≡ false
  absent lo hi v h = not_elem_of_get hashes hash (λ i p e. ground (arith, v.below i, v.above i))

  elem_at : (mid : ℕ) → mid < length hashes → get_or hashes mid 0 ≡ hash → elem hash hashes ≡ true
  elem_at mid p e = elem_of_get hashes mid hash p e

-- One round of the loop, and its end.
search_loop_round :
    (hashes : List ℕ) (hash lo hi mid v fuel : ℕ)
    → lo < hi
    → hi < u32_mod
    → midpoint lo hi ≡ mid
    → get_elem? hashes mid ≡ some v
    → search_loop hashes hash lo hi (suc fuel) ≡ (
        if v == hash
        then ret true
        else if ltb v hash
        then search_loop hashes hash (add32 mid 1) hi fuel
        else search_loop hashes hash lo mid fuel)
unfolding search_loop
search_loop_round hashes hash lo hi mid v fuel p small e g =
    let t : ltb lo hi ≡ true = lt→ltb lo hi p in rw (t, e, g) refl

search_loop_end :
    (hashes : List ℕ) (hash lo hi fuel : ℕ)
    → hi ≤ lo
    → search_loop hashes hash lo hi (suc fuel) ≡ ret false
unfolding search_loop
search_loop_end hashes hash lo hi fuel p =
    let t : ltb lo hi ≡ false = le→ltb_false lo hi p in rw t refl

next : (mid : ℕ) → mid + 1 < u32_mod → add32 mid 1 ≡ mid + 1
next mid h = omega arith

module _ (hashes : List ℕ) (hash : ℕ) (ascending : IsAscending hashes) where
  -- A range of fewer than 2 ^ k numbers takes at most k comparisons.
  search_loop-elem :
      (k lo hi : ℕ)
      → Inv hashes hash lo hi
      → hi - lo < 2 ^ k
      → search_loop hashes hash lo hi (suc k) ≡ ret (elem hash hashes)
  search_loop-elem zero lo hi v h =
      search_loop_end hashes hash lo hi 0 (omega arith)
      ∙ ap ret (sym (absent hashes hash ascending lo hi v (omega arith)))
  search_loop-elem (suc k) lo hi v h = elim (dec_lt lo hi) [
    | no e ↦
        search_loop_end hashes hash lo hi (suc k) (omega arith)
        ∙ ap ret (sym (absent hashes hash ascending lo hi v (omega arith)))
    | yes p ↦
        let mid : ℕ = (lo + hi) / 2 in
        let inside : mid < length hashes = omega (arith, v.inside) in
        search_loop_round hashes hash lo hi mid (get_or hashes mid 0) (suc k) p v.small
          (midpoint_exact lo hi p v.small) (get_elem?-eq-get_or hashes mid 0 inside)
        ∙ rw (next mid (omega (arith, v.small))) (
            ground (
              arith,
              λ (q : get_or hashes mid 0 < hash).
                  search_loop-elem k (mid + 1) hi
                    (upper-Inv hashes hash ascending lo hi mid v (omega arith) (omega arith) q)
                    (omega arith),
              λ (q : hash < get_or hashes mid 0).
                  search_loop-elem k lo mid
                    (lower-Inv hashes hash ascending lo hi mid v (omega arith) (omega arith) q)
                    (omega arith),
              elem_at hashes hash ascending mid inside,
            ))
  ]

-- On a strictly ascending array the search ends within its fuel, reads inside the array, and says
-- exactly whether the hash occurs.
pub search_hashes-elem :
    (hashes : List ℕ) (hash : ℕ)
    → IsAscending hashes
    → length hashes < u32_mod
    → search_hashes hashes (length hashes) hash ≡ ret (elem hash hashes)
unfolding search_hashes
search_hashes-elem hashes hash ascending small =
    search_loop-elem hashes hash ascending 32 0 (length hashes)
      (record {
        inside = omega arith;
        small = small;
        ordered = omega arith;
        below = λ i p. omega arith;
        above = λ i p q. omega arith;
      })
      (omega arith)
