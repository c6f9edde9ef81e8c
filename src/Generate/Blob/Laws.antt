-- ===== src/Generate/Blob/Laws.antt =====
-- blob_contains and blocklist_verify_blob of generate.c on the blob of a list of words.
use native.Mathlib.Decide.{dec_lt, ℕ_discrete}
use esp_hole.Generate.Codec.{decode_le_u64, encode_all}
use esp_hole.Generate.Codec.Laws.{IsWord, decode_at}
use esp_hole.Generate.Blob.{lower_loop, blob_contains, ascending_loop}
use esp_hole.Base.{
  ℕ, zero, suc, ◌+◌, ◌-◌, ◌*◌, ◌/◌, ◌^◌, ◌≤◌, ◌<◌, ◌≡◌, refl, sym, ap, ◌∙◌, ◌≢◌, Bool, true, false,
  ◌&&◌, not, List, [], ◌∷◌, ◌++◌, append_assoc, arith, ltb, leb, ◌==◌, if◌then◌else◌, lt→ltb,
  le→ltb_false, length, get_or, drop, length-append, elem, All, elem_of_get, not_elem_of_get, Above,
  IsAscending, IsAscending-lt, u32_mod, add32, sub32, mul32, ret, ◌>>=◌,
}

-- The order test of the verification, on the words themselves.
unfoldable pub ascending_from : Bool → ℕ → List ℕ → Bool
ascending_from first prev [] = true
ascending_from first prev (v ∷ vs) =
    if not first && leb v prev then false else ascending_from false v vs

ascending_from-Above :
    (prev : ℕ) (vs : List ℕ) → ascending_from false prev vs ≡ true → Above prev vs
unfolding ascending_from
ascending_from-Above prev [] h = tt
ascending_from-Above prev (v ∷ vs) h = ground (arith, ascending_from-Above v vs)

pub ascending_from_sound : (vs : List ℕ) → ascending_from true 0 vs ≡ true → IsAscending vs
unfolding ascending_from
ascending_from_sound [] h = tt
ascending_from_sound (v ∷ vs) h = ascending_from-Above v vs h

Above-ascending_from :
    (prev : ℕ) (vs : List ℕ) → Above prev vs → ascending_from false prev vs ≡ true
unfolding ascending_from
Above-ascending_from prev [] h = refl
Above-ascending_from prev (v ∷ vs) h = ground (arith, Above-ascending_from v vs)

pub ascending_from_complete : (vs : List ℕ) → IsAscending vs → ascending_from true 0 vs ≡ true
unfolding ascending_from
ascending_from_complete [] h = refl
ascending_from_complete (v ∷ vs) h = Above-ascending_from v vs h

get_or-append_length : (xs : List ℕ) (y : ℕ) (ys : List ℕ) → get_or (xs ++ y ∷ ys) (length xs) 0 ≡ y
get_or-append_length [] y ys = refl
get_or-append_length (x ∷ xs) y ys = get_or-append_length xs y ys

-- Reading a blob word by word.
module _ (vs : List ℕ) (words : All IsWord vs) (small : length vs * 8 < u32_mod) where
  word_at :
      (i : ℕ)
      → i < length vs
      → decode_le_u64 (drop (mul32 i 8) (encode_all vs)) ≡ ret (get_or vs i 0)
  word_at i h = let e : mul32 i 8 ≡ i * 8 = omega arith in rw e (decode_at vs i words h)

  ascending_loop-from :
      (done todo : List ℕ) (prev : ℕ)
      → vs ≡ done ++ todo
      → ascending_loop (encode_all vs) prev (length done) (length todo)
        ≡ ret (ascending_from (length done == 0) prev todo)
  unfolding ascending_loop ascending_from
  ascending_loop-from done [] prev e = refl
  ascending_loop-from done (v ∷ todo) prev e =
      let e' : vs ≡ (done ++ v ∷ []) ++ todo = e ∙ sym (append_assoc done (v ∷ []) todo) in
      let len : length vs ≡ length done + suc (length todo) =
        ap length e ∙ length-append done (v ∷ todo) in
      let len' : length (done ++ v ∷ []) ≡ suc (length done) =
        length-append done (v ∷ []) ∙ omega arith in
      let here : get_or vs (length done) 0 ≡ v = rw e (get_or-append_length done v todo) in
      let got = word_at (length done) (omega arith) in
      let ih = rw len' at (ascending_loop-from (done ++ v ∷ []) todo v e') in
      rw (got, here) (ground (arith, ih))

-- The search. Below `lo` all words are below the target, and from `hi` on none is.
record Inv (vs : List ℕ) (target lo hi : ℕ) : Type 0 where
  inside : hi ≤ length vs
  ordered : lo ≤ hi
  below : (i : ℕ) → i < lo → get_or vs i 0 < target
  above : (i : ℕ) → hi ≤ i → i < length vs → target ≤ get_or vs i 0

abbrev Splits : List ℕ → ℕ → ℕ → Type 0
Splits vs target r =
    (r ≤ length vs)
    × ((i : ℕ) → i < r → get_or vs i 0 < target)
    × ((i : ℕ) → r ≤ i → i < length vs → target ≤ get_or vs i 0)

lower_loop_round :
    (blob : List ℕ) (target lo hi mid v fuel : ℕ)
    → lo < hi
    → hi < u32_mod
    → mid ≡ (lo + hi) / 2
    → decode_le_u64 (drop (mul32 mid 8) blob) ≡ ret v
    → lower_loop blob target lo hi (suc fuel) ≡ (
        if ltb v target
        then lower_loop blob target (mid + 1) hi fuel
        else lower_loop blob target lo mid fuel)
unfolding lower_loop
lower_loop_round blob target lo hi mid v fuel p small e g =
    let t : ltb lo hi ≡ true = lt→ltb lo hi p in
    let m : add32 lo (sub32 hi lo / 2) ≡ mid = omega arith in
    let n : add32 mid 1 ≡ mid + 1 = omega arith in rw (t, m, g, n) refl

lower_loop_end :
    (blob : List ℕ) (target lo hi fuel : ℕ)
    → hi ≤ lo
    → lower_loop blob target lo hi (suc fuel) ≡ ret lo
unfolding lower_loop
lower_loop_end blob target lo hi fuel p =
    let t : ltb lo hi ≡ false = le→ltb_false lo hi p in rw t refl

module _ (vs : List ℕ) (target : ℕ) (words : All IsWord vs) (small : length vs * 8 < u32_mod)
    (asc : IsAscending vs) where
  le_get : (i j : ℕ) → i ≤ j → j < length vs → get_or vs i 0 ≤ get_or vs j 0
  le_get i j p q = ground (arith, IsAscending-lt vs i j asc)

  upper-Inv :
      (lo hi mid : ℕ)
      → Inv vs target lo hi
      → lo ≤ mid
      → mid < hi
      → get_or vs mid 0 < target
      → Inv vs target (mid + 1) hi
  upper-Inv lo hi mid v p q h = record {
    inside = v.inside;
    ordered = omega arith;
    below = λ i l. omega (arith, le_get i mid (omega arith) (omega (arith, v.inside)));
    above = v.above;
  }

  lower-Inv :
      (lo hi mid : ℕ)
      → Inv vs target lo hi
      → lo ≤ mid
      → mid < hi
      → target ≤ get_or vs mid 0
      → Inv vs target lo mid
  lower-Inv lo hi mid v p q h = record {
    inside = omega (arith, v.inside);
    ordered = p;
    below = v.below;
    above = λ i l m. omega (arith, le_get mid i l m);
  }

  Inv→Splits : (lo hi : ℕ) → Inv vs target lo hi → hi ≤ lo → Splits vs target lo
  Inv→Splits lo hi v h = (omega (arith, v.inside), v.below, λ i p q. v.above i (omega arith) q)

  lower_loop-Splits :
      (k lo hi : ℕ)
      → Inv vs target lo hi
      → hi - lo < 2 ^ k
      → (r : ℕ) × (lower_loop (encode_all vs) target lo hi (suc k) ≡ ret r) × Splits vs target r
  lower_loop-Splits zero lo hi v h =
      (lo, lower_loop_end _ target lo hi 0 (omega arith), Inv→Splits lo hi v (omega arith))
  lower_loop-Splits (suc k) lo hi v h = elim (dec_lt lo hi) [
    | no e ↦
        (lo, lower_loop_end _ target lo hi (suc k) (omega arith), Inv→Splits lo hi v (omega arith))
    | yes p ↦
        let mid : ℕ = (lo + hi) / 2 in
        let x : ℕ = get_or vs mid 0 in
        let turn =
          lower_loop_round (encode_all vs) target lo hi mid x (suc k) p (omega (arith, v.inside))
            refl (word_at vs words small mid (omega (arith, v.inside))) in
        elim (dec_lt x target) [
          | yes q ↦
              let (r, e, s) =
                lower_loop-Splits k (mid + 1) hi
                  (upper-Inv lo hi mid v (omega arith) (omega arith) q) (omega arith) in
              (r, turn ∙ ground arith, s)
          | no q ↦
              let (r, e, s) =
                lower_loop-Splits k lo mid
                  (lower-Inv lo hi mid v (omega arith) (omega arith) (omega arith)) (omega arith) in
              (r, turn ∙ ground arith, s)
        ]
  ]

  beyond :
      (r : ℕ)
      → Splits vs target r
      → r < length vs
      → get_or vs r 0 ≢ target
      → (i : ℕ) → r ≤ i
      → i < length vs
      → target < get_or vs i 0
  beyond r s p ne i q l = omega (arith, s.2 r (omega arith) p, le_get r i q l)

  -- At the split point the target stands, or it stands nowhere.
  Splits-elem :
      (r : ℕ) → Splits vs target r → elem target vs ≡ (ltb r (length vs) && get_or vs r 0 == target)
  Splits-elem r s = elim (dec_lt r (length vs)) [
    | no p ↦ rw (not_elem_of_get vs target (λ i q e. omega (arith, s.1 i))) (ground arith)
    | yes p ↦ elim (ℕ_discrete (get_or vs r 0) target) [
      | yes e ↦ rw (elem_of_get vs r target p e) (ground arith)
      | no ne ↦
          rw
            (not_elem_of_get vs target (λ i q e. elim (dec_lt i r) [
              | yes l ↦ omega (arith, s.1 i l)
              | no l ↦ omega (arith, beyond r s p ne i (omega arith) q)
            ]))
            (ground arith)
    ]
  ]

  last_read :
      (r : ℕ)
      → (if ltb r (length vs)
          then (decode_le_u64 (drop (mul32 r 8) (encode_all vs)) >>= λ v. ret (v == target))
          else ret false)
        ≡ ret (ltb r (length vs) && get_or vs r 0 == target)
  last_read r = elim (dec_lt r (length vs)) [
    | no p ↦ ground arith
    | yes p ↦ rw (word_at vs words small r p) (ground arith)
  ]

  -- The search of a strictly ascending blob ends within its fuel, reads inside the blob, and says
  -- exactly whether the target is one of its words. The words have 64 bits and the blob fits 32 bits.
  pub blob_contains-elem : blob_contains (encode_all vs) (length vs) target ≡ ret (elem target vs)
  unfolding blob_contains
  blob_contains-elem =
      let (r, e, s) =
        lower_loop-Splits 32 0 (length vs)
          (record {
            inside = omega arith;
            ordered = omega arith;
            below = λ i p. omega arith;
            above = λ i p q. omega arith;
          })
          (omega arith) in
      rw (e, Splits-elem r s) (last_read r)

  pub ascending_loop-IsAscending : ascending_loop (encode_all vs) 0 0 (length vs) ≡ ret true
  ascending_loop-IsAscending =
      ascending_loop-from vs words small [] vs 0 refl ∙ ap ret (ascending_from_complete vs asc)
