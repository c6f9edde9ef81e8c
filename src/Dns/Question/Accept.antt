-- ===== src/Dns/Question/Accept.antt =====
-- The label loop of parse_question of main/dns_sinkhole.c, against the wire format.
use native.Mathlib.Decide.{dec_lt, ℕ_discrete}
use esp_hole.Base.Bits.{bit_and_top}
use esp_hole.Dns.Question.{dot, lower, put, copy_label, put_dot, label_loop}
use esp_hole.Dns.Question.Wire.{At, Labels, dotted_rest, dotted}
use esp_hole.Base.{
  ℕ, zero, suc, ◌+◌, ◌≤◌, ◌<◌, bit_and, ◌≡◌, refl, sym, ap, ◌∙◌, ◌⊎◌, inl, inr, true, false, ◌||◌,
  not, Option, none, some, List, [], ◌∷◌, ◌++◌, map, append-nil, append_assoc, arith, ltb, leb,
  ◌==◌, if◌then◌else◌, lt→ltb, le→ltb_false, ne→==_false, Bool-cases, length, get_elem?, get_or,
  length-append, get_elem?-eq-get_or, All, length-map, All-get, ret,
}

-- Copying a label that stands in the packet and fits the name appends it in lower case.
copy_label-At :
    (pkt : List ℕ) (name_sz off : ℕ) (l name : List ℕ)
    → At pkt off l
    → length name + length l ≤ name_sz
    → copy_label pkt name_sz off (length l) name ≡ ret (name ++ map lower l)
unfolding copy_label put
copy_label-At pkt name_sz off [] name a h = ap ret (sym (append-nil name))
copy_label-At pkt name_sz off (c ∷ l) name a h =
    let t : ltb (length name) name_sz ≡ true = lt→ltb _ _ (omega arith) in
    rw (a.0, t)
      (copy_label-At pkt name_sz (suc off) l (name ++ lower c ∷ []) a.1
          (omega (arith, length-append name (lower c ∷ [])))
        ∙ ap ret (append_assoc name (lower c ∷ []) (map lower l)))

-- The bytes of a label inside the datagram.
abbrev slice : List ℕ → ℕ → ℕ → List ℕ
slice pkt off zero = []
slice pkt off (suc n) = get_or pkt off 0 ∷ slice pkt (suc off) n

length-slice : (pkt : List ℕ) (off n : ℕ) → length (slice pkt off n) ≡ n
length-slice pkt off zero = refl
length-slice pkt off (suc n) = ap suc (length-slice pkt (suc off) n)

slice-At : (pkt : List ℕ) (off n : ℕ) → off + n ≤ length pkt → At pkt off (slice pkt off n)
slice-At pkt off zero h = tt
slice-At pkt off (suc n) h =
    (get_elem?-eq-get_or pkt off 0 (omega arith), slice-At pkt (suc off) n (omega arith))

pub Labels-lt :
    (pkt : List ℕ) (ls : List (List ℕ)) (off end : ℕ) → Labels pkt off ls end → off < end
Labels-lt pkt [] off end w = omega (arith, w.1)
Labels-lt pkt (l ∷ ls) off end w = omega (arith, Labels-lt pkt ls (suc off + length l) end w.4)

-- The name with the dot that goes before the next label.
abbrev entered : List ℕ → List ℕ
entered name = if length name == 0 then name else name ++ dot ∷ []

abbrev dot_size : List ℕ → ℕ
dot_size name = if length name == 0 then 0 else 1

length-entered : (name : List ℕ) → length (entered name) ≡ length name + dot_size name
length-entered name = ground (arith, length-append name (dot ∷ []))

module _ (pkt : List ℕ) (len name_sz : ℕ) where
  -- One round on a label that fits.
  round :
      (fuel off : ℕ) (name l : List ℕ)
      → get_elem? pkt off ≡ some (length l)
      → 0 < length l
      → length l < 64
      → At pkt (suc off) l
      → suc off + length l ≤ len
      → length name + length l + dot_size name < name_sz
      → label_loop pkt len name_sz (suc fuel) off name
        ≡ label_loop pkt len name_sz fuel (suc off + length l) (entered name ++ map lower l)
  unfolding label_loop
  round fuel off name l g pos short a inside fits =
      let t1 : leb len off ≡ false = ground arith in
      let t2 : (length l == 0) ≡ false = ground arith in
      let t3 : (bit_and (length l) 0xC0 == 0) ≡ true =
        bit_and_top (length l) (omega arith) ∙ lt→ltb (length l) 64 short in
      let t4 : ltb len (suc off + length l) ≡ false = le→ltb_false _ _ inside in
      let t5 : leb name_sz (length name + length l + dot_size name) ≡ false = ground arith in
      let e : put_dot name_sz name ≡ ret (entered name) = unfold put in ground arith in
      let c : copy_label pkt name_sz (suc off) (length l) (entered name)
          ≡ ret (entered name ++ map lower l) =
        copy_label-At pkt name_sz (suc off) l (entered name) a
          (omega (arith, length-entered name)) in
      rw (t1, g, t2, t3, t4, t5, e, c) refl

  -- The end of the name.
  last_round :
      (fuel off : ℕ) (name : List ℕ)
      → get_elem? pkt off ≡ some 0
      → off < len
      → label_loop pkt len name_sz (suc fuel) off name ≡ ret (some (suc off, name))
  unfolding label_loop
  last_round fuel off name g h = let t1 : leb len off ≡ false = ground arith in rw (t1, g) refl

  -- The name that the loop leaves behind `name`.
  abbrev pub joined : List ℕ → List (List ℕ) → List ℕ
  joined name ls = if length name == 0 then dotted ls else name ++ dotted_rest ls

  joined_step :
      (name l : List ℕ) (ls : List (List ℕ))
      → 0 < length l
      → joined (entered name ++ map lower l) ls ≡ joined name (l ∷ ls)
  joined_step name [] ls pos = absurd (omega arith)
  joined_step [] (c ∷ l) ls pos = ground arith
  joined_step (x ∷ name) (c ∷ l) ls pos = ground (
    arith,
    append_assoc (x ∷ name ++ dot ∷ []) (map lower (c ∷ l)) (dotted_rest ls),
    append_assoc (x ∷ name) (dot ∷ []) (map lower (c ∷ l) ++ dotted_rest ls),
  )

  length-joined : (ls : List (List ℕ)) (name : List ℕ) → length name ≤ length (joined name ls)
  length-joined ls name = ground (arith, length-append name (dotted_rest ls))

  length-label :
      (name l : List ℕ)
      → length (entered name ++ map lower l) ≡ length name + length l + dot_size name
  length-label name l =
      omega
        (arith, length-append (entered name) (map lower l), length-map lower l, length-entered name)

  -- A well-formed name that fits is parsed to its labels.
  pub label_loop-Labels :
      (ls : List (List ℕ)) (fuel off end : ℕ) (name : List ℕ)
      → Labels pkt off ls end
      → end ≤ len
      → length (joined name ls) < name_sz
      → len < off + fuel
      → label_loop pkt len name_sz fuel off name ≡ ret (some (end, joined name ls))
  label_loop-Labels ls zero off end name w inside fits f =
      absurd (omega (arith, Labels-lt pkt ls off end w))
  label_loop-Labels [] (suc fuel) off end name w inside fits f =
      last_round fuel off name w.0 (omega (arith, w.1)) ∙ ground (arith, w.1, append-nil name)
  label_loop-Labels (l ∷ ls) (suc fuel) off end name (g, pos, short, a, w) inside fits f =
      let step = joined_step name l ls pos in
      let size = length-joined ls (entered name ++ map lower l) in
      round fuel off name l g pos short a
        (omega (arith, Labels-lt pkt ls (suc off + length l) end w))
        (omega (arith, length-label name l, ap length step))
      ∙ label_loop-Labels ls fuel (suc off + length l) end (entered name ++ map lower l) w inside
          (omega (arith, ap length step)) (omega arith)
      ∙ ap (λ n. ret (some (end, n))) step

  -- What a name that the loop returns tells about the packet.
  abbrev pub Explains : ℕ → List ℕ → Option (ℕ × List ℕ) → Type 0
  Explains off name none = Unit {0}
  Explains off name (some (end, name')) =
      (ls : List (List ℕ)) × Labels pkt off ls end
      × (end ≤ len)
      × (name' ≡ joined name ls)
      × (length name' < name_sz)

  module _ (received : len ≤ length pkt) (bytes : All (λ c. c < 256) pkt) where
    Explains-step :
        (off : ℕ) (name l : List ℕ) (r : Option (ℕ × List ℕ))
        → get_elem? pkt off ≡ some (length l)
        → 0 < length l
        → length l < 64
        → At pkt (suc off) l
        → Explains (suc off + length l) (entered name ++ map lower l) r
        → Explains off name r
    Explains-step off name l none g pos short a e = tt
    Explains-step off name l (some (end, name')) g pos short a (ls, w, inside, e, fits) =
        (l ∷ ls, (g, pos, short, a, w), inside, e ∙ joined_step name l ls pos, fits)

    refuse :
        (fuel off : ℕ) (name : List ℕ)
        → (leb len off ≡ true)
          ⊎ ((leb len off ≡ false)
              × (get_elem? pkt off ≡ some (get_or pkt off 0))
              × ((get_or pkt off 0 == 0) ≡ false)
              × ((not (bit_and (get_or pkt off 0) 0xC0 == 0)
                    || ltb len (suc off + get_or pkt off 0)
                    || leb name_sz (length name + get_or pkt off 0 + dot_size name))
                  ≡ true))
        → label_loop pkt len name_sz (suc fuel) off name ≡ ret none
    unfolding label_loop
    refuse fuel off name (inl e) = rw e refl
    refuse fuel off name (inr (e, g, z, t)) = rw (e, g, z) (ground arith)

    -- The loop always ends inside its buffers.
    pub label_loop-Explains :
        (fuel off : ℕ) (name : List ℕ)
        → length name < name_sz
        → off ≤ len
        → len < off + fuel
        → (r : Option (ℕ × List ℕ)) × (label_loop pkt len name_sz fuel off name ≡ ret r)
          × Explains off name r
    label_loop-Explains zero off name fits low f = absurd (omega arith)
    label_loop-Explains (suc fuel) off name fits low f = elim (dec_lt off len) [
      | no p ↦ (none, refuse fuel off name (inl (ground arith)), tt)
      | yes p ↦
          let x : ℕ = get_or pkt off 0 in
          let g : get_elem? pkt off ≡ some x = get_elem?-eq-get_or pkt off 0 (omega arith) in
          let byte : x < 256 = All-get (λ c. c < 256) pkt off bytes (omega arith) in
          elim (ℕ_discrete x 0) [
            | yes z ↦ (
              some (suc off, name),
              last_round fuel off name (g ∙ ap some z) p,
              ([], (g ∙ ap some z, refl), p, ground (arith, append-nil name), fits),
            )
            | no nz ↦
                elim (Bool-cases (
                  not (bit_and x 0xC0 == 0)
                  || ltb len (suc off + x)
                  || leb name_sz (length name + x + dot_size name))) [
                    | inl t ↦ (
                      none,
                      refuse fuel off name (inr (ground arith, g, ne→==_false x 0 nz, t)),
                      tt,
                    )
                    | inr t ↦
                        let l : List ℕ = slice pkt (suc off) x in
                        let size : length l ≡ x = length-slice pkt (suc off) x in
                        let short : x < 64 = ground (arith, bit_and_top x byte) in
                        let inside : suc off + x ≤ len = ground arith in
                        let small : length name + x + dot_size name < name_sz = ground arith in
                        let a : At pkt (suc off) l = slice-At pkt (suc off) x (omega arith) in
                        let (r, e, w) =
                          label_loop-Explains fuel (suc off + length l)
                            (entered name ++ map lower l) (omega (arith, length-label name l))
                            (omega arith) (omega arith) in
                        (
                          r,
                          round fuel off name l (g ∙ ap some (sym size)) (omega arith) (omega arith)
                                a (omega arith) (omega arith)
                              ∙ e,
                          Explains-step off name l r (g ∙ ap some (sym size)) (omega arith)
                              (omega arith) a w,
                        )
                  ]
          ]
    ]
