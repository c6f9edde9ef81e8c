-- ===== src/Dns/Match/Parents.antt =====
-- is_blocked of main/dns_sinkhole.c, against a description by the parents of a name.
use native.Mathlib.Decide.{ℕ_discrete}
use esp_hole.Hash.{domain_hash}
use esp_hole.Dns.Question.{dot}
use esp_hole.Dns.Match.{count_dots, after_dot, match_loop, is_blocked}
use esp_hole.Base.{
  ℕ, zero, suc, ◌+◌, ◌-◌, ◌≤◌, ◌<◌, ◌≡◌, refl, sym, ap, ◌∙◌, ◌≢◌, ◌↔◌, ◌⊎◌, inl, inr, Bool, true,
  false, some, List, [], ◌∷◌, ◌++◌, append_assoc, arith, leb, le→leb, Bool-cases, elem, ret,
}

-- The blocklist holds the name, or what stands behind one of its dots and has a dot itself.
abbrev pub Blocks : (ℕ → Bool) → List ℕ → Type 0
Blocks hit name =
    (hit (domain_hash name) ≡ true)
    ⊎ ((pre : List ℕ) × (p : List ℕ) × (name ≡ pre ++ dot ∷ p)
        × (elem dot p ≡ true)
        × (hit (domain_hash p) ≡ true))

count_dots-append : (s t : List ℕ) → count_dots (s ++ t) ≡ count_dots s + count_dots t
unfolding count_dots
count_dots-append [] t = omega arith
count_dots-append (c ∷ s) t = omega (arith, count_dots-append s t)

count_dots-elem : (s : List ℕ) → elem dot s ≡ true → 0 < count_dots s
unfolding count_dots
count_dots-elem [] h = cc
count_dots-elem (c ∷ s) h = ground (arith, count_dots-elem s)

elem-count_dots : (s : List ℕ) → 0 < count_dots s → elem dot s ≡ true
unfolding count_dots
elem-count_dots [] h = elim h [ ]
elem-count_dots (c ∷ s) h = ground (arith, elem-count_dots s)

-- A name with a dot splits at the first one.
first_dot :
    (s : List ℕ)
    → 0 < count_dots s
    → (q : List ℕ) × (p : List ℕ) × (s ≡ q ++ dot ∷ p) × (after_dot s ≡ some p) × (count_dots q ≡ 0)
unfolding count_dots after_dot
first_dot [] h = elim h [ ]
first_dot (c ∷ s) h = elim (ℕ_discrete c dot) [
  | yes e ↦ ([], s, ap (λ (x : ℕ). x ∷ s) e, ground arith, refl)
  | no ne ↦
      let (q, p, split, found, none_before) = first_dot s (ground arith) in
      (c ∷ q, p, ap (◌∷◌ c) split, ground arith, ground arith)
]

-- Any other dot of the name stands behind the first one.
later_dot :
    (q p pre s : List ℕ)
    → count_dots q ≡ 0
    → q ++ dot ∷ p ≡ pre ++ dot ∷ s
    → (s ≡ p) ⊎ ((pre' : List ℕ) × (p ≡ pre' ++ dot ∷ s))
unfolding count_dots
later_dot [] p [] s h e = inl (ground arith)
later_dot [] p (x ∷ pre) s h e = inr (pre, ground arith)
later_dot (c ∷ q) p [] s h e = absurd (ground arith)
later_dot (c ∷ q) p (x ∷ pre) s h e = later_dot q p pre s (ground arith) (ground arith)

drop_count :
    (name q p : List ℕ)
    → name ≡ q ++ dot ∷ p
    → count_dots q ≡ 0
    → count_dots name ≡ suc (count_dots p)
unfolding count_dots
drop_count name q p e none_before = omega (arith, ap count_dots e, count_dots-append q (dot ∷ p))

-- Below three labels a name has no parent that may be matched.
few_labels :
    (hit : ℕ → Bool) (name : List ℕ)
    → count_dots name ≤ 1
    → hit (domain_hash name) ≡ false
    → ¬ Blocks hit name
unfolding count_dots
few_labels hit name few miss (inl h) = cc
few_labels hit name few miss (inr (pre, p, split, inner, h)) =
    omega (arith, ap count_dots split, count_dots-append pre (dot ∷ p), count_dots-elem p inner)

-- Dropping the first label keeps what a parent blocks.
Blocks-drop :
    (hit : ℕ → Bool) (name q p : List ℕ)
    → name ≡ q ++ dot ∷ p
    → count_dots q ≡ 0
    → hit (domain_hash name) ≡ false
    → Blocks hit name
    → Blocks hit p
Blocks-drop hit name q p e none_before miss (inl h) = absurd (cc)
Blocks-drop hit name q p e none_before miss (inr (pre, s, split, inner, h)) =
    elim (later_dot q p pre s none_before (sym e ∙ split)) [
      | inl here ↦ inl (rw (← here) h)
      | inr (pre', behind) ↦ inr (pre', s, behind, inner, h)
    ]

Blocks-add :
    (hit : ℕ → Bool) (name q p : List ℕ)
    → name ≡ q ++ dot ∷ p
    → 0 < count_dots p
    → Blocks hit p
    → Blocks hit name
Blocks-add hit name q p e dots (inl h) = inr (q, p, e, elem-count_dots p dots, h)
Blocks-add hit name q p e dots (inr (pre, s, split, inner, h)) = inr (
  q ++ dot ∷ pre,
  s,
  e ∙ ap (λ (t : List ℕ). q ++ dot ∷ t) split ∙ sym (append_assoc q (dot ∷ pre) (dot ∷ s)),
  inner,
  h,
)

module _ (hit : ℕ → Bool) (fuel : ℕ) (name : List ℕ) (labels : ℕ) where
  hit_round :
      hit (domain_hash name) ≡ true
      → match_loop (λ h. ret (hit h)) (suc fuel) name labels ≡ ret true
  unfolding match_loop
  hit_round e = rw e refl

  miss_round :
      hit (domain_hash name) ≡ false
      → labels ≤ 2
      → match_loop (λ h. ret (hit h)) (suc fuel) name labels ≡ ret false
  unfolding match_loop
  miss_round e few = let t : leb labels 2 ≡ true = le→leb labels 2 few in rw (e, t) refl

  drop_round :
      (p : List ℕ)
      → hit (domain_hash name) ≡ false
      → 2 < labels
      → after_dot name ≡ some p
      → match_loop (λ h. ret (hit h)) (suc fuel) name labels
        ≡ match_loop (λ h. ret (hit h)) fuel p (labels - 1)
  unfolding match_loop
  drop_round p e more d = let t : leb labels 2 ≡ false = ground arith in rw (e, t, d) refl

abbrev Matched : (ℕ → Bool) → ℕ → List ℕ → Type 0
Matched hit n name =
    (b : Bool) × (match_loop (λ h. ret (hit h)) (suc n) name (suc n) ≡ ret b)
    × ((b ≡ true) ↔ Blocks hit name)

-- The last round: at most two labels are left.
match_few :
    (hit : ℕ → Bool) (n : ℕ) (name : List ℕ) → count_dots name ≡ n → n ≤ 1 → Matched hit n name
match_few hit n name e few = elim (Bool-cases (hit (domain_hash name))) [
  | inl h ↦ (true, hit_round hit n name (suc n) h, (λ _. inl h, λ _. refl))
  | inr miss ↦ (
    false,
    miss_round hit n name (suc n) miss (omega arith),
    (λ t. cc, λ b. absurd (few_labels hit name (omega arith) miss b)),
  )
]

match_loop-Blocks :
    (hit : ℕ → Bool) (n : ℕ) (name : List ℕ) → count_dots name ≡ n → Matched hit n name
match_loop-Blocks hit zero name e = match_few hit 0 name e (omega arith)
match_loop-Blocks hit (suc zero) name e = match_few hit 1 name e (omega arith)
match_loop-Blocks hit (suc (suc n)) name e = elim (Bool-cases (hit (domain_hash name))) [
  | inl h ↦ (true, hit_round hit (suc (suc n)) name (suc (suc (suc n))) h, (λ _. inl h, λ _. refl))
  | inr miss ↦
      let (q, p, split, found, none_before) = first_dot name (omega arith) in
      let dots = drop_count name q p split none_before in
      let (b, run, spec) = match_loop-Blocks hit (suc n) p (omega arith) in
      let one_less : suc (suc (suc n)) - 1 ≡ suc (suc n) = omega arith in
      (
        b,
        drop_round hit (suc (suc n)) name (suc (suc (suc n))) p miss (omega arith) found
            ∙ rw one_less run,
        (
          λ t. Blocks-add hit name q p split (omega arith) (spec.0 t),
          λ k. spec.1 (Blocks-drop hit name q p split none_before miss k),
        ),
      )
]

-- A lookup that answers gives `is_blocked` an answer, whatever the name: it never runs past the last
-- dot, and it blocks a non-empty name exactly when the list holds the name or a parent with at least
-- two labels.
pub is_blocked-Blocks :
    (hit : ℕ → Bool) (name : List ℕ)
    → name ≢ []
    → (b : Bool) × (is_blocked (λ h. ret (hit h)) name ≡ ret b) × ((b ≡ true) ↔ Blocks hit name)
unfolding is_blocked
is_blocked-Blocks hit [] h = absurd (h refl)
is_blocked-Blocks hit (c ∷ name) h =
    let n : ℕ = count_dots (c ∷ name) in
    let labels : 1 + n ≡ suc n = omega arith in rw labels (match_loop-Blocks hit n (c ∷ name) refl)
