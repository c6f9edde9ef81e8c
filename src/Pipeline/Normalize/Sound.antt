-- ===== src/Pipeline/Normalize/Sound.antt =====
-- What normalize_domain hands back.
use esp_hole.Pipeline.Normalize.{
  is_ignored_host, domain_is_ipv4_shape, trim_front, trim_back, strip_point, strip_wildcard, lower,
  all_ascii, accept, normalize_domain,
}
use esp_hole.Pipeline.Normalize.Shape.{IsDomain, is_valid_domain_shape-IsDomain}
use esp_hole.Base.{
  ℕ, ◌≤◌, ◌<◌, ◌≡◌, refl, subst, ◌⊎◌, inl, inr, false, ◌&&◌, ◌||◌, Option, none, some, List, [],
  ◌∷◌, map, arith, ltb, leb, ◌==◌, Bool-cases, length, All, length-map, ret,
}

-- A name that may enter a blocklist.
pub record IsNormal (out_sz : ℕ) (name : List ℕ) : Type 0 where
  pub domain : IsDomain name
  pub short : length name ≤ 253
  pub fits : length name < out_sz
  pub lowered : All (λ c. (c < 65) ⊎ (90 < c)) name
  pub listed : is_ignored_host name ≡ false
  pub named : domain_is_ipv4_shape name ≡ false

map-lowered : (s : List ℕ) → All (λ c. (c < 65) ⊎ (90 < c)) (map lower s)
unfolding lower
map-lowered [] = tt
map-lowered (c ∷ s) = (
  elim (Bool-cases (leb 65 c && leb c 90)) [
    | inl u ↦ rw u (inr (ground arith))
    | inr l ↦ rw l (ground arith)
  ],
  map-lowered s,
)

-- What a run of `accept` may return.
abbrev Accepted : ℕ → Option (List ℕ) → Type 0
Accepted out_sz none = Unit {0}
Accepted out_sz (some name) = IsNormal out_sz name

accept-IsNormal :
    (s : List ℕ) (out_sz : ℕ)
    → (r : Option (List ℕ)) × (accept s out_sz ≡ ret r) × Accepted out_sz r
unfolding accept
accept-IsNormal s out_sz =
    let name : List ℕ = map lower s in
    let (valid, run, spec) = is_valid_domain_shape-IsDomain name in
    elim (Bool-cases (length s == 0 || ltb 253 (length s) || leb out_sz (length s))) [
      | inl e ↦ (none, rw e refl, tt)
      | inr t1 ↦ elim (Bool-cases (is_ignored_host name || domain_is_ipv4_shape name)) [
        | inl e ↦ (none, rw (t1, e) refl, tt)
        | inr t2 ↦ elim (Bool-cases (all_ascii name)) [
          | inr e ↦ (none, rw (t1, t2, e) refl, tt)
          | inl t3 ↦ elim (Bool-cases valid) [
            | inr e ↦ (none, rw (t1, t2, t3, run, e) refl, tt)
            | inl t4 ↦ (
              some name,
              rw (t1, t2, t3, run, t4) refl,
              record {
                domain = spec.0 t4;
                short = ground (arith, length-map lower s);
                fits = ground (arith, length-map lower s);
                lowered = map-lowered s;
                listed = ground arith;
                named = ground arith;
              },
            )
          ]
        ]
      ]
    ]

-- Normalisation always ends, and a name that it hands back is a lower-case domain of at most 253
-- bytes that fits the buffer with its terminator, and is neither an ignored host nor an IPv4 address.
pub normalize_domain-IsNormal :
    (token : List ℕ) (out_sz : ℕ)
    → (r : Option (List ℕ)) × (normalize_domain token out_sz ≡ ret r)
      × ((name : List ℕ) → r ≡ some name → IsNormal out_sz name)
unfolding normalize_domain
normalize_domain-IsNormal token out_sz =
    let (r, run, normal) =
      accept-IsNormal (strip_wildcard (strip_point (trim_back (trim_front token)))) out_sz in
    (r, run, λ name e. let t : Accepted out_sz (some name) = subst (Accepted out_sz) e normal in t)
