-- ===== src/Pipeline/Allowlist.antt =====
-- allowlist_init and allowlist_contains of generator-node/main/allowlist.c, over the static variables
-- `s_hashes` and `s_count`. The configuration string is an argument, without its terminator.
use esp_hole.Hash.{generator_domain_hash}
use esp_hole.Pipeline.Normalize.{normalize_domain}
use esp_hole.Pipeline.Normalize.Sound.{normalize_domain-IsNormal}
use esp_hole.Base.{
  ℕ, zero, suc, ◌≤◌, ◌<◌, ◌≡◌, refl, inl, inr, Bool, true, false, ◌||◌, none, some, List, [], ◌∷◌,
  ◌++◌, arith, leb, ◌==◌, if◌then◌else◌, Bool-cases, Option-cases, length, length-append, Exec, ret,
  no_fuel, ◌>>=◌,
}

abbrev pub allowlist_max : ℕ
allowlist_max = 32

-- The bytes up to a comma, and what is behind it.
unfoldable pub entry : List ℕ → List ℕ × List ℕ
entry [] = ([], [])
entry (c ∷ s) = let (e, rest) = entry s in if c == 44 then ([], s) else (c ∷ e, rest)

unfoldable pub allowlist_loop : ℕ → List ℕ → List ℕ → Exec (List ℕ)
allowlist_loop zero p hashes = no_fuel
allowlist_loop (suc fuel) p hashes =
    let (e, rest) = entry p in
    let next = allowlist_loop fuel rest in
    if length p == 0 || leb allowlist_max (length hashes)
    then ret hashes
    else (normalize_domain e 256 >>= λ r. elim r [
      | none ↦ next hashes
      | some norm ↦ next (hashes ++ generator_domain_hash norm ∷ [])
    ])

unfoldable pub allowlist_init : List ℕ → Exec (List ℕ)
unfolding allowlist_loop
allowlist_init config = allowlist_loop (suc (length config)) config []

unfoldable pub allowlist_contains : List ℕ → ℕ → Bool
allowlist_contains [] hash = false
allowlist_contains (h ∷ hs) hash =
    let rest = allowlist_contains hs hash in if h == hash then true else rest

entry-shorter : (c : ℕ) (s : List ℕ) → length (entry (c ∷ s)).1 < suc (length s)
unfolding entry
entry-shorter c [] = ground arith
entry-shorter c (d ∷ s) = ground (arith, entry-shorter d s)

allowlist_loop-total :
    (fuel : ℕ) (p hashes : List ℕ)
    → length p < fuel
    → length hashes ≤ allowlist_max
    → (hs : List ℕ) × (allowlist_loop fuel p hashes ≡ ret hs) × (length hs ≤ allowlist_max)
unfolding allowlist_loop
allowlist_loop-total zero p hashes h l = elim h [ ]
allowlist_loop-total (suc fuel) [] hashes h l = (hashes, refl, l)
allowlist_loop-total (suc fuel) (c ∷ s) hashes h l =
    let (r, run, normal) = normalize_domain-IsNormal (entry (c ∷ s)).0 256 in
    let smaller : length (entry (c ∷ s)).1 < fuel = omega (arith, entry-shorter c s) in
    elim (Bool-cases (length (c ∷ s) == 0 || leb allowlist_max (length hashes))) [
      | inl full ↦ (hashes, rw full refl, l)
      | inr room ↦ elim (Option-cases r) [
        | inl e ↦
            let (hs, more, b) = allowlist_loop-total fuel (entry (c ∷ s)).1 hashes smaller l in
            (hs, rw (room, run, e) more, b)
        | inr (norm, e) ↦
            let longer : List ℕ = hashes ++ generator_domain_hash norm ∷ [] in
            let (hs, more, b) =
              allowlist_loop-total fuel (entry (c ∷ s)).1 longer smaller
                (ground (arith, length-append hashes (generator_domain_hash norm ∷ []))) in
            (hs, rw (room, run, e) more, b)
      ]
    ]

-- Reading the configured list always ends, with at most 32 hashes, the size of the array.
pub allowlist_init-total :
    (config : List ℕ)
    → (hashes : List ℕ) × (allowlist_init config ≡ ret hashes) × (length hashes ≤ allowlist_max)
unfolding allowlist_init
allowlist_init-total config =
    allowlist_loop-total (suc (length config)) config [] (omega arith) (omega arith)
