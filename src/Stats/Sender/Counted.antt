-- ===== src/Stats/Sender/Counted.antt =====
-- What the counters of main/stats.c count between two readings.
use esp_hole.Stats.Counters.{
  hist_buckets, Counters, lat_bucket, count_blocked, count_timeout, count_forwarded,
}
use esp_hole.Base.{
  ℕ, ◌+◌, ◌%◌, ◌<◌, ◌≡◌, refl, sym, ap, ◌∙◌, inl, inr, List, [], ◌∷◌, arith, ◌==◌, if◌then◌else◌,
  ==→eq, ==_false→ne, Bool-cases, length, get_or, set, length-set, get_or-set_self,
  get_or-set_other, u32_mod, add32, sub32,
}

-- What the serve path counts.
pub data Event : Type 0 where
  blocked timeout : Event
  forwarded : ℕ → Event

abbrev pub count : Counters → List Event → Counters
count c [] = c
count c (blocked ∷ es) = count (count_blocked c) es
count c (timeout ∷ es) = count (count_timeout c) es
count c (forwarded us ∷ es) = count (count_forwarded us c) es

-- How many events of each kind there are, and their latencies.
pub record Weight : Type 0 where
  pub of_blocked : ℕ
  pub of_timeout : ℕ
  pub of_forwarded : ℕ → ℕ

abbrev pub total : Weight → List Event → ℕ
total w [] = 0
total w (blocked ∷ es) = w.of_blocked + total w es
total w (timeout ∷ es) = w.of_timeout + total w es
total w (forwarded us ∷ es) = w.of_forwarded us + total w es

abbrev pub blocked_weight : Weight
blocked_weight = record { of_blocked = 1; of_timeout = 0; of_forwarded = λ us. 0 }

abbrev pub timeout_weight : Weight
timeout_weight = record { of_blocked = 0; of_timeout = 1; of_forwarded = λ us. 0 }

abbrev pub forwarded_weight : Weight
forwarded_weight = record { of_blocked = 0; of_timeout = 0; of_forwarded = λ us. 1 }

abbrev pub latency_weight : Weight
latency_weight = record { of_blocked = 0; of_timeout = 0; of_forwarded = λ us. us }

abbrev pub bucket_weight : ℕ → Weight
bucket_weight b = record {
  of_blocked = 0;
  of_timeout = 0;
  of_forwarded = λ us. if lat_bucket us == b then 1 else 0;
}

-- A field of the counters that each event adds its weight to, in 32 bits.
pub Accrues : Weight → (Counters → ℕ) → Type 0
Accrues w of =
    (c : Counters)
    → length c.hist ≡ hist_buckets
    → of c < u32_mod
    → (of (count_blocked c) ≡ add32 (of c) w.of_blocked)
      × (of (count_timeout c) ≡ add32 (of c) w.of_timeout)
      × ((us : ℕ) → of (count_forwarded us c) ≡ add32 (of c) (w.of_forwarded us))

length-hist : (us : ℕ) (c : Counters) → length (count_forwarded us c).hist ≡ length c.hist
unfolding count_forwarded
length-hist us c = length-set c.hist (lat_bucket us) (add32 (get_or c.hist (lat_bucket us) 0) 1)

count_total :
    (w : Weight) (of : Counters → ℕ) (es : List Event) (c : Counters)
    → Accrues w of
    → length c.hist ≡ hist_buckets
    → of c < u32_mod
    → of (count c es) ≡ (of c + total w es) % u32_mod
unfolding Accrues count_blocked count_timeout
count_total w of [] c a l r = omega (arith, r)
count_total w of (blocked ∷ es) c a l r =
    let (e, _, _) = a c l r in
    let more = count_total w of es (count_blocked c) a l (omega (arith, e)) in
    omega (arith, e, more)
count_total w of (timeout ∷ es) c a l r =
    let (_, e, _) = a c l r in
    let more = count_total w of es (count_timeout c) a l (omega (arith, e)) in
    omega (arith, e, more)
count_total w of (forwarded us ∷ es) c a l r =
    let (_, _, f) = a c l r in
    let e = f us in
    let more =
      count_total w of es (count_forwarded us c) a (length-hist us c ∙ l) (omega (arith, e)) in
    omega (arith, e, more)

-- The difference of two readings is the total between them, also across a wrap.
pub sub32-total :
    (w : Weight) (of : Counters → ℕ) (es : List Event) (c : Counters)
    → Accrues w of
    → length c.hist ≡ hist_buckets
    → of c < u32_mod
    → total w es < u32_mod
    → sub32 (of (count c es)) (of c) ≡ total w es
sub32-total w of es c a l r t = omega (arith, count_total w of es c a l r, r, t)

-- Every counter has 32 bits.
pub record IsSnapshot (c : Counters) : Type 0 where
  pub blocked : c.blocked < u32_mod
  pub forwarded : c.forwarded < u32_mod
  pub timeouts : c.timeouts < u32_mod
  pub lat_sum_us : c.lat_sum_us < u32_mod
  pub buckets : length c.hist ≡ hist_buckets
  pub words : (b : ℕ) → get_or c.hist b 0 < u32_mod

pub blocked-Accrues : Accrues blocked_weight (λ c. c.blocked)
unfolding Accrues count_blocked count_timeout count_forwarded
blocked-Accrues c l r = (refl, omega (arith, r), λ us. omega (arith, r))

pub timeouts-Accrues : Accrues timeout_weight (λ c. c.timeouts)
unfolding Accrues count_blocked count_timeout count_forwarded
timeouts-Accrues c l r = (omega (arith, r), refl, λ us. omega (arith, r))

pub forwarded-Accrues : Accrues forwarded_weight (λ c. c.forwarded)
unfolding Accrues count_blocked count_timeout count_forwarded
forwarded-Accrues c l r = (omega (arith, r), omega (arith, r), λ us. refl)

pub latency-Accrues : Accrues latency_weight (λ c. c.lat_sum_us)
unfolding Accrues count_blocked count_timeout count_forwarded
latency-Accrues c l r = (omega (arith, r), omega (arith, r), λ us. refl)

lat_bucket-lt : (us : ℕ) → lat_bucket us < 16
unfolding lat_bucket
lat_bucket-lt us = ground arith

bucket_step :
    (b : ℕ) (c : Counters) (us : ℕ)
    → length c.hist ≡ hist_buckets
    → get_or c.hist b 0 < u32_mod
    → get_or (count_forwarded us c).hist b 0
      ≡ add32 (get_or c.hist b 0) (if lat_bucket us == b then 1 else 0)
unfolding count_forwarded
bucket_step b c us l r = elim (Bool-cases (lat_bucket us == b)) [
  | inl t ↦
      let at_b : lat_bucket us ≡ b = ==→eq (lat_bucket us) b t in
      let v : ℕ = add32 (get_or c.hist (lat_bucket us) 0) 1 in
      rw t (
        ap (λ (i : ℕ). get_or (set c.hist (lat_bucket us) v) i 0) (sym at_b)
        ∙ get_or-set_self c.hist (lat_bucket us) v (omega (arith, lat_bucket-lt us, l))
        ∙ ap (λ (i : ℕ). add32 (get_or c.hist i 0) 1) at_b)
  | inr t ↦
      let v : ℕ = add32 (get_or c.hist (lat_bucket us) 0) 1 in
      let same = get_or-set_other c.hist (lat_bucket us) b v (==_false→ne (lat_bucket us) b t) in
      rw t (same ∙ omega (arith, r))
]

pub bucket-Accrues : (b : ℕ) → Accrues (bucket_weight b) (λ c. get_or c.hist b 0)
unfolding Accrues count_blocked count_timeout
bucket-Accrues b c l r = (omega (arith, r), omega (arith, r), λ us. bucket_step b c us l r)
