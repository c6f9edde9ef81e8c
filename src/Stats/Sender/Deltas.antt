-- ===== src/Stats/Sender/Deltas.antt =====
-- The deltas that a datagram of main/stats.c reports.
use esp_hole.Stats.Counters.{Counters}
use esp_hole.Stats.Sender.{
  indices, snap_counters, sub_each, deltas, stats_line, line_size, stats_reresolve_us, Sender,
  Interval, send_line, resolve_step, stats_send_once,
}
use esp_hole.Stats.Sender.Counted.{
  Event, count, total, blocked_weight, timeout_weight, forwarded_weight, latency_weight,
  bucket_weight, sub32-total, IsSnapshot, blocked-Accrues, timeouts-Accrues, forwarded-Accrues,
  latency-Accrues, bucket-Accrues,
}
use esp_hole.Base.{
  ℕ, zero, suc, ◌+◌, ◌/◌, ◌<◌, ◌≡◌, refl, sym, ap, ap₂, ◌∙◌, subst, ◌⊎◌, inl, inr, true, false,
  ◌&&◌, ◌||◌, not, Option, none, some, List, [], ◌∷◌, map, arith, ltb, leb, Bool-cases, length,
  get_or, u32_mod, sub32,
}

sub_each-map :
    (f g : ℕ → ℕ) (is : List ℕ) → sub_each (map f is) (map g is) ≡ map (λ i. sub32 (f i) (g i)) is
sub_each-map f g [] = refl
sub_each-map f g (i ∷ is) = ap (◌∷◌ (sub32 (f i) (g i))) (sub_each-map f g is)

get_or-indices : (f : ℕ → ℕ) (a n b : ℕ) → b < n → get_or (map f (indices a n)) b 0 ≡ f (a + b)
get_or-indices f a zero b h = elim h [ ]
get_or-indices f a (suc n) zero h = ap f (omega arith)
get_or-indices f a (suc n) (suc b) h =
    get_or-indices f (suc a) n b (omega arith) ∙ ap f (omega arith)

leb_false→lt : (n m : ℕ) → leb n m ≡ false → m < n
leb_false→lt n m h = ground arith

-- The datagram of an interval, if it fits.
Sends : Sender → Interval → Counters → Sender × Option (List ℕ) → Type 0
Sends s i d r =
    (r.0.last ≡ s.last)
    × ((r.1 ≡ none)
        ⊎ ((r.1 ≡ some (stats_line s.node d (i.later / 1000000)))
            × (length (stats_line s.node d (i.later / 1000000)) < line_size)))

send_line-Sends : (s : Sender) (i : Interval) (d : Counters) → Sends s i d (send_line s i d)
unfolding Sends send_line
send_line-Sends s i d =
    elim (Bool-cases (leb line_size (length (stats_line s.node d (i.later / 1000000))))) [
      | inl t ↦ rw t (refl, inl refl)
      | inr t ↦ rw t (refl, inr (refl, leb_false→lt _ _ t))
    ]

resolve_step-Sends : (s : Sender) (i : Interval) (d : Counters) → Sends s i d (resolve_step s i d)
unfolding Sends resolve_step
resolve_step-Sends s i d =
    elim (Bool-cases (not s.target_valid || ltb (s.last_resolve_us + stats_reresolve_us) i.now)) [
      | inr t ↦ rw t (send_line-Sends s i d)
      | inl t ↦ elim (Bool-cases i.resolved) [
        | inr u ↦ rw (t, u) (refl, inl refl)
        | inl u ↦
            rw (t, u)
              (send_line-Sends (record s { target_valid = true; last_resolve_us = i.now }) i d)
      ]
    ]

stats_send_once-sends :
    (s : Sender) (i : Interval)
    → ((stats_send_once s i).0.last ≡ snap_counters i.at_load)
      × (((stats_send_once s i).1 ≡ none)
          ⊎ (((stats_send_once s i).1
                ≡ some (
                    stats_line s.node
                      (deltas (snap_counters i.at_load) s.last)
                      (i.later / 1000000)))
              × (length (
                    stats_line s.node (deltas (snap_counters i.at_load) s.last) (i.later / 1000000))
                  < line_size)))
unfolding stats_send_once Sends
stats_send_once-sends s i =
    let cur = snap_counters i.at_load in
    elim (Bool-cases (not s.has_sock && not i.socket)) [
      | inl t ↦ rw t (refl, inl refl)
      | inr t ↦
          rw t (resolve_step-Sends (record s { last = cur; has_sock = true }) i (deltas cur s.last))
    ]

-- What the serve path did between two snapshots, for each load of theirs.
module _ (earlier : ℕ → Counters) (between : ℕ → List Event) where
  abbrev pub later : ℕ → Counters
  later k = count (earlier k) (between k)

  -- No counter wraps twice between the snapshots.
  pub record IsInterval : Type 0 where
    pub snapshot : (k : ℕ) → IsSnapshot (earlier k)
    pub blocked : total blocked_weight (between 0) < u32_mod
    pub forwarded : total forwarded_weight (between 1) < u32_mod
    pub timeouts : total timeout_weight (between 2) < u32_mod
    pub lat_sum_us : total latency_weight (between 3) < u32_mod
    pub buckets : (b : ℕ) → total (bucket_weight b) (between (4 + b)) < u32_mod

  -- The events that each field reports.
  abbrev pub Tallies : Counters → Type 0
  Tallies d =
      (d.blocked ≡ total blocked_weight (between 0))
      × (d.forwarded ≡ total forwarded_weight (between 1))
      × (d.timeouts ≡ total timeout_weight (between 2))
      × (d.lat_sum_us ≡ total latency_weight (between 3))
      × ((b : ℕ) → b < 16 → get_or d.hist b 0 ≡ total (bucket_weight b) (between (4 + b)))

  deltas-Tallies : IsInterval → Tallies (deltas (snap_counters later) (snap_counters earlier))
  unfolding deltas snap_counters
  deltas-Tallies i = (
    sub32-total blocked_weight (λ c. c.blocked) (between 0) (earlier 0) blocked-Accrues
        (i.snapshot 0).buckets (i.snapshot 0).blocked i.blocked,
    sub32-total forwarded_weight (λ c. c.forwarded) (between 1) (earlier 1) forwarded-Accrues
        (i.snapshot 1).buckets (i.snapshot 1).forwarded i.forwarded,
    sub32-total timeout_weight (λ c. c.timeouts) (between 2) (earlier 2) timeouts-Accrues
        (i.snapshot 2).buckets (i.snapshot 2).timeouts i.timeouts,
    sub32-total latency_weight (λ c. c.lat_sum_us) (between 3) (earlier 3) latency-Accrues
        (i.snapshot 3).buckets (i.snapshot 3).lat_sum_us i.lat_sum_us,
    λ b h.
        let z : 0 + b ≡ b = omega arith in
        let now = λ (k : ℕ). get_or (later (4 + k)).hist k 0 in
        let before = λ (k : ℕ). get_or (earlier (4 + k)).hist k 0 in
        ap (λ (s : List ℕ). get_or s b 0) (sub_each-map now before (indices 0 16))
        ∙ get_or-indices (λ k. sub32 (now k) (before k)) 0 16 b h
        ∙ ap (λ (k : ℕ). sub32 (now k) (before k)) z
        ∙ sub32-total (bucket_weight b) (λ c. get_or c.hist b 0) (between (4 + b)) (earlier (4 + b))
            (bucket-Accrues b) (i.snapshot (4 + b)).buckets ((i.snapshot (4 + b)).words b)
            (i.buckets b),
  )

  -- An interval reports, where it sends a datagram, for each field how many events the serve path counted
  -- between the two loads of that field, the latency field their sum, also where a counter wrapped once;
  -- and it goes on from its own snapshot whether or not it sends.
  pub stats_send_once-Tallies :
      (s : Sender) (i : Interval)
      → IsInterval
      → s.last ≡ snap_counters earlier
      → i.at_load ≡ later
      → ((stats_send_once s i).0.last ≡ snap_counters later)
        × (d : Counters) × Tallies d
        × (((stats_send_once s i).1 ≡ none)
            ⊎ (((stats_send_once s i).1 ≡ some (stats_line s.node d (i.later / 1000000)))
                × (length (stats_line s.node d (i.later / 1000000)) < line_size)))
  stats_send_once-Tallies s i h last loads =
      let d = deltas (snap_counters i.at_load) s.last in
      let (advanced, sent) = stats_send_once-sends s i in
      (
        advanced ∙ ap snap_counters loads,
        d,
        subst Tallies (ap₂ deltas (ap snap_counters (sym loads)) (sym last)) (deltas-Tallies h),
        sent,
      )
