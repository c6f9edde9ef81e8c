-- ===== src/Generator/Page/Buckets.antt =====
-- The bucket fields of a line.
use esp_hole.Base.Text.{codes, decimal, read_digits}
use esp_hole.Stats.Counters.{hist_buckets}
use esp_hole.Stats.Sender.{indices, field}
use esp_hole.Generator.Page.{
  Long, StatsNode, long_max, strtol, to_u32, set_bucket, set_field, field_loop,
}
use esp_hole.Generator.Page.Fields.{
  elem-none, elem-decimal, decimal-head, long, strtol-decimal, field_step-field,
}
use esp_hole.Base.{
  ℕ, zero, suc, ◌+◌, ◌≤◌, ◌<◌, ◌≡◌, refl, sym, ap, ◌∙◌, subst, ◌≢◌, inl, inr, true, false, ◌&&◌,
  List, [], ◌∷◌, ◌++◌, map, append-nil, arith, ltb, leb, ◌==◌, lt→ltb, ==→eq, ==_false→ne,
  Bool-cases, length, get_or, set, length-set, get_or-set_self, get_or-set_other, elem, add32,
}

stops_at_end : (v : ℕ) → read_digits v [] ≡ v
unfolding read_digits
stops_at_end v = refl

unfoldable pub bucket_key : ℕ → List ℕ
bucket_key b = codes "h" ++ decimal b

-- The field of a bucket adds to it.
set_field-bucket :
    (n : StatsNode) (b : ℕ) (v : Long)
    → b < hist_buckets
    → set_field n (bucket_key b) v
      ≡ record n { hist = set n.hist b (add32 (get_or n.hist b 0) (to_u32 v)) }
unfolding bucket_key set_field set_bucket
set_field-bucket n b v h =
    let (c, s, e, low, high) = decimal-head b in
    let digit : (leb 48 c && leb c 57) ≡ true = ground (arith, low, high) in
    let small : ltb b hist_buckets ≡ true = lt→ltb b hist_buckets h in
    let read_back : strtol (c ∷ s) ≡ long b =
      ap strtol (sym e ∙ sym (append-nil (decimal b)))
      ∙ strtol-decimal b [] (omega (arith, h)) (stops_at_end b) in
    rw (e, digit, read_back, small) refl

unfoldable pub add_buckets : List ℕ → (ℕ → ℕ) → List ℕ → List ℕ
add_buckets hist f [] = hist
add_buckets hist f (b ∷ bs) = add_buckets (set hist b (add32 (get_or hist b 0) (f b))) f bs

pub loop_buckets :
    (n : StatsNode) (f : ℕ → ℕ) (a k : ℕ)
    → a + k ≤ hist_buckets
    → ((b : ℕ) → f b ≤ long_max)
    → field_loop n (map (λ b. field (bucket_key b) (f b)) (indices a k))
      ≡ record n { hist = add_buckets n.hist f (indices a k) }
unfolding field_loop add_buckets
loop_buckets n f a zero h l = refl
loop_buckets n f a (suc k) h l =
    let key : elem 61 (bucket_key a) ≡ false =
      unfold bucket_key in elem-none 61 (codes "h") (decimal a) refl (elem-decimal 61 a refl) in
    let first =
      field_step-field n (bucket_key a) (f a) key (l a)
      ∙ set_field-bucket n a (long (f a)) (omega (arith, h)) in
    ap (λ (m : StatsNode). field_loop m (map (λ b. field (bucket_key b) (f b)) (indices (suc a) k)))
      first
    ∙ loop_buckets (record n { hist = set n.hist a (add32 (get_or n.hist a 0) (f a)) }) f (suc a) k
        (omega (arith, h)) l

add_buckets-other :
    (hist : List ℕ) (f : ℕ → ℕ) (a k b : ℕ)
    → b < a
    → get_or (add_buckets hist f (indices a k)) b 0 ≡ get_or hist b 0
unfolding add_buckets
add_buckets-other hist f a zero b h = refl
add_buckets-other hist f a (suc k) b h =
    let v = add32 (get_or hist a 0) (f a) in
    add_buckets-other (set hist a v) f (suc a) k b (omega (arith, h))
    ∙ get_or-set_other hist a b v (λ e. omega (arith, e, h))

-- Each bucket of the range gets what is reported of it.
pub add_buckets-get :
    (hist : List ℕ) (f : ℕ → ℕ) (a k b : ℕ)
    → a ≤ b
    → b < a + k
    → a + k ≤ length hist
    → get_or (add_buckets hist f (indices a k)) b 0 ≡ add32 (get_or hist b 0) (f b)
unfolding add_buckets
add_buckets-get hist f a zero b low high fits = absurd (omega (arith, low, high))
add_buckets-get hist f a (suc k) b low high fits =
    let v = add32 (get_or hist a 0) (f a) in
    elim (Bool-cases (a == b)) [
      | inl t ↦
          let same : a ≡ b = ==→eq a b t in
          subst
            (λ (x : ℕ).
              get_or (add_buckets (set hist a v) f (indices (suc a) k)) x 0
              ≡ add32 (get_or hist x 0) (f x))
            same
            (add_buckets-other (set hist a v) f (suc a) k a (omega arith)
              ∙ get_or-set_self hist a v (omega (arith, fits)))
      | inr t ↦
          let ne : a ≢ b = ==_false→ne a b t in
          add_buckets-get (set hist a v) f (suc a) k b (omega (arith, low, ne))
            (omega (arith, high)) (omega (arith, fits, length-set hist a v))
          ∙ ap (λ (x : ℕ). add32 x (f b)) (get_or-set_other hist a b v ne)
    ]
