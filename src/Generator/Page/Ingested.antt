-- ===== src/Generator/Page/Ingested.antt =====
-- ingest_line on the datagram of main/stats.c.
use esp_hole.Base.Text.{codes, decimal}
use esp_hole.Stats.Counters.{Counters, hist_buckets}
use esp_hole.Stats.Sender.{indices, field, join, fields, stats_line}
use esp_hole.Generator.Page.{
  StatsNode, same_prefix, find_or_create_node, c_string, split_at, pieces, long_max, set_field,
  field_step, field_loop, ingest_fields, prefix, ingest_line,
}
use esp_hole.Generator.Page.Buckets.{bucket_key, add_buckets, loop_buckets, add_buckets-get}
use esp_hole.Generator.Page.Fields.{
  elem-none, elem-decimal, split_at-append, IsPlain, pieces-join, join-plain, c_string-end, long,
  field_step-field, field-IsPlain,
}
use esp_hole.Base.{
  ℕ, suc, ◌+◌, ◌-◌, ◌≤◌, ◌<◌, ◌≡◌, refl, ap, ◌∙◌, ◌≢◌, subst, append_assoc, take-append, true,
  false, some, List, [], ◌∷◌, ◌++◌, map, arith, leb, length, get_or, set, take, drop, length-append,
  elem, All, add32,
}

-- The counts fit a `long`.
pub record IsReport (d : Counters) (uptime_s : ℕ) : Type 0 where
  pub blocked : d.blocked ≤ long_max
  pub forwarded : d.forwarded ≤ long_max
  pub timeouts : d.timeouts ≤ long_max
  pub lat_sum_us : d.lat_sum_us ≤ long_max
  pub uptime : uptime_s ≤ long_max
  pub buckets : (b : ℕ) → get_or d.hist b 0 ≤ long_max

loop_step :
    (n n' r : StatsNode) (f : List ℕ) (fs : List (List ℕ))
    → field_step n f ≡ n'
    → field_loop n' fs ≡ r
    → field_loop n (f ∷ fs) ≡ r
unfolding field_loop
loop_step n n' r f fs e g = ap (λ (m : StatsNode). field_loop m fs) e ∙ g

-- The node with a report added to it.
reported : StatsNode → Counters → ℕ → StatsNode
reported n d uptime_s = record n {
  blocked = add32 n.blocked d.blocked;
  forwarded = add32 n.forwarded d.forwarded;
  timeouts = add32 n.timeouts d.timeouts;
  lat_sum_us = add32 n.lat_sum_us d.lat_sum_us;
  uptime_s = long uptime_s;
  hist = add_buckets n.hist (λ b. get_or d.hist b 0) (indices 0 16);
}

field_loop-fields :
    (n : StatsNode) (d : Counters) (uptime_s : ℕ)
    → IsReport d uptime_s
    → field_loop n (fields d uptime_s) ≡ reported n d uptime_s
unfolding fields reported set_field bucket_key
field_loop-fields n d uptime_s h =
    let n1 : StatsNode = record n { blocked = add32 n.blocked d.blocked } in
    let n2 : StatsNode = record n1 { forwarded = add32 n.forwarded d.forwarded } in
    let n3 : StatsNode = record n2 { timeouts = add32 n.timeouts d.timeouts } in
    let n4 : StatsNode = record n3 { lat_sum_us = add32 n.lat_sum_us d.lat_sum_us } in
    let n5 : StatsNode = record n4 { uptime_s = long uptime_s } in
    loop_step n n1 _ _ _ (field_step-field n (codes "blocked") d.blocked refl h.blocked) (
      loop_step n1 n2 _ _ _ (field_step-field n1 (codes "forwarded") d.forwarded refl h.forwarded) (
        loop_step n2 n3 _ _ _ (field_step-field n2 (codes "timeouts") d.timeouts refl h.timeouts) (
          loop_step n3 n4 _ _ _
            (field_step-field n3 (codes "lat_sum_us") d.lat_sum_us refl h.lat_sum_us)
            (loop_step n4 n5 _ _ _ (field_step-field n4 (codes "uptime_s") uptime_s refl h.uptime)
              (loop_buckets n5 (λ b. get_or d.hist b 0) 0 16 (omega arith) h.buckets)))))

buckets-IsPlain : (f : ℕ → ℕ) (bs : List ℕ) → All IsPlain (map (λ b. field (bucket_key b) (f b)) bs)
unfolding bucket_key
buckets-IsPlain f [] = tt
buckets-IsPlain f (b ∷ bs) = (
  field-IsPlain (codes "h" ++ decimal b) (f b) (
    elem-none 44 (codes "h") (decimal b) refl (elem-decimal 44 b refl),
    elem-none 0 (codes "h") (decimal b) refl (elem-decimal 0 b refl),
    elem-none 10 (codes "h") (decimal b) refl (elem-decimal 10 b refl),
  ),
  buckets-IsPlain f bs,
)

pub fields-IsPlain : (d : Counters) (uptime_s : ℕ) → All IsPlain (fields d uptime_s)
unfolding fields bucket_key
fields-IsPlain d uptime_s =
    let plain = λ (key : List ℕ) (v : ℕ) (p : IsPlain key). field-IsPlain key v p in
    (
      plain (codes "blocked") d.blocked (refl, refl, refl),
      (
        plain (codes "forwarded") d.forwarded (refl, refl, refl),
        (
          plain (codes "timeouts") d.timeouts (refl, refl, refl),
          (
            plain (codes "lat_sum_us") d.lat_sum_us (refl, refl, refl),
            (
              plain (codes "uptime_s") uptime_s (refl, refl, refl),
              buckets-IsPlain (λ b. get_or d.hist b 0) (indices 0 16),
            ),
          ),
        ),
      ),
    )

cut_again :
    (fs : List (List ℕ)) (behind : List ℕ)
    → fs ≢ []
    → All IsPlain fs
    → pieces [] (c_string (join fs ++ 0 ∷ behind)) ≡ fs
cut_again [] behind ne a = absurd (ne refl)
cut_again (f ∷ fs) behind ne a =
    ap (pieces []) (c_string-end (join (f ∷ fs)) behind (join-plain f fs a).0) ∙ pieces-join f fs a

fields_text :
    (d : Counters) (uptime_s : ℕ) (behind : List ℕ)
    → pieces [] (c_string (join (fields d uptime_s) ++ 0 ∷ behind)) ≡ fields d uptime_s
fields_text d uptime_s behind =
    cut_again (fields d uptime_s) behind (unfold fields in λ e. cc e) (fields-IsPlain d uptime_s)

drop-after : (xs : List ℕ) (y : ℕ) (ys : List ℕ) → drop (suc (length xs)) (xs ++ y ∷ ys) ≡ ys
drop-after [] y ys = refl
drop-after (x ∷ xs) y ys = drop-after xs y ys

-- A line behind the prefix.
ingest_at :
    (now : ℕ) (nodes : List StatsNode) (line rest front tag text after : List ℕ) (len : ℕ)
    → leb len 13 ≡ false
    → same_prefix 13 line prefix ≡ true
    → drop 13 line ≡ rest
    → take (len - 13) rest ≡ front
    → split_at 32 front ≡ some (tag, text)
    → drop (suc (length tag)) rest ≡ after
    → ingest_line now nodes line len
      ≡ ingest_fields now nodes after (find_or_create_node nodes tag (length tag))
unfolding ingest_line
ingest_at now nodes line rest front tag text after len long_enough same behind whole split rest_of =
    rw (long_enough, same, behind, whole, split, behind, rest_of) refl

same_prefix-own : (rest : List ℕ) → same_prefix 13 (prefix ++ rest) prefix ≡ true
unfolding same_prefix
same_prefix-own rest = refl

ingest_tagged :
    (now : ℕ) (nodes : List StatsNode) (tag text behind : List ℕ)
    → elem 32 tag ≡ false
    → ingest_line now nodes
        ((prefix ++ (tag ++ 32 ∷ text)) ++ behind)
        (length (prefix ++ (tag ++ 32 ∷ text)))
      ≡ ingest_fields now nodes (text ++ behind) (find_or_create_node nodes tag (length tag))
ingest_tagged now nodes tag text behind h =
    let front : List ℕ = tag ++ 32 ∷ text in
    let len : length (prefix ++ front) ≡ 13 + length front = length-append prefix front in
    let some_text : 0 < length front = omega (arith, length-append tag (32 ∷ text)) in
    let long_enough : leb (length (prefix ++ front)) 13 ≡ false = ground (arith, len, some_text) in
    let size : length front ≡ length (prefix ++ front) - 13 = omega (arith, len) in
    ingest_at now nodes ((prefix ++ front) ++ behind) (front ++ behind) front tag text
      (text ++ behind) (length (prefix ++ front)) long_enough (same_prefix-own (front ++ behind))
      refl (subst (λ (n : ℕ). take n (front ++ behind) ≡ front) size (take-append front behind))
      (split_at-append 32 tag text h)
      (ap (drop (suc (length tag))) (append_assoc tag (32 ∷ text) behind)
        ∙ drop-after tag 32 (text ++ behind))

-- What the table shows of a node after a report.
abbrev pub Reported : ℕ → StatsNode → Counters → ℕ → StatsNode → Type 0
Reported now n d uptime_s n' =
    (n'.node ≡ n.node)
    × (n'.blocked ≡ add32 n.blocked d.blocked)
    × (n'.forwarded ≡ add32 n.forwarded d.forwarded)
    × (n'.timeouts ≡ add32 n.timeouts d.timeouts)
    × (n'.lat_sum_us ≡ add32 n.lat_sum_us d.lat_sum_us)
    × (n'.uptime_s ≡ long uptime_s)
    × (n'.last_seen_us ≡ now)
    × ((b : ℕ) → b < 16 → get_or n'.hist b 0 ≡ add32 (get_or n.hist b 0) (get_or d.hist b 0))

-- ingest_line on the line that main/stats.c sends, with a NUL behind it.
pub ingest_line-Reported :
    (now : ℕ) (nodes : List StatsNode) (tag : List ℕ) (d : Counters) (uptime_s i : ℕ)
    (n : StatsNode) (behind : List ℕ)
    → elem 32 tag ≡ false
    → find_or_create_node nodes tag (length tag) ≡ some (i, n)
    → length n.hist ≡ hist_buckets
    → IsReport d uptime_s
    → (n' : StatsNode) × (ingest_line now nodes
          (stats_line tag d uptime_s ++ 0 ∷ behind)
          (length (stats_line tag d uptime_s))
        ≡ set nodes i n')
      × Reported now n d uptime_s n'
unfolding stats_line reported
ingest_line-Reported now nodes tag d uptime_s i n behind h found buckets report =
    let seen : StatsNode = record n { last_seen_us = now } in
    let text = join (fields d uptime_s) in
    (
      reported seen d uptime_s,
      ingest_tagged now nodes tag text (0 ∷ behind) h
          ∙ ap (ingest_fields now nodes (text ++ 0 ∷ behind)) found
          ∙ ap (set nodes i) (
              ap (field_loop seen) (fields_text d uptime_s behind)
              ∙ field_loop-fields seen d uptime_s report),
      (
        refl,
        refl,
        refl,
        refl,
        refl,
        refl,
        refl,
        λ b l.
            add_buckets-get n.hist (λ b. get_or d.hist b 0) 0 16 b (omega arith) l
              (omega (arith, buckets)),
      ),
    )
