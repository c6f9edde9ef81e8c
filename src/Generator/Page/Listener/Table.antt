-- ===== src/Generator/Page/Listener/Table.antt =====
-- The table of generator-node/main/stats_ui.c under any datagrams.
use esp_hole.Base.Text.{codes}
use esp_hole.Stats.Counters.{hist_buckets}
use esp_hole.Generator.Page.Slots.{
  Gives, known, fresh, c_string-tag, None-apart, find_or_create_node-Gives,
}
use esp_hole.Generator.Page.{
  Long, StatsNode, c_string, split_at, pieces, claimed, find_or_create_node, strtol, set_bucket,
  set_field, field_step, field_loop, ingest_fields,
}
use esp_hole.Generator.Page.Listener.{unused, no_nodes}
use esp_hole.Base.{
  ℕ, zero, suc, ◌+◌, ◌-◌, ◌≤◌, ◌<◌, ◌≡◌, refl, sym, ap, ap₂, ◌∙◌, subst, ◌≢◌, inl, inr, Bool, true,
  false, ◌&&◌, some, List, [], ◌∷◌, ◌++◌, arith, leb, ◌==◌, if◌then◌else◌, Bool-cases, Option-cases,
  length, get_elem?, get_or, set, take, drop, replicate, length-append, length-set, length-take,
  elem, bytes_eq, All, All-at, u32_mod, add32,
}

-- A slot of the table: its tag ends within its 16 bytes, it has 16 buckets, and its sums are of 32 bits.
pub record IsNode (n : StatsNode) : Type 0 where
  pub tag : length n.node ≡ 16
  pub ended : get_or n.node 15 0 ≡ 0
  pub buckets : length n.hist ≡ hist_buckets
  pub counts : All (λ v. v < u32_mod) n.hist
  pub sums :
      (n.blocked < u32_mod)
      × (n.forwarded < u32_mod)
      × (n.timeouts < u32_mod)
      × (n.lat_sum_us < u32_mod)

-- An update of a slot.
abbrev Updates : StatsNode → StatsNode → Type 0
Updates n n' = IsNode n' × (n'.used ≡ n.used) × (n'.node ≡ n.node)

add32-lt : (a b : ℕ) → add32 a b < u32_mod
add32-lt a b = omega arith

set-All {ℓ κ} :
    {A : Type ℓ}
    → (P : A → Type κ) (xs : List A) (i : ℕ) (x : A) → P x
    → All P xs
    → All P (set xs i x)
set-All P [] i x p a = tt
set-All P (y ∷ xs) zero x p a = (p, a.1)
set-All P (y ∷ xs) (suc i) x p a = (a.0, set-All P xs i x p a.1)

pub if-either {ℓ κ} :
    {A : Type ℓ} → (P : A → Type κ) (b : Bool) (x y : A) → P x → P y → P (if b then x else y)
if-either P true x y p q = p
if-either P false x y p q = q

set_bucket-Updates :
    (n : StatsNode) (key : List ℕ) (v : Long) → IsNode n → Updates n (set_bucket n key v)
unfolding set_bucket
set_bucket-Updates n key v w =
    let bucket = (strtol (drop 1 key)).magnitude in
    if-either (Updates n) _ _ _
      (
        record {
          tag = w.tag;
          ended = w.ended;
          buckets = length-set n.hist bucket _ ∙ w.buckets;
          counts = set-All (λ v. v < u32_mod) n.hist bucket _ (add32-lt _ _) w.counts;
          sums = w.sums;
        },
        refl,
        refl,
      )
      (w, refl, refl)

-- The numbers of a slot may change.
recount :
    (n : StatsNode) (blocked forwarded timeouts lat_sum_us now : ℕ) (uptime_s : Long)
    → IsNode n
    → (blocked < u32_mod) × (forwarded < u32_mod) × (timeouts < u32_mod) × (lat_sum_us < u32_mod)
    → Updates n (record n {
      blocked = blocked;
      forwarded = forwarded;
      timeouts = timeouts;
      lat_sum_us = lat_sum_us;
      uptime_s = uptime_s;
      last_seen_us = now;
    })
recount n blocked forwarded timeouts lat_sum_us now uptime_s w sums = (
  record { tag = w.tag; ended = w.ended; buckets = w.buckets; counts = w.counts; sums = sums },
  refl,
  refl,
)

set_field-Updates :
    (n : StatsNode) (key : List ℕ) (v : Long) → IsNode n → Updates n (set_field n key v)
unfolding set_field
set_field-Updates n key v w =
    let (b, f, t, l) = w.sums in
    elim (Bool-cases (bytes_eq key (codes "blocked"))) [
      | inl e ↦
          rw (e, set_field) (recount n _ _ _ _ n.last_seen_us n.uptime_s w (add32-lt _ _, f, t, l))
      | inr e0 ↦ elim (Bool-cases (bytes_eq key (codes "forwarded"))) [
        | inl e ↦
            rw (e0, e, set_field)
              (recount n _ _ _ _ n.last_seen_us n.uptime_s w (b, add32-lt _ _, t, l))
        | inr e1 ↦ elim (Bool-cases (bytes_eq key (codes "timeouts"))) [
          | inl e ↦
              rw (e0, e1, e, set_field)
                (recount n _ _ _ _ n.last_seen_us n.uptime_s w (b, f, add32-lt _ _, l))
          | inr e2 ↦ elim (Bool-cases (bytes_eq key (codes "lat_sum_us"))) [
            | inl e ↦
                rw (e0, e1, e2, e, set_field)
                  (recount n _ _ _ _ n.last_seen_us n.uptime_s w (b, f, t, add32-lt _ _))
            | inr e3 ↦ elim (Bool-cases (bytes_eq key (codes "uptime_s"))) [
              | inl e ↦
                  rw (e0, e1, e2, e3, e, set_field) (recount n _ _ _ _ n.last_seen_us v w w.sums)
              | inr e4 ↦
                  elim (Bool-cases (
                    get_or key 0 0 == 104
                    && (leb 48 (get_or key 1 0) && leb (get_or key 1 0) 57))) [
                      | inl e ↦ rw (e0, e1, e2, e3, e4, e, set_field) (set_bucket-Updates n key v w)
                      | inr e5 ↦ rw (e0, e1, e2, e3, e4, e5, set_field) (w, refl, refl)
                    ]
            ]
          ]
        ]
      ]
    ]

field_step-Updates : (n : StatsNode) (piece : List ℕ) → IsNode n → Updates n (field_step n piece)
unfolding field_step
field_step-Updates n piece w = elim (Option-cases (split_at 61 piece)) [
  | inl e ↦ rw (e, field_step) (w, refl, refl)
  | inr (r, e) ↦ rw (e, field_step) (set_field-Updates n r.0 (strtol r.1) w)
]

field_loop-Updates : (n : StatsNode) (ps : List (List ℕ)) → IsNode n → Updates n (field_loop n ps)
unfolding field_loop
field_loop-Updates n [] w = (w, refl, refl)
field_loop-Updates n (p ∷ ps) w =
    let (first, used, node) = field_step-Updates n p w in
    let (last, used', node') = field_loop-Updates (field_step n p) ps first in
    (last, used' ∙ used, node' ∙ node)

-- No slot in use has the tag.
abbrev Apart : List ℕ → List StatsNode → Type 0
Apart tag ns = All (λ n. (n.used ≡ true) → c_string n.node ≢ tag) ns

-- The slots in use have distinct tags.
abbrev pub Distinct : List StatsNode → Type 0
Distinct [] = Unit {0}
Distinct (n ∷ ns) =
    ((n.used ≡ true) → All (λ n'. (n'.used ≡ true) → c_string n'.node ≢ c_string n.node) ns)
    × Distinct ns

-- `s_nodes`: 16 slots, all of them whole, no tag twice.
pub record IsTable (ns : List StatsNode) : Type 0 where
  pub slots : length ns ≡ 16
  pub nodes : All IsNode ns
  pub distinct : Distinct ns

-- The slot `i` may take a tag that no other has.
set-Distinct :
    (ns : List StatsNode) (i : ℕ) (n : StatsNode)
    → Apart (c_string n.node) ns
    → Distinct ns
    → Distinct (set ns i n)
set-Distinct [] i n a d = tt
set-Distinct (m ∷ ns) zero n a d = ((λ _. a.1), d.1)
set-Distinct (m ∷ ns) (suc i) n a d =
    (λ u. set-All _ ns i n (λ _ e. a.0 u (sym e)) (d.0 u), set-Distinct ns i n a.1 d.1)

-- The slot `i` may keep its tag.
set-Apart :
    (tag : List ℕ) (ns : List StatsNode) (i : ℕ) (n n' : StatsNode)
    → get_elem? ns i ≡ some n
    → n'.used ≡ n.used
    → n'.node ≡ n.node
    → Apart tag ns
    → Apart tag (set ns i n')
set-Apart tag [] i n n' at_i u t a = tt
set-Apart tag (m ∷ ns) zero n n' at_i u t a =
    let same : m ≡ n = cc at_i in
    (
      (λ h e.
          a.0 (ap (λ (x : StatsNode). x.used) same ∙ sym u ∙ h)
            (ap (λ (x : StatsNode). c_string x.node) same ∙ ap c_string (sym t) ∙ e)),
      a.1,
    )
set-Apart tag (m ∷ ns) (suc i) n n' at_i u t a = (a.0, set-Apart tag ns i n n' at_i u t a.1)

set-Distinct_kept :
    (ns : List StatsNode) (i : ℕ) (n n' : StatsNode)
    → get_elem? ns i ≡ some n
    → n'.used ≡ n.used
    → n'.node ≡ n.node
    → Distinct ns
    → Distinct (set ns i n')
set-Distinct_kept [] i n n' at_i u t d = tt
set-Distinct_kept (m ∷ ns) zero n n' at_i u t d =
    let same : m ≡ n = cc at_i in
    (
      (λ h.
          subst (λ (t : List ℕ). Apart t ns)
            (ap (λ (x : StatsNode). c_string x.node) same ∙ ap c_string (sym t))
            (d.0 (ap (λ (x : StatsNode). x.used) same ∙ sym u ∙ h))),
      d.1,
    )
set-Distinct_kept (m ∷ ns) (suc i) n n' at_i u t d = (
  (λ h. set-Apart (c_string m.node) ns i n n' at_i u t (d.0 h)),
  set-Distinct_kept ns i n n' at_i u t d.1,
)

length-replicate : (n x : ℕ) → length (replicate n x) ≡ n
length-replicate zero x = refl
length-replicate (suc n) x = ap suc (length-replicate n x)

abbrev zeros : ℕ → List ℕ
zeros n = replicate n 0

get_or-zeros : (n i : ℕ) → get_or (zeros n) i 0 ≡ 0
get_or-zeros zero i = refl
get_or-zeros (suc n) zero = refl
get_or-zeros (suc n) (suc i) = get_or-zeros n i

-- The last byte of a claimed tag.
claimed_end :
    (tag : List ℕ) (n i : ℕ)
    → length tag ≤ i
    → get_or (take (length tag) tag ++ replicate n 0) i 0 ≡ 0
claimed_end [] n i l = get_or-zeros n i
claimed_end (t ∷ tag) n zero l = absurd (omega (arith, l))
claimed_end (t ∷ tag) n (suc i) l = claimed_end tag n i (omega (arith, l))

replicate-small : (n : ℕ) → All (λ v. v < u32_mod) (zeros n)
replicate-small zero = tt
replicate-small (suc n) = (omega arith, replicate-small n)

claimed-IsNode : (tag : List ℕ) → length tag < 16 → IsNode (claimed tag (length tag))
claimed-IsNode tag l = record {
  tag =
      length-append (take (length tag) tag) (replicate (16 - length tag) 0)
      ∙ ap₂ (λ (a b : ℕ). a + b) (length-take (length tag) tag (omega arith))
          (length-replicate (16 - length tag) 0)
      ∙ omega (arith, l);
  ended = claimed_end tag (16 - length tag) 15 (omega (arith, l));
  buckets = refl;
  counts = replicate-small 16;
  sums = (omega arith, omega arith, omega arith, omega arith);
}

-- A slot that is given, and updated, keeps the table.
Gives-IsTable :
    (tag : List ℕ) (ns : List StatsNode) (i : ℕ) (n n' : StatsNode)
    → elem 0 tag ≡ false
    → length tag < 16
    → IsTable ns
    → Gives tag ns i n
    → (IsNode n → Updates n n')
    → IsTable (set ns i n')
Gives-IsTable tag ns i n n' plain high w (known at_i used) up =
    let (node, u, t) = up (All-at IsNode ns i n w.nodes at_i) in
    record {
      slots = length-set ns i n' ∙ w.slots;
      nodes = set-All IsNode ns i n' node w.nodes;
      distinct = set-Distinct_kept ns i n n' at_i u t w.distinct;
    }
Gives-IsTable tag ns i n n' plain high w (fresh old at_i free absent e) up =
    let (node, u, t) = up (subst IsNode (sym e) (claimed-IsNode tag high)) in
    let named : c_string n'.node ≡ tag =
      ap c_string t
      ∙ ap (λ (x : StatsNode). c_string x.node) e
      ∙ c_string-tag tag (16 - length tag) plain in
    record {
      slots = length-set ns i n' ∙ w.slots;
      nodes = set-All IsNode ns i n' node w.nodes;
      distinct =
          set-Distinct ns i n'
            (subst (λ (x : List ℕ). Apart x ns) (sym named) (None-apart tag ns plain absent))
            w.distinct;
    }

seen_fields :
    (now : ℕ) (n : StatsNode) (ps : List (List ℕ))
    → IsNode n
    → Updates n (field_loop (record n { last_seen_us = now }) ps)
seen_fields now n ps w =
    let (seen, _, _) =
      recount n n.blocked n.forwarded n.timeouts n.lat_sum_us now n.uptime_s w w.sums in
    field_loop-Updates (record n { last_seen_us = now }) ps seen

-- The line's fields keep the table.
pub ingest_fields-IsTable :
    (now : ℕ) (ns : List StatsNode) (text tag : List ℕ)
    → elem 0 tag ≡ false
    → IsTable ns
    → IsTable (ingest_fields now ns text (find_or_create_node ns tag (length tag)))
ingest_fields-IsTable now ns text tag plain w =
    elim (Option-cases (find_or_create_node ns tag (length tag))) [
      | inl e ↦ rw e w
      | inr ((i, n), e) ↦ rw e (
          let (low, high, gives) = find_or_create_node-Gives ns tag i n e in
          Gives-IsTable tag ns i n _ plain high w gives
            (seen_fields now n (pieces [] (c_string text))))
    ]

replicate-IsNode : (n : ℕ) → All IsNode (replicate n unused)
replicate-IsNode zero = tt
replicate-IsNode (suc n) = (
  record {
    tag = refl;
    ended = refl;
    buckets = refl;
    counts = replicate-small 16;
    sums = (omega arith, omega arith, omega arith, omega arith);
  },
  replicate-IsNode n,
)

replicate-Distinct : (n : ℕ) → Distinct (replicate n unused)
replicate-Distinct zero = tt
replicate-Distinct (suc n) = (λ u. absurd (cc u), replicate-Distinct n)

pub no_nodes-IsTable : IsTable no_nodes
no_nodes-IsTable = record {
  slots = refl;
  nodes = replicate-IsNode 16;
  distinct = replicate-Distinct 16;
}
