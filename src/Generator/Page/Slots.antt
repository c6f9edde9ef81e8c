-- ===== src/Generator/Page/Slots.antt =====
-- find_or_create_node of generator-node/main/stats_ui.c: the slot that it gives.
use esp_hole.Generator.Page.Fields.{absent-cons}
use esp_hole.Generator.Page.{
  StatsNode, c_string, same_prefix, is_node, node_loop, claimed, node_at, find_or_create_node,
}
use esp_hole.Base.{
  ℕ, zero, suc, ◌+◌, ◌<◌, ◌≡◌, refl, sym, ap, ◌∙◌, subst, ◌≢◌, inl, inr, true, false, ◌&&◌, ◌||◌,
  Option, none, some, List, [], ◌∷◌, ◌++◌, arith, leb, ◌==◌, if◌then◌else◌, ==_refl, Bool-cases,
  Option-cases, length, get_elem?, get_or, take, replicate, elem, All,
}

-- A slot with the tag is recognised.
tag-is_node :
    (s tag : List ℕ)
    → elem 0 tag ≡ false
    → c_string s ≡ tag
    → (same_prefix (length tag) s tag && get_or s (length tag) 0 == 0) ≡ true
unfolding c_string same_prefix
tag-is_node [] [] plain e = refl
tag-is_node [] (t ∷ tag) plain e = absurd (cc e)
tag-is_node (c ∷ s) [] plain e = ground arith
tag-is_node (c ∷ s) (t ∷ tag) plain e = elim (Bool-cases (c == 0)) [
  | inl z ↦ absurd (cc (rw z at e))
  | inr nz ↦
      let same : c ∷ c_string s ≡ t ∷ tag = rw nz at e in
      let head : c ≡ t = cc same in
      let tail : c_string s ≡ tag = cc same in
      let (_, rest) = absent-cons 0 t tag plain in
      let eqt : (c == t) ≡ true = subst (λ (x : ℕ). (c == x) ≡ true) head (==_refl c) in
      rw (eqt, nz) (tag-is_node s tag rest tail)
]

abbrev pub None : List ℕ → List StatsNode → Type 0
None tag ns = All (λ n. is_node n tag (length tag) ≡ false) ns

-- Where the loop ends: on the node of the tag, on the free slot before, or on the first free one.
data Ends (tag : List ℕ) (ns : List StatsNode) (i : ℕ) (free_slot : Option ℕ) (j : ℕ) : Type 0 where
  matched :
      (k : ℕ) (n : StatsNode)
      → j ≡ i + k
      → get_elem? ns k ≡ some n
      → is_node n tag (length tag) ≡ true
      → Ends tag ns i free_slot j
  carried : free_slot ≡ some j → None tag ns → Ends tag ns i free_slot j
  found_free :
      (k : ℕ) (n : StatsNode)
      → j ≡ i + k
      → get_elem? ns k ≡ some n
      → n.used ≡ false
      → None tag ns
      → Ends tag ns i free_slot j

-- One node more in front.
Ends-next :
    (tag : List ℕ) (n : StatsNode) (ns : List StatsNode) (i : ℕ) (free_slot : Option ℕ) (j : ℕ)
    → is_node n tag (length tag) ≡ false
    → Ends tag ns (suc i) free_slot j
    → Ends tag (n ∷ ns) i free_slot j
Ends-next tag n ns i free_slot j other (matched k m e at_k own) =
    matched (suc k) m (omega (arith, e)) at_k own
Ends-next tag n ns i free_slot j other (carried e absent) = carried e (other, absent)
Ends-next tag n ns i free_slot j other (found_free k m e at_k free absent) =
    found_free (suc k) m (omega (arith, e)) at_k free (other, absent)

-- The same, where it is the first free one.
Ends-free :
    (tag : List ℕ) (n : StatsNode) (ns : List StatsNode) (i j : ℕ)
    → is_node n tag (length tag) ≡ false
    → n.used ≡ false
    → Ends tag ns (suc i) (some i) j
    → Ends tag (n ∷ ns) i none j
Ends-free tag n ns i j other free (matched k m e at_k own) =
    matched (suc k) m (omega (arith, e)) at_k own
Ends-free tag n ns i j other free (carried e absent) =
    let same : i ≡ j = cc e in found_free 0 n (omega (arith, same)) refl free (other, absent)
Ends-free tag n ns i j other free (found_free k m e at_k free' absent) =
    found_free (suc k) m (omega (arith, e)) at_k free' (other, absent)

node_loop-Ends :
    (tag : List ℕ) (ns : List StatsNode) (i : ℕ) (free_slot : Option ℕ) (j : ℕ)
    → node_loop tag (length tag) ns i free_slot ≡ some j
    → Ends tag ns i free_slot j
unfolding node_loop
node_loop-Ends tag [] i free_slot j h = carried h tt
node_loop-Ends tag (n ∷ ns) i (some f) j h = elim (Bool-cases (is_node n tag (length tag))) [
  | inl here ↦ let e : i ≡ j = cc (rw here at h) in matched 0 n (omega (arith, e)) refl here
  | inr other ↦
      Ends-next tag n ns i (some f) j other
        (node_loop-Ends tag ns (suc i) (some f) j (rw other at h))
]
node_loop-Ends tag (n ∷ ns) i none j h = elim (Bool-cases (is_node n tag (length tag))) [
  | inl here ↦ let e : i ≡ j = cc (rw here at h) in matched 0 n (omega (arith, e)) refl here
  | inr other ↦ elim (Bool-cases n.used) [
    | inl used ↦
        Ends-next tag n ns i none j other
          (node_loop-Ends tag ns (suc i) none j (rw (other, used) at h))
    | inr free ↦
        Ends-free tag n ns i j other free
          (node_loop-Ends tag ns (suc i) (some i) j (rw (other, free) at h))
  ]
]

-- The slot that is given: the node of the tag, as it is, or a free one, claimed; no node had the tag.
pub data Gives (tag : List ℕ) (ns : List StatsNode) (i : ℕ) (n : StatsNode) : Type 0 where
  known : get_elem? ns i ≡ some n → n.used ≡ true → Gives tag ns i n
  fresh :
      (old : StatsNode)
      → get_elem? ns i ≡ some old
      → old.used ≡ false
      → None tag ns
      → n ≡ claimed tag (length tag)
      → Gives tag ns i n

node_at-elem :
    (ns : List StatsNode) (i : ℕ) (n : StatsNode) → get_elem? ns i ≡ some n → node_at ns i ≡ n
node_at-elem [] i n h = absurd (cc h)
node_at-elem (m ∷ ns) zero n h = cc h
node_at-elem (m ∷ ns) (suc i) n h = node_at-elem ns i n h

is_node-used : (n : StatsNode) (tag : List ℕ) → is_node n tag (length tag) ≡ true → n.used ≡ true
is_node-used n tag h = ground arith

free-is_node : (n : StatsNode) (tag : List ℕ) → n.used ≡ false → is_node n tag (length tag) ≡ false
free-is_node n tag h = rw h refl

Ends-Gives :
    (tag : List ℕ) (ns : List StatsNode) (j : ℕ) (n : StatsNode)
    → Ends tag ns 0 none j
    → (if is_node (node_at ns j) tag (length tag) then node_at ns j else claimed tag (length tag))
      ≡ n
    → Gives tag ns j n
Ends-Gives tag ns j n (matched k m e at_k own) h =
    let same : k ≡ j = omega (arith, e) in
    let at_j : get_elem? ns j ≡ some m = subst (λ (x : ℕ). get_elem? ns x ≡ some m) same at_k in
    let here : m ≡ n = rw (node_at-elem ns j m at_j, own) at h in
    known (at_j ∙ ap some here)
      (subst (λ (x : StatsNode). x.used ≡ true) here (is_node-used m tag own))
Ends-Gives tag ns j n (carried e absent) h = absurd (cc e)
Ends-Gives tag ns j n (found_free k m e at_k free absent) h =
    let same : k ≡ j = omega (arith, e) in
    let at_j : get_elem? ns j ≡ some m = subst (λ (x : ℕ). get_elem? ns x ≡ some m) same at_k in
    let here : claimed tag (length tag) ≡ n =
      rw (node_at-elem ns j m at_j, free-is_node m tag free) at h in
    fresh m at_j free absent (sym here)

pub find_or_create_node-Gives :
    (ns : List StatsNode) (tag : List ℕ) (i : ℕ) (n : StatsNode)
    → find_or_create_node ns tag (length tag) ≡ some (i, n)
    → (0 < length tag) × (length tag < 16) × Gives tag ns i n
unfolding find_or_create_node
find_or_create_node-Gives ns tag i n h =
    elim (Bool-cases (length tag == 0 || leb 16 (length tag))) [
      | inl bad ↦ absurd (cc (rw bad at h))
      | inr good ↦ elim (Option-cases (node_loop tag (length tag) ns 0 none)) [
        | inl e ↦ absurd (cc (rw (good, e) at h))
        | inr (j, e) ↦ (
          ground (arith, good),
          ground (arith, good),
          let pair : (
            j,
            if is_node (node_at ns j) tag (length tag)
                then node_at ns j
                else claimed tag (length tag),
          )
                  ≡ (i, n) =
                cc (rw (good, e) at h) in
              let at_i : j ≡ i = ap (λ (x : ℕ × StatsNode). x.0) pair in
              subst (λ (x : ℕ). Gives tag ns x n) at_i
                (Ends-Gives tag ns j n (node_loop-Ends tag ns 0 none j e)
                  (ap (λ (x : ℕ × StatsNode). x.1) pair)),
        )
      ]
    ]

pub c_string-tag :
    (tag : List ℕ) (n : ℕ)
    → elem 0 tag ≡ false
    → c_string (take (length tag) tag ++ replicate n 0) ≡ tag
unfolding c_string
c_string-tag [] zero plain = refl
c_string-tag [] (suc n) plain = refl
c_string-tag (t ∷ tag) n plain =
    let (ne, rest) = absent-cons 0 t tag plain in rw ne (ap (◌∷◌ t) (c_string-tag tag n rest))

-- No slot in use has a tag that no slot is recognised by.
pub None-apart :
    (tag : List ℕ) (ns : List StatsNode)
    → elem 0 tag ≡ false
    → None tag ns
    → All (λ n. (n.used ≡ true) → c_string n.node ≢ tag) ns
None-apart tag [] plain a = tt
None-apart tag (n ∷ ns) plain a = (
  λ u e.
      let other : is_node n tag (length tag) ≡ true = rw u (tag-is_node n.node tag plain e) in
      cc (other, a.0),
  None-apart tag ns plain a.1,
)
