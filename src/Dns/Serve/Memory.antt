-- ===== src/Dns/Serve/Memory.antt =====
-- What the cache of main/dns_sinkhole.c remembers, and what the drain loop takes off the socket.
use mathlib.Core.List.{Memᴰ}
use esp_hole.Dns.Reply.{Arrivals, is_answer, drain_loop, forward_upstream}
use esp_hole.Dns.Cache.{Entry, Cache, max_pkt, find_loop, cache_find, victim, cache_insert}
use esp_hole.Base.{
  ℕ, zero, suc, ◌≡◌, refl, ap, subst, inl, inr, Bool, true, false, ◌||◌, Option, none, some, List,
  [], ◌∷◌, ◌++◌, arith, ltb, ◌==◌, Bool-cases, length, set, All,
}

-- An answer that was relayed, under its key, at this time.
pub record Relay : Type 0 where
  pub key : ℕ
  pub answer : List ℕ
  pub at_us : ℕ

-- Every valid entry is the record of a relay.
abbrev pub Recalls : List Relay → Entry → Type 0
Recalls h e =
    (e.valid ≡ true) → Memᴰ (record { key = e.key; answer = e.answer; at_us = e.inserted_us }) h

abbrev pub Remembers : List Relay → Cache → Type 0
Remembers h c = All (Recalls h) c.entries

find_loop-Recalls :
    (h : List Relay) (key now clock i : ℕ) (es : List Entry)
    → All (Recalls h) es
    → All (Recalls h) (find_loop key now clock i es).1
unfolding find_loop
find_loop-Recalls h key now clock i [] a = tt
find_loop-Recalls h key now clock i (e ∷ es) a =
    ground (arith, find_loop-Recalls h key now clock (suc i) es a.1)

pub cache_find-Remembers :
    (h : List Relay) (key now : ℕ) (c : Cache)
    → Remembers h c
    → Remembers h (cache_find key now c).1
unfolding cache_find
cache_find-Remembers h key now c a = find_loop-Recalls h key now c.clock 0 c.entries a

set-Recalls :
    (h : List Relay) (v : ℕ) (e : Entry) (es : List Entry)
    → Recalls h e
    → All (Recalls h) es
    → All (Recalls h) (set es v e)
set-Recalls h v e [] r a = tt
set-Recalls h zero e (x ∷ es) r a = (r, a.1)
set-Recalls h (suc v) e (x ∷ es) r a = (a.0, set-Recalls h v e es r a.1)

pub Remembers-more :
    (h : List Relay) (r : Relay) (es : List Entry) → All (Recalls h) es → All (Recalls (r ∷ h)) es
Remembers-more h r [] a = tt
Remembers-more h r (e ∷ es) a = ((λ t. Memᴰ.tail (a.0 t)), Remembers-more h r es a.1)

-- An insertion is remembered as the latest relay.
pub cache_insert-Remembers :
    (h : List Relay) (key now : ℕ) (answer : List ℕ) (c : Cache)
    → Remembers h c
    → Remembers
        (record { key = key; answer = answer; at_us = now } ∷ h)
        (cache_insert key answer now c)
unfolding cache_insert
cache_insert-Remembers h key now answer c a =
    let more = Remembers-more h (record { key = key; answer = answer; at_us = now }) c.entries a in
    elim (Bool-cases (length answer == 0 || ltb max_pkt (length answer))) [
      | inl e ↦ rw e more
      | inr e ↦ rw e (set-Recalls _ (victim c.entries) _ c.entries (λ _. Memᴰ.head refl) more)
    ]

-- What the drain loop takes off the socket: the answer last, if there is one.
abbrev pub Drained : List ℕ → Arrivals → Option (List ℕ) × Arrivals → Type 0
Drained query before (none, after) = (gone : Arrivals) × (before ≡ gone ++ after)
Drained query before (some ans, after) =
    (gone : Arrivals) × (before ≡ gone ++ some ans ∷ after) × (is_answer query ans ≡ true)

drain_loop-Drained :
    (query : List ℕ) (tries : ℕ) (arrivals : Arrivals)
    → Drained query arrivals (drain_loop query tries arrivals)
unfolding drain_loop
drain_loop-Drained query zero arrivals = ([], refl)
drain_loop-Drained query (suc tries) [] = ([], refl)
drain_loop-Drained query (suc tries) (none ∷ arrivals) = (none ∷ [], refl)
drain_loop-Drained query (suc tries) (some ans ∷ arrivals) =
    elim (Bool-cases (is_answer query ans)) [
      | inl t ↦ rw t ([], refl, t)
      | inr t ↦ rw t (
          Drained-more query ans arrivals (drain_loop query tries arrivals)
            (drain_loop-Drained query tries arrivals))
    ]
  where
    Drained-more :
        (query : List ℕ) (ans : List ℕ) (before : Arrivals) (r : Option (List ℕ) × Arrivals)
        → Drained query before r
        → Drained query (some ans ∷ before) r
    Drained-more query ans before (none, after) d = (some ans ∷ d.0, ap (◌∷◌ (some ans)) d.1)
    Drained-more query ans before (some a, after) (gone, e, t) =
        (some ans ∷ gone, ap (◌∷◌ (some ans)) e, t)

pub forward_upstream-Drained :
    (sent : Bool) (query : List ℕ) (arrivals : Arrivals)
    → Drained query arrivals (forward_upstream sent query arrivals)
unfolding forward_upstream
forward_upstream-Drained true query arrivals = drain_loop-Drained query 4 arrivals
forward_upstream-Drained false query arrivals = ([], refl)

pub Drained-none :
    (query : List ℕ) (before : Arrivals) (r : Option (List ℕ) × Arrivals)
    → r.0 ≡ none
    → Drained query before r
    → (gone : Arrivals) × (before ≡ gone ++ r.1)
Drained-none query before (none, after) e d = d
Drained-none query before (some ans, after) e d = absurd (cc e)

pub Drained-some :
    (query ans : List ℕ) (before : Arrivals) (r : Option (List ℕ) × Arrivals)
    → r.0 ≡ some ans
    → Drained query before r
    → (gone : Arrivals) × (before ≡ gone ++ some ans ∷ r.1) × (is_answer query ans ≡ true)
Drained-some query ans before (none, after) e d = absurd (cc e)
Drained-some query ans before (some a, after) e d =
    let same : a ≡ ans = cc e in
    subst
      (λ (x : List ℕ).
        (gone : Arrivals) × (before ≡ gone ++ some x ∷ after) × (is_answer query x ≡ true))
      same d
