-- ===== src/Generator/Page/Listener/Lines.antt =====
-- The lines of a datagram in generator-node/main/stats_ui.c: their lengths, and that they hold no NUL.
use esp_hole.Generator.Page.{
  StatsNode, c_string, split_at, same_prefix, find_or_create_node, prefix, ingest_line,
}
use esp_hole.Generator.Page.Fields.{absent-cons}
use esp_hole.Generator.Page.Listener.{
  cut_fields, cut_line, line_end, lines_loop, ingest_datagram, stats_listener_task,
}
use esp_hole.Generator.Page.Listener.Table.{if-either, IsTable, ingest_fields-IsTable}
use esp_hole.Base.{
  ℕ, zero, suc, ◌+◌, ◌-◌, ◌≤◌, ◌<◌, ◌≡◌, refl, ◌∙◌, subst, inl, inr, Bool, true, false, ◌||◌, not,
  Option, none, some, List, [], ◌∷◌, ◌++◌, arith, leb, ◌==◌, if◌then◌else◌, Bool-cases,
  Option-cases, length, take, drop, length-append, elem, ret,
}

-- No NUL in front of the end of a string.
take-c_string : (s : List ℕ) (n : ℕ) → n ≤ length (c_string s) → elem 0 (take n s) ≡ false
unfolding c_string
take-c_string s zero l = refl
take-c_string [] (suc n) l = refl
take-c_string (c ∷ s) (suc n) l = elim (Bool-cases (c == 0)) [
  | inl z ↦ absurd (omega (arith, rw z at l))
  | inr nz ↦ rw nz (take-c_string s n (omega (arith, rw nz at l)))
]

take-nil : (n : ℕ) → elem 0 (take n []) ≡ false
take-nil zero = refl
take-nil (suc n) = refl

take-drop :
    (k m n : ℕ) (s : List ℕ)
    → m ≡ k + n
    → elem 0 (take m s) ≡ false
    → elem 0 (take n (drop k s)) ≡ false
take-drop zero m n s e h =
    let same : m ≡ n = omega (arith, e) in subst (λ (x : ℕ). elem 0 (take x s) ≡ false) same h
take-drop (suc k) m n [] e h = take-nil n
take-drop (suc k) zero n (c ∷ s) e h = absurd (omega (arith, e))
take-drop (suc k) (suc m) n (c ∷ s) e h =
    take-drop k m n s (omega (arith, e)) (absent-cons 0 c (take m s) h).1

-- What stands before the separator.
split_at-before :
    (sep : ℕ) (s : List ℕ) (r : List ℕ × List ℕ)
    → split_at sep s ≡ some r
    → (length r.0 < length s) × ((elem 0 s ≡ false) → elem 0 r.0 ≡ false)
unfolding split_at
split_at-before sep [] r h = absurd (cc h)
split_at-before sep (c ∷ s) r h = elim (Bool-cases (c == sep)) [
  | inl t ↦
      let e : ([], s) ≡ r = cc (rw t at h) in
      subst
        (λ (x : List ℕ × List ℕ).
          (length x.0 < suc (length s)) × ((elem 0 (c ∷ s) ≡ false) → elem 0 x.0 ≡ false))
        e (omega arith, λ _. refl)
  | inr t ↦ elim (Option-cases (split_at sep s)) [
    | inl e ↦ absurd (cc (rw (t, e) at h))
    | inr (q, e) ↦
        let (short, plain) = split_at-before sep s q e in
        let same : (c ∷ q.0, q.1) ≡ r = cc (rw (t, e) at h) in
        subst
          (λ (x : List ℕ × List ℕ).
            (length x.0 < suc (length s)) × ((elem 0 (c ∷ s) ≡ false) → elem 0 x.0 ≡ false))
          same
          (omega (arith, short), λ p. let (ne, rest) = absent-cons 0 c s p in rw ne (plain rest))
  ]
]

cut_fields-length : (seen : Bool) (s : List ℕ) → length (cut_fields seen s) ≡ length s
unfolding cut_fields
cut_fields-length seen [] = refl
cut_fields-length seen (c ∷ s) =
    ground (arith, cut_fields-length false s, cut_fields-length true s, cut_fields-length seen s)

line_end-plain : (line : List ℕ) → (line_end line).0 ≤ length (c_string line)
unfolding line_end
line_end-plain line = elim (Option-cases (split_at 10 (c_string line))) [
  | inl e ↦ rw (e, line_end) (omega arith)
  | inr (r, e) ↦ rw (e, line_end) (omega (arith, (split_at-before 10 (c_string line) r e).0))
]

-- The line's guard.
abbrev other : List ℕ → ℕ → Bool
other line len = leb len 13 || not (same_prefix 13 line prefix)

ingest_line-IsTable :
    (now : ℕ) (ns : List StatsNode) (line : List ℕ) (len : ℕ)
    → elem 0 (take len line) ≡ false
    → IsTable ns
    → IsTable (ingest_line now ns line len)
unfolding ingest_line
ingest_line-IsTable now ns line len plain w = elim (Bool-cases (other line len)) [
  | inl t ↦ rw (t, ingest_line) w
  | inr t ↦ elim (Option-cases (split_at 32 (take (len - 13) (drop 13 line)))) [
    | inl e ↦ rw (t, e, ingest_line) w
    | inr (r, e) ↦
        let long : 13 < len = ground (arith, t) in
        let part = take-drop 13 len (len - 13) line (omega (arith, long)) plain in
        let tag = (split_at-before 32 (take (len - 13) (drop 13 line)) r e).1 part in
        rw (t, e, ingest_line)
          (ingest_fields-IsTable now ns (drop (suc (length r.0)) (drop 13 line)) r.0 tag w)
  ]
]

length-drop : (n : ℕ) (s : List ℕ) → length (drop n s) ≡ length s - n
length-drop zero s = omega arith
length-drop (suc n) [] = omega arith
length-drop (suc n) (c ∷ s) = length-drop n s ∙ omega arith

length-take_le : (n : ℕ) (s : List ℕ) → (length (take n s) ≤ n) × (length (take n s) ≤ length s)
length-take_le zero s = (omega arith, omega arith)
length-take_le (suc n) [] = (omega arith, omega arith)
length-take_le (suc n) (c ∷ s) =
    let (a, b) = length-take_le n s in (omega (arith, a), omega (arith, b))

joined_length :
    (line tag text : List ℕ)
    → length tag < length (drop 13 line)
    → length text ≡ length (drop (suc (length tag)) (drop 13 line))
    → length (take 13 line ++ (tag ++ 0 ∷ text)) ≤ length line
joined_length line tag text fits same =
    let whole = length-append (take 13 line) (tag ++ 0 ∷ text) in
    let behind = length-append tag (0 ∷ text) in
    let rest = length-drop 13 line in
    let last = length-drop (suc (length tag)) (drop 13 line) in
    omega (arith, fits, same, whole, behind, rest, last, (length-take_le 13 line).0)

-- What is written into a line leaves its length.
cut_line-length :
    (ns : List StatsNode) (line : List ℕ) (len : ℕ) → length (cut_line ns line len) ≤ length line
unfolding cut_line
cut_line-length ns line len = elim (Bool-cases (other line len)) [
  | inl t ↦ rw (t, cut_line) (omega arith)
  | inr t ↦ elim (Option-cases (split_at 32 (take (len - 13) (drop 13 line)))) [
    | inl e ↦ rw (t, e, cut_line) (omega arith)
    | inr (r, e) ↦
        let short = (split_at-before 32 (take (len - 13) (drop 13 line)) r e).0 in
        let fits : length r.0 < length (drop 13 line) =
          omega (arith, short, (length-take_le (len - 13) (drop 13 line)).1) in
        elim (Option-cases (find_or_create_node ns r.0 (length r.0))) [
          | inl f ↦ rw (t, e, f, cut_line) (joined_length line r.0 _ fits refl)
          | inr (g, f) ↦
              rw (t, e, f, cut_line) (joined_length line r.0 _ fits (cut_fields-length false _))
        ]
  ]
]

-- The loop over the lines ends, and keeps the table.
lines_loop-IsTable :
    (fuel : ℕ) (now : ℕ → ℕ) (i : ℕ) (ns : List StatsNode) (line : List ℕ)
    → length line < fuel
    → IsTable ns
    → (ns' : List StatsNode) × (lines_loop fuel now i ns line ≡ ret ns') × IsTable ns'
unfolding lines_loop
lines_loop-IsTable zero now i ns line l w = absurd (omega (arith, l))
lines_loop-IsTable (suc fuel) now i ns [] l w = (ns, refl, w)
lines_loop-IsTable (suc fuel) now i ns (c ∷ s) l w =
    let line : List ℕ = c ∷ s in
    let len : ℕ = (line_end line).0 in
    let nodes' : List StatsNode = if 0 == len then ns else ingest_line (now i) ns line len in
    let line' : List ℕ = if 0 == len then line else cut_line ns line len in
    let kept : IsTable nodes' =
      if-either IsTable (0 == len) ns (ingest_line (now i) ns line len) w (
        ingest_line-IsTable (now i) ns line len (take-c_string line len (line_end-plain line)) w) in
    let short : length line' ≤ length line =
      if-either (λ (x : List ℕ). length x ≤ length line) (0 == len) line (cut_line ns line len)
        (omega arith) (cut_line-length ns line len) in
    elim (Bool-cases (c == 0)) [
      | inl z ↦ (ns, rw z refl, w)
      | inr nz ↦ elim (Bool-cases (line_end line).1) [
        | inl more ↦
            let (ns', run, last) =
              lines_loop-IsTable fuel now (suc i) nodes' (drop (suc len) line')
                (omega (arith, l, short, length-drop (suc len) line')) kept in
            (ns', rw (nz, more) run, last)
        | inr done ↦ (nodes', rw (nz, done) refl, kept)
      ]
    ]

-- Whatever datagrams arrive, of any bytes and any length, the task reads each to its end and keeps the
-- table: 16 slots, tags that end within their 16 bytes, no tag in two slots, 16 buckets each, and sums of
-- 32 bits.
pub stats_listener_task-IsTable :
    (turns : List ((ℕ → ℕ) × Option (List ℕ))) (ns : List StatsNode)
    → IsTable ns
    → (ns' : List StatsNode) × (stats_listener_task turns ns ≡ ret ns') × IsTable ns'
unfolding stats_listener_task ingest_datagram
stats_listener_task-IsTable [] ns w = (ns, refl, w)
stats_listener_task-IsTable ((now, none) ∷ turns) ns w = stats_listener_task-IsTable turns ns w
stats_listener_task-IsTable ((now, some []) ∷ turns) ns w = stats_listener_task-IsTable turns ns w
stats_listener_task-IsTable ((now, some (c ∷ dgram)) ∷ turns) ns w =
    let (mid, run, between) =
      lines_loop-IsTable (suc (length (take 511 (c ∷ dgram) ++ 0 ∷ []))) now 0 ns
        (take 511 (c ∷ dgram) ++ 0 ∷ []) (omega arith) w in
    let (ns', rest, last) = stats_listener_task-IsTable turns mid between in
    (ns', rw run rest, last)
