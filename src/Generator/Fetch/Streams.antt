-- ===== src/Generator/Fetch/Streams.antt =====
-- The byte loop of fetch_one_source, against the lines of the whole stream.
use esp_hole.Pipeline.Lines.{parse_line}
use esp_hole.Generate.Build.Laws.{IsValid}
use esp_hole.Generator.Fetch.{line_max, Sink, Splitter, fresh, parse_into, byte_step, chunk_loop}
use esp_hole.Generator.Fetch.Gathered.{
  names_of, kept, harvest, Extends, Extends-nothing, Extends-trans, Adds, HasRoom, HasRoom-left,
  HasRoom-right, parse_into-Adds,
}
use esp_hole.Base.{
  ℕ, suc, ◌≤◌, ◌<◌, ◌≡◌, refl, sym, ap, ◌∙◌, subst, inl, inr, Bool, true, false, List, [], ◌∷◌,
  ◌++◌, arith, ltb, ◌==◌, if◌then◌else◌, ltb→lt, lt→ltb, ltb_false→le, Bool-cases, length,
  length-append, Exec, ret,
}

-- The complete lines of a text, with `cur` read before it, and what is behind the last newline.
unfoldable pub cut : List ℕ → List ℕ → List (List ℕ) × List ℕ
cut cur [] = ([], cur)
cut cur (c ∷ s) =
    let line = cut [] s in
    let more = cut (cur ++ c ∷ []) s in if c == 10 then (cur ∷ line.0, line.1) else more

pub cut-newline :
    (cur : List ℕ) (c : ℕ) (s : List ℕ)
    → (c == 10) ≡ true
    → cut cur (c ∷ s) ≡ (cur ∷ (cut [] s).0, (cut [] s).1)
unfolding cut
cut-newline cur c s t = rw t refl

pub cut-other :
    (cur : List ℕ) (c : ℕ) (s : List ℕ)
    → (c == 10) ≡ false
    → cut cur (c ∷ s) ≡ cut (cur ++ c ∷ []) s
unfolding cut
cut-other cur c s t = rw t refl

pub cut-append :
    (cur a b : List ℕ)
    → cut cur (a ++ b) ≡ ((cut cur a).0 ++ (cut (cut cur a).1 b).0, (cut (cut cur a).1 b).1)
unfolding cut
cut-append cur [] b = refl
cut-append cur (c ∷ a) b = ground (arith, cut-append [] a b, cut-append (cur ++ c ∷ []) a b)

-- The splitter keeps the first 2048 bytes of the line and notes that there are more.
pub record Represents (sp : Splitter) (cur : List ℕ) : Type 0 where
  pub kept_bytes : (sp.overflowed ≡ false) → sp.line ≡ cur
  pub long : (sp.overflowed ≡ true) → line_max < length cur
  pub room : length sp.line ≤ line_max
  pub started : (sp.overflowed ≡ true) → length sp.line ≡ line_max

pub fresh-Represents : Represents fresh []
fresh-Represents = record {
  kept_bytes = λ e. refl;
  long = λ e. cc;
  room = omega arith;
  started = λ e. cc;
}

pub names_of_long : (line : List ℕ) → line_max < length line → names_of line ≡ []
unfolding names_of parse_line
names_of_long line h =
    let t : ltb 2048 (length line) ≡ true = lt→ltb 2048 _ h in
    unfold parse_line in rw (t, names_of) refl

-- The byte is no newline.
step_on :
    (sp : Splitter) (cur : List ℕ) (c : ℕ)
    → Represents sp cur
    → Represents
        (if ltb (length sp.line) line_max
          then record sp { line = sp.line ++ c ∷ [] }
          else record sp { overflowed = true })
        (cur ++ c ∷ [])
step_on sp cur c r = elim (Bool-cases sp.overflowed) [
  | inl o ↦
      let full : ltb (length sp.line) line_max ≡ false = ground (arith, r.started o) in
      rw full (record {
        kept_bytes = λ e. cc;
        long = λ e. omega (arith, r.long o, length-append cur (c ∷ []));
        room = r.room;
        started = λ e. r.started o;
      })
  | inr o ↦
      let same = r.kept_bytes o in
      elim (Bool-cases (ltb (length sp.line) line_max)) [
        | inl t ↦ rw t (record {
          kept_bytes = λ e. ap (λ (x : List ℕ). x ++ c ∷ []) same;
          long = λ e. cc;
          room = omega (arith, ltb→lt _ _ t, length-append sp.line (c ∷ []));
          started = λ e. cc;
        })
        | inr t ↦ rw t (record {
          kept_bytes = λ e. cc;
          long = λ e. omega (arith, ltb_false→le _ _ t, ap length same, length-append cur (c ∷ []));
          room = r.room;
          started = λ e. omega (arith, ltb_false→le _ _ t, r.room);
        })
      ]
]

module _ (realloc : ℕ → Bool) (grants : (n : ℕ) → realloc n ≡ true) (allow : List ℕ) where
  -- A run of the byte loop ends, with this harvest and this unfinished line.
  abbrev pub Reads : Sink → List ℕ → List ℕ → Exec (Sink × Splitter) → Type 0
  Reads ctx extra cur run =
      (ctx' : Sink) × (sp' : Splitter) × (run ≡ ret (ctx', sp'))
      × Extends ctx.builder ctx'.builder extra
      × Represents sp' cur

  -- The line that ends here: too long a line gives nothing.
  pub finish_line :
      (ctx : Sink) (sp : Splitter) (cur : List ℕ)
      → Represents sp cur
      → IsValid ctx.builder
      → HasRoom ctx.builder (kept allow (names_of cur))
      → Adds ctx
          (kept allow (names_of cur))
          (if sp.overflowed then ret ctx else parse_into realloc allow ctx sp.line)
  finish_line ctx sp cur r v room = elim (Bool-cases sp.overflowed) [
    | inl o ↦ (
      ctx,
      rw o refl,
      subst (λ (ns : List (List ℕ)). Extends ctx.builder ctx.builder (kept allow ns))
          (sym (names_of_long cur (r.long o))) (unfold kept in Extends-nothing ctx.builder v),
    )
    | inr o ↦
        let (c, run, e) = parse_into-Adds realloc grants allow cur ctx v room in
        (c, rw o (ap (λ (l : List ℕ). parse_into realloc allow ctx l) (r.kept_bytes o) ∙ run), e)
  ]

  -- A byte that ends the line, and one that does not.
  byte_step-newline :
      (ctx : Sink) (sp : Splitter) (cur : List ℕ) (c : ℕ)
      → (c == 10) ≡ true
      → Represents sp cur
      → IsValid ctx.builder
      → HasRoom ctx.builder (kept allow (names_of cur))
      → Reads ctx (kept allow (names_of cur)) [] (byte_step realloc allow ctx sp c)
  unfolding byte_step
  byte_step-newline ctx sp cur c t r v room =
      let (c1, run, e) = finish_line ctx sp cur r v room in
      (record c1 { lines = suc c1.lines }, fresh, rw (t, run) refl, e, fresh-Represents)

  byte_step-other :
      (ctx : Sink) (sp : Splitter) (cur : List ℕ) (c : ℕ)
      → (c == 10) ≡ false
      → Represents sp cur
      → (sp' : Splitter) × (byte_step realloc allow ctx sp c ≡ ret (ctx, sp'))
        × Represents sp' (cur ++ c ∷ [])
  unfolding byte_step
  byte_step-other ctx sp cur c t r = (
    (if ltb (length sp.line) line_max
        then record sp { line = sp.line ++ c ∷ [] }
        else record sp { overflowed = true }),
    ground (arith, t),
    step_on sp cur c r,
  )

  pub chunk_loop-Reads :
      (s cur : List ℕ) (ctx : Sink) (sp : Splitter)
      → Represents sp cur
      → IsValid ctx.builder
      → HasRoom ctx.builder (harvest allow (cut cur s).0)
      → Reads ctx (harvest allow (cut cur s).0) (cut cur s).1 (chunk_loop realloc allow ctx sp s)
  unfolding chunk_loop harvest
  chunk_loop-Reads [] cur ctx sp r v room =
      (ctx, sp, refl, unfold cut in Extends-nothing ctx.builder v, unfold cut in r)
  chunk_loop-Reads (c ∷ s) cur ctx sp r v room = elim (Bool-cases (c == 10)) [
    | inl t ↦
        let one : List ℕ = kept allow (names_of cur) in
        let rest : List ℕ = harvest allow (cut [] s).0 in
        let all : HasRoom ctx.builder (one ++ rest) =
          subst (λ (x : List (List ℕ) × List ℕ). HasRoom ctx.builder (harvest allow x.0))
            (cut-newline cur c s t) room in
        let (c1, s1, run, e, r1) =
          byte_step-newline ctx sp cur c t r v (HasRoom-left ctx.builder one rest all) in
        let (c2, s2, runs, f, r2) =
          chunk_loop-Reads s [] c1 s1 r1 e.valid
            (HasRoom-right ctx.builder c1.builder one rest e all) in
        subst
          (λ (x : List (List ℕ) × List ℕ).
            Reads ctx (harvest allow x.0) x.1 (chunk_loop realloc allow ctx sp (c ∷ s)))
          (sym (cut-newline cur c s t))
          (c2, s2, rw run runs, Extends-trans ctx.builder c1.builder c2.builder one rest e f, r2)
    | inr t ↦
        let (s1, run, r1) = byte_step-other ctx sp cur c t r in
        let (c2, s2, runs, f, r2) = chunk_loop-Reads s (cur ++ c ∷ []) ctx s1 r1 v (
          subst (λ (x : List (List ℕ) × List ℕ). HasRoom ctx.builder (harvest allow x.0))
            (cut-other cur c s t) room) in
        subst
          (λ (x : List (List ℕ) × List ℕ).
            Reads ctx (harvest allow x.0) x.1 (chunk_loop realloc allow ctx sp (c ∷ s)))
          (sym (cut-other cur c s t)) (c2, s2, rw run runs, f, r2)
  ]
