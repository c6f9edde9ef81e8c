-- ===== src/Generator/Fetch/Bodies.antt =====
-- The loop over the body of one source of fetch.c, against the lines of the body.
use esp_hole.Generate.Build.Laws.{IsValid}
use esp_hole.Generator.Fetch.{Sink, Splitter, parse_into, last_line, read_loop}
use esp_hole.Generator.Fetch.Gathered.{
  names_of, kept, harvest, harvest-append, Extends, Extends-nothing, Extends-trans, Adds, HasRoom,
  HasRoom-left, HasRoom-right, parse_into-Adds,
}
use esp_hole.Generator.Fetch.Streams.{cut, cut-append, Represents, names_of_long, chunk_loop-Reads}
use esp_hole.Base.{
  ℕ, suc, ◌≡◌, refl, sym, ap, ◌∙◌, subst, inl, inr, Bool, true, false, ◌&&◌, not, Option, none,
  some, List, [], ◌∷◌, ◌++◌, append-nil, append_assoc, arith, ltb, if◌then◌else◌, Bool-cases,
  length, Exec, ret,
}

-- The bytes of a body, whatever the chunks, and whether it was read to its end.
abbrev pub bytes_of : List (Option (List ℕ)) → List ℕ
bytes_of [] = []
bytes_of (none ∷ reads) = []
bytes_of (some [] ∷ reads) = []
bytes_of (some (c ∷ cs) ∷ reads) = (c ∷ cs) ++ bytes_of reads

abbrev pub is_complete : List (Option (List ℕ)) → Bool
is_complete [] = true
is_complete (none ∷ reads) = false
is_complete (some [] ∷ reads) = true
is_complete (some (c ∷ cs) ∷ reads) = is_complete reads

-- A final line without a newline counts unless it is empty.
abbrev pub ends_with : List ℕ → List (List ℕ)
ends_with [] = []
ends_with (c ∷ cur) = (c ∷ cur) ∷ []

-- The lines of a body: of one that breaks off, the complete ones.
unfoldable pub lines_from : List ℕ → List (Option (List ℕ)) → List (List ℕ)
lines_from cur reads =
    let c = cut cur (bytes_of reads) in if is_complete reads then c.0 ++ ends_with c.1 else c.0

lines_from-chunk :
    (cur : List ℕ) (c : ℕ) (cs : List ℕ) (reads : List (Option (List ℕ)))
    → lines_from cur (some (c ∷ cs) ∷ reads)
      ≡ (cut cur (c ∷ cs)).0 ++ lines_from (cut cur (c ∷ cs)).1 reads
unfolding lines_from
lines_from-chunk cur c cs reads = elim (Bool-cases (is_complete reads)) [
  | inl t ↦
      rw (t, cut-append cur (c ∷ cs) (bytes_of reads))
        (append_assoc (cut cur (c ∷ cs)).0 (cut (cut cur (c ∷ cs)).1 (bytes_of reads)).0 _)
  | inr t ↦ rw (t, cut-append cur (c ∷ cs) (bytes_of reads)) refl
]

module _ (realloc : ℕ → Bool) (grants : (n : ℕ) → realloc n ≡ true) (allow : List ℕ) where
  -- A run of a source ends, with this harvest.
  abbrev pub Fetches : Sink → List ℕ → Exec (Bool × Sink) → Type 0
  Fetches ctx extra run =
      (done : Bool) × (ctx' : Sink) × (run ≡ ret (done, ctx'))
      × Extends ctx.builder ctx'.builder extra

  harvest-one : (line : List ℕ) → harvest allow (line ∷ []) ≡ kept allow (names_of line)
  unfolding harvest
  harvest-one line = append-nil (kept allow (names_of line))

  last_line-Adds :
      (ctx : Sink) (sp : Splitter) (cur : List ℕ)
      → Represents sp cur
      → IsValid ctx.builder
      → HasRoom ctx.builder (harvest allow (ends_with cur))
      → Adds ctx (harvest allow (ends_with cur)) (last_line realloc allow ctx sp)
  unfolding last_line
  last_line-Adds ctx sp [] r v room =
      (ctx, rw idle refl, unfold harvest in Extends-nothing ctx.builder v)
    where
      idle : (ltb 0 (length sp.line) && not sp.overflowed) ≡ false
      idle = elim (Bool-cases sp.overflowed) [
        | inl o ↦ ground (arith, o)
        | inr o ↦ let e : length sp.line ≡ 0 = ap length (r.kept_bytes o) in ground (arith, e)
      ]
  last_line-Adds ctx sp (c ∷ cur) r v room = elim (Bool-cases sp.overflowed) [
    | inl o ↦
        let idle : (ltb 0 (length sp.line) && not sp.overflowed) ≡ false = ground (arith, o) in
        let none_kept : harvest allow ((c ∷ cur) ∷ []) ≡ kept allow [] =
          harvest-one (c ∷ cur) ∙ ap (kept allow) (names_of_long (c ∷ cur) (r.long o)) in
        (
          ctx,
          rw idle refl,
          subst (Extends ctx.builder ctx.builder) (sym none_kept)
              (unfold kept in Extends-nothing ctx.builder v),
        )
    | inr o ↦
        let e : sp.line ≡ c ∷ cur = r.kept_bytes o in
        let busy : (ltb 0 (length sp.line) && not sp.overflowed) ≡ true = ground (arith, o, e) in
        let (c1, run, ext) =
          parse_into-Adds realloc grants allow (c ∷ cur) ctx v
            (subst (HasRoom ctx.builder) (harvest-one (c ∷ cur)) room) in
        let same : parse_into realloc allow ctx sp.line ≡ ret c1 =
          ap (parse_into realloc allow ctx) e ∙ run in
        (
          record c1 { lines = suc c1.lines },
          rw (busy, same) refl,
          subst (Extends ctx.builder c1.builder) (sym (harvest-one (c ∷ cur))) ext,
        )
  ]

  pub read_loop-Fetches :
      (reads : List (Option (List ℕ))) (cur : List ℕ) (ctx : Sink) (sp : Splitter)
      → Represents sp cur
      → IsValid ctx.builder
      → HasRoom ctx.builder (harvest allow (lines_from cur reads))
      → Fetches ctx (harvest allow (lines_from cur reads)) (read_loop realloc allow ctx sp reads)
  unfolding read_loop lines_from cut
  read_loop-Fetches [] cur ctx sp r v room =
      let (c1, run, e) = last_line-Adds ctx sp cur r v room in (true, c1, rw run refl, e)
  read_loop-Fetches (none ∷ reads) cur ctx sp r v room =
      (false, ctx, refl, unfold harvest in Extends-nothing ctx.builder v)
  read_loop-Fetches (some [] ∷ reads) cur ctx sp r v room =
      let (c1, run, e) = last_line-Adds ctx sp cur r v room in (true, c1, rw run refl, e)
  read_loop-Fetches (some (c ∷ cs) ∷ reads) cur ctx sp r v room =
      let here : List ℕ = harvest allow (cut cur (c ∷ cs)).0 in
      let later : List ℕ = harvest allow (lines_from (cut cur (c ∷ cs)).1 reads) in
      let split : harvest allow (lines_from cur (some (c ∷ cs) ∷ reads)) ≡ here ++ later =
        ap (harvest allow) (lines_from-chunk cur c cs reads)
        ∙ harvest-append allow (cut cur (c ∷ cs)).0 (lines_from (cut cur (c ∷ cs)).1 reads) in
      let all : HasRoom ctx.builder (here ++ later) = subst (HasRoom ctx.builder) split room in
      let (c1, s1, run, e, r1) =
        chunk_loop-Reads realloc grants allow (c ∷ cs) cur ctx sp r v
          (HasRoom-left ctx.builder here later all) in
      let (done, c2, runs, f) =
        read_loop-Fetches reads (cut cur (c ∷ cs)).1 c1 s1 r1 e.valid
          (HasRoom-right ctx.builder c1.builder here later e all) in
      (
        done,
        c2,
        rw run runs,
        subst (Extends ctx.builder c2.builder) (sym split)
            (Extends-trans ctx.builder c1.builder c2.builder here later e f),
      )
