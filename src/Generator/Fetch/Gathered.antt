-- ===== src/Generator/Fetch/Gathered.antt =====
-- What the sink of fetch.c adds to the builder, where the platform grants every request.
use esp_hole.Hash.{generator_domain_hash}
use esp_hole.Pipeline.Lines.{parse_line}
use esp_hole.Pipeline.Lines.Emitted.{parse_line-IsNormal}
use esp_hole.Pipeline.Allowlist.{allowlist_contains}
use esp_hole.Generate.Build.{Builder, builder_add}
use esp_hole.Generate.Build.Laws.{IsValid, grown, can_grow, builder_add_lem, builder_add-IsValid}
use esp_hole.Generator.Fetch.{Sink, add_sink, sink_names, parse_into}
use esp_hole.Base.{
  ℕ, suc, ◌+◌, ◌*◌, ◌^◌, ◌≤◌, ◌<◌, ◌≡◌, refl, sym, ap, ◌∙◌, subst, inl, inr, Bool, true, List, [],
  ◌∷◌, ◌++◌, append-nil, append_assoc, arith, if◌then◌else◌, Bool-cases, length, length-append,
  Exec, ret, fault, no_fuel,
}

-- The names that a line gives.
unfoldable pub names_of : List ℕ → List (List ℕ)
names_of line = elim (parse_line line) [ ret names ↦ names | fault ↦ [] | no_fuel ↦ [] ]

pub parse_line-names_of : (line : List ℕ) → parse_line line ≡ ret (names_of line)
unfolding names_of
parse_line-names_of line =
    let (names, run, normal, few) = parse_line-IsNormal line in rw (run, names_of) refl

-- The hashes of the names that are not allowlisted, in order.
unfoldable pub kept : List ℕ → List (List ℕ) → List ℕ
kept allow [] = []
kept allow (name ∷ names) =
    let rest = kept allow names in
    if allowlist_contains allow (generator_domain_hash name)
    then rest
    else generator_domain_hash name ∷ rest

-- All that the lines give.
unfoldable pub harvest : List ℕ → List (List ℕ) → List ℕ
harvest allow [] = []
harvest allow (line ∷ lines) = kept allow (names_of line) ++ harvest allow lines

pub harvest-append :
    (allow : List ℕ) (xs ys : List (List ℕ))
    → harvest allow (xs ++ ys) ≡ harvest allow xs ++ harvest allow ys
unfolding harvest
harvest-append allow [] ys = refl
harvest-append allow (x ∷ xs) ys =
    ap (λ (t : List ℕ). kept allow (names_of x) ++ t) (harvest-append allow xs ys)
    ∙ sym (append_assoc (kept allow (names_of x)) (harvest allow xs) (harvest allow ys))

-- The builder has grown by these hashes.
pub record Extends (b b' : Builder) (extra : List ℕ) : Type 0 where
  pub valid : IsValid b'
  pub hashes : b'.hashes ≡ b.hashes ++ extra
  pub floor : b'.min_domains ≡ b.min_domains

pub Extends-nothing : (b : Builder) → IsValid b → Extends b b []
Extends-nothing b v = record { valid = v; hashes = sym (append-nil b.hashes); floor = refl }

pub Extends-trans :
    (a b c : Builder) (xs ys : List ℕ) → Extends a b xs → Extends b c ys → Extends a c (xs ++ ys)
Extends-trans a b c xs ys p q = record {
  valid = q.valid;
  hashes = q.hashes ∙ ap (λ (t : List ℕ). t ++ ys) p.hashes ∙ append_assoc a.hashes xs ys;
  floor = q.floor ∙ p.floor;
}

-- A run of the sink ends and adds these.
abbrev pub Adds : Sink → List ℕ → Exec Sink → Type 0
Adds ctx extra run = (ctx' : Sink) × (run ≡ ret ctx') × Extends ctx.builder ctx'.builder extra

-- There is room for this many more.
abbrev pub HasRoom : Builder → List ℕ → Type 0
HasRoom b extra = length b.hashes + length extra ≤ 2 ^ 27

pub HasRoom-left : (b : Builder) (xs ys : List ℕ) → HasRoom b (xs ++ ys) → HasRoom b xs
HasRoom-left b xs ys h = omega (arith, length-append xs ys)

pub HasRoom-right :
    (b b' : Builder) (xs ys : List ℕ) → Extends b b' xs → HasRoom b (xs ++ ys) → HasRoom b' ys
HasRoom-right b b' xs ys e h =
    omega (arith, length-append xs ys, ap length e.hashes, length-append b.hashes xs)

module _ (realloc : ℕ → Bool) (grants : (n : ℕ) → realloc n ≡ true) (allow : List ℕ) where
  builder_add-Extends :
      (b : Builder) (name : List ℕ)
      → IsValid b
      → length b.hashes < 2 ^ 27
      → (b' : Builder) × (builder_add realloc b name ≡ ret (true, b'))
        × Extends b b' (generator_domain_hash name ∷ [])
  builder_add-Extends b name v h =
      let b' : Builder = record b {
        hashes = b.hashes ++ generator_domain_hash name ∷ [];
        capacity = grown b;
      } in
      let grow : can_grow realloc b ≡ true = ground (arith, grants (grown b * 8)) in
      let run : builder_add realloc b name ≡ ret (true, b') =
        rw (builder_add_lem realloc b v h name, grow) refl in
      (
        b',
        run,
        record {
          valid = builder_add-IsValid realloc b v h name b' true run;
          hashes = refl;
          floor = refl;
        },
      )

  add_sink-Adds :
      (ctx : Sink) (name : List ℕ)
      → IsValid ctx.builder
      → HasRoom ctx.builder (kept allow (name ∷ []))
      → Adds ctx (kept allow (name ∷ [])) (add_sink realloc allow ctx name)
  unfolding add_sink kept
  add_sink-Adds ctx name v room =
      elim (Bool-cases (allowlist_contains allow (generator_domain_hash name))) [
        | inl t ↦ rw t (ctx, refl, Extends-nothing ctx.builder v)
        | inr t ↦
            let (b', run, e) = builder_add-Extends ctx.builder name v (ground (arith, t)) in
            rw t (record ctx { builder = b'; added = suc ctx.added }, rw run refl, e)
      ]

  kept-cons :
      (name : List ℕ) (names : List (List ℕ))
      → kept allow (name ∷ names) ≡ kept allow (name ∷ []) ++ kept allow names
  unfolding kept
  kept-cons name names = elim (Bool-cases (allowlist_contains allow (generator_domain_hash name))) [
    | inl t ↦ rw t refl
    | inr t ↦ rw t refl
  ]

  sink_names-Adds :
      (names : List (List ℕ)) (ctx : Sink)
      → IsValid ctx.builder
      → HasRoom ctx.builder (kept allow names)
      → Adds ctx (kept allow names) (sink_names realloc allow ctx names)
  unfolding sink_names
  sink_names-Adds [] ctx v room = (ctx, refl, unfold kept in Extends-nothing ctx.builder v)
  sink_names-Adds (name ∷ names) ctx v room =
      let one : List ℕ = kept allow (name ∷ []) in
      let all : HasRoom ctx.builder (one ++ kept allow names) =
        subst (HasRoom ctx.builder) (kept-cons name names) room in
      let (c1, run, e) =
        add_sink-Adds ctx name v (HasRoom-left ctx.builder one (kept allow names) all) in
      let (c2, runs, f) =
        sink_names-Adds names c1 e.valid
          (HasRoom-right ctx.builder c1.builder one (kept allow names) e all) in
      (
        c2,
        rw run runs,
        subst (Extends ctx.builder c2.builder) (sym (kept-cons name names))
            (Extends-trans ctx.builder c1.builder c2.builder one (kept allow names) e f),
      )

  pub parse_into-Adds :
      (line : List ℕ) (ctx : Sink)
      → IsValid ctx.builder
      → HasRoom ctx.builder (kept allow (names_of line))
      → Adds ctx (kept allow (names_of line)) (parse_into realloc allow ctx line)
  unfolding parse_into
  parse_into-Adds line ctx v room =
      let (c, run, e) = sink_names-Adds (names_of line) ctx v room in
      (c, rw (parse_line-names_of line) run, e)
