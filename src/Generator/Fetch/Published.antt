-- ===== src/Generator/Fetch/Published.antt =====
-- fetch_and_generate of fetch.c, against the lines of its sources.
use esp_hole.Hash.{generator_domain_hash}
use esp_hole.Hash.Laws.{domain_hash-lt, generator_domain_hash-eq}
use esp_hole.Blocklist.Device.{is_ok}
use esp_hole.Pipeline.Allowlist.{allowlist_contains}
use esp_hole.Generate.Codec.Laws.{IsWord}
use esp_hole.Generate.Build.{Builder, builder_create}
use esp_hole.Generate.Build.Laws.{IsValid, builder_create-IsValid}
use esp_hole.Generate.Finish.{Artifact}
use esp_hole.Generate.Finish.Result.{expected, builder_finish-expected}
use esp_hole.Generator.Fetch.{
  Sink, Source, fresh, fetch_one_source, source_loop, fetch_and_generate,
}
use esp_hole.Generator.Fetch.Gathered.{
  names_of, kept, harvest, harvest-append, Extends, Extends-nothing, Extends-trans, Adds, HasRoom,
  HasRoom-left, HasRoom-right,
}
use esp_hole.Generator.Fetch.Bodies.{lines_from, Fetches, read_loop-Fetches}
use esp_hole.Generator.Fetch.Streams.{fresh-Represents}
use esp_hole.Base.{
  ℕ, ◌*◌, ◌^◌, ◌≤◌, ◌<◌, ◌≡◌, refl, sym, ap, ◌∙◌, subst, inl, inr, Bool, true, false, ◌&&◌, List,
  [], ◌∷◌, ◌++◌, arith, ◌==◌, if◌then◌else◌, ==→eq, Bool-cases, length, elem, All, All-mono,
  u32_mod, ret,
}

unfoldable pub source_lines : Source → List (List ℕ)
source_lines source =
    if source.client && (is_ok source.opened && source.status == 200)
    then lines_from [] source.reads
    else []

unfoldable pub all_lines : List Source → List (List ℕ)
unfolding source_lines
all_lines [] = []
all_lines (source ∷ sources) =
    (if source.enabled then source_lines source else []) ++ all_lines sources

-- Nothing of the allowlist is harvested, and hashes are 64-bit words.
kept-All :
    (allow : List ℕ) (names : List (List ℕ))
    → All (λ h. (allowlist_contains allow h ≡ false) × IsWord h) (kept allow names)
unfolding kept
kept-All allow [] = tt
kept-All allow (name ∷ names) =
    elim (Bool-cases (allowlist_contains allow (generator_domain_hash name))) [
      | inl t ↦ rw t (kept-All allow names)
      | inr t ↦
          rw t ((t, rw (generator_domain_hash-eq name) (domain_hash-lt name)), kept-All allow names)
    ]

All-append {ℓ} : (P : ℕ → Type ℓ) (xs ys : List ℕ) → All P xs → All P ys → All P (xs ++ ys)
All-append P [] ys a b = b
All-append P (x ∷ xs) ys a b = (a.0, All-append P xs ys a.1 b)

pub harvest-All :
    (allow : List ℕ) (lines : List (List ℕ))
    → All (λ h. (allowlist_contains allow h ≡ false) × IsWord h) (harvest allow lines)
unfolding harvest
harvest-All allow [] = tt
harvest-All allow (line ∷ lines) =
    All-append _ (kept allow (names_of line)) (harvest allow lines) (kept-All allow (names_of line))
      (harvest-All allow lines)

All-elem {ℓ} : (P : ℕ → Type ℓ) (xs : List ℕ) (a : ℕ) → All P xs → elem a xs ≡ true → P a
All-elem P [] a ps h = absurd (cc)
All-elem P (x ∷ xs) a ps h = elim (Bool-cases (x == a)) [
  | inl e ↦ subst P (==→eq x a e) ps.0
  | inr e ↦ All-elem P xs a ps.1 (ground (arith, e, h))
]

module _ (realloc : ℕ → Bool) (grants : (n : ℕ) → realloc n ≡ true) (allow : List ℕ) where
  fetch_one_source-Fetches :
      (source : Source) (ctx : Sink)
      → IsValid ctx.builder
      → HasRoom ctx.builder (harvest allow (source_lines source))
      → Fetches realloc grants allow ctx
          (harvest allow (source_lines source))
          (fetch_one_source realloc allow ctx source)
  unfolding fetch_one_source source_lines
  fetch_one_source-Fetches source ctx v room = elim (Bool-cases source.client) [
    | inr a ↦ rw a (false, ctx, refl, unfold harvest in Extends-nothing ctx.builder v)
    | inl a ↦ elim (Bool-cases (is_ok source.opened)) [
      | inr b ↦ rw (a, b) (false, ctx, refl, unfold harvest in Extends-nothing ctx.builder v)
      | inl b ↦ elim (Bool-cases (source.status == 200)) [
        | inr d ↦ rw (a, b, d) (false, ctx, refl, unfold harvest in Extends-nothing ctx.builder v)
        | inl d ↦
            rw (a, b, d)
              (read_loop-Fetches realloc grants allow source.reads [] ctx fresh fresh-Represents v
                (rw (a, b, d) at room))
      ]
    ]
  ]

  source_loop-enabled :
      (source : Source) (sources : List Source) (ctx c1 c2 : Sink) (done : Bool)
      → source.enabled ≡ true
      → fetch_one_source realloc allow ctx source ≡ ret (done, c1)
      → source_loop realloc allow c1 sources ≡ ret c2
      → source_loop realloc allow ctx (source ∷ sources) ≡ ret c2
  unfolding source_loop
  source_loop-enabled source sources ctx c1 c2 done on run runs = ground (arith, on, run, runs)

  all_lines-enabled :
      (source : Source) (sources : List Source)
      → source.enabled ≡ true
      → harvest allow (all_lines (source ∷ sources))
        ≡ harvest allow (source_lines source) ++ harvest allow (all_lines sources)
  unfolding all_lines
  all_lines-enabled source sources on =
      ap
        (λ (t : Bool). harvest allow ((if t then source_lines source else []) ++ all_lines sources))
        on
      ∙ harvest-append allow (source_lines source) (all_lines sources)

  source_loop-Adds :
      (sources : List Source) (ctx : Sink)
      → IsValid ctx.builder
      → HasRoom ctx.builder (harvest allow (all_lines sources))
      → Adds ctx (harvest allow (all_lines sources)) (source_loop realloc allow ctx sources)
  unfolding source_loop all_lines
  source_loop-Adds [] ctx v room = (ctx, refl, unfold harvest in Extends-nothing ctx.builder v)
  source_loop-Adds (source ∷ sources) ctx v room = elim (Bool-cases source.enabled) [
    | inr off ↦ rw off (source_loop-Adds sources ctx v (rw off at room))
    | inl on ↦
        let here : List ℕ = harvest allow (source_lines source) in
        let later : List ℕ = harvest allow (all_lines sources) in
        let split = all_lines-enabled source sources on in
        let all : HasRoom ctx.builder (here ++ later) = subst (HasRoom ctx.builder) split room in
        let (done, c1, run, e) =
          fetch_one_source-Fetches source ctx v (HasRoom-left ctx.builder here later all) in
        let (c2, runs, f) =
          source_loop-Adds sources c1 e.valid
            (HasRoom-right ctx.builder c1.builder here later e all) in
        (
          c2,
          source_loop-enabled source sources ctx c1 c2 done on run runs,
          subst (Extends ctx.builder c2.builder) (sym split)
              (Extends-trans ctx.builder c1.builder c2.builder here later e f),
        )
  ]

  -- Where the platform grants every request and the lists give at most 2 ^ 27 hashes, fetching and
  -- generating always ends, with what blocklist_builder_finish makes of the hashes that the lines of the
  -- sources give, in order: those of the names that are not allowlisted. How the bodies are cut into
  -- chunks does not matter, and no allowlisted hash is among them.
  pub fetch_and_generate-expected :
      (sha256 : List ℕ → List ℕ) (min_domains : ℕ) (sources : List Source) (before : Artifact)
      → length (harvest allow (all_lines sources)) ≤ 2 ^ 27
      → (b : Builder) × (b.hashes ≡ harvest allow (all_lines sources))
        × (b.min_domains ≡ min_domains)
        × (fetch_and_generate realloc allow sha256 true min_domains sources before
            ≡ ret ((expected sha256 realloc b).status, (expected sha256 realloc b).out))
        × ((a : ℕ) → allowlist_contains allow a ≡ true → elem a b.hashes ≡ false)
  unfolding fetch_and_generate builder_create
  fetch_and_generate-expected sha256 min_domains sources before few =
      let b0 : Builder = record { hashes = []; capacity = 0; min_domains = min_domains } in
      let v0 : IsValid b0 = builder_create-IsValid min_domains b0 refl in
      let (c, run, e) =
        source_loop-Adds sources (record { builder = b0; lines = 0; added = 0 }) v0 (omega arith) in
      let all = harvest-All allow (all_lines sources) in
      let words : All IsWord c.builder.hashes =
        subst (All IsWord) (sym e.hashes)
          (All-mono _ IsWord (harvest allow (all_lines sources)) (λ h p. p.1) all) in
      let small : length c.builder.hashes * 8 < u32_mod = omega (arith, ap length e.hashes) in
      (
        c.builder,
        e.hashes,
        e.floor,
        rw (run, builder_finish-expected sha256 realloc c.builder words small) refl,
        λ a listed. ap (elem a) e.hashes ∙ absent a listed,
      )
    where
      absent :
          (a : ℕ)
          → allowlist_contains allow a ≡ true
          → elem a (harvest allow (all_lines sources)) ≡ false
      absent a listed = elim (Bool-cases (elem a (harvest allow (all_lines sources)))) [
        | inr e ↦ e
        | inl e ↦
            let p =
              All-elem _ (harvest allow (all_lines sources)) a
                (harvest-All allow (all_lines sources)) e in
            cc
      ]
