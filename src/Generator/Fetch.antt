-- ===== src/Generator/Fetch.antt =====
-- add_sink, fetch_one_source and fetch_and_generate of generator-node/main/fetch.c. What the HTTP
-- client answers is an argument; the watchdog resets have no effect on the result.
pub mod Gathered
pub mod Streams
pub mod Bodies
pub mod Published
use esp_hole.Hash.{generator_domain_hash}
use esp_hole.Blocklist.Device.{EspErr, is_ok}
use esp_hole.Pipeline.Lines.{parse_line}
use esp_hole.Pipeline.Allowlist.{allowlist_contains}
use esp_hole.Generate.Build.{Builder, builder_create, builder_add}
use esp_hole.Generate.Finish.{Status, err_alloc, Artifact, builder_finish}
use esp_hole.Base.{
  ℕ, zero, suc, ◌+◌, ◌-◌, ◌*◌, ◌/◌, ◌%◌, ◌^◌, ◌≤◌, ◌<◌, bit_and, bit_or, bit_xor, ◌≡◌, refl, sym,
  ap, ap₂, ◌∙◌, subst, ◌≢◌, ◌↔◌, ◌⊎◌, inl, inr, Bool, true, false, ◌&&◌, ◌||◌, not, Option, none,
  some, List, [], ◌∷◌, ◌++◌, map, append-nil, append_assoc, map-append, arith, ltb, leb, ◌==◌,
  if◌then◌else◌, ltb→lt, lt→ltb, ltb_false→le, le→ltb_false, leb→le, le→leb, ==→eq, ==_false→ne,
  ==_refl, ne→==_false, tests, Bool-cases, Option-cases, length, get_elem?, get_or, set, take, drop,
  replicate, length-append, get_elem?-eq-get_or, get_elem?-none, get_elem?-append_length,
  length-set, get_elem?-set_self, length-take, take-append, drop-append, elem, bytes_eq,
  bytes_eq→eq, bytes_eq_refl, All, All-mono, All-elem_self, take_all, length-map, All-get,
  elem-append, elem_of_get, not_elem_of_get, Above, IsAscending, Above-lt, IsAscending-lt, u8_mod,
  u32_mod, u64_mod, add32, sub32, mul32, mul64, Exec, ret, fault, no_fuel, ◌>>=◌, read,
}

abbrev pub line_max : ℕ
line_max = 2048

-- `sink_ctx_t`.
pub record Sink : Type 0 where
  pub builder : Builder
  pub lines : ℕ
  pub added : ℕ

-- `s_line` up to `line_len`, and `line_overflowed`.
pub record Splitter : Type 0 where
  pub line : List ℕ
  pub overflowed : Bool

abbrev pub fresh : Splitter
fresh = record { line = []; overflowed = false }

-- The answers for one entry of SOURCE_URLS. `reads` ends where the body does, as does an empty read;
-- `none` is a failed read.
pub record Source : Type 0 where
  pub enabled : Bool
  pub client : Bool
  pub opened : EspErr
  pub status : ℕ
  pub reads : List (Option (List ℕ))

module _ (realloc : ℕ → Bool) (allow : List ℕ) where
  unfoldable pub add_sink : Sink → List ℕ → Exec Sink
  add_sink ctx domain =
      if allowlist_contains allow (generator_domain_hash domain)
      then ret ctx
      else (builder_add realloc ctx.builder domain >>= λ r.
          ret (record ctx { builder = r.1; added = if r.0 then suc ctx.added else ctx.added }))

  -- The calls that parse_line makes of the sink, in order.
  unfoldable pub sink_names : Sink → List (List ℕ) → Exec Sink
  unfolding add_sink
  sink_names ctx [] = ret ctx
  sink_names ctx (name ∷ names) = add_sink ctx name >>= λ ctx'. sink_names ctx' names

  unfoldable pub parse_into : Sink → List ℕ → Exec Sink
  parse_into ctx line = parse_line line >>= λ names. sink_names ctx names

  -- One byte of a chunk.
  unfoldable pub byte_step : Sink → Splitter → ℕ → Exec (Sink × Splitter)
  byte_step ctx sp c =
      if c == 10
      then ((if sp.overflowed then ret ctx else parse_into ctx sp.line) >>= λ ctx'.
          ret (record ctx' { lines = suc ctx'.lines }, fresh))
      else if ltb (length sp.line) line_max
      then ret (ctx, record sp { line = sp.line ++ c ∷ [] })
      else ret (ctx, record sp { overflowed = true })

  unfoldable pub chunk_loop : Sink → Splitter → List ℕ → Exec (Sink × Splitter)
  chunk_loop ctx sp [] = ret (ctx, sp)
  chunk_loop ctx sp (c ∷ cs) = byte_step ctx sp c >>= λ r. chunk_loop r.0 r.1 cs

  -- The final line without a newline.
  unfoldable pub last_line : Sink → Splitter → Exec Sink
  last_line ctx sp =
      if ltb 0 (length sp.line) && not sp.overflowed
      then (parse_into ctx sp.line >>= λ ctx'. ret (record ctx' { lines = suc ctx'.lines }))
      else ret ctx

  -- The loop over the body: whether it was read to the end.
  unfoldable pub read_loop : Sink → Splitter → List (Option (List ℕ)) → Exec (Bool × Sink)
  read_loop ctx sp [] = last_line ctx sp >>= λ ctx'. ret (true, ctx')
  read_loop ctx sp (none ∷ reads) = ret (false, ctx)
  read_loop ctx sp (some [] ∷ reads) = last_line ctx sp >>= λ ctx'. ret (true, ctx')
  read_loop ctx sp (some (c ∷ cs) ∷ reads) =
      chunk_loop ctx sp (c ∷ cs) >>= λ r. read_loop r.0 r.1 reads

  unfoldable pub fetch_one_source : Sink → Source → Exec (Bool × Sink)
  fetch_one_source ctx source =
      if not source.client
      then ret (false, ctx)
      else if not (is_ok source.opened)
      then ret (false, ctx)
      else if not (source.status == 200)
      then ret (false, ctx)
      else read_loop ctx fresh source.reads

  -- The loop over the sources: a source that fails keeps what it added before.
  unfoldable pub source_loop : Sink → List Source → Exec Sink
  source_loop ctx [] = ret ctx
  source_loop ctx (source ∷ sources) =
      let skipped = source_loop ctx sources in
      if not source.enabled
      then skipped
      else (fetch_one_source ctx source >>= λ r. source_loop r.1 sources)

  -- `created` says whether the platform grants the builder; `before` is what `*out` held.
  unfoldable pub fetch_and_generate :
      (List ℕ → List ℕ) → Bool → ℕ → List Source → Artifact → Exec (Status × Artifact)
  fetch_and_generate sha256 created min_domains sources before =
      elim (builder_create created min_domains) [
        | none ↦ ret (err_alloc, before)
        | some b ↦ source_loop (record { builder = b; lines = 0; added = 0 }) sources >>= λ ctx.
            builder_finish sha256 realloc ctx.builder >>= λ done. ret (done.status, done.out)
      ]
