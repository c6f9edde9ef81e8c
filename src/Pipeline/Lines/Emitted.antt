-- ===== src/Pipeline/Lines/Emitted.antt =====
-- What parse_line gives to its sink.
use esp_hole.Pipeline.Normalize.Sound.{IsNormal, normalize_domain-IsNormal}
use esp_hole.Pipeline.Lines.{
  max_tokens, emit_token, has_rule_syntax, is_abp_other, is_abp_rule, parse_rule, word, token_loop,
  skip_address, strip_comment, emit_tokens, parse_trimmed, parse_line,
}
use esp_hole.Pipeline.Normalize.{trim_front, trim_back}
use esp_hole.Base.{
  ℕ, zero, suc, ◌-◌, ◌≤◌, ◌≡◌, refl, inl, inr, ◌||◌, List, [], ◌∷◌, ◌++◌, arith, ltb, ◌==◌,
  Bool-cases, Option-cases, length, get_or, take, drop, length-append, All, Exec, ret,
}

-- The names are normal, and there are at most this many.
abbrev Emits : ℕ → Exec (List (List ℕ)) → Type 0
Emits n run =
    (names : List (List ℕ)) × (run ≡ ret names) × All (IsNormal 256) names × (length names ≤ n)

Emits-none : (n : ℕ) → Emits n (ret [])
Emits-none n = ([], refl, tt, omega arith)

emit_token-Emits : (tok : List ℕ) → Emits 1 (emit_token tok)
unfolding emit_token
emit_token-Emits tok =
    let (r, run, normal) = normalize_domain-IsNormal tok 256 in
    elim (Option-cases r) [
      | inl e ↦ ([], rw (run, e) refl, tt, omega arith)
      | inr (name, e) ↦ (name ∷ [], rw (run, e) refl, (normal name e, tt), omega arith)
    ]

Emits-weaken : (n m : ℕ) (run : Exec (List (List ℕ))) → n ≤ m → Emits n run → Emits m run
Emits-weaken n m run h (names, e, a, l) = (names, e, a, omega arith)

All-append :
    (xs ys : List (List ℕ))
    → All (IsNormal 256) xs
    → All (IsNormal 256) ys
    → All (IsNormal 256) (xs ++ ys)
All-append [] ys a b = b
All-append (x ∷ xs) ys a b = (a.0, All-append xs ys a.1 b)

emit_tokens-Emits : (ts : List (List ℕ)) → Emits (length ts) (emit_tokens ts)
unfolding emit_tokens
emit_tokens-Emits [] = Emits-none 0
emit_tokens-Emits (t ∷ ts) =
    let (names, run, a, l) = emit_token-Emits t in
    let (more, runs, b, k) = emit_tokens-Emits ts in
    (
      names ++ more,
      rw (run, runs) refl,
      All-append names more a b,
      omega (arith, length-append names more),
    )

token_loop-length : (n : ℕ) (s : List ℕ) → length (token_loop n s) ≤ n
unfolding token_loop
token_loop-length zero s = omega arith
token_loop-length (suc n) s = at_rest (token_loop-length n) (trim_front s)
  where
    at_rest :
        ((u : List ℕ) → length (token_loop n u) ≤ n)
        → (t : List ℕ)
        → length (elim t [ [] ↦ [] | c ∷ u ↦ (word (c ∷ u)).0 ∷ token_loop n (word (c ∷ u)).1 ])
          ≤ suc n
    at_rest ih [] = omega arith
    at_rest ih (c ∷ u) = omega (arith, ih (word (c ∷ u)).1)

skip_address-length : (ts : List (List ℕ)) → length (skip_address ts) ≤ length ts
unfolding skip_address
skip_address-length [] = omega arith
skip_address-length (t ∷ ts) = ground arith

parse_rule-Emits : (line : List ℕ) → Emits 1 (parse_rule line)
unfolding parse_rule
parse_rule-Emits line = elim (Bool-cases (get_or line (length line - 1) 0 == 94)) [
  | inr e ↦ rw e (Emits-none 1)
  | inl e ↦ elim (Bool-cases (has_rule_syntax (take (length line - 3) (drop 2 line)))) [
    | inl bad ↦ rw (e, bad) (Emits-none 1)
    | inr good ↦ rw (e, good) (emit_token-Emits (take (length line - 3) (drop 2 line)))
  ]
]

parse_trimmed-Emits : (line : List ℕ) → Emits max_tokens (parse_trimmed line)
unfolding parse_trimmed
parse_trimmed-Emits line = elim (Bool-cases (length line == 0 || is_abp_other line)) [
  | inl e ↦ rw e (Emits-none max_tokens)
  | inr e ↦ elim (Bool-cases (is_abp_rule line)) [
    | inl rule ↦
        rw (e, rule)
          (Emits-weaken 1 max_tokens (parse_rule line) (omega arith) (parse_rule-Emits line))
    | inr plain ↦
        let ts : List (List ℕ) = skip_address (token_loop max_tokens line) in
        rw (e, plain)
          (Emits-weaken (length ts) max_tokens (emit_tokens ts)
            (omega (
              arith,
              skip_address-length (token_loop max_tokens line),
              token_loop-length max_tokens line,
            ))
            (emit_tokens-Emits ts))
  ]
]

-- Reading a line always ends; the sink gets at most 64 names, and each is a lower-case domain of at
-- most 253 bytes that is neither an ignored host nor an IPv4 address.
pub parse_line-IsNormal :
    (line : List ℕ)
    → (names : List (List ℕ)) × (parse_line line ≡ ret names)
      × All (IsNormal 256) names
      × (length names ≤ max_tokens)
unfolding parse_line
parse_line-IsNormal line = elim (Bool-cases (ltb 2048 (length line))) [
  | inl long ↦ rw long (Emits-none max_tokens)
  | inr short ↦ rw short (parse_trimmed-Emits (trim_back (trim_front (strip_comment line))))
]
