-- ===== src/Pipeline/Lines.antt =====
-- parse_line of generator-node/components/blocklist_pipeline/parse.c. The calls of the sink are the
-- list of the names it is called with, in order.
pub mod Emitted
use esp_hole.Pipeline.Normalize.{
  is_space, point, domain_is_ipv4_shape, trim_front, trim_back, normalize_domain,
}
use esp_hole.Base.{
  ℕ, zero, suc, ◌+◌, ◌-◌, ◌*◌, ◌/◌, ◌%◌, ◌^◌, ◌≤◌, ◌<◌, bit_and, bit_or, bit_xor, ◌≡◌, refl, sym,
  ap, ap₂, ◌∙◌, subst, ◌≢◌, ◌↔◌, ◌⊎◌, inl, inr, Bool, true, false, ◌&&◌, ◌||◌, not, Option, none,
  some, List, [], ◌∷◌, ◌++◌, map, append-nil, append_assoc, map-append, arith, ltb, leb, ◌==◌,
  if◌then◌else◌, ltb→lt, lt→ltb, ltb_false→le, le→ltb_false, leb→le, le→leb, ==→eq, ==_false→ne,
  ==_refl, ne→==_false, tests, Bool-cases, Option-cases, length, get_elem?, get_or, set, take, drop,
  replicate, length-append, get_elem?-eq-get_or, get_elem?-none, get_elem?-append_length,
  length-set, get_elem?-set_self, length-take, take-append, drop-append, elem, bytes_eq,
  bytes_eq→eq, bytes_eq_refl, All, All-mono, All-elem_self, take_all, length-map, All-get,
  elem-append, elem_of_get, not_elem_of_get, Above, IsAscending, Above-lt, IsAscending-lt, u8_mod,
  u32_mod, u64_mod, add32, sub32, mul32, mul64, Exec, ret, fault, no_fuel, ◌>>=◌, read,
}

abbrev pub max_line : ℕ
max_line = 2048

abbrev pub max_tokens : ℕ
max_tokens = 64

unfoldable pub emit_token : List ℕ → Exec (List (List ℕ))
emit_token tok =
    normalize_domain tok 256 >>= λ r. elim r [ none ↦ ret [] | some name ↦ ret (name ∷ []) ]

-- Everything before the first '#'.
unfoldable pub strip_comment : List ℕ → List ℕ
strip_comment [] = []
strip_comment (c ∷ s) = let rest = strip_comment s in if c == 35 then [] else c ∷ rest

-- An ABP comment, header or exception.
unfoldable pub is_abp_other : List ℕ → Bool
is_abp_other [] = false
is_abp_other (c ∷ []) = c == 33 || c == 91
is_abp_other (c ∷ d ∷ _) = c == 33 || c == 91 || (c == 64 && d == 64)

unfoldable pub is_abp_rule : List ℕ → Bool
is_abp_rule (c ∷ d ∷ _) = c == 124 && d == 124
is_abp_rule _ = false

unfoldable pub has_rule_syntax : List ℕ → Bool
has_rule_syntax [] = false
has_rule_syntax (c ∷ s) =
    let rest = has_rule_syntax s in
    if c == 47 || c == 94 || c == 42 || c == 36 || c == 124 then true else rest

-- Only an exact "||domain^" is accepted.
unfoldable pub parse_rule : List ℕ → Exec (List (List ℕ))
parse_rule line =
    if not (get_or line (length line - 1) 0 == 94)
    then ret []
    else (let body = take (length line - 3) (drop 2 line) in
        if has_rule_syntax body then ret [] else emit_token body)

-- The bytes up to a space, and what is behind them.
unfoldable pub word : List ℕ → List ℕ × List ℕ
word [] = ([], [])
word (c ∷ s) = let (w, rest) = word s in if is_space c then ([], c ∷ s) else (c ∷ w, rest)

-- At most `n` more tokens.
unfoldable pub token_loop : ℕ → List ℕ → List (List ℕ)
token_loop zero s = []
token_loop (suc n) s = elim (trim_front s) [
  | [] ↦ []
  | c ∷ t ↦ let (w, rest) = word (c ∷ t) in w ∷ token_loop n rest
]

unfoldable pub has_colon : List ℕ → Bool
has_colon [] = false
has_colon (c ∷ s) = let rest = has_colon s in if c == 58 then true else rest

-- The tokens behind a leading address.
unfoldable pub skip_address : List (List ℕ) → List (List ℕ)
skip_address [] = []
skip_address (t ∷ ts) = if domain_is_ipv4_shape t || has_colon t then ts else t ∷ ts

unfoldable pub emit_tokens : List (List ℕ) → Exec (List (List ℕ))
emit_tokens [] = ret []
emit_tokens (t ∷ ts) =
    let later = emit_tokens ts in emit_token t >>= λ names. later >>= λ more. ret (names ++ more)

-- From the trimmed line on.
unfoldable pub parse_trimmed : List ℕ → Exec (List (List ℕ))
parse_trimmed line =
    if length line == 0 || is_abp_other line
    then ret []
    else if is_abp_rule line
    then parse_rule line
    else emit_tokens (skip_address (token_loop max_tokens line))

unfoldable pub parse_line : List ℕ → Exec (List (List ℕ))
parse_line line_in =
    if ltb max_line (length line_in)
    then ret []
    else parse_trimmed (trim_back (trim_front (strip_comment line_in)))
