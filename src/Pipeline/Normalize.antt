-- ===== src/Pipeline/Normalize.antt =====
-- normalize_domain, domain_is_ipv4_shape, is_valid_domain_shape and is_ignored_host of
-- generator-node/components/blocklist_pipeline/normalize.c. A text is the list of its bytes, and an
-- index that moves forward is the rest of the list.
pub mod Shape
pub mod Sound
use esp_hole.Base.Text.{codes}
use esp_hole.Base.{
  ℕ, zero, suc, ◌+◌, ◌-◌, ◌*◌, ◌/◌, ◌%◌, ◌^◌, ◌≤◌, ◌<◌, bit_and, bit_or, bit_xor, ◌≡◌, refl, sym,
  ap, ap₂, ◌∙◌, subst, ◌≢◌, ◌↔◌, ◌⊎◌, inl, inr, Bool, true, false, ◌&&◌, ◌||◌, not, Option, none,
  some, List, [], ◌∷◌, ◌++◌, map, append-nil, append_assoc, map-append, arith, ltb, leb, ◌==◌,
  if◌then◌else◌, ltb→lt, lt→ltb, ltb_false→le, le→ltb_false, leb→le, le→leb, ==→eq, ==_false→ne,
  ==_refl, ne→==_false, tests, Bool-cases, Option-cases, length, get_elem?, get_or, set, take, drop,
  replicate, length-append, get_elem?-eq-get_or, get_elem?-none, get_elem?-append_length,
  length-set, get_elem?-set_self, length-take, take-append, drop-append, elem, bytes_eq,
  bytes_eq→eq, bytes_eq_refl, All, All-mono, All-elem_self, take_all, length-map, All-get,
  elem-append, elem_of_get, not_elem_of_get, Above, IsAscending, Above-lt, IsAscending-lt, u8_mod,
  u32_mod, u64_mod, add32, sub32, mul32, mul64, Exec, ret, fault, no_fuel, ◌>>=◌, read,
}

-- `isspace`, `isdigit` and `isalnum` of the C locale.
unfoldable pub is_space : ℕ → Bool
is_space c = c == 32 || (leb 9 c && leb c 13)

unfoldable pub is_digit : ℕ → Bool
is_digit c = leb 48 c && leb c 57

unfoldable pub is_alnum : ℕ → Bool
is_alnum c = (leb 48 c && leb c 57) || (leb 65 c && leb c 90) || (leb 97 c && leb c 122)

abbrev pub point : ℕ
point = 46

abbrev pub ignored_hosts : List (List ℕ)
ignored_hosts =
    codes "localhost"
    ∷ codes "localhost.localdomain"
    ∷ codes "local"
    ∷ codes "broadcasthost"
    ∷ codes "ip6-localhost"
    ∷ codes "ip6-loopback"
    ∷ codes "ip6-localnet"
    ∷ codes "ip6-mcastprefix"
    ∷ codes "ip6-allnodes"
    ∷ codes "ip6-allrouters"
    ∷ codes "ip6-allhosts"
    ∷ codes "0.0.0.0"
    ∷ []

unfoldable pub host_in : List (List ℕ) → List ℕ → Bool
host_in [] s = false
host_in (h ∷ hs) s = let rest = host_in hs s in if bytes_eq h s then true else rest

unfoldable pub is_ignored_host : List ℕ → Bool
unfolding host_in
is_ignored_host s = host_in ignored_hosts s

-- The digits at the front: how many, and what is behind them.
unfoldable pub digits : List ℕ → ℕ × List ℕ
digits [] = (0, [])
digits (c ∷ s) = let (n, rest) = digits s in if is_digit c then (suc n, rest) else (0, c ∷ s)

-- Every group but the first stands behind a point.
unfoldable pub next_group : Bool → List ℕ → Option (List ℕ)
next_group true s = some s
next_group false [] = none
next_group false (c ∷ s) = if c == point then some s else none

abbrev pub is_empty : List ℕ → Bool
is_empty [] = true
is_empty (_ ∷ _) = false

unfoldable pub group_loop : ℕ → Bool → List ℕ → Bool
unfolding digits next_group
group_loop zero first s = is_empty s
group_loop (suc n) first s = elim (next_group first s) [
  | none ↦ false
  | some t ↦
      let (glen, rest) = digits t in
      let later = group_loop n false rest in if ltb glen 1 || ltb 3 glen then false else later
]

unfoldable pub domain_is_ipv4_shape : List ℕ → Bool
unfolding group_loop
domain_is_ipv4_shape s = group_loop 4 true s

unfoldable pub starts_label : ℕ → Bool
unfolding is_alnum
starts_label c = is_alnum c || c == 95

unfoldable pub in_label : ℕ → Bool
unfolding is_alnum
in_label c = is_alnum c || c == 95 || c == 45

-- The rest of a label, up to a point or the end: its length and what is behind it, or `none` at a
-- byte that no label has.
unfoldable pub label_rest : List ℕ → Option (ℕ × List ℕ)
unfolding in_label
label_rest [] = some (0, [])
label_rest (c ∷ s) =
    let later = label_rest s in
    if c == point
    then some (0, c ∷ s)
    else if not (in_label c)
    then none
    else elim later [ none ↦ none | some r ↦ some (suc r.0, r.1) ]

-- The loop over the labels, with the labels counted so far.
unfoldable pub shape_loop : ℕ → List ℕ → ℕ → Exec Bool
shape_loop zero s labels = no_fuel
shape_loop (suc fuel) [] labels = ret (leb 2 labels)
shape_loop (suc fuel) (c0 ∷ s) labels =
    if not (starts_label c0) then ret false else elim (label_rest s) [
      | none ↦ ret false
      | some (n, []) ↦ if ltb 63 (suc n) then ret false else ret (leb 2 (suc labels))
      | some (n, _ ∷ []) ↦ ret false
      | some (n, _ ∷ c ∷ t) ↦
          let later = shape_loop fuel (c ∷ t) (suc labels) in
          if ltb 63 (suc n) then ret false else later
    ]

unfoldable pub is_valid_domain_shape : List ℕ → Exec Bool
unfolding shape_loop
is_valid_domain_shape s = shape_loop (suc (length s)) s 0

unfoldable pub trim_front : List ℕ → List ℕ
trim_front [] = []
trim_front (c ∷ s) = let rest = trim_front s in if is_space c then rest else c ∷ s

unfoldable pub trim_back : List ℕ → List ℕ
trim_back [] = []
trim_back (c ∷ s) = let rest = trim_back s in if is_space c && is_empty rest then [] else c ∷ rest

-- At most one trailing point.
unfoldable pub strip_point : List ℕ → List ℕ
strip_point [] = []
strip_point (c ∷ []) = if c == point then [] else c ∷ []
strip_point (c ∷ d ∷ s) = c ∷ strip_point (d ∷ s)

-- At most one prefix "*.".
unfoldable pub strip_wildcard : List ℕ → List ℕ
strip_wildcard (c ∷ d ∷ s) = if c == 42 && d == point then s else c ∷ d ∷ s
strip_wildcard s = s

unfoldable pub lower : ℕ → ℕ
lower c = if leb 65 c && leb c 90 then c + 32 else c

unfoldable pub all_ascii : List ℕ → Bool
all_ascii [] = true
all_ascii (c ∷ s) = let rest = all_ascii s in if leb 0x80 c then false else rest

-- From the stripped text on; `none` where the C function returns 0.
unfoldable pub accept : List ℕ → ℕ → Exec (Option (List ℕ))
accept s out_sz =
    if length s == 0 || ltb 253 (length s) || leb out_sz (length s)
    then ret none
    else (let name = map lower s in
        if is_ignored_host name || domain_is_ipv4_shape name
        then ret none
        else if not (all_ascii name)
        then ret none
        else (is_valid_domain_shape name >>= λ valid. if valid then ret (some name) else ret none))

unfoldable pub normalize_domain : List ℕ → ℕ → Exec (Option (List ℕ))
unfolding accept
normalize_domain token out_sz =
    accept (strip_wildcard (strip_point (trim_back (trim_front token)))) out_sz
