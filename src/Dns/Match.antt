-- ===== src/Dns/Match.antt =====
-- is_blocked of main/dns_sinkhole.c. A C string is the list of its bytes before the terminator; the
-- blocklist's lookup is a parameter here, given by Blocklist in Serve.
pub mod Parents
use esp_hole.Dns.Question.{dot}
use esp_hole.Hash.{domain_hash}
use esp_hole.Base.{
  ℕ, zero, suc, ◌+◌, ◌-◌, ◌*◌, ◌/◌, ◌%◌, ◌^◌, ◌≤◌, ◌<◌, bit_and, bit_or, bit_xor, ◌≡◌, refl, sym,
  ap, ap₂, ◌∙◌, subst, ◌≢◌, ◌↔◌, ◌⊎◌, inl, inr, Bool, true, false, ◌&&◌, ◌||◌, not, Option, none,
  some, List, [], ◌∷◌, ◌++◌, map, append-nil, append_assoc, map-append, arith, ltb, leb, ◌==◌,
  if◌then◌else◌, ltb→lt, lt→ltb, ltb_false→le, le→ltb_false, leb→le, le→leb, ==→eq, ==_false→ne,
  ==_refl, ne→==_false, tests, Bool-cases, Option-cases, length, get_elem?, get_or, set, take, drop,
  replicate, length-append, get_elem?-eq-get_or, get_elem?-none, get_elem?-append_length,
  length-set, get_elem?-set_self, length-take, take-append, drop-append, elem, bytes_eq,
  bytes_eq→eq, bytes_eq_refl, All, All-mono, All-elem_self, take_all, length-map, All-get,
  elem-append, elem_of_get, not_elem_of_get, Above, IsAscending, Above-lt, IsAscending-lt, u8_mod,
  u32_mod, u64_mod, add32, sub32, mul32, mul64, Exec, ret, fault, no_fuel, ◌>>=◌, read,
}

-- What `strlen` and `strchr` see of a buffer: the bytes before the first NUL.
unfoldable pub c_string : List ℕ → List ℕ
c_string [] = []
c_string (c ∷ s) = if c == 0 then [] else c ∷ c_string s

-- `for (const char *q = name; *q; q++) if (*q == '.') labels++;`
unfoldable pub count_dots : List ℕ → ℕ
count_dots [] = 0
count_dots (c ∷ s) = (if c == dot then 1 else 0) + count_dots s

-- `strchr(p, '.') + 1`; `none` is the null pointer.
unfoldable pub after_dot : List ℕ → Option (List ℕ)
after_dot [] = none
after_dot (c ∷ s) = if c == dot then some s else after_dot s

module _ (contains : ℕ → Exec Bool) where
  -- The loop over the parents; a step from a null pointer is a fault.
  unfoldable pub match_loop : ℕ → List ℕ → ℕ → Exec Bool
  match_loop zero p labels = no_fuel
  match_loop (suc fuel) p labels =
      let next = match_loop fuel in
      contains (domain_hash p) >>= λ hit.
      if hit
      then ret true
      else if leb labels 2
      then ret false
      else (read (after_dot p) >>= λ p'. next p' (labels - 1))

  unfoldable pub is_blocked : List ℕ → Exec Bool
  unfolding match_loop
  is_blocked [] = ret false
  is_blocked (c ∷ name) =
      let labels = 1 + count_dots (c ∷ name) in match_loop labels (c ∷ name) labels
