-- ===== src/Stats/Counters.antt =====
-- The counters of main/stats.c. Each is a relaxed 32-bit atomic, bumped by the one DNS task.
pub mod Buckets
use esp_hole.Base.{
  ℕ, zero, suc, ◌+◌, ◌-◌, ◌*◌, ◌/◌, ◌%◌, ◌^◌, ◌≤◌, ◌<◌, bit_and, bit_or, bit_xor, ◌≡◌, refl, sym,
  ap, ap₂, ◌∙◌, subst, ◌≢◌, ◌↔◌, ◌⊎◌, inl, inr, Bool, true, false, ◌&&◌, ◌||◌, not, Option, none,
  some, List, [], ◌∷◌, ◌++◌, map, append-nil, append_assoc, map-append, arith, ltb, leb, ◌==◌,
  if◌then◌else◌, ltb→lt, lt→ltb, ltb_false→le, le→ltb_false, leb→le, le→leb, ==→eq, ==_false→ne,
  ==_refl, ne→==_false, tests, Bool-cases, Option-cases, length, get_elem?, get_or, set, take, drop,
  replicate, length-append, get_elem?-eq-get_or, get_elem?-none, get_elem?-append_length,
  length-set, get_elem?-set_self, length-take, take-append, drop-append, elem, bytes_eq,
  bytes_eq→eq, bytes_eq_refl, All, All-mono, All-elem_self, take_all, length-map, All-get,
  elem-append, elem_of_get, not_elem_of_get, Above, IsAscending, Above-lt, IsAscending-lt, u8_mod,
  u32_mod, u64_mod, add32, sub32, mul32, mul64, Exec, ret, fault, no_fuel, ◌>>=◌, read,
}

abbrev pub hist_buckets : ℕ
hist_buckets = 16

pub record Counters : Type 0 where
  pub blocked : ℕ
  pub forwarded : ℕ
  pub timeouts : ℕ
  pub lat_sum_us : ℕ
  pub hist : List ℕ

abbrev pub zero_counters : Counters
zero_counters = record {
  blocked = 0;
  forwarded = 0;
  timeouts = 0;
  lat_sum_us = 0;
  hist = replicate hist_buckets 0;
}

-- `32 - __builtin_clz(x)` for a nonzero 32-bit x: the number of its binary digits.
unfoldable pub bit_length : ℕ → ℕ → ℕ
bit_length zero x = 0
bit_length (suc fuel) x = if x == 0 then 0 else suc (bit_length fuel (x / 2))

unfoldable pub lat_bucket : ℕ → ℕ
lat_bucket us =
    let digits = bit_length 32 (bit_or us 1) in
    if ltb digits 7 then 0 else if ltb 15 (digits - 7) then 15 else digits - 7

unfoldable pub count_blocked : Counters → Counters
count_blocked c = record c { blocked = add32 c.blocked 1 }

unfoldable pub count_timeout : Counters → Counters
count_timeout c = record c { timeouts = add32 c.timeouts 1 }

unfoldable pub count_forwarded : ℕ → Counters → Counters
count_forwarded latency_us c = record c {
  forwarded = add32 c.forwarded 1;
  lat_sum_us = add32 c.lat_sum_us latency_us;
  hist = set c.hist (lat_bucket latency_us) (add32 (get_or c.hist (lat_bucket latency_us) 0) 1);
}
