-- ===== src/Dns/Cache.antt =====
-- The answer cache of main/dns_sinkhole.c: dns_cache_find and dns_cache_insert over the static array
-- of 100 entries. Times are microseconds since boot.
pub mod Keys
pub mod Recall
pub mod Evict
use esp_hole.Base.{
  ℕ, zero, suc, ◌+◌, ◌-◌, ◌*◌, ◌/◌, ◌%◌, ◌^◌, ◌≤◌, ◌<◌, bit_and, bit_or, bit_xor, ◌≡◌, refl, sym,
  ap, ap₂, ◌∙◌, subst, ◌≢◌, ◌↔◌, ◌⊎◌, inl, inr, Bool, true, false, ◌&&◌, ◌||◌, not, Option, none,
  some, List, [], ◌∷◌, ◌++◌, map, append-nil, append_assoc, map-append, arith, ltb, leb, ◌==◌,
  if◌then◌else◌, ltb→lt, lt→ltb, ltb_false→le, le→ltb_false, leb→le, le→leb, ==→eq, ==_false→ne,
  ==_refl, ne→==_false, tests, Bool-cases, Option-cases, length, get_elem?, get_or, set, take, drop,
  replicate, length-append, get_elem?-eq-get_or, get_elem?-none, get_elem?-append_length,
  length-set, get_elem?-set_self, length-take, take-append, drop-append, elem, bytes_eq,
  bytes_eq→eq, bytes_eq_refl, All, All-mono, All-elem_self, take_all, length-map, All-get,
  elem-append, elem_of_get, not_elem_of_get, Above, IsAscending, Above-lt, IsAscending-lt, u8_mod,
  u32_mod, u64_mod, add32, sub32, mul32, mul64, Exec, ret, fault, no_fuel, ◌>>=◌, read,
}

abbrev pub cache_size : ℕ
cache_size = 100

abbrev pub cache_ttl_us : ℕ
cache_ttl_us = 300000000

abbrev pub max_pkt : ℕ
max_pkt = 1500

-- `answer` is the used part of the entry's buffer, its first `len` bytes.
pub record Entry : Type 0 where
  pub valid : Bool
  pub key : ℕ
  pub inserted_us : ℕ
  pub last_used : ℕ
  pub len : ℕ
  pub answer : List ℕ

pub record Cache : Type 0 where
  pub entries : List Entry
  pub clock : ℕ

abbrev pub empty_entry : Entry
empty_entry = record {
  valid = false;
  key = 0;
  inserted_us = 0;
  last_used = 0;
  len = 0;
  answer = [];
}

abbrev pub empty_cache : Cache
empty_cache = record { entries = replicate cache_size empty_entry; clock = 0 }

abbrev pub holds : Entry → ℕ → Bool
holds e key = e.valid && e.key == key

-- `now - e.inserted_us > DNS_CACHE_TTL_US`, in signed 64-bit numbers.
abbrev pub expired : Entry → ℕ → Bool
expired e now = ltb (e.inserted_us + cache_ttl_us) now

-- The loop from slot `i` on: the slot found, the entries, the clock.
unfoldable pub find_loop : ℕ → ℕ → ℕ → ℕ → List Entry → Option ℕ × List Entry × ℕ
find_loop key now clock i [] = (none, [], clock)
find_loop key now clock i (e ∷ es) =
    let (slot, es', clock') = find_loop key now clock (suc i) es in
    if holds e key
    then (if expired e now
        then (none, record e { valid = false } ∷ es, clock)
        else (some i, record e { last_used = add32 clock 1 } ∷ es, add32 clock 1))
    else (slot, e ∷ es', clock')

unfoldable pub cache_find : ℕ → ℕ → Cache → Option ℕ × Cache
unfolding find_loop
cache_find key now c =
    let r = find_loop key now c.clock 0 c.entries in (r.0, record { entries = r.1; clock = r.2 })

-- The loop that looks for a victim, from slot `i` on.
unfoldable pub victim_loop : ℕ → ℕ → ℕ → List Entry → ℕ
victim_loop i victim oldest [] = victim
victim_loop i victim oldest (e ∷ es) =
    let older = ltb e.last_used oldest in
    let later =
      victim_loop (suc i) (if older then i else victim) (if older then e.last_used else oldest)
        es in
    if not e.valid then i else later

unfoldable pub victim : List Entry → ℕ
unfolding victim_loop
victim es = victim_loop 0 0 0xffffffff es

-- `data` is the answer, `len` bytes long.
unfoldable pub cache_insert : ℕ → List ℕ → ℕ → Cache → Cache
cache_insert key answer now c =
    if length answer == 0 || ltb max_pkt (length answer) then c else record {
      entries = set c.entries (victim c.entries) (record {
        valid = true;
        key = key;
        inserted_us = now;
        last_used = add32 c.clock 1;
        len = length answer % 2 ^ 16;
        answer = answer;
      });
      clock = add32 c.clock 1;
    }
