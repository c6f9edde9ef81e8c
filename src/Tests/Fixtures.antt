-- ===== src/Tests/Fixtures.antt =====
-- A store, a device and a query to run the firmware on.
use esp_hole.Dns.Cache.{empty_cache}
use esp_hole.Stats.Counters.{zero_counters}
use esp_hole.Dns.Serve.{Node, Input}
use esp_hole.Blocklist.Device.{
  EspErr, esp_ok, Key, active_key, cnt_key, sha_key, ver_key, Nvs, Device,
}
use esp_hole.Blocklist.Store.{Opening, Served, min_domains}
use esp_hole.Base.{
  ℕ, zero, suc, ◌≡◌, refl, ap, ◌≢◌, inl, inr, Bool, true, false, Option, none, some, List, [], ◌∷◌,
  arith, ◌==◌, if◌then◌else◌, ==→eq, ==_refl, Bool-cases, length, set, replicate, Above,
  IsAscending,
}

-- A query for the name a.b under the ID 0x1234, with RD set.
abbrev pub query : List ℕ
query =
    0x12 ∷ 0x34 ∷ 1 ∷ 0 ∷ 0 ∷ 1 ∷ 0 ∷ 0 ∷ 0 ∷ 0 ∷ 0 ∷ 0 ∷ 1 ∷ 65 ∷ 1 ∷ 98 ∷ 0 ∷ 0 ∷ 1 ∷ 0 ∷ 1 ∷ []

-- A response to it, of a header only.
abbrev pub response : List ℕ
response = 0x12 ∷ 0x34 ∷ 0x81 ∷ 0x80 ∷ 0 ∷ 1 ∷ 0 ∷ 0 ∷ 0 ∷ 0 ∷ 0 ∷ 0 ∷ []

-- The first arrival is stale: it has another ID.
abbrev pub arrivals : List (Option (List ℕ))
arrivals = some (set response 1 0x33) ∷ some response ∷ []

abbrev pub node : Node
node = record { cache = empty_cache; counters = zero_counters; upstream = arrivals }

abbrev pub input : Input
input = record { received = some query; now = 1000; sent = true; later = 3000 }

-- The only labels that the query may ask for.
abbrev pub asked_labels : List (List ℕ)
asked_labels = (65 ∷ []) ∷ (98 ∷ []) ∷ []

-- NVS as two functions, where every call succeeds.
abbrev pub same_key : Key → Key → Bool
same_key active_key active_key = true
same_key (cnt_key a) (cnt_key b) = a == b
same_key (sha_key a) (sha_key b) = a == b
same_key (ver_key a) (ver_key b) = a == b
same_key _ _ = false

pub same_key_refl : (k : Key) → same_key k k ≡ true
same_key_refl active_key = refl
same_key_refl (cnt_key a) = ==_refl a
same_key_refl (sha_key a) = ==_refl a
same_key_refl (ver_key a) = ==_refl a

same_key→eq : (k j : Key) → same_key k j ≡ true → k ≡ j
same_key→eq active_key active_key h = refl
same_key→eq (cnt_key a) (cnt_key b) h = ap cnt_key (==→eq a b h)
same_key→eq (sha_key a) (sha_key b) h = ap sha_key (==→eq a b h)
same_key→eq (ver_key a) (ver_key b) h = ap ver_key (==→eq a b h)
same_key→eq active_key (cnt_key _) h = absurd (cc)
same_key→eq active_key (sha_key _) h = absurd (cc)
same_key→eq active_key (ver_key _) h = absurd (cc)
same_key→eq (cnt_key _) active_key h = absurd (cc)
same_key→eq (cnt_key _) (sha_key _) h = absurd (cc)
same_key→eq (cnt_key _) (ver_key _) h = absurd (cc)
same_key→eq (sha_key _) active_key h = absurd (cc)
same_key→eq (sha_key _) (cnt_key _) h = absurd (cc)
same_key→eq (sha_key _) (ver_key _) h = absurd (cc)
same_key→eq (ver_key _) active_key h = absurd (cc)
same_key→eq (ver_key _) (cnt_key _) h = absurd (cc)
same_key→eq (ver_key _) (sha_key _) h = absurd (cc)

abbrev pub Table : Type 0
Table = (Key → Option ℕ) × (Key → Option (List ℕ))

abbrev pub put_num : Table → Key → ℕ → EspErr × Table
put_num s k v = (esp_ok, ((λ j. if same_key k j then some v else s.0 j), s.1))

pub put_num-other : (s : Table) (k j : Key) (v : ℕ) → k ≢ j → (put_num s k v).1.0 j ≡ s.0 j
put_num-other s k j v ne = elim (Bool-cases (same_key k j)) [
  | inl h ↦ absurd (ne (same_key→eq k j h))
  | inr h ↦ rw h refl
]

abbrev pub nvs : Nvs
nvs = record {
  Store = Table;
  get_num = λ s k. s.0 k;
  get_bytes = λ s k. s.1 k;
  set_num = put_num;
  set_bytes = λ s k v. (esp_ok, (s.0, (λ j. if same_key k j then some v else s.1 j)));
  commit = λ s. (esp_ok, s);
  set_num-read = λ s k v h. ap (λ t. if t then some v else s.0 k) (same_key_refl k);
  set_num-other = put_num-other;
  set_bytes-num = λ s k j v. refl;
  commit-num = λ s j. refl;
}

-- NVS holds this count and a digest of zeros for every slot.
abbrev pub recorded : ℕ → Table
recorded count = ((λ k. elim k [ cnt_key _ ↦ some count | _ ↦ none ]), λ k. some (replicate 32 0))

pub length-replicate : (n : ℕ) → length {A = ℕ} (replicate n 0) ≡ n
length-replicate zero = refl
length-replicate (suc n) = ap suc (length-replicate n)

-- A flash of zeros, with a digest that is constant.
abbrev pub device : Device
device = record {
  partition_size = λ _. some 1000000;
  read_flash = λ _ n. (esp_ok, replicate n 0);
  malloc = λ _. true;
  sha256 = λ _. some (replicate 32 0);
  read_flash-length = λ _ n _. length-replicate n;
}

abbrev pub count_up : ℕ → ℕ → List ℕ
count_up a zero = []
count_up a (suc n) = a ∷ count_up (suc a) n

pub length-count_up : (a n : ℕ) → length (count_up a n) ≡ n
length-count_up a zero = refl
length-count_up a (suc n) = ap suc (length-count_up (suc a) n)

Above-count_up : (a n : ℕ) → Above a (count_up (suc a) n)
Above-count_up a zero = tt
Above-count_up a (suc n) = (omega arith, Above-count_up (suc a) n)

pub count_up-IsAscending : (a n : ℕ) → IsAscending (count_up a n)
count_up-IsAscending a zero = tt
count_up-IsAscending a (suc n) = Above-count_up a n

-- The list of the hashes 0 to 9999.
abbrev pub served : Served
served = record {
  hashes = count_up 0 min_domains;
  count = min_domains;
  active = some 1;
  version = [];
}

-- Every assertion of blocklist_init holds.
abbrev pub all_open : Opening
all_open = record { mutex = true; psa = true; nvs_open = esp_ok }
