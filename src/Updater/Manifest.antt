-- ===== src/Updater/Manifest.antt =====
-- hex_nibble, parse_sha256_hex and parse_manifest of main/updater.c. The values of the manifest's
-- members come from cJSON, which does not stand in this repository.
pub mod Hex
pub mod Checked
use esp_hole.Blocklist.Store.{min_domains, version_max}
use esp_hole.Base.{
  ℕ, zero, suc, ◌+◌, ◌-◌, ◌*◌, ◌/◌, ◌%◌, ◌^◌, ◌≤◌, ◌<◌, bit_and, bit_or, bit_xor, ◌≡◌, refl, sym,
  ap, ap₂, ◌∙◌, subst, ◌≢◌, ◌↔◌, ◌⊎◌, inl, inr, Bool, true, false, ◌&&◌, ◌||◌, not, Option, none,
  some, List, [], ◌∷◌, ◌++◌, map, append-nil, append_assoc, map-append, arith, ltb, leb, ◌==◌,
  if◌then◌else◌, ltb→lt, lt→ltb, ltb_false→le, le→ltb_false, leb→le, le→leb, ==→eq, ==_false→ne,
  ==_refl, ne→==_false, tests, Bool-cases, Option-cases, length, get_elem?, get_or, set, take, drop,
  replicate, length-append, get_elem?-eq-get_or, get_elem?-none, get_elem?-append_length,
  length-set, get_elem?-set_self, length-take, take-append, drop-append, elem, bytes_eq,
  bytes_eq→eq, bytes_eq_refl, All, All-mono, All-elem_self, take_all, length-map, All-get,
  elem-append, elem_of_get, not_elem_of_get, Above, IsAscending, Above-lt, IsAscending-lt, u8_mod,
  u32_mod, u64_mod, add32, sub32, mul32, mul64, Exec, ret, fault, no_fuel, ◌>>=◌, read,
}

abbrev pub manifest_format : ℕ
manifest_format = 2

-- `manifest_t`. The strings have at most 31 and 255 bytes.
pub record Manifest : Type 0 where
  pub version : List ℕ
  pub url : List ℕ
  pub size : ℕ
  pub count : ℕ
  pub sha256 : List ℕ

-- A member of the JSON object: a number, as the source converts it to an integer and prints it by
-- "%.0f", a string, or anything else.
pub data Member : Type 0 where
  number : ℕ → List ℕ → Member
  string : List ℕ → Member
  missing : Member

pub record Json : Type 0 where
  pub format : Member
  pub version : Member
  pub url : Member
  pub size : Member
  pub count : Member
  pub sha256 : Member

-- `none` is -1.
unfoldable pub hex_nibble : ℕ → Option ℕ
hex_nibble c =
    if leb 48 c && leb c 57
    then some (c - 48)
    else if leb 97 c && leb c 102
    then some (c - 97 + 10)
    else if leb 65 c && leb c 70
    then some (c - 65 + 10)
    else none

-- The loop over the pairs of digits.
unfoldable pub hex_loop : List ℕ → Option (List ℕ)
hex_loop (hi ∷ lo ∷ hex) =
    let rest = hex_loop hex in
    elim (hex_nibble hi) [
      | none ↦ none
      | some h ↦ elim (hex_nibble lo) [
        | none ↦ none
        | some l ↦ elim rest [ none ↦ none | some out ↦ some (bit_or (h * 2 ^ 4) l ∷ out) ]
      ]
    ]
hex_loop _ = some []

unfoldable pub parse_sha256_hex : List ℕ → Option (List ℕ)
unfolding hex_loop
parse_sha256_hex hex = if not (length hex == 64) then none else hex_loop hex

unfoldable pub sha_member : Member → Option (List ℕ)
sha_member (string hex) = parse_sha256_hex hex
sha_member _ = none

unfoldable pub version_member : Member → Option (List ℕ)
version_member (string v) = some (take 31 v)
version_member (number _ printed) = some (take 31 printed)
version_member missing = none

-- The two last checks.
unfoldable pub check_size : Manifest → Option Manifest
check_size m =
    if not (m.size == mul32 m.count 8)
    then none
    else if ltb m.count min_domains
    then none
    else some m

-- From the members that are numbers and strings on.
unfoldable pub fill_manifest : Json → ℕ → ℕ → List ℕ → Option Manifest
fill_manifest json size count url = elim (sha_member json.sha256) [
  | none ↦ none
  | some sha ↦ elim (version_member json.version) [
    | none ↦ none
    | some version ↦
        check_size (record {
          version = version;
          url = take 255 url;
          size = size;
          count = count;
          sha256 = sha;
        })
  ]
]

unfoldable pub typed_members : Json → Member → Member → Member → Option Manifest
typed_members json (number size _) (number count _) (string url) =
    fill_manifest json (size % u32_mod) (count % u32_mod) url
typed_members _ _ _ _ = none

abbrev pub is_format : Member → Bool
is_format (number f _) = f == manifest_format
is_format _ = false

-- `none` where cJSON_Parse fails.
unfoldable pub parse_manifest : Option Json → Option Manifest
parse_manifest none = none
parse_manifest (some json) =
    if not (is_format json.format) then none else typed_members json json.size json.count json.url
