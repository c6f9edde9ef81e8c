-- ===== src/Updater/Manifest/Checked.antt =====
-- What parse_manifest lets through.
use esp_hole.Blocklist.Store.{min_domains, version_max}
use esp_hole.Updater.Manifest.{
  Manifest, Member, number, string, missing, Json, sha_member, version_member, check_size,
  fill_manifest, typed_members, is_format, parse_manifest,
}
use esp_hole.Base.{
  ℕ, zero, suc, ◌%◌, ◌≤◌, ◌<◌, ◌≡◌, refl, ap, subst, inl, inr, Option, none, some, List, [], ◌∷◌,
  arith, ltb, ◌==◌, ltb_false→le, ==→eq, Bool-cases, Option-cases, length, take, u32_mod, mul32,
}

pub record IsChecked (m : Manifest) : Type 0 where
  pub sized : m.size ≡ mul32 m.count 8
  pub floor : min_domains ≤ m.count
  pub narrow : m.count < u32_mod
  pub short : length m.version < version_max
  pub link : length m.url < 256

take_le : (n : ℕ) (s : List ℕ) → length (take n s) ≤ n
take_le zero s = omega arith
take_le (suc n) [] = omega arith
take_le (suc n) (c ∷ s) = omega (arith, take_le n s)

abbrev AllChecked : Option Manifest → Type 0
AllChecked none = Unit {0}
AllChecked (some m) = IsChecked m

check_size-AllChecked :
    (m : Manifest)
    → m.count < u32_mod
    → length m.version < version_max
    → length m.url < 256
    → AllChecked (check_size m)
unfolding check_size
check_size-AllChecked m n v u = elim (Bool-cases (m.size == mul32 m.count 8)) [
  | inr e ↦ rw e tt
  | inl e ↦ elim (Bool-cases (ltb m.count min_domains)) [
    | inl few ↦ rw (e, few) tt
    | inr many ↦
        rw (e, many)
          (record {
            sized = ==→eq m.size (mul32 m.count 8) e;
            floor = ltb_false→le m.count min_domains many;
            narrow = n;
            short = v;
            link = u;
          })
  ]
]

version_member-short :
    (v : Member) (s : List ℕ) → version_member v ≡ some s → length s < version_max
unfolding version_member
version_member-short (string v) s e =
    let t : take 31 v ≡ s = cc e in omega (arith, take_le 31 v, ap length t)
version_member-short (number n v) s e =
    let t : take 31 v ≡ s = cc e in omega (arith, take_le 31 v, ap length t)
version_member-short missing s e = absurd (cc)

fill_manifest-AllChecked :
    (json : Json) (size count : ℕ) (url : List ℕ)
    → count < u32_mod
    → AllChecked (fill_manifest json size count url)
unfolding fill_manifest
fill_manifest-AllChecked json size count url n = elim (Option-cases (sha_member json.sha256)) [
  | inl e ↦ rw (e, AllChecked) tt
  | inr (sha, e) ↦ elim (Option-cases (version_member json.version)) [
    | inl f ↦ rw (e, AllChecked) (rw (f, AllChecked) tt)
    | inr (v, f) ↦
        let m : Manifest = record {
          version = v;
          url = take 255 url;
          size = size;
          count = count;
          sha256 = sha;
        } in
        let run : check_size m ≡ fill_manifest json size count url =
          rw (e, fill_manifest) (rw f refl) in
        subst AllChecked run (
          check_size-AllChecked m n (version_member-short json.version v f)
            (omega (arith, take_le 255 url)))
  ]
]

typed_members-AllChecked :
    (json : Json) (size count url : Member) → AllChecked (typed_members json size count url)
unfolding typed_members
typed_members-AllChecked json (number s _) (number c _) (string u) =
    fill_manifest-AllChecked json (s % u32_mod) (c % u32_mod) u (omega arith)
typed_members-AllChecked json (number s _) (number c _) (number u _) = tt
typed_members-AllChecked json (number s _) (number c _) missing = tt
typed_members-AllChecked json (number s _) (string c) url = tt
typed_members-AllChecked json (number s _) missing url = tt
typed_members-AllChecked json (string s) count url = tt
typed_members-AllChecked json missing count url = tt

-- A manifest that is accepted declares at least 10000 entries and a size of eight bytes for each, as
-- computed in 32 bits, and its version and URL fit their buffers with the terminator.
pub parse_manifest-IsChecked :
    (json : Json) (m : Manifest) → parse_manifest (some json) ≡ some m → IsChecked m
unfolding parse_manifest
parse_manifest-IsChecked json m e = elim (Bool-cases (is_format json.format)) [
  | inr bad ↦ absurd (ground (arith, bad, e))
  | inl good ↦
      let same : typed_members json json.size json.count json.url ≡ some m =
        ground (arith, good, e) in
      let t : AllChecked (some m) =
        subst AllChecked same (typed_members-AllChecked json json.size json.count json.url) in
      t
]
