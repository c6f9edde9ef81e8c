-- ===== src/Generate/Finish/Dedup.antt =====
-- The deduplicating loop of blocklist_builder_finish, against a list of distinct members.
use esp_hole.Generate.Codec.{encode_le_u64, encode_all}
use esp_hole.Generate.Sort.{From, IsSorted}
use esp_hole.Generate.Finish.{dedup_loop}
use esp_hole.Base.{
  ℕ, suc, ◌+◌, ◌≤◌, ◌≡◌, refl, inl, inr, Bool, true, false, ◌||◌, not, List, [], ◌∷◌, ◌++◌,
  append-nil, append_assoc, arith, ◌==◌, if◌then◌else◌, Bool-cases, length, elem, All, Above,
  IsAscending,
}

-- The words that the loop writes.
unfoldable pub distinct : Bool → ℕ → List ℕ → List ℕ
distinct first prev [] = []
distinct first prev (h ∷ hs) =
    let rest = distinct false h hs in if first || not (h == prev) then h ∷ rest else rest

pub dedup_loop-distinct :
    (first : Bool) (prev : ℕ) (hs blob : List ℕ) (count : ℕ)
    → dedup_loop first prev hs blob count
      ≡ (blob ++ encode_all (distinct first prev hs), count + length (distinct first prev hs))
unfolding dedup_loop distinct encode_all
dedup_loop-distinct first prev [] blob count = ground (arith, append-nil blob)
dedup_loop-distinct first prev (h ∷ hs) blob count = elim (Bool-cases (first || not (h == prev))) [
  | inl e ↦
      rw (e, dedup_loop-distinct false h hs (blob ++ encode_le_u64 h) (suc count))
        (ground (arith, append_assoc blob (encode_le_u64 h) (encode_all (distinct false h hs))))
  | inr e ↦ rw e (dedup_loop-distinct false h hs blob count)
]

distinct-Above : (prev : ℕ) (hs : List ℕ) → From prev hs → Above prev (distinct false prev hs)
unfolding distinct
distinct-Above prev [] s = tt
distinct-Above prev (h ∷ hs) s = ground (arith, distinct-Above h hs s.1)

pub distinct-IsAscending : (hs : List ℕ) → IsSorted hs → IsAscending (distinct true 0 hs)
unfolding distinct
distinct-IsAscending [] s = tt
distinct-IsAscending (h ∷ hs) s = distinct-Above h hs s

distinct-elem_from :
    (c prev : ℕ) (hs : List ℕ)
    → (prev == c || elem c (distinct false prev hs)) ≡ (prev == c || elem c hs)
unfolding distinct
distinct-elem_from c prev [] = refl
distinct-elem_from c prev (h ∷ hs) = ground (arith, distinct-elem_from c h hs)

pub distinct-elem : (c : ℕ) (hs : List ℕ) → elem c (distinct true 0 hs) ≡ elem c hs
unfolding distinct
distinct-elem c [] = refl
distinct-elem c (h ∷ hs) = distinct-elem_from c h hs

pub distinct-All {ℓ} :
    (P : ℕ → Type ℓ) (first : Bool) (prev : ℕ) (hs : List ℕ)
    → All P hs
    → All P (distinct first prev hs)
unfolding distinct
distinct-All P first prev [] ps = tt
distinct-All P first prev (h ∷ hs) ps = elim (Bool-cases (first || not (h == prev))) [
  | inl e ↦ rw e (ps.0, distinct-All P false h hs ps.1)
  | inr e ↦ rw e (distinct-All P false h hs ps.1)
]

pub distinct-length :
    (first : Bool) (prev : ℕ) (hs : List ℕ) → length (distinct first prev hs) ≤ length hs
unfolding distinct
distinct-length first prev [] = omega arith
distinct-length first prev (h ∷ hs) = ground (arith, distinct-length false h hs)
