-- ===== src/Generator/Refresh/Origin.antt =====
-- Where what http_serve_publish serves comes from, and what fetching and generating gives in a cycle.
use esp_hole.Generate.Build.{Builder}
use esp_hole.Generate.Codec.Laws.{length-encode_all}
use esp_hole.Generate.Codec.{encode_all}
use esp_hole.Generate.Finish.{generated, Artifact, allocate, negative_canaries}
use esp_hole.Generate.Finish.Result.{expected, published, any_hashed}
use esp_hole.Generator.Fetch.{fetch_and_generate}
use esp_hole.Generator.Fetch.Gathered.{harvest}
use esp_hole.Generator.Fetch.Published.{all_lines, fetch_and_generate-expected}
use esp_hole.Generator.Serve.{Cjson, Published, Server, http_serve_publish, build_manifest_json}
use esp_hole.Generator.Refresh.{Cycle}
use esp_hole.Base.{
  ℕ, ◌*◌, ◌^◌, ◌≤◌, ◌≡◌, refl, sym, ap, ◌∙◌, ◌⊎◌, inl, inr, Bool, true, some, List, ltb, Bool-cases,
  Option-cases, length, ret,
}

-- An artifact whose bytes are all there, with its digest.
abbrev pub IsWhole : (List ℕ → List ℕ) → Artifact → Type 0
IsWhole sha256 art =
    (art.blob_len ≡ art.count * 8)
    × (length art.blob ≡ art.blob_len)
    × (sha256 art.blob ≡ art.sha256)

-- The bytes of an artifact under the manifest that this cJSON builds of it.
abbrev pub Publishes : Cjson → Artifact → List ℕ → List ℕ → Published → Type 0
Publishes cj art version url p =
    (build_manifest_json cj art version url ≡ some p.manifest_json)
    × (p ≡ record {
      blob = art.blob;
      blob_len = art.blob_len;
      manifest_json = p.manifest_json;
      manifest_json_len = length p.manifest_json;
    })

-- What is served has this origin.
abbrev pub IsConsistent : (Published → Type 0) → Server → Type 0
IsConsistent Origin s = (p : Published) → s.current ≡ some p → Origin p

-- Something is served where something was served before.
abbrev pub StillServes : Server → Server → Type 0
StillServes s s' = (p : Published) → s.current ≡ some p → (q : Published) × (s'.current ≡ some q)

-- The platform of a cycle: its digest, no allocation refused, and lists of at most 2 ^ 27 hashes.
pub record Granted (sha256 : List ℕ → List ℕ) (allow : List ℕ) (c : Cycle) : Type 0 where
  pub digest : c.plat.sha256 ≡ sha256
  pub realloc : (n : ℕ) → c.plat.realloc n ≡ true
  pub builder : c.created ≡ true
  pub few : length (harvest allow (all_lines c.sources)) ≤ 2 ^ 27

some_injective : (p q : Published) → some p ≡ some q → p ≡ q
some_injective p q e = cc e

pub http_serve_publish-IsConsistent :
    (Origin : Published → Type 0) (cj : Cjson) (malloced : Bool) (s : Server) (art : Artifact)
    (version url : List ℕ)
    → IsConsistent Origin s
    → IsConsistent
        (λ p. Origin p ⊎ Publishes cj art version url p)
        (http_serve_publish cj malloced s art version url)
      × StillServes s (http_serve_publish cj malloced s art version url)
unfolding http_serve_publish
http_serve_publish-IsConsistent Origin cj malloced s art version url i =
    elim (Bool-cases malloced) [
      | inr full ↦ rw full ((λ p e. inl (i p e)), λ p e. (p, e))
      | inl room ↦ elim (Option-cases (build_manifest_json cj art version url)) [
        | inl e ↦ rw (room, e) ((λ p e. inl (i p e)), λ p e. (p, e))
        | inr (text, e) ↦
            let next : Published = record {
              blob = art.blob;
              blob_len = art.blob_len;
              manifest_json = text;
              manifest_json_len = length text;
            } in
            rw (room, e)
              (
                (λ p same.
                    let n : next ≡ p = some_injective next p same in
                    let t : text ≡ p.manifest_json = ap (λ (q : Published). q.manifest_json) n in
                    inr (
                      ap some t,
                      sym n
                          ∙ ap
                              (λ (t : List ℕ). record {
                                blob = art.blob;
                                blob_len = art.blob_len;
                                manifest_json = t;
                                manifest_json_len = length t;
                              })
                              t,
                    )),
                (λ p same. (next, refl)),
              )
      ]
    ]

-- The artifact of the distinct hashes.
abbrev pub artifact_of : (List ℕ → List ℕ) → List ℕ → Artifact
artifact_of sha256 hashes = record {
  blob = encode_all (published hashes);
  blob_len = length (published hashes) * 8;
  count = length (published hashes);
  sha256 = sha256 (encode_all (published hashes));
}

pub expected-artifact :
    (sha256 : List ℕ → List ℕ) (realloc : ℕ → Bool) (b : Builder)
    → (expected sha256 realloc b).status ≡ generated
    → (expected sha256 realloc b).out ≡ artifact_of sha256 b.hashes
expected-artifact sha256 realloc b e = elim (Bool-cases (ltb (length b.hashes) b.min_domains)) [
  | inl t ↦ cc (rw t at e)
  | inr t ↦ elim (Bool-cases (allocate realloc (length b.hashes * 8))) [
    | inr u ↦ cc (rw (t, u) at e)
    | inl u ↦ elim (Bool-cases (ltb (length (published b.hashes)) b.min_domains)) [
      | inl v ↦ cc (rw (t, u, v) at e)
      | inr v ↦ elim (Bool-cases (any_hashed negative_canaries b.hashes)) [
        | inl w ↦ cc (rw (t, u, v, w) at e)
        | inr w ↦ rw (t, u, v, w) refl
      ]
    ]
  ]
]

pub artifact_of-IsWhole :
    (sha256 : List ℕ → List ℕ) (hashes : List ℕ) → IsWhole sha256 (artifact_of sha256 hashes)
artifact_of-IsWhole sha256 hashes = (refl, length-encode_all (published hashes), refl)

-- What fetching and generating gives in a cycle.
pub fetched :
    (sha256 : List ℕ → List ℕ) (allow : List ℕ) (min_domains : ℕ) (c : Cycle)
    → Granted sha256 allow c
    → (b : Builder) × (b.hashes ≡ harvest allow (all_lines c.sources))
      × (b.min_domains ≡ min_domains)
      × (fetch_and_generate c.plat.realloc allow c.plat.sha256 c.created min_domains c.sources
            c.before
          ≡ ret (
            (expected c.plat.sha256 c.plat.realloc b).status,
            (expected c.plat.sha256 c.plat.realloc b).out,
          ))
fetched sha256 allow min_domains c g =
    let (b, hashes, floor, run, absent) =
      fetch_and_generate-expected c.plat.realloc g.realloc allow c.plat.sha256 min_domains c.sources
        c.before g.few in
    (b, hashes, floor, rw g.builder run)
