-- ===== src/Generator/Serve/Owned.antt =====
-- The blobs that http_serve_publish takes over.
use mathlib.Core.List.{Perm, perm_middle}
use mathlib.Core.List.Perm
use esp_hole.Generate.Finish.{Artifact}
use esp_hole.Generator.Serve.{
  Cjson, Published, Server, http_serve_publish, published_free, build_manifest_json,
}
use esp_hole.Base.{
  ℕ, ◌≡◌, refl, inl, inr, Bool, Option, none, some, List, [], ◌∷◌, ◌++◌, Bool-cases, Option-cases,
}

-- The blob that is being served.
abbrev pub served_blob : Option Published → List (List ℕ)
served_blob none = []
served_blob (some p) = p.blob ∷ []

-- Every blob that the server took over, served or given back.
abbrev pub owned : Server → List (List ℕ)
owned s = served_blob s.current ++ s.freed

published_free-owned :
    (current : Option Published) (freed : List (List ℕ))
    → published_free current freed ≡ served_blob current ++ freed
unfolding published_free
published_free-owned none freed = refl
published_free-owned (some p) freed = refl

given_back :
    (s : Server) (blob : List ℕ) → Perm (served_blob s.current ++ (blob ∷ s.freed)) (blob ∷ owned s)
given_back s blob = perm_middle (served_blob s.current) s.freed

-- A publication takes the blob over, and either serves it and gives the one served before back, or
-- gives it back: no blob is lost and none is given back twice.
pub http_serve_publish-owned :
    (cj : Cjson) (malloced : Bool) (s : Server) (art : Artifact) (version url : List ℕ)
    → Perm (owned (http_serve_publish cj malloced s art version url)) (art.blob ∷ owned s)
unfolding http_serve_publish
http_serve_publish-owned cj malloced s art version url = elim (Bool-cases malloced) [
  | inr full ↦ rw full (given_back s art.blob)
  | inl room ↦ elim (Option-cases (build_manifest_json cj art version url)) [
    | inl e ↦ rw (room, e) (given_back s art.blob)
    | inr (text, e) ↦
        rw (room, e, published_free-owned s.current s.freed) (Perm.refl (art.blob ∷ owned s))
  ]
]
