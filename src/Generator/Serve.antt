-- ===== src/Generator/Serve.antt =====
-- published_free, build_manifest_json, http_serve_publish and the two handlers of
-- generator-node/main/http_serve.c. cJSON and the heap are parameters; the lock is held over every
-- handler and over the swap, so each is one step; its creation is taken to succeed.
pub mod Manifests
pub mod Owned
use esp_hole.Base.Text.{codes, decimal}
use esp_hole.Generate.Finish.{Artifact}
use esp_hole.Updater.Manifest.{Json, Member, number, string, missing}
use esp_hole.Updater.Manifest.Hex.{to_hex}
use esp_hole.Base.{
  ℕ, zero, suc, ◌+◌, ◌-◌, ◌*◌, ◌/◌, ◌%◌, ◌^◌, ◌≤◌, ◌<◌, bit_and, bit_or, bit_xor, ◌≡◌, refl, sym,
  ap, ap₂, ◌∙◌, subst, ◌≢◌, ◌↔◌, ◌⊎◌, inl, inr, Bool, true, false, ◌&&◌, ◌||◌, not, Option, none,
  some, List, [], ◌∷◌, ◌++◌, map, append-nil, append_assoc, map-append, arith, ltb, leb, ◌==◌,
  if◌then◌else◌, ltb→lt, lt→ltb, ltb_false→le, le→ltb_false, leb→le, le→leb, ==→eq, ==_false→ne,
  ==_refl, ne→==_false, tests, Bool-cases, Option-cases, length, get_elem?, get_or, set, take, drop,
  replicate, length-append, get_elem?-eq-get_or, get_elem?-none, get_elem?-append_length,
  length-set, get_elem?-set_self, length-take, take-append, drop-append, elem, bytes_eq,
  bytes_eq→eq, bytes_eq_refl, All, All-mono, All-elem_self, take_all, length-map, All-get,
  elem-append, elem_of_get, not_elem_of_get, Above, IsAscending, Above-lt, IsAscending-lt, u8_mod,
  u32_mod, u64_mod, add32, sub32, mul32, mul64, Exec, ret, fault, no_fuel, ◌>>=◌, read,
}

-- cJSON: whether the object is there, whether the n-th addition to it worked, and how an object prints.
pub record Cjson : Type 0 where
  pub created : Bool
  pub added : ℕ → Bool
  pub print_unformatted : Json → Option (List ℕ)

-- `published_t`.
pub record Published : Type 0 where
  pub blob : List ℕ
  pub blob_len : ℕ
  pub manifest_json : List ℕ
  pub manifest_json_len : ℕ

-- `s_current`, and the blobs that were given back to the heap.
pub record Server : Type 0 where
  pub current : Option Published
  pub freed : List (List ℕ)

pub data Response : Type 0 where
  service_unavailable : List ℕ → Response
  content : List ℕ → List ℕ → Response

-- `BLOCKLIST_MANIFEST_FORMAT`
abbrev pub blocklist_manifest_format : ℕ
blocklist_manifest_format = 2

-- The additions that the object records; the code passes over one that failed.
abbrev pub manifest_members : Cjson → Artifact → List ℕ → List ℕ → Json
manifest_members cj art version url =
    let put = λ (n : ℕ) (m : Member). if cj.added n then m else missing in
    record {
      format = put 0 (number blocklist_manifest_format (decimal blocklist_manifest_format));
      version = put 1 (string version);
      size = put 2 (number art.blob_len (decimal art.blob_len));
      sha256 = put 3 (string (to_hex (take 32 art.sha256)));
      count = put 4 (number art.count (decimal art.count));
      url = put 5 (string url);
    }

-- `none` is NULL.
unfoldable pub build_manifest_json : Cjson → Artifact → List ℕ → List ℕ → Option (List ℕ)
build_manifest_json cj art version url =
    if not cj.created then none else cj.print_unformatted (manifest_members cj art version url)

unfoldable pub published_free : Option Published → List (List ℕ) → List (List ℕ)
published_free none freed = freed
published_free (some p) freed = p.blob ∷ freed

-- `malloced` tells whether there was room for the `published_t`.
unfoldable pub http_serve_publish : Cjson → Bool → Server → Artifact → List ℕ → List ℕ → Server
unfolding published_free
http_serve_publish cj malloced s art version url =
    if not malloced
    then record { current = s.current; freed = art.blob ∷ s.freed }
    else elim (build_manifest_json cj art version url) [
      | none ↦ record { current = s.current; freed = art.blob ∷ s.freed }
      | some json ↦ record {
        current = some (record {
          blob = art.blob;
          blob_len = art.blob_len;
          manifest_json = json;
          manifest_json_len = length json;
        });
        freed = published_free s.current s.freed;
      }
    ]

abbrev pub serve_unavailable : Response
serve_unavailable = service_unavailable (codes "no blocklist generated yet\n")

unfoldable pub manifest_handler : Server → Response
manifest_handler s = elim s.current [
  | none ↦ serve_unavailable
  | some p ↦ content (codes "application/json") (take p.manifest_json_len p.manifest_json)
]

-- httpd_resp_send reads `blob_len` bytes of the blob.
unfoldable pub blocklist_handler : Server → Response
blocklist_handler s = elim s.current [
  | none ↦ serve_unavailable
  | some p ↦ content (codes "application/octet-stream") (take p.blob_len p.blob)
]
