-- ===== src/Generator/Delivered.antt =====
-- generator-node/main/http_serve.c and main/updater.c together: a publication, and the node that polls it.
use esp_hole.Base.Text.{codes}
use esp_hole.Blocklist.Device.{esp_ok}
use esp_hole.Generate.Finish.{Artifact}
use esp_hole.Updater.Manifest.{Json, parse_manifest}
use esp_hole.Updater.Download.{Chunk, Transfer, download_to_slot}
use esp_hole.Updater.Download.Complete.{body, IsTaken, IsReady, download_to_slot_complete}
use esp_hole.Generator.Serve.{
  Cjson, Server, content, build_manifest_json, http_serve_publish, manifest_handler,
  blocklist_handler,
}
use esp_hole.Generator.Serve.Manifests.{IsAnnounceable, announced, build_manifest_json-parse}
use esp_hole.Base.{
  ℕ, ◌≡◌, ap, ◌∙◌, true, Option, some, List, map, arith, length, take, All, take_all, take_enough,
}

-- Both handlers after a publication.
handlers-publish :
    (cj : Cjson) (s : Server) (art : Artifact) (version url text : List ℕ)
    → build_manifest_json cj art version url ≡ some text
    → length art.blob ≡ art.blob_len
    → (manifest_handler (http_serve_publish cj true s art version url)
        ≡ content (codes "application/json") text)
      × (blocklist_handler (http_serve_publish cj true s art version url)
          ≡ content (codes "application/octet-stream") art.blob)
unfolding http_serve_publish manifest_handler blocklist_handler
handlers-publish cj s art version url text e len =
    let whole : take art.blob_len art.blob ≡ art.blob =
      take_enough art.blob_len art.blob (omega (arith, len)) in
    (
      rw e (ap (content (codes "application/json")) (take_all text)),
      rw e (ap (content (codes "application/octet-stream")) whole),
    )

-- What the generator publishes reaches a node that polls it: the handlers send the manifest and the blob,
-- the manifest is read as what announces the artifact, and the download, in whatever chunks the blob
-- arrives, ends without an error with the whole blob in the slot. cJSON makes every addition and
-- parses what it printed, the artifact is one that a manifest can announce and has all its bytes and
-- their digest, and the node's slot, connection and hash answer as asked.
pub publication-delivered :
    (cj : Cjson) (cjson_parse : List ℕ → Option Json) (s : Server) (art : Artifact)
    (version url text : List ℕ) (t : Transfer) (size : ℕ) (chunks : List Chunk)
    → ((j : Json) (x : List ℕ) → cj.print_unformatted j ≡ some x → cjson_parse x ≡ some j)
    → ((n : ℕ) → cj.added n ≡ true)
    → IsAnnounceable art version url
    → build_manifest_json cj art version url ≡ some text
    → length art.blob ≡ art.blob_len
    → IsReady (announced art version url) t size
    → t.reads ≡ map (λ c. some c) chunks
    → All IsTaken chunks
    → body chunks ≡ art.blob
    → t.digest art.blob ≡ some art.sha256
    → (manifest_handler (http_serve_publish cj true s art version url)
        ≡ content (codes "application/json") text)
      × (blocklist_handler (http_serve_publish cj true s art version url)
          ≡ content (codes "application/octet-stream") art.blob)
      × (parse_manifest (cjson_parse text) ≡ some (announced art version url))
      × (download_to_slot (announced art version url) t ≡ (esp_ok, art.blob))
publication-delivered cj cjson_parse s art version url text t size chunks parses added i e len ready
      reads taken arrives digest =
    let (manifest, blob) = handlers-publish cj s art version url text e len in
    (
      manifest,
      blob,
      build_manifest_json-parse cj cjson_parse art version url text parses added i e,
      download_to_slot_complete (announced art version url) t size chunks ready reads taken
            (ap length arrives ∙ len) (ap t.digest arrives ∙ digest) i.digest
          ∙ ap (λ (b : List ℕ). (esp_ok, b)) arrives,
    )
