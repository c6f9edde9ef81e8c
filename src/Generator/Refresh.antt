-- ===== src/Generator/Refresh.antt =====
-- generator-node/main/generator_main.c: the version and the URL, the two plain handlers, the cycle of
-- refresh_task and what app_main restores. What a cycle meets is a record: the answers of the sources,
-- the platform and cJSON. Waiting and feeding the watchdog are left out.
pub mod Origin
pub mod Invariant
pub mod Served
use esp_hole.Base.Text.{codes, decimal}
use esp_hole.Blocklist.Device.{is_ok, Nvs}
use esp_hole.Generate.Finish.{
  Status, generated, err_alloc, err_below_min_domains, err_selftest, Artifact,
}
use esp_hole.Artifact.{Platform, restored_version, artifact_store_load, artifact_store_save}
use esp_hole.Updater.Manifest.Hex.{to_hex}
use esp_hole.Generator.Fetch.{Source, fetch_and_generate}
use esp_hole.Generator.Serve.{
  Cjson, Server, Response, service_unavailable, content, http_serve_publish,
}
use esp_hole.Base.{
  ℕ, zero, suc, ◌+◌, ◌-◌, ◌*◌, ◌/◌, ◌%◌, ◌^◌, ◌≤◌, ◌<◌, bit_and, bit_or, bit_xor, ◌≡◌, refl, sym,
  ap, ap₂, ◌∙◌, subst, ◌≢◌, ◌↔◌, ◌⊎◌, inl, inr, Bool, true, false, ◌&&◌, ◌||◌, not, Option, none,
  some, List, [], ◌∷◌, ◌++◌, map, append-nil, append_assoc, map-append, arith, ltb, leb, ◌==◌,
  if◌then◌else◌, ltb→lt, lt→ltb, ltb_false→le, le→ltb_false, leb→le, le→leb, ==→eq, ==_false→ne,
  ==_refl, ne→==_false, tests, Bool-cases, Option-cases, length, get_elem?, get_or, set, take, drop,
  replicate, length-append, get_elem?-eq-get_or, get_elem?-none, get_elem?-append_length,
  length-set, get_elem?-set_self, length-take, take-append, drop-append, elem, bytes_eq,
  bytes_eq→eq, bytes_eq_refl, All, All-mono, All-elem_self, take_all, take_enough, length-map,
  All-get, elem-append, elem_of_get, not_elem_of_get, Above, IsAscending, Above-lt, IsAscending-lt,
  u8_mod, u32_mod, u64_mod, add32, sub32, mul32, mul64, Exec, ret, fault, no_fuel, ◌>>=◌, read,
}

unfoldable pub build_version : List ℕ → List ℕ
build_version sha256 = to_hex (take 8 sha256)

-- The options of Kconfig.
pub record Config : Type 0 where
  pub public_url_base : List ℕ
  pub http_port : ℕ
  pub min_domains : ℕ

abbrev pub url_size : ℕ
url_size = 64

-- snprintf cuts what does not fit the buffer with its terminator.
unfoldable pub build_url : Config → List ℕ → List ℕ
build_url conf node_ip = take (url_size - 1) (
    if not (length conf.public_url_base == 0)
    then conf.public_url_base ++ codes "/blocklist.bin"
    else codes "http://"
      ++ node_ip
      ++ codes ":"
      ++ decimal conf.http_port
      ++ codes "/blocklist.bin")

abbrev pub healthz_handler : Response
healthz_handler = content (codes "text/plain") (codes "ok\n")

-- The answer, and the notifications pending on the task; `started` tells whether it exists.
unfoldable pub refresh_handler : Bool → ℕ → Response × ℕ
refresh_handler started pending =
    if not started
    then (service_unavailable (codes "not ready yet\n"), pending)
    else (content (codes "text/plain") (codes "refresh triggered\n"), pending + 1)

-- What one cycle meets. `before` is the uninitialised `art`.
pub record Cycle : Type 0 where
  pub created : Bool
  pub sources : List Source
  pub before : Artifact
  pub plat : Platform
  pub node_ip : List ℕ
  pub cjson : Cjson
  pub malloced : Bool

module _ (nvs : Nvs) (allow : List ℕ) (conf : Config) where
  -- The switch over the status.
  unfoldable pub handle_status :
      nvs.Store → Server → Cycle → Status → Artifact → Exec (Server × nvs.Store)
  handle_status kv s c generated art =
      let version = build_version art.sha256 in
      artifact_store_save c.plat nvs kv art version >>= λ saved.
      ret (http_serve_publish c.cjson c.malloced s art version (build_url conf c.node_ip), saved.1)
  handle_status kv s c err_alloc art = ret (s, kv)
  handle_status kv s c err_below_min_domains art = ret (s, kv)
  handle_status kv s c err_selftest art = ret (s, kv)

  unfoldable pub refresh_cycle : nvs.Store → Server → Cycle → Exec (Server × nvs.Store)
  refresh_cycle kv s c =
      fetch_and_generate c.plat.realloc allow c.plat.sha256 c.created conf.min_domains c.sources
        c.before
      >>= λ r. handle_status kv s c r.0 r.1

  -- The loop of refresh_task, over as many cycles as there are records.
  unfoldable pub refresh_task : nvs.Store → Server → List Cycle → Exec (Server × nvs.Store)
  refresh_task kv s [] = ret (s, kv)
  refresh_task kv s (c ∷ cycles) = refresh_cycle kv s c >>= λ r. refresh_task r.1 r.0 cycles

  -- What app_main restores into a server that has nothing yet.
  unfoldable pub restore : nvs.Store → Cycle → Exec Server
  restore kv c = artifact_store_load c.plat nvs kv >>= λ r.
      if is_ok r.0
      then ret (
          http_serve_publish c.cjson c.malloced (record { current = none; freed = [] }) r.1
            (restored_version c.plat nvs kv) (build_url conf c.node_ip))
      else ret (record { current = none; freed = [] })

  -- From the restore on: the task runs after it.
  unfoldable pub app_main : nvs.Store → Cycle → List Cycle → Exec (Server × nvs.Store)
  app_main kv boot cycles = restore kv boot >>= λ s. refresh_task kv s cycles
