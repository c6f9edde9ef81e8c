-- ===== src/Generator/Start.antt =====
-- The start of the generator node: net_start of generator-node/main/net.c, start_http_server and app_main of
-- generator_main.c. The calls before it are those of the DNS node. What the platform
-- answers is an argument; `allow` is what allowlist_init leaves.
use esp_hole.Blocklist.Device.{EspErr, is_ok, cnt_key, Nvs}
use esp_hole.Generator.Serve.{Server}
use esp_hole.Generator.Refresh.{Config, Cycle, app_main}
use esp_hole.Generator.Refresh.Origin.{IsConsistent, Granted}
use esp_hole.Generator.Refresh.Invariant.{FromFlash, OriginAfter, app_main-IsConsistent}
use esp_hole.System.{Power, start_nvs, start_wdt, eth_start}
use esp_hole.Base.{
  ℕ, ◌^◌, ◌<◌, ◌≡◌, refl, ◌⊎◌, inl, inr, Bool, true, false, ◌&&◌, ◌||◌, not, Option, none, some,
  List, [], ◌∷◌, if◌then◌else◌, Bool-cases, Option-cases, All, Exec, ret, ◌>>=◌,
}

-- The same calls as in eth_start, behind the assertion on the event group.
abbrev pub net_start : Power → Bool
net_start p = p.event_group && eth_start p

-- What httpd_start answers, and httpd_register_uri_handler for one handler after the other.
pub record Http : Type 0 where
  pub started : EspErr
  pub registered : List EspErr

unfoldable pub registered_all : List EspErr → Bool
registered_all [] = true
registered_all (err ∷ errs) = let rest = registered_all errs in if is_ok err then rest else false

-- Whether there is a server; `none` is an abort.
unfoldable pub start_http_server : Http → Option Bool
unfolding registered_all
start_http_server http =
    if not (is_ok http.started)
    then some false
    else if registered_all http.registered
    then some true
    else none

-- The task that refreshes begins with its subscription to the watchdog.
abbrev pub start_refresh : Power → Bool
start_refresh p = not p.task_created || is_ok p.wdt_add

-- A task that was not created runs no cycle.
abbrev pub cycles_of : Power → List Cycle → List Cycle
cycles_of p cycles = if p.task_created then cycles else []

module _ (nvs : Nvs) (allow : List ℕ) (conf : Config) where
  -- `erased` is what nvs_flash_erase leaves. `none` is an abort; one in the new task is taken before the
  -- restore, which nothing shows then. The node goes on without a server, and without the task.
  unfoldable pub boot_main :
      Power → Http → nvs.Store → nvs.Store → Cycle → List Cycle → Exec (Option (Server × nvs.Store))
  boot_main p http kv erased boot cycles = elim (start_nvs p) [
    | none ↦ ret none
    | some wiped ↦
        if not (start_wdt p && net_start p) then ret none else elim (start_http_server http) [
          | none ↦ ret none
          | some listens ↦
              if not (start_refresh p)
              then ret none
              else app_main nvs allow conf (if wiped then erased else kv) boot (cycles_of p cycles)
                >>= λ r. ret (some r)
        ]
  ]

module _ (sha256 : List ℕ → List ℕ) (nvs : Nvs) (allow : List ℕ) (conf : Config) where
  -- What the start leaves: an abort for a reason, or a node whose artifact has one of the origins.
  abbrev pub Started :
      Power
      → Http
      → nvs.Store
      → nvs.Store
      → Cycle
      → List Cycle
      → Option (Server × nvs.Store)
      → Type 0
  Started p http kv erased boot cycles none =
      (start_nvs p ≡ none)
      ⊎ ((start_wdt p && net_start p) ≡ false)
      ⊎ (start_http_server http ≡ none)
      ⊎ (start_refresh p ≡ false)
  Started p http kv erased boot cycles (some r) =
      (wiped : Bool) × (start_nvs p ≡ some wiped)
      × IsConsistent
          (OriginAfter sha256 nvs allow conf
            (FromFlash sha256 nvs allow conf (if wiped then erased else kv) boot)
            (cycles_of p cycles))
          r.0

  -- The node's start ends: it aborts only where NVS, the watchdog, the network or a registration refuses. Else
  -- it restores and refreshes, over any number of cycles, and what it serves, if anything yet, is one of two.
  -- It is the artifact that was on record in flash, with its digest, under the manifest that the start
  -- built of it; where NVS had to be erased, the record is what the erasure leaves. Or it is the words of
  -- the distinct hashes that the sources of one of the cycles give, under the manifest that this cycle
  -- built of them. In every cycle the platform grants all memory and the lists give at most 2 ^ 27 hashes;
  -- the counts on record are below 2 ^ 29.
  pub boot_main-Started :
      (p : Power) (http : Http) (kv erased : nvs.Store) (boot : Cycle) (cycles : List Cycle)
      → boot.plat.sha256 ≡ sha256
      → ((slot n : ℕ) → nvs.get_num kv (cnt_key slot) ≡ some n → n < 2 ^ 29)
      → ((slot n : ℕ) → nvs.get_num erased (cnt_key slot) ≡ some n → n < 2 ^ 29)
      → All (Granted sha256 allow) cycles
      → (r : Option (Server × nvs.Store)) × (boot_main nvs allow conf p http kv erased boot cycles
          ≡ ret r)
        × Started p http kv erased boot cycles r
  unfolding boot_main
  boot_main-Started p http kv erased boot cycles digest fit clean granted =
      elim (Option-cases (start_nvs p)) [
        | inl e ↦ (none, rw (e, boot_main) refl, inl e)
        | inr (wiped, e) ↦ elim (Bool-cases (start_wdt p && net_start p)) [
          | inr w ↦ (none, rw (e, w, boot_main) refl, inr (inl w))
          | inl w ↦ elim (Option-cases (start_http_server http)) [
            | inl h ↦ (none, rw (e, w, h, boot_main) refl, inr (inr (inl h)))
            | inr (listens, h) ↦ elim (Bool-cases (start_refresh p)) [
              | inr f ↦ (none, rw (e, w, h, boot_main) (rw f refl), inr (inr (inr f)))
              | inl f ↦
                  let (s, _, _, s', kv', ran, consistent, _) =
                    app_main-IsConsistent sha256 nvs allow conf (if wiped then erased else kv) boot
                      (cycles_of p cycles) digest (chosen wiped) (run p.task_created) in
                  (
                    some (s', kv'),
                    rw (e, w, h, boot_main) (rw (f, ran) refl),
                    (wiped, e, consistent),
                  )
            ]
          ]
        ]
      ]
    where
      chosen :
          (b : Bool) (slot n : ℕ)
          → nvs.get_num (if b then erased else kv) (cnt_key slot) ≡ some n
          → n < 2 ^ 29
      chosen true = clean
      chosen false = fit

      run : (b : Bool) → All (Granted sha256 allow) (if b then cycles else [])
      run true = granted
      run false = tt
