-- ===== src/System.antt =====
-- The DNS node of main/ as a whole: app_main of main/dns_sinkhole.c with what it starts, dns_task and
-- updater_task, over the served list that they share. What the platform answers is an argument.
pub mod Reach
pub mod Address
pub mod Filters
use esp_hole.Base.Text.{decimal}
use esp_hole.Dns.Cache.{empty_cache}
use esp_hole.Dns.Reply.{Arrivals}
use esp_hole.Dns.Serve.{Node, Input, serve_turn}
use esp_hole.Stats.Counters.{zero_counters}
use esp_hole.Blocklist.Device.{EspErr, is_ok, Nvs, Device}
use esp_hole.Blocklist.Store.{Served, Opening, blocklist_init, blocklist_contains}
use esp_hole.Updater.Cycle.{Answers, check_once}
use esp_hole.Base.{
  ℕ, zero, suc, ◌+◌, ◌-◌, ◌*◌, ◌/◌, ◌%◌, ◌^◌, ◌≤◌, ◌<◌, bit_and, bit_or, bit_xor, ◌≡◌, refl, sym,
  ap, ap₂, ◌∙◌, subst, ◌≢◌, ◌↔◌, ◌⊎◌, inl, inr, Bool, true, false, ◌&&◌, ◌||◌, not, Option, none,
  some, List, [], ◌∷◌, ◌++◌, map, append-nil, append_assoc, map-append, arith, ltb, leb, ◌==◌,
  if◌then◌else◌, ltb→lt, lt→ltb, ltb_false→le, le→ltb_false, leb→le, le→leb, ==→eq, ==_false→ne,
  ==_refl, ne→==_false, tests, Bool-cases, Option-cases, length, get_elem?, get_or, set, take, drop,
  replicate, length-append, get_elem?-eq-get_or, get_elem?-none, get_elem?-append_length,
  length-set, get_elem?-set_self, get_or-set_self, get_or-set_other, length-take, take-append,
  drop-append, elem, bytes_eq, bytes_eq→eq, bytes_eq_refl, All, All-mono, All-elem_self, take_all,
  take_enough, length-map, All-get, All-at, elem-append, elem_of_get, not_elem_of_get, Above,
  IsAscending, Above-lt, IsAscending-lt, u8_mod, u32_mod, u64_mod, add32, sub32, mul32, mul64, Exec,
  ret, fault, no_fuel, ◌>>=◌, read,
}

-- What nvs_flash_init answers: ESP_OK, ESP_ERR_NVS_NO_FREE_PAGES, ESP_ERR_NVS_NEW_VERSION_FOUND, or another
-- error.
pub data NvsErr : Type 0 where
  nvs_ok no_free_pages new_version nvs_fail : NvsErr

-- The calls of eth_start that ESP_ERROR_CHECK guards, in order. The first stands under a configuration
-- switch.
pub data EthCall : Type 0 where
  gpio_config netif_init event_loop_create driver_install netif_attach handler_register phy_start :
      EthCall

-- What the platform answers while it boots.
pub record Power : Type 0 where
  pub nvs_init : NvsErr
  pub nvs_erase : EspErr
  pub nvs_init_again : NvsErr
  pub wdt_reconfigure : EspErr
  pub wdt_init : EspErr
  pub opening : Opening
  pub power_gpio : Bool
  pub event_group : Bool
  pub eth : EthCall → EspErr
  pub task_created : Bool
  pub wdt_add : EspErr

abbrev nvs_is_ok : NvsErr → Bool
nvs_is_ok nvs_ok = true
nvs_is_ok _ = false

-- `false` is an abort of ESP_ERROR_CHECK.
unfoldable pub checked : (EthCall → EspErr) → List EthCall → Bool
checked eth [] = true
checked eth (call ∷ calls) =
    let rest = checked eth calls in if is_ok (eth call) then rest else false

unfoldable pub eth_start : Power → Bool
unfolding checked
eth_start p =
    let calls : List EthCall =
      netif_init ∷ event_loop_create ∷ driver_install ∷ netif_attach ∷ handler_register ∷ phy_start
      ∷ [] in
    checked p.eth (if p.power_gpio then gpio_config ∷ calls else calls)

-- The IPv4 address of the event, as IPSTR prints it, in the 16 bytes of `s_node_ip`; net.c has the same code.
unfoldable pub dotted_quad : ℕ → ℕ → ℕ → ℕ → List ℕ
dotted_quad a b c d = decimal a ++ (46 ∷ (decimal b ++ (46 ∷ (decimal c ++ (46 ∷ decimal d)))))

unfoldable pub on_got_ip : ℕ → ℕ → ℕ → ℕ → List ℕ
on_got_ip a b c d = take 15 (dotted_quad a b c d)

-- Whether NVS can be used, and whether it was erased; `none` is an abort.
unfoldable pub start_nvs : Power → Option Bool
start_nvs p = elim p.nvs_init [
  | nvs_ok ↦ some false
  | no_free_pages ↦ if is_ok p.nvs_erase && nvs_is_ok p.nvs_init_again then some true else none
  | new_version ↦ if is_ok p.nvs_erase && nvs_is_ok p.nvs_init_again then some true else none
  | nvs_fail ↦ none
]

-- What app_main asks for after the list: the event group, eth_start, and dns_task, which begins with its
-- subscription to the watchdog. The wait for an address is taken to end.
abbrev pub start_net : Power → Bool
start_net p = p.event_group && (eth_start p && (p.task_created && is_ok p.wdt_add))

-- Whether the watchdog is configured; otherwise the node aborts.
abbrev pub start_wdt : Power → Bool
start_wdt p = is_ok p.wdt_reconfigure || is_ok p.wdt_init

-- The state of dns_task and updater_task, with what the upstream socket will give.
pub record System (nvs : Nvs) : Type 0 where
  pub node : Node
  pub served : Served
  pub kv : nvs.Store

-- What may happen next. In a turn of the serve loop, `locked` says which lookups get the mutex in time.
-- The updater's cycle may end within a turn: then `late` says which lookups come after it.
pub data NodeEvent : Type 0 where
  turn : (ℕ → Bool) → Input → NodeEvent
  cycle : Answers → NodeEvent
  across : (ℕ → Bool) → (ℕ → Bool) → Input → Answers → NodeEvent

module _ (dev : Device) (nvs : Nvs) where
  -- `erased` is what nvs_flash_erase leaves. A list that cannot be loaded does not stop the boot.
  unfoldable pub app_main : Power → nvs.Store → nvs.Store → Arrivals → Exec (Option (System nvs))
  app_main p kv erased upstream = elim (start_nvs p) [
    | none ↦ ret none
    | some wiped ↦
        if not (start_wdt p)
        then ret none
        else (blocklist_init dev nvs p.opening (if wiped then erased else kv) >>= λ loaded.
            elim loaded [
              | none ↦ ret none
              | some r ↦
                  if not (start_net p)
                  then ret none
                  else ret (
                      some (record {
                        node = record {
                          cache = empty_cache;
                          counters = zero_counters;
                          upstream = upstream;
                        };
                        served = r.1;
                        kv = r.2;
                      }))
            ])
  ]

module _ (nvs : Nvs) (flashed : ℕ → List ℕ → Device) where
  -- One event, and what is sent.
  unfoldable pub step : System nvs → NodeEvent → Exec (System nvs × Option (List ℕ))
  step s (turn locked input) =
      serve_turn (λ h. blocklist_contains (locked h) s.served h) s.node input >>= λ r.
      ret (record s { node = r.0 }, r.1)
  step s (cycle answers) = check_once nvs flashed s.kv s.served answers >>= λ r.
      ret (record s { served = r.0; kv = r.1 }, none)
  step s (across locked late input answers) = check_once nvs flashed s.kv s.served answers >>= λ r.
      serve_turn (λ h. blocklist_contains (locked h) (if late h then r.0 else s.served) h) s.node
        input
      >>= λ t. ret (record { node = t.0; served = r.0; kv = r.1 }, t.1)

  unfoldable pub run : System nvs → List NodeEvent → Exec (System nvs × List (Option (List ℕ)))
  run s [] = ret (s, [])
  run s (e ∷ events) = step s e >>= λ r. run r.0 events >>= λ rest. ret (rest.0, r.1 ∷ rest.1)
