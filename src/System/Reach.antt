-- ===== src/System/Reach.antt =====
-- What the DNS node of main/ does from its boot on, however turns and updates interleave.
use esp_hole.Dns.Cache.{empty_cache}
use esp_hole.Blocklist.Device.{EspErr, Nvs, Device}
use esp_hole.Blocklist.Store.{opens, Served, min_domains, blocklist_contains}
use esp_hole.Blocklist.Store.Serving.{
  IsServing, CountsFit, Boot, unloaded-IsServing, blocklist_contains-elem, blocklist_init-Boot,
}
use esp_hole.Updater.Cycle.{Answers}
use esp_hole.Updater.Cycle.Kept.{CountsSmall, check_once-Cycled}
use esp_hole.Dns.Reply.{Arrivals}
use esp_hole.Dns.Serve.{Input}
use esp_hole.Dns.Serve.Replay.{
  Resolver, Implements, Does, IsWire, serve_turn-Does, empty_cache-Implements,
}
use esp_hole.Stats.Counters.{zero_counters}
use esp_hole.System.{
  Power, NodeEvent, turn, cycle, across, System, start_nvs, start_wdt, start_net, app_main, step,
  run,
}
use esp_hole.Base.{
  ℕ, ◌≤◌, ◌≡◌, refl, sym, subst, ◌⊎◌, inl, inr, Bool, true, false, ◌&&◌, Option, none, some, List,
  [], ◌∷◌, if◌then◌else◌, Bool-cases, Option-cases, elem, All, Exec, ret,
}

-- The hashes that a lookup finds: listed, and the mutex was taken in time.
abbrev pub listed : (ℕ → Bool) → (ℕ → Served) → ℕ → Bool
listed locked served h = locked h && elem h (served h).hashes

abbrev asked : (ℕ → Bool) → (ℕ → Served) → ℕ → Exec Bool
asked locked served h = blocklist_contains (locked h) (served h) h

abbrev answered : (ℕ → Bool) → (ℕ → Served) → ℕ → Exec Bool
answered locked served h = ret (listed locked served h)

lookups :
    (locked : ℕ → Bool) (served : ℕ → Served)
    → ((h : ℕ) → IsServing (served h))
    → asked locked served ≡ answered locked served
lookups locked served w = λ i h. blocklist_contains-elem (locked h) (served h) h (w h) i

-- The datagrams are bytes, and no manifest declares 2 ^ 29 entries or more.
abbrev pub IsEvent : NodeEvent → Type 0
IsEvent (turn locked input) = IsWire input
IsEvent (cycle answers) = CountsSmall answers
IsEvent (across locked late input answers) = IsWire input × CountsSmall answers

-- The served list stays, or a validated one of at least 10000 entries takes its place.
abbrev pub Swapped : Served → Served → Type 0
Swapped st st' = (st' ≡ st) ⊎ (IsServing st' × (min_domains ≤ st'.count))

Swapped-IsServing : (st st' : Served) → IsServing st → Swapped st st' → IsServing st'
Swapped-IsServing st st' w (inl kept) = subst IsServing (sym kept) w
Swapped-IsServing st st' w (inr (serving, floor)) = serving

-- What a cycle does to the list, without what it does to NVS.
swapped {ℓ κ} :
    (X : Type ℓ) (Y : Type κ) (st st' : Served)
    → ((st' ≡ st) × X) ⊎ (IsServing st' × (min_domains ≤ st'.count) × Y)
    → Swapped st st'
swapped X Y st st' (inl (kept, _)) = inl kept
swapped X Y st st' (inr (serving, floor, _)) = inr (serving, floor)

either-IsServing :
    (late : Bool) (st st' : Served)
    → IsServing st
    → IsServing st'
    → IsServing (if late then st' else st)
either-IsServing true st st' w w' = w'
either-IsServing false st st' w w' = w

module _ (nvs : Nvs) where
  -- Nothing or a validated list is served, and the serve loop stands for the resolver.
  pub record IsRunning (s : System nvs) (m : Resolver) : Type 0 where
    pub serving : IsServing s.served
    pub stands : Implements s.node m

  -- What an event may do.
  abbrev pub Obeys :
      NodeEvent → System nvs → Resolver → System nvs → Resolver → Option (List ℕ) → Type 0
  Obeys (turn locked input) s m s' m' reply =
      (s'.served ≡ s.served) × Does (listed locked (λ _. s.served)) input m m' reply
  Obeys (cycle answers) s m s' m' reply = Swapped s.served s'.served × (m' ≡ m) × (reply ≡ none)
  Obeys (across locked late input answers) s m s' m' reply =
      Swapped s.served s'.served
      × Does (listed locked (λ h. if late h then s'.served else s.served)) input m m' reply

  pub Runs :
      List NodeEvent
      → System nvs
      → Resolver
      → List (Option (List ℕ))
      → System nvs
      → Resolver
      → Type 0
  Runs [] s m replies s' m' = (replies ≡ []) × (s' ≡ s) × (m' ≡ m)
  Runs (e ∷ events) s m replies s' m' =
      (reply : Option (List ℕ)) × (rest : List (Option (List ℕ))) × (s1 : System nvs)
      × (m1 : Resolver) × (replies ≡ reply ∷ rest)
      × Obeys e s m s1 m1 reply
      × Runs events s1 m1 rest s' m'

  module _ (dev : Device) (flashed : ℕ → List ℕ → Device) where
    abbrev pub Stepped : NodeEvent → System nvs → Resolver → Type 0
    Stepped e s m =
        (s' : System nvs) × (reply : Option (List ℕ)) × (m' : Resolver) × (step nvs flashed s e
          ≡ ret (s', reply))
        × IsRunning s' m'
        × Obeys e s m s' m' reply

    turn-Stepped :
        (locked : ℕ → Bool) (input : Input) (s : System nvs) (m : Resolver)
        → IsWire input
        → IsRunning s m
        → Stepped (turn locked input) s m
    unfolding step
    turn-Stepped locked input s m wire w =
        let hit : ℕ → Bool = listed locked (λ _. s.served) in
        let (node', reply, m', served, i, does) =
          serve_turn-Does hit input m s.node wire w.stands in
        (
          record s { node = node' },
          reply,
          m',
          rw (lookups locked (λ _. s.served) (λ _. w.serving), served) refl,
          record { serving = w.serving; stands = i },
          (refl, does),
        )

    cycle-Stepped :
        (answers : Answers) (s : System nvs) (m : Resolver)
        → CountsSmall answers
        → IsRunning s m
        → Stepped (cycle answers) s m
    unfolding step
    cycle-Stepped answers s m small w =
        let (st, kv', ran, outcome) = check_once-Cycled nvs flashed s.kv s.served answers small in
        let swap : Swapped s.served st = swapped _ _ s.served st outcome in
        (
          record s { served = st; kv = kv' },
          none,
          m,
          rw ran refl,
          record { serving = Swapped-IsServing s.served st w.serving swap; stands = w.stands },
          (swap, refl, refl),
        )

    across-Stepped :
        (locked late : ℕ → Bool) (input : Input) (answers : Answers) (s : System nvs) (m : Resolver)
        → IsWire input
        → CountsSmall answers
        → IsRunning s m
        → Stepped (across locked late input answers) s m
    unfolding step
    across-Stepped locked late input answers s m wire small w =
        let (st, kv', ran, outcome) = check_once-Cycled nvs flashed s.kv s.served answers small in
        let swap : Swapped s.served st = swapped _ _ s.served st outcome in
        let serving = Swapped-IsServing s.served st w.serving swap in
        let seen : ℕ → Served = λ h. if late h then st else s.served in
        let (node', reply, m', turned, i, does) =
          serve_turn-Does (listed locked seen) input m s.node wire w.stands in
        (
          record { node = node'; served = st; kv = kv' },
          reply,
          m',
          rw
              (
                ran,
                lookups locked seen (λ h. either-IsServing (late h) s.served st w.serving serving),
                turned,
              )
              refl,
          record { serving = serving; stands = i },
          (swap, does),
        )

    step-Stepped :
        (e : NodeEvent) (s : System nvs) (m : Resolver) → IsEvent e → IsRunning s m → Stepped e s m
    step-Stepped (turn locked input) s m wire w = turn-Stepped locked input s m wire w
    step-Stepped (cycle answers) s m small w = cycle-Stepped answers s m small w
    step-Stepped (across locked late input answers) s m (wire, small) w =
        across-Stepped locked late input answers s m wire small w

    run-Runs :
        (events : List NodeEvent) (s : System nvs) (m : Resolver)
        → All IsEvent events
        → IsRunning s m
        → (s' : System nvs) × (replies : List (Option (List ℕ))) × (m' : Resolver) × (run nvs
              flashed s events
            ≡ ret (s', replies))
          × IsRunning s' m'
          × Runs events s m replies s' m'
    unfolding run Runs
    run-Runs [] s m valid w = (s, [], m, refl, w, (refl, refl, refl))
    run-Runs (e ∷ events) s m valid w =
        let (s1, reply, m1, stepped, w1, obeys) = step-Stepped e s m valid.0 w in
        let (s', rest, m', ran, last, runs) = run-Runs events s1 m1 valid.1 w1 in
        (
          s',
          reply ∷ rest,
          m',
          rw (stepped, ran) refl,
          last,
          (reply, rest, s1, m1, refl, obeys, runs),
        )

    -- What the boot leaves: an abort for a reason, or a node that runs as the resolver does.
    abbrev pub Booted : List NodeEvent → Power → Arrivals → Option (System nvs) → Type 0
    Booted events p upstream none =
        (start_nvs p ≡ none)
        ⊎ (start_wdt p ≡ false)
        ⊎ (opens p.opening ≡ false)
        ⊎ (start_net p ≡ false)
    Booted events p upstream (some s) =
        (s' : System nvs) × (replies : List (Option (List ℕ))) × (m' : Resolver) × (run nvs flashed
            s events
          ≡ ret (s', replies))
        × IsRunning s' m'
        × Runs events s (record { relayed = []; upstream = upstream }) replies s' m'

    Boot-IsServing : (err : EspErr) (st : Served) → Boot dev nvs err st → IsServing st
    Boot-IsServing err st (inl (_, serving, _)) = serving
    Boot-IsServing err st (inr (_, e)) = subst IsServing (sym e) unloaded-IsServing

    -- The boot ends: it aborts only where NVS, the watchdog, PSA, the Ethernet calls or the creation of
    -- the mutex, the event group or the task refuse, never for want of a list. After it, whatever turns of
    -- the serve loop and cycles of the updater follow, in whatever order, a cycle that ends within a turn
    -- included, every step ends without reading outside a buffer; each turn does what the abstract
    -- resolver does under the list that its lookups meet; and the served list is empty or validated, and
    -- is only replaced by a validated one of at least 10000 entries. The datagrams are bytes, and no count
    -- on record or in a manifest is 2 ^ 29 or more.
    pub app_main-Runs :
        (events : List NodeEvent) (p : Power) (kv erased : nvs.Store) (upstream : Arrivals)
        → CountsFit nvs kv
        → CountsFit nvs erased
        → All IsEvent events
        → (booted : Option (System nvs)) × (app_main dev nvs p kv erased upstream ≡ ret booted)
          × Booted events p upstream booted
    unfolding app_main
    app_main-Runs events p kv erased upstream fit clean valid = elim (Option-cases (start_nvs p)) [
      | inl e ↦ (none, rw (e, app_main) refl, inl e)
      | inr (wiped, e) ↦ elim (Bool-cases (start_wdt p)) [
        | inr w ↦ (none, rw (e, w, app_main) refl, inr (inl w))
        | inl w ↦
            elim (blocklist_init-Boot dev nvs p.opening (if wiped then erased else kv)
              (if-either-fit wiped)) [
                | inl (shut, init) ↦ (none, rw (e, w, init, app_main) refl, inr (inr (inl shut)))
                | inr (_, err, st, kv', init, boot) ↦ elim (Bool-cases (start_net p)) [
                  | inr h ↦ (none, rw (e, w, init, h, app_main) refl, inr (inr (inr h)))
                  | inl h ↦
                      let s : System nvs = record {
                        node = record {
                          cache = empty_cache;
                          counters = zero_counters;
                          upstream = upstream;
                        };
                        served = st;
                        kv = kv';
                      } in
                      (
                        some s,
                        rw (e, w, init, h, app_main) refl,
                        run-Runs events s (record { relayed = []; upstream = upstream }) valid
                            (record {
                              serving = Boot-IsServing err st boot;
                              stands = empty_cache-Implements zero_counters upstream;
                            }),
                      )
                ]
              ]
      ]
    ]
      where
        if-either-fit : (b : Bool) → CountsFit nvs (if b then erased else kv)
        if-either-fit true = clean
        if-either-fit false = fit
