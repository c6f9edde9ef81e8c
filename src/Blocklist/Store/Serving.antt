-- ===== src/Blocklist/Store/Serving.antt =====
-- What is served after blocklist_init and blocklist_commit_slot, and what the lookup answers.
use esp_hole.Blocklist.Search.{search_hashes}
use esp_hole.Blocklist.Search.Correct.{search_hashes-elem}
use esp_hole.Blocklist.Device.{EspErr, esp_ok, esp_fail, is_ok, active_key, cnt_key, Nvs, Device}
use esp_hole.Blocklist.Store.{
  Served, min_domains, slots, unloaded, load_slot, fallback_loop, recorded_slot, Opening, opens,
  load_recorded, blocklist_init, blocklist_contains,
}
use esp_hole.Blocklist.Store.Loading.{IsLoaded, load_slot-LoadResult}
use esp_hole.Base.{
  Option, none, ℕ, zero, suc, ◌^◌, ◌≤◌, ◌<◌, ◌≡◌, refl, subst, ◌⊎◌, inl, inr, Bool, true, false,
  ◌&&◌, some, List, arith, ltb, ◌==◌, Bool-cases, length, elem, IsAscending, Exec, ret,
}

-- Nothing is served, or a strictly ascending list that meets the floor.
pub record IsServing (st : Served) : Type 0 where
  pub whole : length st.hashes ≡ st.count
  pub ascending : IsAscending st.hashes
  pub floor : (st.count ≡ 0) ⊎ (min_domains ≤ st.count)
  pub small : st.count < 2 ^ 29

-- The counts on record are below 2 ^ 29.
abbrev pub CountsFit : (nvs : Nvs) → nvs.Store → Type 0
CountsFit nvs kv = (slot c : ℕ) → nvs.get_num kv (cnt_key slot) ≡ some c → c < 2 ^ 29

pub unloaded-IsServing : IsServing unloaded
unloaded-IsServing = record { whole = refl; ascending = tt; floor = inl refl; small = omega arith }

pub IsLoaded-IsServing :
    {dev : Device} {slot count : ℕ} {sha version : List ℕ} {st : Served}
    → IsLoaded dev slot count sha version st
    → count < 2 ^ 29
    → IsServing st
IsLoaded-IsServing l h = record {
  whole = l.whole;
  ascending = l.ascending;
  floor = inr l.floor;
  small = omega (arith, l.count_is);
}

-- The lookup under the lock says exactly whether the hash is listed; without the lock it fails open.
pub blocklist_contains-elem :
    (locked : Bool) (st : Served) (hash : ℕ)
    → IsServing st
    → blocklist_contains locked st hash ≡ ret (locked && elem hash st.hashes)
unfolding blocklist_contains
blocklist_contains-elem true st hash v =
    subst (λ (n : ℕ). search_hashes st.hashes n hash ≡ ret (elem hash st.hashes)) v.whole
      (search_hashes-elem st.hashes hash v.ascending (omega (arith, v.whole, v.small)))
blocklist_contains-elem false st hash v = refl

module _ (dev : Device) (nvs : Nvs) where
  -- A successful load serves slot `slot`; a failed one changes nothing.
  abbrev pub Step : Served → ℕ → EspErr → Served → Type 0
  Step st slot err st' =
      ((err ≡ esp_ok) × IsServing st' × (min_domains ≤ st'.count) × (st'.active ≡ some slot))
      ⊎ ((is_ok err ≡ false) × (st' ≡ st))

  pub load_Step :
      (kv : nvs.Store) (st : Served) (slot : ℕ)
      → ((c : ℕ) → nvs.get_num kv (cnt_key slot) ≡ some c → c < 2 ^ 29)
      → (err : EspErr) × (st' : Served) × (load_slot dev nvs kv st slot ≡ ret (err, st'))
        × Step st slot err st'
  load_Step kv st slot fit =
      let (err, st', run, outcome) = load_slot-LoadResult dev nvs kv st slot fit in
      (
        err,
        st',
        run,
        elim outcome [
          | inl (good, count, sha, e, f, loaded) ↦
              inl (good, IsLoaded-IsServing loaded (fit count e), loaded.floor, loaded.slot_is)
          | inr kept ↦ inr kept
        ],
      )

  -- The boot serves a validated list, or nothing and says so.
  abbrev pub Boot : EspErr → Served → Type 0
  Boot err st =
      ((err ≡ esp_ok) × IsServing st × (min_domains ≤ st.count))
      ⊎ ((err ≡ esp_fail) × (st ≡ unloaded))

  abbrev pub BootRun : Exec (EspErr × Served × nvs.Store) → Type 0
  BootRun run =
      (err : EspErr) × (st : Served) × (kv' : nvs.Store) × (run ≡ ret (err, st, kv')) × Boot err st

  fallback_loop-Boot :
      (n slot recorded : ℕ) (kv : nvs.Store)
      → CountsFit nvs kv
      → BootRun (fallback_loop dev nvs kv unloaded recorded slot n)
  unfolding fallback_loop
  fallback_loop-Boot zero slot recorded kv fit = (esp_fail, unloaded, kv, refl, inr (refl, refl))
  fallback_loop-Boot (suc n) slot recorded kv fit =
      let later = fallback_loop-Boot n (suc slot) recorded kv fit in
      elim (Bool-cases (slot == recorded)) [
        | inl skip ↦ rw skip later
        | inr try ↦
            let (err, st', run, outcome) = load_Step kv unloaded slot (fit slot) in
            elim outcome [
              | inl (good, serving, floor, _) ↦ (
                esp_ok,
                st',
                (nvs.commit (nvs.set_num kv active_key slot).1).1,
                rw (try, run, good) refl,
                inl (refl, serving, floor),
              )
              | inr (bad, kept) ↦
                  let (err', st'', kv', rest, boot) = later in
                  (err', st'', kv', rw (try, run, bad, kept) rest, boot)
            ]
      ]

  load_recorded-Boot : (kv : nvs.Store) → CountsFit nvs kv → BootRun (load_recorded dev nvs kv)
  unfolding load_recorded
  load_recorded-Boot kv fit =
      let recorded = recorded_slot dev nvs kv in
      let (err, st, kv', rest, boot) = fallback_loop-Boot slots 0 recorded kv fit in
      elim (Bool-cases (ltb recorded slots)) [
        | inr odd ↦ (err, st, kv', rw odd rest, boot)
        | inl known ↦
            let (e, st', run, outcome) = load_Step kv unloaded recorded (fit recorded) in
            elim outcome [
              | inl (good, serving, floor, _) ↦
                  (esp_ok, st', kv, rw (known, run, good) refl, inl (refl, serving, floor))
              | inr (bad, kept) ↦ (err, st, kv', rw (known, run, bad, kept) rest, boot)
            ]
      ]

  -- The outcome of blocklist_init: an abort exactly where an assertion fails, else a boot.
  abbrev pub Opened : Opening → Exec (Option (EspErr × Served × nvs.Store)) → Type 0
  Opened o run =
      ((opens o ≡ false) × (run ≡ ret none))
      ⊎ ((opens o ≡ true)
          × (err : EspErr) × (st : Served) × (kv' : nvs.Store) × (run ≡ ret (some (err, st, kv')))
          × Boot err st)

  -- Booting always ends: it aborts exactly where there is no mutex, PSA is not initialised or NVS does not
  -- open; else it succeeds and a validated list of at least 10000 entries is served, or it fails and
  -- nothing is, where the counts on record are below 2 ^ 29.
  pub blocklist_init-Boot :
      (o : Opening) (kv : nvs.Store) → CountsFit nvs kv → Opened o (blocklist_init dev nvs o kv)
  unfolding blocklist_init
  blocklist_init-Boot o kv fit = elim (Bool-cases (opens o)) [
    | inr shut ↦ inl (shut, rw (shut, blocklist_init) refl)
    | inl open_all ↦
        let (err, st, kv', run, boot) = load_recorded-Boot kv fit in
        inr (open_all, err, st, kv', rw (open_all, run, blocklist_init) refl, boot)
  ]
