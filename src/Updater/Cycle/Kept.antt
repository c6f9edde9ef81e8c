-- ===== src/Updater/Cycle/Kept.antt =====
-- What the cycles of main/updater.c leave served.
use esp_hole.Blocklist.Device.{is_ok, active_key, Nvs, Device}
use esp_hole.Blocklist.Store.{Served, min_domains, inactive_slot}
use esp_hole.Blocklist.Store.Serving.{IsServing}
use esp_hole.Blocklist.Store.Commit.{commit_slot-Committed}
use esp_hole.Updater.Manifest.{Manifest, parse_manifest}
use esp_hole.Updater.Download.{Transfer, download_to_slot}
use esp_hole.Updater.Cycle.{Answers, fetch_manifest, update_to, check_once, updater_task}
use esp_hole.Base.{
  ℕ, ◌^◌, ◌≤◌, ◌<◌, ◌≡◌, refl, sym, subst, ◌⊎◌, inl, inr, some, List, [], ◌∷◌, ◌==◌, Bool-cases,
  Option-cases, length, bytes_eq, All, Exec, ret,
}

-- No manifest of these answers declares 2 ^ 29 entries or more.
abbrev pub CountsSmall : Answers → Type 0
CountsSmall a =
    (body : List ℕ) (m : Manifest) → parse_manifest (a.cjson_parse body) ≡ some m → m.count < 2 ^ 29

module _ (nvs : Nvs) (flashed : ℕ → List ℕ → Device) where
  -- A cycle leaves the served list and the active slot on record, or serves a validated list from the
  -- slot that was not active.
  abbrev pub Cycled : nvs.Store → Served → Exec (Served × nvs.Store) → Type 0
  Cycled kv st run =
      (st' : Served) × (kv' : nvs.Store) × (run ≡ ret (st', kv'))
      × (((st' ≡ st) × (nvs.get_num kv' active_key ≡ nvs.get_num kv active_key))
          ⊎ (IsServing st' × (min_domains ≤ st'.count) × (st'.active ≡ some (inactive_slot st))))

  idle : (kv : nvs.Store) (st : Served) → Cycled kv st (ret (st, kv))
  idle kv st = (st, kv, refl, inl (refl, refl))

  update_to-Cycled :
      (kv : nvs.Store) (st : Served) (m : Manifest) (t : Transfer)
      → m.count < 2 ^ 29
      → Cycled kv st (update_to nvs flashed kv st m t)
  unfolding update_to
  update_to-Cycled kv st m t small = elim (Bool-cases (bytes_eq st.version m.version)) [
    | inl same ↦ rw same (idle kv st)
    | inr other ↦ elim (Bool-cases (is_ok (download_to_slot m t).0)) [
      | inr bad ↦ rw (other, bad) (idle kv st)
      | inl good ↦
          let slot : ℕ = inactive_slot st in
          let (err, st', kv', run, outcome) =
            commit_slot-Committed (flashed slot (download_to_slot m t).1) nvs kv slot m.count
              m.sha256 m.version st small in
          (
            st',
            kv',
            rw (other, good, run) refl,
            elim outcome [
              | inl (failed, kept, active) ↦ inl (kept, active)
              | inr (serving, floor, active, fresh, words) ↦ inr (serving, floor, active)
            ],
          )
    ]
  ]

  pub check_once-Cycled :
      (kv : nvs.Store) (st : Served) (a : Answers)
      → CountsSmall a
      → Cycled kv st (check_once nvs flashed kv st a)
  unfolding check_once
  check_once-Cycled kv st a small = elim (Option-cases (fetch_manifest a)) [
    | inl e ↦ rw (e, check_once) (idle kv st)
    | inr (body, e) ↦ elim (Bool-cases (length body == 0)) [
      | inl z ↦ rw (e, check_once) (rw z (idle kv st))
      | inr nz ↦ elim (Option-cases (parse_manifest (a.cjson_parse body))) [
        | inl p ↦ rw (e, check_once) (rw (nz, p) (idle kv st))
        | inr (m, p) ↦
            rw (e, check_once) (rw (nz, p) (update_to-Cycled kv st m a.transfer (small body m p)))
      ]
    ]
  ]

  -- However many cycles run, whatever they answer, the updater ends each without reading outside a
  -- buffer, and a list that is served stays validated and of at least 10000 entries: no cycle ever
  -- takes the served list away. No manifest may declare 2 ^ 29 entries or more.
  pub updater_task-IsServing :
      (answers : List Answers) (kv : nvs.Store) (st : Served)
      → IsServing st
      → All CountsSmall answers
      → (st' : Served) × (kv' : nvs.Store) × (updater_task nvs flashed kv st answers
          ≡ ret (st', kv'))
        × IsServing st'
        × (min_domains ≤ st.count → min_domains ≤ st'.count)
  unfolding updater_task
  updater_task-IsServing [] kv st s small = (st, kv, refl, s, λ h. h)
  updater_task-IsServing (a ∷ answers) kv st s small =
      let (st1, kv1, run, outcome) = check_once-Cycled kv st a small.0 in
      let s1 : IsServing st1 × (min_domains ≤ st.count → min_domains ≤ st1.count) = elim outcome [
        | inl (kept, _) ↦ (
          subst IsServing (sym kept) s,
          λ h. subst (λ (x : Served). min_domains ≤ x.count) (sym kept) h,
        )
        | inr (serving, floor, _) ↦ (serving, λ h. floor)
      ] in
      let (st2, kv2, runs, s2, grow) = updater_task-IsServing answers kv1 st1 s1.0 small.1 in
      (st2, kv2, rw run runs, s2, λ h. grow (s1.1 h))
