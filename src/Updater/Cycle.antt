-- ===== src/Updater/Cycle.antt =====
-- fetch_manifest and check_once of main/updater.c, and the loop of updater_task. The answers of one
-- cycle are a record; `flashed` is the device with these bytes written to this slot.
pub mod Kept
use esp_hole.Blocklist.Device.{EspErr, is_ok, Nvs, Device}
use esp_hole.Blocklist.Store.{Served, inactive_slot, commit_slot}
use esp_hole.Updater.Manifest.{Manifest, Json, parse_manifest}
use esp_hole.Updater.Download.{Transfer, download_to_slot}
use esp_hole.Base.{
  ℕ, zero, suc, ◌+◌, ◌-◌, ◌*◌, ◌/◌, ◌%◌, ◌^◌, ◌≤◌, ◌<◌, bit_and, bit_or, bit_xor, ◌≡◌, refl, sym,
  ap, ap₂, ◌∙◌, subst, ◌≢◌, ◌↔◌, ◌⊎◌, inl, inr, Bool, true, false, ◌&&◌, ◌||◌, not, Option, none,
  some, List, [], ◌∷◌, ◌++◌, map, append-nil, append_assoc, map-append, arith, ltb, leb, ◌==◌,
  if◌then◌else◌, ltb→lt, lt→ltb, ltb_false→le, le→ltb_false, leb→le, le→leb, ==→eq, ==_false→ne,
  ==_refl, ne→==_false, tests, Bool-cases, Option-cases, length, get_elem?, get_or, set, take, drop,
  replicate, length-append, get_elem?-eq-get_or, get_elem?-none, get_elem?-append_length,
  length-set, get_elem?-set_self, length-take, take-append, drop-append, elem, bytes_eq,
  bytes_eq→eq, bytes_eq_refl, All, All-mono, All-elem_self, take_all, length-map, All-get,
  elem-append, elem_of_get, not_elem_of_get, Above, IsAscending, Above-lt, IsAscending-lt, u8_mod,
  u32_mod, u64_mod, add32, sub32, mul32, mul64, Exec, ret, fault, no_fuel, ◌>>=◌, read,
}

-- `sizeof(s_manifest) - 1`.
abbrev pub manifest_max : ℕ
manifest_max = 2047

-- `reads` ends where the body does, as does an empty read; `none` is a failed read. `cjson_parse` is
-- cJSON_Parse with the lookup of the members.
pub record Answers : Type 0 where
  pub client : Bool
  pub opened : EspErr
  pub status : ℕ
  pub reads : List (Option (List ℕ))
  pub cjson_parse : List ℕ → Option Json
  pub transfer : Transfer

-- The loop over the body, with what was read so far: a read is asked for what the buffer still holds.
unfoldable pub manifest_loop : List ℕ → List (Option (List ℕ)) → Option (List ℕ)
manifest_loop body [] = some body
manifest_loop body (none ∷ reads) = if ltb (length body) manifest_max then none else some body
manifest_loop body (some [] ∷ reads) = some body
manifest_loop body (some (c ∷ cs) ∷ reads) =
    let more = manifest_loop (body ++ take (manifest_max - length body) (c ∷ cs)) reads in
    if ltb (length body) manifest_max then more else some body

-- `none` is -1.
unfoldable pub fetch_manifest : Answers → Option (List ℕ)
unfolding manifest_loop
fetch_manifest a =
    if not a.client
    then none
    else if not (is_ok a.opened)
    then none
    else if not (a.status == 200)
    then none
    else manifest_loop [] a.reads

module _ (nvs : Nvs) (flashed : ℕ → List ℕ → Device) where
  -- From an accepted manifest on.
  unfoldable pub update_to : nvs.Store → Served → Manifest → Transfer → Exec (Served × nvs.Store)
  update_to kv st m transfer =
      if bytes_eq st.version m.version
      then ret (st, kv)
      else (let slot = inactive_slot st in
          let (err, written) = download_to_slot m transfer in
          if not (is_ok err)
          then ret (st, kv)
          else (commit_slot (flashed slot written) nvs kv st slot m.count m.sha256 m.version
              >>= λ r. ret (r.1, r.2)))

  unfoldable pub check_once : nvs.Store → Served → Answers → Exec (Served × nvs.Store)
  check_once kv st a = elim (fetch_manifest a) [
    | none ↦ ret (st, kv)
    | some body ↦
        if length body == 0 then ret (st, kv) else elim (parse_manifest (a.cjson_parse body)) [
          | none ↦ ret (st, kv)
          | some m ↦ update_to kv st m a.transfer
        ]
  ]

  -- The loop of updater_task, for as many cycles as there are answers.
  unfoldable pub updater_task : nvs.Store → Served → List Answers → Exec (Served × nvs.Store)
  unfolding check_once
  updater_task kv st [] = ret (st, kv)
  updater_task kv st (a ∷ answers) = check_once kv st a >>= λ r. updater_task r.1 r.0 answers
