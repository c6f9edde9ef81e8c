-- ===== src/System/Filters.antt =====
-- From the blob of the generator's encoder to the refusal of a name: main/blocklist.c and main/dns_sinkhole.c.
use esp_hole.Dns.Question.Wire.{dotted}
use esp_hole.Dns.Question.Parse.{IsQuestion}
use esp_hole.Dns.Match.{c_string}
use esp_hole.Dns.Match.Parents.{Blocks}
use esp_hole.Dns.Reply.Laws.{refusal}
use esp_hole.Dns.Serve.{max_name, Node, Input, serve_turn}
use esp_hole.Dns.Serve.Turns.{serve_turn-blocked}
use esp_hole.Stats.Counters.{count_blocked}
use esp_hole.Generate.Codec.{encode_le_u64, encode_all}
use esp_hole.Generate.Codec.Laws.{IsWord}
use esp_hole.Blocklist.Device.{EspErr, is_ok, Nvs, Device}
use esp_hole.Blocklist.Store.{Served, words_of, blocklist_contains, commit_slot}
use esp_hole.Blocklist.Store.Serving.{IsServing, blocklist_contains-elem}
use esp_hole.Blocklist.Store.Commit.{commit_slot-Committed}
use esp_hole.Base.{
  ℕ, ◌*◌, ◌^◌, ◌<◌, ◌≡◌, refl, ap, ap₂, ◌∙◌, ◌≢◌, ◌⊎◌, inl, inr, Bool, true, false, some, List, [],
  ◌∷◌, ◌++◌, arith, length, get_or, take, drop, elem, All, Exec, ret,
}

-- The words that main/blocklist.c sees in the bytes that generate.c wrote.
words_of-encode : (hs : List ℕ) → All IsWord hs → words_of (encode_all hs) ≡ hs
unfolding words_of encode_all encode_le_u64
words_of-encode [] w = refl
words_of-encode (h ∷ hs) w =
    ap₂ (λ (x : ℕ) (xs : List ℕ). x ∷ xs) (omega (arith, w.0)) (words_of-encode hs w.1)

abbrev pub asked : Served → ℕ → Exec Bool
asked st h = blocklist_contains true st h

abbrev answered : List ℕ → ℕ → Exec Bool
answered hs h = ret (elem h hs)

lookups : (st : Served) (hs : List ℕ) → IsServing st → st.hashes ≡ hs → asked st ≡ answered hs
lookups st hs serving held =
    λ i h. (blocklist_contains-elem true st h serving ∙ ap (λ (x : List ℕ). ret (elem h x)) held) i

-- The commit of a list that the generator's encoder wrote ends: with an error, the list served before kept; or
-- with a served list that filters: every query whose name is not empty and has a hash, its own or a
-- parent's, among the words is refused, and nothing is asked upstream. The flash of the slot holds the words'
-- bytes, which are as many as the commit declares, fewer than 2 ^ 29, and all lookups get the mutex.
pub commit_slot-filters :
    (dev : Device) (nvs : Nvs) (kv : nvs.Store) (st : Served) (slot count : ℕ)
    (sha version hs : List ℕ) (node : Node) (input : Input) (pkt : List ℕ) (ls : List (List ℕ))
    (q_end : ℕ)
    → count < 2 ^ 29
    → All IsWord hs
    → (dev.read_flash slot (count * 8)).1 ≡ encode_all hs
    → input.received ≡ some pkt
    → All (λ c. c < 256) pkt
    → IsQuestion pkt (length pkt) max_name ls q_end
    → c_string (dotted ls) ≢ []
    → Blocks (λ h. elem h hs) (c_string (dotted ls))
    → (err : EspErr) × (st' : Served) × (kv' : nvs.Store) × (commit_slot dev nvs kv st slot count
          sha version
        ≡ ret (err, st', kv'))
      × (((is_ok err ≡ false) × (st' ≡ st))
          ⊎ (serve_turn (asked st') node input
              ≡ ret (
                record node { counters = count_blocked node.counters },
                some (
                    take q_end
                      (refusal (get_or pkt 0 0) (get_or pkt 1 0) (get_or pkt 2 0) ++ drop 12 pkt)),
              )))
commit_slot-filters dev nvs kv st slot count sha version hs node input pkt ls q_end small words
      flash got bytes q named blocks =
    let (err, st', kv', run, outcome) =
      commit_slot-Committed dev nvs kv slot count sha version st small in
    (
      err,
      st',
      kv',
      run,
      elim outcome [
        | inl (failed, kept, _) ↦ inl (failed, kept)
        | inr (serving, _, _, _, hashes) ↦
            let held : st'.hashes ≡ hs = hashes ∙ ap words_of flash ∙ words_of-encode hs words in
            inr (
              ap (λ (c : ℕ → Exec Bool). serve_turn c node input) (lookups st' hs serving held)
              ∙ serve_turn-blocked (λ h. elem h hs) node input pkt ls q_end got bytes q named
                  blocks)
      ],
    )
