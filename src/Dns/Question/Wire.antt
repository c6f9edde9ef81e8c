-- ===== src/Dns/Question/Wire.antt =====
-- The wire format of a question name, and the dotted form of its labels.
use esp_hole.Dns.Question.{dot, lower}
use esp_hole.Base.{ℕ, suc, ◌+◌, ◌<◌, ◌≡◌, some, List, [], ◌∷◌, ◌++◌, map, length, get_elem?}

-- The bytes `l` stand in the packet from `off` on.
abbrev pub At : List ℕ → ℕ → List ℕ → Type 0
At pkt off [] = Unit {0}
At pkt off (c ∷ cs) = (get_elem? pkt off ≡ some c) × At pkt (suc off) cs

-- From `off` up to `end` the packet holds these labels, each of 1 to 63 bytes behind its length,
-- and the empty label.
abbrev pub Labels : List ℕ → ℕ → List (List ℕ) → ℕ → Type 0
Labels pkt off [] end = (get_elem? pkt off ≡ some 0) × (end ≡ suc off)
Labels pkt off (l ∷ ls) end =
    (get_elem? pkt off ≡ some (length l))
    × (0 < length l)
    × (length l < 64)
    × At pkt (suc off) l
    × Labels pkt (suc off + length l) ls end

abbrev pub dotted_rest : List (List ℕ) → List ℕ
dotted_rest [] = []
dotted_rest (l ∷ ls) = dot ∷ (map lower l ++ dotted_rest ls)

-- The labels in lower case, joined by dots.
abbrev pub dotted : List (List ℕ) → List ℕ
dotted [] = []
dotted (l ∷ ls) = map lower l ++ dotted_rest ls
