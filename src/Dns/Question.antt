-- ===== src/Dns/Question.antt =====
-- parse_question of main/dns_sinkhole.c. `pkt` is the receive buffer and `len` the length of the
-- datagram; the name buffer holds `name_sz` bytes. A read or write outside a buffer is a fault.
pub mod Wire
pub mod Accept
pub mod Parse
use esp_hole.Base.{
  ℕ, zero, suc, ◌+◌, ◌-◌, ◌*◌, ◌/◌, ◌%◌, ◌^◌, ◌≤◌, ◌<◌, bit_and, bit_or, bit_xor, ◌≡◌, refl, sym,
  ap, ap₂, ◌∙◌, subst, ◌≢◌, ◌↔◌, ◌⊎◌, inl, inr, Bool, true, false, ◌&&◌, ◌||◌, not, Option, none,
  some, List, [], ◌∷◌, ◌++◌, map, append-nil, append_assoc, map-append, arith, ltb, leb, ◌==◌,
  if◌then◌else◌, ltb→lt, lt→ltb, ltb_false→le, le→ltb_false, leb→le, le→leb, ==→eq, ==_false→ne,
  ==_refl, ne→==_false, tests, Bool-cases, Option-cases, length, get_elem?, get_or, set, take, drop,
  replicate, length-append, get_elem?-eq-get_or, get_elem?-none, get_elem?-append_length,
  length-set, get_elem?-set_self, length-take, take-append, drop-append, elem, bytes_eq,
  bytes_eq→eq, bytes_eq_refl, All, All-mono, All-elem_self, take_all, elem-append, elem_of_get,
  not_elem_of_get, Above, IsAscending, Above-lt, IsAscending-lt, u8_mod, u32_mod, u64_mod, add32,
  sub32, mul32, mul64, Exec, ret, fault, no_fuel, ◌>>=◌, read,
}

abbrev pub dot : ℕ
dot = b'.'

unfoldable pub lower : ℕ → ℕ
lower c = if leb b'A' c && leb c b'Z' then c + 32 else c

-- `name[n++] = c`, where `name` holds the `n` bytes written so far.
unfoldable pub put : ℕ → List ℕ → ℕ → Exec (List ℕ)
put name_sz name c = if ltb (length name) name_sz then ret (name ++ c ∷ []) else fault

-- The loop that copies a label of which `n` bytes are left from `off` on.
unfoldable pub copy_label : List ℕ → ℕ → ℕ → ℕ → List ℕ → Exec (List ℕ)
copy_label pkt name_sz off zero name = ret name
copy_label pkt name_sz off (suc n) name = read (get_elem? pkt off) >>= λ c.
    put name_sz name (lower c) >>= λ name'. copy_label pkt name_sz (suc off) n name'

abbrev pub put_dot : ℕ → List ℕ → Exec (List ℕ)
put_dot name_sz name = if length name == 0 then ret name else put name_sz name dot

-- The loop over the labels; `none` is the return of -1.
unfoldable pub label_loop : List ℕ → ℕ → ℕ → ℕ → ℕ → List ℕ → Exec (Option (ℕ × List ℕ))
label_loop pkt len name_sz zero off name = no_fuel
label_loop pkt len name_sz (suc fuel) off name =
    let next = label_loop pkt len name_sz fuel in
    if leb len off
    then ret none
    else (read (get_elem? pkt off) >>= λ lab.
        if lab == 0
        then ret (some (suc off, name))
        else if not (bit_and lab 0xC0 == 0) || ltb len (suc off + lab)
        then ret none
        else if leb name_sz (length name + lab + (if length name == 0 then 0 else 1))
        then ret none
        else (put_dot name_sz name >>= λ dotted.
            copy_label pkt name_sz (suc off) lab dotted >>= λ name'. next (suc off + lab) name'))

-- The terminator `name[n] = '\0'`, and the test that qtype and qclass follow.
unfoldable pub after_name : ℕ → ℕ → Option (ℕ × List ℕ) → Exec (Option (ℕ × List ℕ))
unfolding put
after_name len name_sz none = ret none
after_name len name_sz (some (off, name)) =
    put name_sz name 0 >>= λ _. if ltb len (off + 4) then ret none else ret (some (off + 4, name))

-- The offset past the question and the name without its terminator, or `none`.
unfoldable pub parse_question : List ℕ → ℕ → ℕ → Exec (Option (ℕ × List ℕ))
parse_question pkt len name_sz =
    if ltb len 12
    then ret none
    else (read (get_elem? pkt 2) >>= λ flags.
        if not (bit_and flags 0x80 == 0)
        then ret none
        else (read (get_elem? pkt 4) >>= λ high. read (get_elem? pkt 5) >>= λ low.
            if ltb (bit_or (high * 2 ^ 8) low) 1
            then ret none
            else (label_loop pkt len name_sz (suc len) 12 [] >>= after_name len name_sz)))
