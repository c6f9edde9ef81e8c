-- ===== src/System/Address.antt =====
-- The address of the node, from the event of main/dns_sinkhole.c to the table of stats_ui.c.
use esp_hole.Base.Text.{print_decimal, decimal}
use esp_hole.Stats.Counters.{Counters, hist_buckets}
use esp_hole.Stats.Sender.{stats_start, stats_line, line_size}
use esp_hole.Generator.Page.{StatsNode, find_or_create_node}
use esp_hole.Generator.Page.Fields.{elem-none, elem-decimal}
use esp_hole.Generator.Page.Ingested.{IsReport, Reported}
use esp_hole.Generator.Page.Listener.{ingest_datagram}
use esp_hole.Generator.Page.Listener.Received.{ingest_datagram-Reported}
use esp_hole.System.{dotted_quad, on_got_ip}
use esp_hole.Base.{
  ℕ, zero, suc, ◌+◌, ◌/◌, ◌%◌, ◌≤◌, ◌<◌, ◌≡◌, refl, ap, ◌∙◌, false, ◌&&◌, some, List, [], ◌∷◌, ◌++◌,
  arith, leb, ◌==◌, length, set, take, length-append, elem, take_enough, ret,
}

print_one : (fuel n : ℕ) → n < 10 → length (print_decimal fuel n) ≤ 1
unfolding print_decimal
print_one zero n h = omega arith
print_one (suc fuel) n h = ground (arith, h)

print_two : (fuel n : ℕ) → n < 100 → length (print_decimal fuel n) ≤ 2
unfolding print_decimal
print_two zero n h = omega arith
print_two (suc fuel) n h =
    let one = print_one fuel (n / 10) (omega (arith, h)) in
    let len = length-append (print_decimal fuel (n / 10)) ((48 + n % 10) ∷ []) in
    ground (arith, one, len)

print_three : (fuel n : ℕ) → n < 1000 → length (print_decimal fuel n) ≤ 3
unfolding print_decimal
print_three zero n h = omega arith
print_three (suc fuel) n h =
    let two = print_two fuel (n / 10) (omega (arith, h)) in
    let len = length-append (print_decimal fuel (n / 10)) ((48 + n % 10) ∷ []) in
    ground (arith, two, len)

decimal-length : (n : ℕ) → n < 256 → length (decimal n) ≤ 3
unfolding decimal
decimal-length n h = print_three 20 n (omega (arith, h))

-- The address is never cut.
dotted_quad-length :
    (a b c d : ℕ) → a < 256 → b < 256 → c < 256 → d < 256 → length (dotted_quad a b c d) ≤ 15
unfolding dotted_quad
dotted_quad-length a b c d la lb lc ld =
    let e1 =
      length-append (decimal a) (46 ∷ (decimal b ++ (46 ∷ (decimal c ++ (46 ∷ decimal d))))) in
    let e2 = length-append (decimal b) (46 ∷ (decimal c ++ (46 ∷ decimal d))) in
    let e3 = length-append (decimal c) (46 ∷ decimal d) in
    omega (
      arith,
      e1,
      e2,
      e3,
      decimal-length a la,
      decimal-length b lb,
      decimal-length c lc,
      decimal-length d ld,
    )

on_got_ip-whole :
    (a b c d : ℕ) → a < 256 → b < 256 → c < 256 → d < 256 → on_got_ip a b c d ≡ dotted_quad a b c d
unfolding on_got_ip
on_got_ip-whole a b c d la lb lc ld =
    take_enough 15 (dotted_quad a b c d) (dotted_quad-length a b c d la lb lc ld)

-- It holds digits and points only.
dotted_quad-plain :
    (x a b c d : ℕ)
    → (leb 48 x && leb x 57) ≡ false
    → (46 == x) ≡ false
    → elem x (dotted_quad a b c d) ≡ false
unfolding dotted_quad
dotted_quad-plain x a b c d digit point =
    let last = elem-decimal x d digit in
    let third = elem-none x (decimal c) (46 ∷ decimal d) (elem-decimal x c digit) (rw point last) in
    let second =
      elem-none x (decimal b) (46 ∷ (decimal c ++ (46 ∷ decimal d))) (elem-decimal x b digit)
        (rw point third) in
    elem-none x (decimal a) (46 ∷ (decimal b ++ (46 ∷ (decimal c ++ (46 ∷ decimal d)))))
      (elem-decimal x a digit) (rw point second)

-- A node with the address a.b.c.d reports under exactly that address: what its sender makes of the event's
-- address, sent in one datagram, is read back by the listener for the entry of a.b.c.d, or a free one,
-- number by number; the address is never cut and never ends the tag or the line early. The line fits the
-- sender's buffer, and no number is 2 ^ 31 or more.
pub on_got_ip-Reported :
    (a b c d : ℕ) (now : ℕ → ℕ) (nodes : List StatsNode) (counts : Counters) (uptime_s i : ℕ)
    (n : StatsNode)
    → a < 256
    → b < 256
    → c < 256
    → d < 256
    → length (stats_line (dotted_quad a b c d) counts uptime_s) < line_size
    → find_or_create_node nodes (dotted_quad a b c d) (length (dotted_quad a b c d)) ≡ some (i, n)
    → length n.hist ≡ hist_buckets
    → IsReport counts uptime_s
    → (n' : StatsNode) × (ingest_datagram now nodes
          (stats_line (stats_start (on_got_ip a b c d)).node counts uptime_s)
        ≡ ret (set nodes i n'))
      × Reported (now 0) n counts uptime_s n'
unfolding stats_start
on_got_ip-Reported a b c d now nodes counts uptime_s i n la lb lc ld fits found buckets report =
    let quad : List ℕ = dotted_quad a b c d in
    let kept : take 15 (on_got_ip a b c d) ≡ quad =
      ap (take 15) (on_got_ip-whole a b c d la lb lc ld)
      ∙ take_enough 15 quad (dotted_quad-length a b c d la lb lc ld) in
    let (n', read_back, shown) =
      ingest_datagram-Reported now nodes quad counts uptime_s i n
        (dotted_quad-plain 0 a b c d refl refl) (dotted_quad-plain 10 a b c d refl refl)
        (dotted_quad-plain 32 a b c d refl refl) fits found buckets report in
    (
      n',
      ap (λ (t : List ℕ). ingest_datagram now nodes (stats_line t counts uptime_s)) kept
          ∙ read_back,
      shown,
    )
