-- ===== src/Tests/Boot.antt =====
-- The DNS node from its boot on, at concrete inputs.
use esp_hole.Base.Text.{codes, decimal}
use esp_hole.Blocklist.Device.{esp_ok, esp_fail}
use esp_hole.Blocklist.Store.{min_domains}
use esp_hole.Stats.Sender.{fields, field, stats_start, stats_line, line_size}
use esp_hole.Generator.Page.{StatsNode, same_prefix, node_loop, claimed, find_or_create_node}
use esp_hole.Generator.Page.Ingested.{Reported}
use esp_hole.Generator.Page.Listener.{no_nodes, ingest_datagram}
use esp_hole.System.{
  Power, NodeEvent, System, nvs_ok, new_version, turn, cycle, across, dotted_quad, on_got_ip,
  start_nvs, app_main,
}
use esp_hole.System.Reach.{Booted, app_main-Runs}
use esp_hole.System.Address.{on_got_ip-Reported}
use esp_hole.Tests.Fixtures.{all_open, nvs, device, recorded, arrivals, input}
use esp_hole.Tests.Firmware.{recorded-fits}
use esp_hole.Tests.Generator.{answers, answers-CountsSmall}
use esp_hole.Tests.Network.{received-IsByte}
use esp_hole.Tests.Reports.{report, report-IsReport}
use esp_hole.Base.{◌<◌, ◌≡◌, refl, true, Option, some, List, [], ◌∷◌, arith, ◌==◌, length, set, ret}

-- The watchdog runs already; everything else answers.
abbrev pub power : Power
power = record {
  nvs_init = nvs_ok;
  nvs_erase = esp_ok;
  nvs_init_again = nvs_ok;
  wdt_reconfigure = esp_fail;
  wdt_init = esp_ok;
  power_gpio = true;
  opening = all_open;
  event_group = true;
  eth = λ _. esp_ok;
  task_created = true;
  wdt_add = esp_ok;
}

-- NVS of another version is erased.
erased : start_nvs (record power { nvs_init = new_version }) ≡ some true
unfolding start_nvs
erased = refl

-- A turn whose lookups get the mutex, an update, and a turn in which the second one comes too late.
abbrev events : List NodeEvent
events =
    turn (λ h. true) input ∷ cycle answers ∷ across (λ h. true) (λ h. h == 0) input answers ∷ []

app_main-Runs_example :
    (booted : Option (System nvs)) × (app_main device nvs power
        (recorded min_domains)
        (recorded min_domains)
        arrivals
      ≡ ret booted)
    × Booted nvs device (λ _ _. device) events power arrivals booted
app_main-Runs_example =
    app_main-Runs nvs device (λ _ _. device) events power (recorded min_domains)
      (recorded min_domains) arrivals recorded-fits recorded-fits
      (received-IsByte, (answers-CountsSmall, ((received-IsByte, answers-CountsSmall), tt)))

fits : length (stats_line (dotted_quad 10 0 0 2) report 60) < line_size
unfolding stats_line fields field decimal dotted_quad
fits = omega arith

first_slot :
    find_or_create_node no_nodes (dotted_quad 10 0 0 2) (length (dotted_quad 10 0 0 2))
    ≡ some (0, claimed (codes "10.0.0.2") 8)
unfolding find_or_create_node node_loop same_prefix dotted_quad decimal
first_slot = refl

on_got_ip-Reported_example :
    (n' : StatsNode) × (ingest_datagram
        (λ i. i)
        no_nodes
        (stats_line (stats_start (on_got_ip 10 0 0 2)).node report 60)
      ≡ ret (set no_nodes 0 n'))
    × Reported 0 (claimed (codes "10.0.0.2") 8) report 60 n'
on_got_ip-Reported_example =
    on_got_ip-Reported 10 0 0 2 (λ i. i) no_nodes report 60 0 (claimed (codes "10.0.0.2") 8)
      (omega arith) (omega arith) (omega arith) (omega arith) fits first_slot refl report-IsReport
