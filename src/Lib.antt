-- ===== src/Lib.antt =====
-- esp-hole: a DNS sinkhole for an ESP32 node, and a second node that generates its blocklist.
--
-- The DNS node (main/) answers UDP queries. main/dns_sinkhole.c parses a query, hashes its name and
-- the name's parents, looks them up in the blocklist of main/blocklist.c, and refuses the query,
-- replays a cached answer or forwards it. The blocklist is a sorted array of 64-bit hashes, loaded
-- from one of two flash slots and recorded in NVS. main/stats.c counts what was served.
-- The generator node (generator-node/) turns lists of names into such an array, the blob: the
-- pipeline in generator-node/components/blocklist_pipeline/ hashes, sorts, deduplicates and checks it.
-- generator-node/main/ fetches the lists, keeps the blob in flash and serves it with a manifest, which
-- main/updater.c polls: it downloads a blob that the manifest announces and commits it.
--
-- Which file models which part:
--   Base        numbers, lists, bits, and Exec: a run that returns, faults on a read or write outside
--               its buffer, or is out of fuel
--   Hash        domain_hash of main/dns_sinkhole.c and of the pipeline's hash.c
--   Blocklist   main/blocklist.c: Search is the loop of blocklist_contains, Device the interface to the
--               ESP-IDF, Store is load_slot, blocklist_init, blocklist_commit_slot and the lookup
--   Dns         main/dns_sinkhole.c: Question is parse_question, Match is is_blocked, Reply is
--               make_nxdomain and forward_upstream, Cache is dns_cache_find and dns_cache_insert,
--               Serve is the loop of dns_task and one turn of it, Serve/Replay its abstract resolver,
--               Socket is make_socket_retry
--   Stats       main/stats.c: Counters is the counting, Sender is stats_send_once and its task
--   Generate    the pipeline's generate.c: Codec is decode_le_u64 and encode_le_u64, Blob is
--               blob_contains and blocklist_verify_blob, Build is blocklist_builder_create and
--               blocklist_builder_add, Sort is cmp_u64 and the sort under it, Finish is
--               blocklist_builder_finish
--   Pipeline    the pipeline's normalize.c (Normalize) and parse.c (Lines), and the allowlist of
--               generator-node/main/allowlist.c
--   Artifact    artifact_store_load and artifact_store_save of generator-node/main/artifact_store.c
--   Generator   the generator node's program: Fetch is generator-node/main/fetch.c, Serve is
--               http_serve.c beside it, Refresh is generator_main.c, Page is stats_ui.c, which
--               receives what main/stats.c sends, Delivered joins http_serve.c to main/updater.c, Start
--               is the start of app_main, with net.c
--   Updater     main/updater.c: Manifest is parse_sha256_hex and parse_manifest, Download is
--               download_to_slot, Cycle is fetch_manifest, check_once and updater_task
--   System      app_main of main/dns_sinkhole.c, and dns_task and updater_task over the list they share:
--               Reach is what they do in any order, Address the node's address in its reports,
--               Filters the way of a generated list to the refusal of its names
--   Tests       runs on concrete inputs
--
-- Numbers are natural numbers with every wrap-around of the source written out. `size_t` has 32 bits,
-- as on the ESP32. A byte string is the list of its bytes. Static variables are fields of a state
-- that is passed on.
--
-- The loops of the tasks (dns_task, updater_task, refresh_task, stats_listener_task) run over a list of
-- what each cycle meets, of any length. The binary searches run on fuel, 33 rounds: more than an array
-- that a 32-bit index can reach needs.
-- The label loop of parse_question has one round for each byte of the datagram, the loop of is_blocked
-- one for each label, the growth loop of the builder 33 doublings. The scanners of
-- normalize.c and allowlist.c have one for each byte of the text. A printed number has at most 20 digits,
-- which serve every 64-bit number. The loop over the lines of a datagram has one round for each byte.
--
-- Code that is not in this repository is a parameter with laws: NVS, flash partitions, the heap,
-- SHA-256, cJSON, the HTTP client. What a socket or the clock gives is an argument of a turn. A mutex
-- that is not taken in time is an argument of the lookup. The swap of the list under the mutex is one
-- step, which may come between two lookups of one query.
--
-- Not modelled: what drivers and sockets are configured with, feeding the watchdog, delays, logging,
-- HTTP and what cJSON prints.
pub mod Base
pub mod Blocklist
pub mod Hash
pub mod Generate
pub mod Generator
pub mod Artifact
pub mod Updater
pub mod Pipeline
pub mod Dns
pub mod Stats
pub mod System
mod Tests
