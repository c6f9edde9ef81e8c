-- ===== src/Blocklist.antt =====
-- main/blocklist.c: the blocklist in PSRAM, its two flash slots and their records in NVS.
pub mod Search
pub mod Device
pub mod Store
