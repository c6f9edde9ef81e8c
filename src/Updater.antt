-- ===== src/Updater.antt =====
-- The updater of main/updater.c: the manifest, the download and the cycle that joins them to the store.
pub mod Manifest
pub mod Download
pub mod Cycle
