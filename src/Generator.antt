-- ===== src/Generator.antt =====
-- generator-node/main/: the generator node's own program, over the pipeline. Fetch reads the lists,
-- Serve hands the artifact out, Refresh is the cycle that joins them to the artifact store.
pub mod Fetch
pub mod Serve
pub mod Refresh
pub mod Page
pub mod Delivered
pub mod Start
