-- ===== src/Generate.antt =====
-- generator-node/components/blocklist_pipeline/generate.c: from domain hashes to the published blob.
-- Codec is the byte order of the blob, Blob its search and verification, Build the growing array of
-- hashes, Finish the sorting, deduplication, serialisation and self-test.
pub mod Codec
pub mod Blob
pub mod Build
pub mod Sort
pub mod Finish
