-- ===== src/Pipeline.antt =====
-- The text side of the generator: normalisation of names, the reading of lines and the allowlist.
pub mod Normalize
pub mod Lines
pub mod Allowlist
